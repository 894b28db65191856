-- ===== src/Redis/Client.antt =====
-- NewClientFromConfig, GetAddr, HMYield and XReadUntilResult of redis/client.go. What the server and the
-- Redis package answer is an argument.
pub mod Fetched
pub mod Dial
use icinga_go_library.Prelude.{
  ℕ, zero, suc, ◌+◌, ℤ, pos, eqb_ℤ, ltb_ℤ, Bool, true, false, ◌&&◌, ◌||◌, not, Option, none, some,
  List, [], ◌∷◌, ◌++◌, map, Text, codes, Result, ok, err, if◌then◌else◌,
}
use icinga_go_library.Strconv.{format_int}
use icinga_go_library.Tls.{Tls, Files, TlsConfig, TlsError, make_config}
use icinga_go_library.Utils.{is_unix_addr, net_join_host_port, batch_slice_of_strings}
use icinga_go_library.Redis.{HPair, Options, Config, is_given}

-- what is set in the options of the Redis package; `pool_size` and `max_retries` are set last
pub record ClientOptions (C P : Type 0) : Type 0 where
  pub network : Text
  pub address : Text
  pub username : Text
  pub password : Text
  pub database : ℤ
  pub read_timeout : ℤ
  pub tls : Option (TlsConfig C P)
  pub pool_size : ℤ
  pub max_retries : ℤ

unfoldable pub redis_network : Text → Text
unfolding is_unix_addr
redis_network host = if is_unix_addr host then codes "unix" else codes "tcp"

unfoldable pub redis_address : Text → ℤ → Text
unfolding is_unix_addr net_join_host_port format_int
redis_address host port =
    if is_unix_addr host
    then host
    else net_join_host_port host (format_int (if eqb_ℤ port (pos 0) then pos 6379 else port))

-- `max(32, options.PoolSize)`
unfoldable pub pool_size_of : ℤ → ℤ
pool_size_of size = if ltb_ℤ (pos 32) size then size else pos 32

-- One more than a pool size, which is at least 32.
unfoldable pub retries_of : ℤ → ℤ
retries_of (pos n) = pos (n + 1)
retries_of z = z

-- `default_pool` is the pool size that redis.NewClient sets.
module _ {C P B : Type 0} (files : Files C P B) where
  unfoldable pub client_options :
      Config
      → ℤ
      → ℤ
      → ℤ
      → Result TlsError (Option (TlsConfig C P))
      → Result TlsError (ClientOptions C P)
  unfolding redis_network redis_address pool_size_of retries_of
  client_options c port database default_pool (err e) = err e
  client_options c port database default_pool (ok tls) = ok (record {
    network = redis_network c.host;
    address = redis_address c.host port;
    username = c.username;
    password = c.password;
    database = database;
    read_timeout = c.options.timeout;
    tls = tls;
    pool_size = pool_size_of default_pool;
    max_retries = retries_of (pool_size_of default_pool);
  })

  unfoldable pub new_client_from_config :
      Config → ℤ → ℤ → Tls → ℤ → Result TlsError (ClientOptions C P)
  unfolding client_options make_config
  new_client_from_config c port database t default_pool =
      client_options c port database default_pool (make_config files t c.host)

unfoldable pub has_tls : {A : Type 0} → Option A → Text
has_tls none = codes "redis"
has_tls (some t) = codes "redis+tls"

unfoldable pub get_addr : {C P : Type 0} → ClientOptions C P → Text
unfolding has_tls is_given is_unix_addr format_int
get_addr o =
    has_tls o.tls
    ++ (codes "://"
        ++ ((if is_given o.username then o.username ++ codes "@" else [])
            ++ ((if is_unix_addr o.address
                  then codes "(" ++ (o.address ++ codes ")")
                  else o.address)
                ++ (if eqb_ℤ o.database (pos 0) then [] else codes "/" ++ format_int o.database))))

-- what became of the values of a batch; a reply that is longer than its batch makes the index panic
pub data BatchEnd : Type 0 where
  batch_sent context_over index_panic reply_error : BatchEnd

pub record Sent : Type 0 where
  pub pairs : List HPair
  pub missing : List Text
  pub end : BatchEnd

unfoldable pub with_pair : Text → Text → Sent → Sent
with_pair f v s = record s { pairs = record { field = f; value = v } ∷ s.pairs }

unfoldable pub with_missing : Text → Sent → Sent
with_missing f s = record s { missing = f ∷ s.missing }

-- the loop over the values; `sends` is how many sends there are before the context ends
unfoldable pub send_values : List Text → List (Option Text) → ℕ → Sent
unfolding with_pair with_missing
send_values fields [] sends = record { pairs = []; missing = []; end = batch_sent }
send_values [] (v ∷ vs) sends = record { pairs = []; missing = []; end = index_panic }
send_values (f ∷ fields) (none ∷ vs) sends = with_missing f (send_values fields vs sends)
send_values (f ∷ fields) (some v ∷ vs) zero = record {
  pairs = [];
  missing = [];
  end = context_over;
}
send_values (f ∷ fields) (some v ∷ vs) (suc sends) = with_pair f v (send_values fields vs sends)

-- A reply of HMGET: the values with the number of sends, or an error.
pub data BatchReply : Type 0 where
  values : List (Option Text) → ℕ → BatchReply
  failed_batch : BatchReply

unfoldable pub fetch_batch : List Text → BatchReply → Sent
unfolding send_values
fetch_batch batch (values vs sends) = send_values batch vs sends
fetch_batch batch failed_batch = record { pairs = []; missing = []; end = reply_error }

-- the batches with their replies; each batch has a goroutine of its own, so that only the order of the
-- pairs of one batch is that of the channel
unfoldable pub fetch_all : (List Text → BatchReply) → List (List Text) → List Sent
unfolding fetch_batch
fetch_all reply [] = []
fetch_all reply (b ∷ bs) = fetch_batch b (reply b) ∷ fetch_all reply bs

unfoldable pub fetched : (List Text → BatchReply) → Option (List (List Text)) → Option (List Sent)
unfolding fetch_all
fetched reply none = none
fetched reply (some bs) = some (fetch_all reply bs)

-- `batches` is how many batches there are before the context ends; `none` is a panic.
unfoldable pub hmyield : Options → List Text → ℕ → (List Text → BatchReply) → Option (List Sent)
unfolding fetched batch_slice_of_strings
hmyield o fields batches reply = fetched reply (batch_slice_of_strings fields o.hmget_count batches)

-- What XREAD answers: streams; redis.Nil, which is no data; or another error.
pub data ReadAnswer (S E : Type 0) : Type 0 where
  streams : S → ReadAnswer S E
  no_data : ReadAnswer S E
  read_error : E → ReadAnswer S E

-- an answer, and whether the context is alive behind it
pub record ReadRound (S E : Type 0) : Type 0 where
  pub answer : ReadAnswer S E
  pub alive : Bool

pub data ReadResult (S E : Type 0) : Type 0 where
  result : S → ReadResult S E
  nil_error : ReadResult S E
  failed : E → ReadResult S E
  blocked : ReadResult S E

module _ {S E : Type 0} (retryable : E → Bool) where
  unfoldable pub is_tried_again : ReadRound S E → Bool
  is_tried_again r = elim r.answer [
    | streams s ↦ false
    | no_data ↦ r.alive
    | read_error e ↦ retryable e && r.alive
  ]

  unfoldable pub returned : ReadAnswer S E → ReadResult S E
  returned (streams s) = result s
  returned no_data = nil_error
  returned (read_error e) = failed e

  -- the loop, as far as the rounds are known
  unfoldable pub xread_until_result : List (ReadRound S E) → ReadResult S E
  unfolding is_tried_again returned
  xread_until_result [] = blocked
  xread_until_result (r ∷ rs) =
      let rest = xread_until_result rs in if is_tried_again r then rest else returned r.answer
