-- ===== src/Redis.antt =====
-- redis/config.go, redis/streams.go and `HYield` of redis/client.go. What the server replies is an argument.
pub mod Pairs
pub mod Client
use icinga_go_library.Prelude.{
  ℕ, zero, suc, Bool, true, false, ◌&&◌, not, ℤ, pos, leb_ℤ, ltb_ℤ, eqb_ℤ, Option, none, some, List,
  [], ◌∷◌, ◌++◌, map, Text, Result, ok, err, if◌then◌else◌,
}
use icinga_go_library.Database.SplitOnDupId.{contains}

-- Durations are int64 nanoseconds.
pub record Options : Type 0 where
  pub block_timeout : ℤ
  pub hmget_count : ℤ
  pub hscan_count : ℤ
  pub max_hmget_connections : ℤ
  pub timeout : ℤ
  pub xread_count : ℤ

pub data ConfigError : Type 0 where
  block_timeout_not_positive hmget_count_small hscan_count_small : ConfigError
  max_hmget_connections_small timeout_zero xread_count_small : ConfigError
  host_missing password_missing : ConfigError

unfoldable pub validate_options : Options → Result ConfigError (Unit {0})
validate_options o =
    if leb_ℤ o.block_timeout (pos 0)
    then err block_timeout_not_positive
    else if ltb_ℤ o.hmget_count (pos 1)
    then err hmget_count_small
    else if ltb_ℤ o.hscan_count (pos 1)
    then err hscan_count_small
    else if ltb_ℤ o.max_hmget_connections (pos 1)
    then err max_hmget_connections_small
    else if eqb_ℤ o.timeout (pos 0)
    then err timeout_zero
    else if ltb_ℤ o.xread_count (pos 1)
    then err xread_count_small
    else ok tt

pub record Config : Type 0 where
  pub host : Text
  pub username : Text
  pub password : Text
  pub options : Options

unfoldable pub is_given : Text → Bool
is_given [] = false
is_given (c ∷ s) = true

unfoldable pub validate : Config → Result ConfigError (Unit {0})
unfolding validate_options is_given
validate c =
    if not (is_given c.host)
    then err host_missing
    else if is_given c.username && not (is_given c.password)
    then err password_missing
    else validate_options c.options

-- `Streams.Option`: the keys in the order of the iteration, then their ids
unfoldable pub option : List (Text × Text) → List Text
option s = map (λ p. p.0) s ++ map (λ p. p.1) s

pub record HPair : Type 0 where
  pub field : Text
  pub value : Text

-- A reply of HSCAN: a page, with whether the cursor is not yet 0 again, or an error. With a page comes how
-- many sends of it can be made before the context ends.
pub data Reply : Type 0 where
  page : List Text → Bool → ℕ → Reply
  failed_reply : Reply

-- The goroutine of `HYield`: it waits for a reply, has returned nil, the error of a reply or that of the
-- context, or has panicked on a page that ends with a field.
pub data Progress : Type 0 where
  scanning complete reply_error context_over index_panic : Progress

-- `seen` is the keys of the map, `sent` what the channel has taken
pub record Scan : Type 0 where
  pub seen : List Text
  pub sent : List HPair
  pub progress : Progress

unfoldable pub new_scan : Scan
new_scan = record { seen = []; sent = []; progress = scanning }

-- the loop over a page; where it returns or panics, the map is not looked at any more
unfoldable pub scan_page : ℕ → List Text → Scan → Scan
unfolding contains
scan_page n [] s = s
scan_page n (f ∷ []) s = if contains f s.seen then s else record s { progress = index_panic }
scan_page zero (f ∷ v ∷ rest) s =
    let skipped = scan_page zero rest s in
    if contains f s.seen then skipped else record s { progress = context_over }
scan_page (suc n) (f ∷ v ∷ rest) s =
    let skipped = scan_page (suc n) rest s in
    let pair : HPair = record { field = f; value = v } in
    let sent =
      scan_page n rest (record s { seen = s.seen ++ f ∷ []; sent = s.sent ++ pair ∷ [] }) in
    if contains f s.seen then skipped else sent

-- the end of a round: the cursor is looked at, unless the page panicked
unfoldable pub end_of_page : Bool → Progress → Scan → Scan
end_of_page more scanning s = if more then s else record s { progress = complete }
end_of_page more complete s = s
end_of_page more reply_error s = s
end_of_page more context_over s = s
end_of_page more index_panic s = s

unfoldable pub take_reply : Reply → Scan → Scan
unfolding scan_page end_of_page
take_reply failed_reply s = record s { progress = reply_error }
take_reply (page l more sends) s = let s' = scan_page sends l s in end_of_page more s'.progress s'

-- the replies, as far as the goroutine asks for them
unfoldable pub hyield_from : List Reply → Progress → Scan → Scan
unfolding take_reply
hyield_from [] progress s = s
hyield_from (r ∷ rs) scanning s = let s' = take_reply r s in hyield_from rs s'.progress s'
hyield_from (r ∷ rs) complete s = s
hyield_from (r ∷ rs) reply_error s = s
hyield_from (r ∷ rs) context_over s = s
hyield_from (r ∷ rs) index_panic s = s

unfoldable pub hyield : List Reply → Scan
unfolding hyield_from new_scan
hyield rs = hyield_from rs scanning new_scan
