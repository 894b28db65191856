-- ===== src/Examples/Connections.antt =====
-- Inputs for the connections of the database and for Redis.
use icinga_go_library.Prelude.{
  ℕ, pos, negsuc, true, false, Option, none, some, List, [], ◌∷◌, ◌++◌, map, Text, codes, text_eq,
  Result, ok, err, length, ◌≡◌, ◌≢◌, ◌⊎◌, refl, All, ◌≤◌, ◌&&◌, ◌+◌, if◌then◌else◌,
}
use icinga_go_library.Retry.{slept, returned_nil}
use icinga_go_library.Tls.{Files, version_tls12}
use icinga_go_library.Database.Connector.{
  Answer, opened, init_called, closed, connect, connect_acts, connect_conn,
}
use icinga_go_library.Database.Connector.Clean.{IsHandedOut, still_open, connect_lem}
use icinga_go_library.Database.Open.{FullConfig, Db, mysql, debug, new_db_from_config}
use icinga_go_library.Database.Open.Secured.{UsesTls, new_db_from_config-UsesTls}
use icinga_go_library.Database.YieldAll.{
  yield_all, returned_nil as yielded, cant_store, context_ended, yield_all_lem,
}
use icinga_go_library.Redis as Redis
use icinga_go_library.Redis.Client.{Sent, batch_sent, hmyield}
use icinga_go_library.Redis.Client.Fetched.{
  answers, pairs_of, missing_of, present, absent, hmyield_lem,
}

abbrev answer : Option ℕ → Option ℕ → Answer ℕ
answer dial init = record {
  dial = dial;
  init = init;
  context = none;
  expired = false;
  wake = slept;
}

-- a refused connection, one that cannot be initialised, and one that can
abbrev attempts : List (Answer ℕ)
attempts = answer (some 1) none ∷ answer none (some 2) ∷ answer none none ∷ []

acts :
    connect_acts true (λ e. true) (λ n. n) attempts
    ≡ opened 2 ∷ init_called 2 ∷ closed 2 ∷ opened 3 ∷ init_called 3 ∷ []
unfolding connect_acts
acts = refl

attempts_end : (connect true (λ e. true) (λ n. n) attempts).result ≡ returned_nil
unfolding connect
attempts_end = refl

connect_lem_example :
    (((connect true (λ e. true) (λ n. n) attempts).result ≡ returned_nil)
      × IsHandedOut true
          (connect_acts true (λ e. true) (λ n. n) attempts)
          (connect_conn true (λ e. true) (λ n. n) attempts))
    ⊎ (((connect true (λ e. true) (λ n. n) attempts).result ≢ returned_nil)
        × (still_open [] (connect_acts true (λ e. true) (λ n. n) attempts) ≡ []))
connect_lem_example = connect_lem true (λ e. true) (λ n. n) attempts (λ h. cc attempts_end)

abbrev files : Files ℕ ℕ ℕ
files = record {
  load_pair = λ cert key.
      if text_eq cert (codes "me.pem") && text_eq key (codes "me.key") then some 7 else none;
  read_file = λ path. if text_eq path (codes "ca.pem") then some 1 else none;
  parse_pool = λ raw. some (raw + 1);
}

abbrev config : FullConfig
config = record {
  config = record {
    type = codes "mysql";
    host = codes "db";
    database = codes "icinga";
    user = codes "me";
    options = record {
      max_connections = negsuc 0;
      max_connections_per_table = pos 8;
      max_placeholders_per_statement = pos 8192;
      max_rows_per_transaction = pos 8192;
      wsrep_sync_wait = pos 7;
    };
  };
  port = pos 0;
  password = codes "secret";
  tls = record {
    enable = true;
    cert = codes "me.pem";
    key = codes "me.key";
    ca = codes "ca.pem";
    insecure = false;
  };
}

abbrev database : Db ℕ ℕ
database = record {
  driver = mysql (record {
    user = codes "me";
    password = codes "secret";
    network = codes "tcp";
    address = codes "db:3306";
    database = codes "icinga";
    logger = debug;
    timeout = pos 60_000_000_000;
    params = (codes "sql_mode", codes "'TRADITIONAL,ANSI_QUOTES'") ∷ [];
    tls = some (record {
      min_version = version_tls12;
      certificates = 7 ∷ [];
      insecure_skip_verify = false;
      root_cas = some 2;
      server_name = codes "db";
    });
  });
  max_idle = pos 0;
  max_open = negsuc 0;
  addr = codes "mysql+tls://me@db:3306/icinga";
  options = config.config.options;
}

opened_database : new_db_from_config {E = ℕ} files (λ d. none) config ≡ ok database
unfolding new_db_from_config text_eq
opened_database = refl

new_db_from_config-UsesTls_example : UsesTls files database.driver config
new_db_from_config-UsesTls_example =
    new_db_from_config-UsesTls files (λ d. none) config database refl opened_database

abbrev scanned : List (Result ℕ ℕ)
scanned = ok 7 ∷ ok 8 ∷ err 4 ∷ ok 9 ∷ []

yield_all_lem_example :
    let y = yield_all 5 (ok (record { scanned = scanned; error = some 3 })) in
    (yield_all 5 (ok (record { scanned = scanned; error = none })) ≡ y)
    × (length y.entities ≤ 5)
    × ((rest : List (Result ℕ ℕ)) × (scanned ≡ map ok y.entities ++ rest)
        × ((y.result ≡ yielded) × (rest ≡ [])
            ⊎ ((e : ℕ) × (later : List (Result ℕ ℕ)) × (y.result ≡ cant_store e)
                × (rest ≡ err e ∷ later))
            ⊎ (y.result ≡ context_ended) × (length y.entities ≡ 5)))
yield_all_lem_example = yield_all_lem 5 scanned (some 3) none

abbrev hash : Text → Option Text
hash [] = none
hash (c ∷ s) = some s

abbrev options : Redis.Options
options = record {
  block_timeout = pos 1;
  hmget_count = pos 2;
  hscan_count = pos 4096;
  max_hmget_connections = pos 8;
  timeout = pos 30;
  xread_count = pos 4096;
}

abbrev fields : List Text
fields = codes "ax" ∷ [] ∷ codes "by" ∷ []

hmyield_lem_example :
    (sent : List Sent) × (hmyield options fields (length fields) (answers hash) ≡ some sent)
    × (pairs_of sent ≡ present hash fields)
    × (missing_of sent ≡ absent hash fields)
    × All (λ s. s.end ≡ batch_sent) sent
hmyield_lem_example = hmyield_lem hash options 1 fields refl
