-- ===== src/Examples/Database.antt =====
-- Inputs for database: rows of numbers, written to a table of two columns, with their number modulo 3 as
-- the id.
use icinga_go_library.Prelude.{
  ℕ, ◌+◌, ◌%◌, Bool, true, false, ◌≡◌, ◌⊎◌, refl, pos, List, [], ◌∷◌, ◌++◌, some, none, concat, All,
  arith, ◌==◌, if◌then◌else◌, Text, codes,
}
use icinga_go_library.Com.Bulker.{Event, item, close, timeout, run}
use icinga_go_library.Com.Bulker.Sizes.{IsOpen}
use icinga_go_library.Com.CopyFirst.{receive_first}
use icinga_go_library.Retry.{Settings, slept}
use icinga_go_library.Database.Config.{Options}
use icinga_go_library.Database.SplitOnDupId.{split_on_dup_id, HasDistinctIds, run-Distinct}
use icinga_go_library.Database.Statements.{postgresql, Subject, build_upsert_stmt}
use icinga_go_library.Database.Streams.{started, upsert_streamed}
use icinga_go_library.Database.Streams.Chunks.{FitsStatement, upsert_streamed_lem}
use icinga_go_library.Database.Exec
use icinga_go_library.Database.Exec.{ExecError, exec_chunk, exec_chunk_effects, counted_rows}
use icinga_go_library.Database.Exec.Retried.{exec_chunk-counts_once}
use icinga_go_library.Database.Exec.Transactions
use icinga_go_library.Database.Exec.Transactions.{
  Call, TxError, begin, prepare, commit, rollback, count, execs, counted_in, AllSucceed, EndsBy,
  exec_chunk_tx, exec_tx, exec_chunk_tx-atomic, exec_tx_lem,
}

abbrev options : Options
options = record {
  max_connections = pos 16;
  max_connections_per_table = pos 8;
  max_placeholders_per_statement = pos 5;
  max_rows_per_transaction = pos 8192;
  wsrep_sync_wait = pos 7;
}

-- each row goes to the same table
abbrev host_table : ℕ → Subject
host_table n = record {
  table = codes "host";
  columns = codes "id" ∷ codes "name" ∷ [];
  upsert_columns = some (codes "name" ∷ []);
  constraint = none;
  scope_columns = none;
}

abbrev id_of : ℕ → Text
id_of n = (48 + n % 3) ∷ []

abbrev rows : List (Event ℕ)
rows = item 1 ∷ item 2 ∷ item 4 ∷ timeout ∷ item 5 ∷ []

abbrev rows-IsOpen : All IsOpen rows
rows-IsOpen = (tt, (tt, (tt, (tt, (tt, tt)))))

abbrev settings : Settings
settings = record { timeout = pos 300; on_retryable_error = true; on_success = false }

-- the database refuses once, then accepts
abbrev refused : Exec.Answers ℕ
refused = record { db = some 1205; callbacks = []; context = none; expired = false; wake = slept }

abbrev accepted : Exec.Answers ℕ
accepted = record {
  db = none;
  callbacks = none ∷ none ∷ [];
  context = none;
  expired = false;
  wake = slept;
}

abbrev retry_all : ExecError ℕ → Bool
retry_all e = true

-- the third row of a chunk cannot be written
abbrev third_fails : Transactions.Answers ℕ
third_fails = record {
  begin = none;
  prepare = none;
  exec = λ i. if i == 2 then some 1062 else none;
  commit = none;
}

abbrev three_rows : List ℕ
three_rows = 4 ∷ 2 ∷ 4 ∷ []

abbrev two_rows : List ℕ
two_rows = 1 ∷ 2 ∷ []

upsert_streamed_lem_example :
    (chunks : List (List ℕ)) × (upsert_streamed options postgresql host_table id_of receive_first
        (1 ∷ 2 ∷ 4 ∷ 5 ∷ [])
        (rows ++ close ∷ [])
      ≡ started (record {
        table = codes "host";
        statement = (build_upsert_stmt postgresql (host_table 1)).0;
        chunks = chunks;
      }))
    × (concat chunks ≡ 1 ∷ 2 ∷ 4 ∷ 5 ∷ [])
    × All (FitsStatement options (build_upsert_stmt postgresql (host_table 1)).1) chunks
    × All (HasDistinctIds id_of) chunks
upsert_streamed_lem_example =
    upsert_streamed_lem options postgresql host_table id_of 1 (2 ∷ 4 ∷ 5 ∷ []) rows rows-IsOpen refl
      (unfold build_upsert_stmt in omega arith) (unfold build_upsert_stmt in omega arith)

run-Distinct_example :
    All (HasDistinctIds id_of) (run (split_on_dup_id id_of) 3 (rows ++ close ∷ [])).sent
run-Distinct_example = run-Distinct id_of 3 (rows ++ close ∷ [])

exec_chunk_tx-atomic_example :
    (((exec_chunk_tx third_fails three_rows).1 ≡ none)
      × AllSucceed third_fails.exec 0 three_rows
      × ((exec_chunk_tx third_fails three_rows).0
          ≡ begin ∷ prepare ∷ ((execs three_rows ++ commit ∷ count 3 ∷ []) ++ rollback ∷ [])))
    ⊎ ((e : TxError ℕ) × ((exec_chunk_tx third_fails three_rows).1 ≡ some e)
        × (counted_in (exec_chunk_tx third_fails three_rows).0 ≡ 0)
        × EndsBy third_fails three_rows e (exec_chunk_tx third_fails three_rows).0)
exec_chunk_tx-atomic_example = exec_chunk_tx-atomic third_fails three_rows

exec_chunk-counts_once_example :
    counted_rows (exec_chunk_effects two_rows retry_all (λ n. n) settings (refused ∷ accepted ∷ []))
    ≡ 2
exec_chunk-counts_once_example =
    exec_chunk-counts_once two_rows retry_all (λ n. n) settings (refused ∷ accepted ∷ [])
      (tt, ((refl, (refl, tt)), tt)) (unfold exec_chunk in refl)
