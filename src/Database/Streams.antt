-- ===== src/Database/Streams.antt =====
-- `BatchSizeByPlaceholders` and the streaming operations of database/db.go, up to the chunks that they
-- execute: the first entity makes the statement, its placeholders make the size of the chunks.
pub mod Chunks
use icinga_go_library.Prelude.{
  ℕ, zero, suc, ◌+◌, ◌*◌, ◌/◌, ◌≤◌, ◌<◌, ◌-◌, max, ℤ, pos, pos_part, leb_ℤ, Bool, true, false, ◌≡◌,
  refl, sym, ◌∙◌, ◌≢◌, List, [], ◌∷◌, ◌++◌, Option, none, some, Option-cases, Text, ltb,
  if◌then◌else◌, concat, length, All, All-imp, arith, Bool-cases, inl, inr, map,
}
use icinga_go_library.Com.Bulker.{SplitPolicy, Event, item, close, never_split, run}
use icinga_go_library.Com.Bulker.Chunks.{received}
use icinga_go_library.Com.Bulker.Sizes.{FitsChunk, IsOpen}
use icinga_go_library.Com.Bulk.{bulk, bulk_lem, one_bulk, one_bulk-without_timeouts}
use icinga_go_library.Com.CopyFirst.{
  First, CopyError, Copied, copied, failed, copy_first, Forwarder, receive_first,
}
use icinga_go_library.Database.Config.{Options}
use icinga_go_library.Database.SplitOnDupId.{split_on_dup_id, Distinct, run-Distinct}
use icinga_go_library.Database.Statements.{
  Driver, Subject, build_insert_stmt, build_insert_ignore_stmt, build_upsert_stmt,
  build_update_stmt, build_delete_stmt,
}

-- `if s > 0 { return s }; return 1`
unfoldable pub at_least_one : ℕ → ℕ
at_least_one s = if ltb 0 s then s else 1

-- None where the code divides by zero. Go's division truncates, so a negative limit gives no positive
-- quotient.
unfoldable pub batch_size_by_placeholders : Options → ℕ → Option ℕ
unfolding at_least_one
batch_size_by_placeholders o zero = none
batch_size_by_placeholders o (suc n) =
    some (at_least_one (pos_part o.max_placeholders_per_statement / suc n))

-- what is given to `NamedBulkExec` and its siblings, with the chunks that `Bulk` makes for them
pub record Job (T : Type 0) : Type 0 where
  pub table : Text
  pub statement : Text
  pub chunks : List (List T)

pub data Streamed (T : Type 0) : Type 0 where
  started : Job T → Streamed T
  copy_failed : CopyError → Streamed T
  panics : Streamed T

module _ {T : Type 0} (o : Options) (driver : Driver) (subject : T → Subject) (id : T → Text) where
  -- `BatchSizeByPlaceholders` of the statement, and the chunks of that size
  unfoldable pub in_batches :
      {S : Type 0} → SplitPolicy T S → Text → Text × ℕ → List (Event T) → Streamed T
  unfolding batch_size_by_placeholders bulk
  in_batches split table (stmt, n) es = elim (batch_size_by_placeholders o n) [
    | none ↦ panics
    | some size ↦
        started (record { table = table; statement = stmt; chunks = bulk split (pos size) es })
  ]

  -- The first entity of the stream is `items`' first; `es` is what the forwarded channel gives.
  unfoldable pub create_streamed : First → List T → List (Event T) → Streamed T
  unfolding copy_first in_batches build_insert_stmt
  create_streamed first items es = elim (copy_first first items) [
    | failed e ↦ copy_failed e
    | copied v f ↦ in_batches never_split (subject v).table (build_insert_stmt (subject v)) es
  ]

  unfoldable pub create_ignore_streamed : First → List T → List (Event T) → Streamed T
  unfolding copy_first in_batches build_insert_ignore_stmt
  create_ignore_streamed first items es = elim (copy_first first items) [
    | failed e ↦ copy_failed e
    | copied v f ↦ elim (build_insert_ignore_stmt driver (subject v)) [
      | none ↦ panics
      | some stmt ↦ in_batches (split_on_dup_id id) (subject v).table stmt es
    ]
  ]

  unfoldable pub upsert_streamed : First → List T → List (Event T) → Streamed T
  unfolding copy_first in_batches build_upsert_stmt
  upsert_streamed first items es = elim (copy_first first items) [
    | failed e ↦ copy_failed e
    | copied v f ↦
        in_batches (split_on_dup_id id) (subject v).table (build_upsert_stmt driver (subject v)) es
  ]

  unfoldable pub update_streamed : First → List T → List (Event T) → Streamed T
  unfolding copy_first build_update_stmt bulk
  update_streamed first items es = elim (copy_first first items) [
    | failed e ↦ copy_failed e
    | copied v f ↦ started (record {
      table = (subject v).table;
      statement = (build_update_stmt (subject v)).0;
      chunks = bulk never_split o.max_rows_per_transaction es;
    })
  ]

-- The ids are values of any type here; the entity gives the table.
unfoldable pub delete_streamed : {I : Type 0} → Options → Subject → List (Event I) → Job I
unfolding build_delete_stmt bulk
delete_streamed o s es = record {
  table = s.table;
  statement = build_delete_stmt s;
  chunks = bulk never_split o.max_placeholders_per_statement es;
}

-- the events of the closed channel that `Delete` fills
abbrev pub all_items : {I : Type 0} → List I → List (Event I)
all_items [] = []
all_items (v ∷ vs) = item v ∷ all_items vs

unfoldable pub delete : {I : Type 0} → Options → Subject → List I → Job I
unfolding delete_streamed
delete o s ids = delete_streamed o s (all_items ids ++ close ∷ [])
