-- ===== src/Database/Streams/Chunks.antt =====
-- The chunks that the streaming operations of database/db.go execute: their placeholders and their ids.
use icinga_go_library.Prelude.{
  ℕ, zero, suc, ◌*◌, ◌/◌, ◌≤◌, ◌<◌, max, pos, pos_part, leb_ℤ, true, ◌≡◌, refl, sym, ◌∙◌, ◌↔◌,
  subst, ap, List, [], ◌∷◌, ◌++◌, some, Text, ltb, if◌then◌else◌, concat, length, All, All-imp,
  arith, Bool-cases, inl, inr,
}
use native.Mathlib.Nat.{le-div_iff_mul-le}
use icinga_go_library.Com.Bulker.{SplitPolicy, Event, close, never_split}
use icinga_go_library.Com.Bulker.Chunks.{received}
use icinga_go_library.Com.Bulker.Sizes.{FitsChunk, IsOpen}
use icinga_go_library.Com.Bulk.{bulk, bulk_lem, one_bulk-without_timeouts}
use icinga_go_library.Com.CopyFirst.{copy_first, receive_first}
use icinga_go_library.Database.Config.{Options}
use icinga_go_library.Database.SplitOnDupId.{split_on_dup_id, HasDistinctIds, run-Distinct}
use icinga_go_library.Database.Statements.{Driver, Subject, build_insert_stmt, build_upsert_stmt}
use icinga_go_library.Database.Streams.{
  at_least_one, batch_size_by_placeholders, started, in_batches, create_streamed, upsert_streamed,
  delete_streamed, all_items, delete,
}

-- The limit of the options, as a number.
abbrev pub limit : Options → ℕ
limit o = pos_part o.max_placeholders_per_statement

-- Where a row with placeholders fits into a statement, `BatchSizeByPlaceholders` returns a size
-- of at least 1 that is the largest number of rows that fit: a number of rows is at most the size
-- exactly if its placeholders are at most the limit.
pub batch_size_by_placeholders_lem :
    (o : Options) (n : ℕ)
    → 0 < n
    → n ≤ limit o
    → (size : ℕ) × (batch_size_by_placeholders o n ≡ some size)
      × (1 ≤ size)
      × ((k : ℕ) → (k ≤ size) ↔ (k * n ≤ limit o))
unfolding batch_size_by_placeholders at_least_one
batch_size_by_placeholders_lem o zero p h = absurd (omega arith)
batch_size_by_placeholders_lem o (suc n) p h =
    let one_fits : 1 ≤ limit o / suc n = (le-div_iff_mul-le p).1 (omega arith) in
    let counted : ltb 0 (limit o / suc n) ≡ true = ground arith in
    (limit o / suc n, rw counted refl, one_fits, λ k. le-div_iff_mul-le p)

-- what a chunk of rows with `n` placeholders each must keep to
abbrev pub FitsStatement : {T : Type 0} → Options → ℕ → List T → Type 0
FitsStatement o n c = (0 < length c) × (length c * n ≤ limit o)

module _ {T S : Type 0} (split : SplitPolicy T S) (o : Options) (driver : Driver)
    (subject : T → Subject) (id : T → Text) where
  in_batches_lem :
      (table stmt : Text) (n : ℕ) (es : List (Event T))
      → All IsOpen es
      → 0 < n
      → n ≤ limit o
      → (chunks : List (List T)) × (in_batches o driver subject id split table
            (stmt, n)
            (es ++ close ∷ [])
          ≡ started (record { table = table; statement = stmt; chunks = chunks }))
        × (concat chunks ≡ received es)
        × All (FitsStatement o n) chunks
        × ((size : ℕ) × (chunks ≡ bulk split (pos size) (es ++ close ∷ [])))
  unfolding in_batches
  in_batches_lem table stmt n es open_input p h =
      let (size, found, positive, fits) = batch_size_by_placeholders_lem o n p h in
      let (whole, sized) = bulk_lem split (pos size) es open_input in
      (
        bulk split (pos size) (es ++ close ∷ []),
        rw (in_batches, found) refl,
        whole,
        All-imp (FitsChunk (max 1 size)) (FitsStatement o n)
            (bulk split (pos size) (es ++ close ∷ []))
            (λ c (some_row, small). (some_row, (fits (length c)).0 (omega arith))) sized,
        (size, refl),
      )

-- bulk of a policy that splits on duplicate ids
bulk-Distinct :
    {T : Type 0} (id : T → Text) (size : ℕ) (es : List (Event T))
    → All (HasDistinctIds id) (bulk (split_on_dup_id id) (pos size) es)
unfolding bulk
bulk-Distinct id size es = elim (Bool-cases (leb_ℤ (pos size) (pos 1))) [
  | inl e ↦ rw (e, one_bulk-without_timeouts (split_on_dup_id id)) (run-Distinct id 1 es)
  | inr e ↦ rw (e, if◌then◌else◌) (run-Distinct id size es)
]

module _ {T : Type 0} (o : Options) (driver : Driver) (subject : T → Subject) (id : T → Text) where
  -- `CreateStreamed` on a stream of the entities `v ∷ vs`, which the forwarded channel gives by the events
  -- `es`, with any timeouts in between, before it is closed; the insert statement of the first entity has
  -- placeholders, and no more than the options allow. Then that statement is executed on the table of the
  -- first entity, all entities of the stream are in the chunks, in order, no chunk is empty, and no chunk
  -- has more placeholders than the options allow.
  pub create_streamed_lem :
      (v : T) (vs : List T) (es : List (Event T))
      → All IsOpen es
      → received es ≡ v ∷ vs
      → 0 < (build_insert_stmt (subject v)).1
      → (build_insert_stmt (subject v)).1 ≤ limit o
      → (chunks : List (List T)) × (create_streamed o driver subject id receive_first
            (v ∷ vs)
            (es ++ close ∷ [])
          ≡ started (record {
            table = (subject v).table;
            statement = (build_insert_stmt (subject v)).0;
            chunks = chunks;
          }))
        × (concat chunks ≡ v ∷ vs)
        × All (FitsStatement o (build_insert_stmt (subject v)).1) chunks
  unfolding create_streamed copy_first
  create_streamed_lem v vs es open_input items p h =
      let (stmt, n) = build_insert_stmt (subject v) in
      let (chunks, made, whole, fits, size) =
        in_batches_lem never_split o driver subject id (subject v).table stmt n es open_input p h in
      (chunks, made, whole ∙ items, fits)

  -- `UpsertStreamed` on a stream of the entities `v ∷ vs`, which the forwarded channel gives by the events
  -- `es`, with any timeouts in between, before it is closed; the upsert statement of the first entity has
  -- placeholders, and no more than the options allow. Then that statement is executed on the table of the
  -- first entity, all entities of the stream are in the chunks, in order, no chunk is empty, no chunk has
  -- more placeholders than the options allow, and no chunk holds an id twice.
  pub upsert_streamed_lem :
      (v : T) (vs : List T) (es : List (Event T))
      → All IsOpen es
      → received es ≡ v ∷ vs
      → 0 < (build_upsert_stmt driver (subject v)).1
      → (build_upsert_stmt driver (subject v)).1 ≤ limit o
      → (chunks : List (List T)) × (upsert_streamed o driver subject id receive_first
            (v ∷ vs)
            (es ++ close ∷ [])
          ≡ started (record {
            table = (subject v).table;
            statement = (build_upsert_stmt driver (subject v)).0;
            chunks = chunks;
          }))
        × (concat chunks ≡ v ∷ vs)
        × All (FitsStatement o (build_upsert_stmt driver (subject v)).1) chunks
        × All (HasDistinctIds id) chunks
  unfolding upsert_streamed copy_first
  upsert_streamed_lem v vs es open_input items p h =
      let (stmt, n) = build_upsert_stmt driver (subject v) in
      let (chunks, made, whole, fits, (size, same)) =
        in_batches_lem (split_on_dup_id id) o driver subject id (subject v).table stmt n es
          open_input p h in
      (
        chunks,
        made,
        whole ∙ items,
        fits,
        subst (All (HasDistinctIds id)) (sym same) (bulk-Distinct id size (es ++ close ∷ [])),
      )

received-all_items : {I : Type 0} (ids : List I) → received (all_items ids) ≡ ids
received-all_items [] = refl
received-all_items (v ∷ vs) = ap (λ l. v ∷ l) (received-all_items vs)

all_items-IsOpen : {I : Type 0} (ids : List I) → All IsOpen (all_items ids)
all_items-IsOpen [] = tt
all_items-IsOpen (v ∷ vs) = (tt, all_items-IsOpen vs)

-- `Delete` executes chunks that are, joined, the given ids in their order, none of them empty, and of at
-- most as many ids as a statement may have placeholders, or one where the limit is below one.
pub delete_lem :
    {I : Type 0} (o : Options) (s : Subject) (ids : List I)
    → (concat (delete o s ids).chunks ≡ ids)
      × All (FitsChunk (max 1 (limit o))) (delete o s ids).chunks
unfolding delete delete_streamed
delete_lem o s ids =
    let (whole, sized) =
      bulk_lem never_split o.max_placeholders_per_statement (all_items ids)
        (all_items-IsOpen ids) in
    (whole ∙ received-all_items ids, sized)
