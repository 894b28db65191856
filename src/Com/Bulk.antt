-- ===== src/Com/Bulk.antt =====
-- `Bulk` and `oneBulk` of com/bulker.go: the bulker, and the short cut for chunks of one item.
use icinga_go_library.Prelude.{
  ℕ, ◌≤◌, ◌<◌, ℤ, pos, pos_part, leb_ℤ, ◌≡◌, refl, sym, ap, ◌∙◌, List, [], ◌∷◌, ◌++◌, max, concat,
  All, arith, All-imp, if◌then◌else◌, Bool-cases, inl, inr,
}
use icinga_go_library.Com.Bulker.{
  SplitPolicy, Event, item, close, timeout, cancel, running, Bulker, send, flush, receive,
  check_full, handle, run_from, run, new_bulker,
}
use icinga_go_library.Com.Bulker.Runs.{
  run_from_running, status-item, status-timeout, stopped_close, stopped_cancel,
}
use icinga_go_library.Com.Bulker.Chunks.{received}
use icinga_go_library.Com.Bulker.Sizes.{FitsChunk, IsOpen, run-FitsChunk, run-close}

-- What the two `select`s of `oneBulk` take: an item that is then delivered, an item that is
-- dropped because the context ends first, the end of the input, the end of the context.
pub data OneEvent (T : Type 0) : Type 0 where
  deliver : T → OneEvent T
  drop_item : T → OneEvent T
  close_input : OneEvent T
  end_context : OneEvent T

unfoldable pub one_bulk_from : {T : Type 0} → List (List T) → List (OneEvent T) → List (List T)
one_bulk_from sent [] = sent
one_bulk_from sent (deliver v ∷ es) = one_bulk_from (sent ++ (v ∷ []) ∷ []) es
one_bulk_from sent (drop_item v ∷ es) = sent
one_bulk_from sent (close_input ∷ es) = sent
one_bulk_from sent (end_context ∷ es) = sent

-- the chunks on the channel that `oneBulk` returns
unfoldable pub one_bulk : {T : Type 0} → List (OneEvent T) → List (List T)
unfolding one_bulk_from
one_bulk es = one_bulk_from [] es

-- what `oneBulk` sees of the same input: it has no timeout
abbrev pub without_timeouts : {T : Type 0} → List (Event T) → List (OneEvent T)
without_timeouts [] = []
without_timeouts (item v ∷ es) = deliver v ∷ without_timeouts es
without_timeouts (close ∷ es) = close_input ∷ without_timeouts es
without_timeouts (timeout ∷ es) = without_timeouts es
without_timeouts (cancel ∷ es) = end_context ∷ without_timeouts es

-- the same input with the end of the context in front of an item that is dropped
abbrev pub undropped : {T : Type 0} → List (OneEvent T) → List (OneEvent T)
undropped [] = []
undropped (deliver v ∷ os) = deliver v ∷ undropped os
undropped (drop_item v ∷ os) = end_context ∷ undropped os
undropped (close_input ∷ os) = close_input ∷ undropped os
undropped (end_context ∷ os) = end_context ∷ undropped os

-- the chunks on the channel that `Bulk` returns; `count` is Go's `int`
unfoldable pub bulk : {T S : Type 0} → SplitPolicy T S → ℤ → List (Event T) → List (List T)
unfolding one_bulk
bulk split count es =
    if leb_ℤ count (pos 1)
    then one_bulk (without_timeouts es)
    else (run split (pos_part count) es).sent

module _ {T S : Type 0} (split : SplitPolicy T S) where
  -- one item at an empty buffer, with chunks of one
  item_at_one :
      (v : T) (b : Bulker T S)
      → b.buf ≡ []
      → ((handle split 1 (item v) b).sent ≡ b.sent ++ (v ∷ []) ∷ [])
        × ((handle split 1 (item v) b).buf ≡ [])
  unfolding handle receive check_full flush send
  item_at_one v b h = elim (Bool-cases (split.call b.policy v).1) [
    | inl e ↦ rw (e, h, send) (refl, refl)
    | inr e ↦ rw (e, h) (refl, refl)
  ]

  sent-timeout :
      (b : Bulker T S)
      → b.buf ≡ []
      → ((handle split 1 timeout b).sent ≡ b.sent) × ((handle split 1 timeout b).buf ≡ [])
  unfolding handle flush send
  sent-timeout b h = rw (h, send) (refl, refl)

  sent-close : (b : Bulker T S) → b.buf ≡ [] → (handle split 1 close b).sent ≡ b.sent
  unfolding handle flush send
  sent-close b h = rw (h, send)

  run_from-eq-one :
      (es : List (Event T)) (b : Bulker T S)
      → b.status ≡ running
      → b.buf ≡ []
      → (run_from split 1 b es).sent ≡ one_bulk_from b.sent (without_timeouts es)
  unfolding one_bulk_from
  run_from-eq-one [] b r h = unfold run_from in refl
  run_from-eq-one (item v ∷ es) b r h =
      let (sent, emptied) = item_at_one v b h in
      rw (
        run_from_running split 1 b (item v) es r,
        run_from-eq-one es (handle split 1 (item v) b) (status-item split 1 v b) emptied,
        sent,
      )
  run_from-eq-one (timeout ∷ es) b r h =
      let (sent, emptied) = sent-timeout b h in
      rw (
        run_from_running split 1 b timeout es r,
        run_from-eq-one es (handle split 1 timeout b) (status-timeout split 1 b) emptied,
        sent,
      )
  run_from-eq-one (close ∷ es) b r h =
      rw (run_from_running split 1 b close es r, stopped_close) (sent-close b h)
  run_from-eq-one (cancel ∷ es) b r h = rw (run_from_running split 1 b cancel es r, stopped_cancel)

  pub one_bulk-without_timeouts :
      (es : List (Event T)) → one_bulk (without_timeouts es) ≡ (run split 1 es).sent
  unfolding one_bulk run new_bulker
  one_bulk-without_timeouts es = sym (run_from-eq-one es (new_bulker split 1) refl refl)

  one_bulk_from-undropped :
      (sent : List (List T)) (os : List (OneEvent T))
      → one_bulk_from sent os ≡ one_bulk_from sent (undropped os)
  unfolding one_bulk_from
  one_bulk_from-undropped sent [] = refl
  one_bulk_from-undropped sent (deliver v ∷ os) = one_bulk_from-undropped (sent ++ (v ∷ []) ∷ []) os
  one_bulk_from-undropped sent (drop_item v ∷ os) = refl
  one_bulk_from-undropped sent (close_input ∷ os) = refl
  one_bulk_from-undropped sent (end_context ∷ os) = refl

  -- The short cut oneBulk sends the very chunks that a bulker of size 1 sends, whatever policy the bulker
  -- has and however often its timeout fires, for each sequence of items, ends of input and cancellations;
  -- where oneBulk drops an item, since the context ends while it is being sent, the context of the bulker
  -- ends in front of that item.
  pub one_bulk-eq-run :
      (es : List (Event T)) (os : List (OneEvent T))
      → undropped os ≡ without_timeouts es
      → one_bulk os ≡ (run split 1 es).sent
  unfolding one_bulk
  one_bulk-eq-run es os h =
      one_bulk_from-undropped [] os ∙ ap (one_bulk_from []) h ∙ one_bulk-without_timeouts es

  run-FitsChunk_max :
      (count m : ℕ) (es : List (Event T))
      → 0 < count
      → count ≤ m
      → All (FitsChunk m) (run split count es).sent
  run-FitsChunk_max count m es h k =
      All-imp (FitsChunk count) (FitsChunk m) (run split count es).sent
        (λ c (some_item, fits). (some_item, omega arith)) (run-FitsChunk split count h es)

  -- For every count, also zero and the negative ones: if the input is closed and the context
  -- lives, the chunks of `Bulk` are, joined, the items of the input in order, and each chunk
  -- holds at least one item and at most `count` items, or one where `count` is below one.
  pub bulk_lem :
      (count : ℤ) (es : List (Event T))
      → All IsOpen es
      → (concat (bulk split count (es ++ close ∷ [])) ≡ received es)
        × All (FitsChunk (max 1 (pos_part count))) (bulk split count (es ++ close ∷ []))
  unfolding bulk
  bulk_lem count es h = elim (Bool-cases (leb_ℤ count (pos 1))) [
    | inl e ↦
        rw (e, one_bulk-without_timeouts)
          (
            (run-close split 1 es h).1,
            run-FitsChunk_max 1 (max 1 (pos_part count)) (es ++ close ∷ []) (omega arith)
                (omega arith),
          )
    | inr e ↦ rw e (
      (run-close split (pos_part count) es h).1,
      run-FitsChunk_max (pos_part count) (max 1 (pos_part count)) (es ++ close ∷ []) (ground arith)
          (omega arith),
    )
  ]
