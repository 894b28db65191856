-- ===== src/Com/Bulker/Sizes.antt =====
-- The size of the chunks of com/bulker.go, and that the goroutine ends with its input.
use icinga_go_library.Prelude.{
  ℕ, ◌≤◌, ◌<◌, ◌≡◌, refl, ap, ◌∙◌, List, [], ◌∷◌, ◌++◌, append-nil, length, length-append, concat,
  All, All-snoc, arith, ltb, if◌then◌else◌, Bool-cases, ltb→lt, inl, inr,
}
use icinga_go_library.Com.Bulker.{
  SplitPolicy, Event, item, close, timeout, cancel, Status, running, finished, Bulker, send, flush,
  receive, check_full, handle, run_from, run, new_bulker,
}
use icinga_go_library.Com.Bulker.Runs.{
  run_from_induction, run_from_running, status-item, status-timeout, stopped_close,
}
use icinga_go_library.Com.Bulker.Chunks.{received, content, content-run}

abbrev pub FitsChunk {ℓ} : {A : Type ℓ} → ℕ → List A → Type 0
FitsChunk count c = (0 < length c) × (length c ≤ count)

module _ {T : Type 0} (count : ℕ) where
  send-FitsChunk :
      (buf : List T) (sent : List (List T))
      → All (FitsChunk count) sent
      → length buf ≤ count
      → All (FitsChunk count) (send buf sent)
  unfolding send
  send-FitsChunk [] sent h k = h
  send-FitsChunk (v ∷ buf) sent h k = All-snoc (FitsChunk count) sent (v ∷ buf) h (omega arith, k)

module _ {T S : Type 0} (split : SplitPolicy T S) (count : ℕ) (positive : 0 < count) where
  record IsSized (b : Bulker T S) : Type 0 where
    chunks : All (FitsChunk count) b.sent
    room : length b.buf < count

  flush-IsSized :
      (st : Status) (b : Bulker T S)
      → All (FitsChunk count) b.sent
      → length b.buf ≤ count
      → IsSized (flush split count st b)
  unfolding flush
  flush-IsSized st b h k = record {
    chunks = send-FitsChunk count b.buf b.sent h k;
    room = positive;
  }

  check_full-IsSized :
      (b : Bulker T S)
      → All (FitsChunk count) b.sent
      → length b.buf ≤ count
      → IsSized (check_full split count b)
  unfolding check_full
  check_full-IsSized b h k = elim (Bool-cases (ltb (length b.buf) count)) [
    | inl e ↦ rw e (record { chunks = h; room = ltb→lt _ _ e })
    | inr e ↦ rw e (flush-IsSized running b h k)
  ]

  receive_fits :
      (v : T) (b : Bulker T S)
      → IsSized b
      → All (FitsChunk count) (receive split count v b).sent
        × (length (receive split count v b).buf ≤ count)
  unfolding receive
  receive_fits v b s = elim (Bool-cases (split.call b.policy v).1) [
    | inl e ↦
        rw (e, if◌then◌else◌)
          (send-FitsChunk count b.buf b.sent s.chunks (omega (arith, s.room)), positive)
    | inr e ↦ rw (e, if◌then◌else◌) (s.chunks, omega (arith, s.room, length-append b.buf (v ∷ [])))
  ]

  handle-IsSized : (e : Event T) (b : Bulker T S) → IsSized b → IsSized (handle split count e b)
  unfolding handle
  handle-IsSized (item v) b s =
      let (h, k) = receive_fits v b s in check_full-IsSized (receive split count v b) h k
  handle-IsSized close b s = flush-IsSized finished b s.chunks (omega (arith, s.room))
  handle-IsSized timeout b s = flush-IsSized running b s.chunks (omega (arith, s.room))
  handle-IsSized cancel b s = record { chunks = s.chunks; room = s.room }

  -- Every chunk that is sent holds at least one item and at most `count`, whatever the policy
  -- demands and whenever the timeouts fire, if `count` is positive.
  pub run-FitsChunk : (es : List (Event T)) → All (FitsChunk count) (run split count es).sent
  unfolding run new_bulker
  run-FitsChunk es =
      (run_from_induction split count IsSized (λ e b r. handle-IsSized e b) es
        (new_bulker split count) (record { chunks = tt; room = positive })).chunks

-- an event of an input that has not ended
abbrev pub IsOpen : {T : Type 0} → Event T → Type 0
IsOpen (item v) = Unit
IsOpen timeout = Unit
IsOpen close = ⊥
IsOpen cancel = ⊥

module _ {T S : Type 0} (split : SplitPolicy T S) (count : ℕ) where
  closed_buf :
      (b : Bulker T S)
      → ((handle split count close b).buf ≡ []) × ((handle split count close b).status ≡ finished)
  unfolding handle flush
  closed_buf b = (refl, refl)

  run_from-close :
      (es : List (Event T)) (b : Bulker T S)
      → b.status ≡ running
      → All IsOpen es
      → (c : Bulker T S) × (run_from split count b (es ++ close ∷ []) ≡ handle split count close c)
  run_from-close [] b r h =
      (b, run_from_running split count b close [] r ∙ stopped_close split count b [])
  run_from-close (item v ∷ es) b r (_, h) =
      let (c, e) =
        run_from-close es (handle split count (item v) b) (status-item split count v b) h in
      (c, run_from_running split count b (item v) (es ++ close ∷ []) r ∙ e)
  run_from-close (timeout ∷ es) b r (_, h) =
      let (c, e) =
        run_from-close es (handle split count timeout b) (status-timeout split count b) h in
      (c, run_from_running split count b timeout (es ++ close ∷ []) r ∙ e)
  run_from-close (close ∷ es) b r (h, _) = absurd h
  run_from-close (cancel ∷ es) b r (h, _) = absurd h

  received-close : (es : List (Event T)) → received (es ++ close ∷ []) ≡ received es
  received-close [] = refl
  received-close (item v ∷ es) = ap (λ l. v ∷ l) (received-close es)
  received-close (timeout ∷ es) = received-close es
  received-close (close ∷ es) = refl
  received-close (cancel ∷ es) = refl

  run_ends_in_close :
      (es : List (Event T))
      → All IsOpen es
      → (c : Bulker T S) × (run split count (es ++ close ∷ []) ≡ handle split count close c)
  unfolding run new_bulker
  run_ends_in_close es = run_from-close es (new_bulker split count) refl

  sent-eq-content : (b : Bulker T S) → b.buf ≡ [] → concat b.sent ≡ content b
  sent-eq-content b h = rw (h, append-nil)

  -- When the input is closed and the context was not canceled, the goroutine returns without an
  -- error, and the chunks that it sent are, joined, exactly the items of the input in their order.
  pub run-close :
      (es : List (Event T))
      → All IsOpen es
      → ((run split count (es ++ close ∷ [])).status ≡ finished)
        × (concat (run split count (es ++ close ∷ [])).sent ≡ received es)
  run-close es h =
      let (c, e) = run_ends_in_close es h in
      let (emptied, over) = closed_buf c in
      let b = run split count (es ++ close ∷ []) in
      let buffer = ap (λ (b : Bulker T S). b.buf) e ∙ emptied in
      (
        ap (λ (b : Bulker T S). b.status) e ∙ over,
        sent-eq-content b buffer ∙ content-run split count (es ++ close ∷ []) ∙ received-close es,
      )
