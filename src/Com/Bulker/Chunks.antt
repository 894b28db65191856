-- ===== src/Com/Bulker/Chunks.antt =====
-- The chunks that the goroutine of com/bulker.go delivers: their items, their order and their size.
use icinga_go_library.Prelude.{
  ℕ, ◌≡◌, refl, sym, ap, ◌∙◌, List, [], ◌∷◌, ◌++◌, append-nil, append_assoc, length, concat,
  concat-append, ltb, inl, inr, Bool-cases, if◌then◌else◌,
}
use icinga_go_library.Com.Bulker.Runs.{
  status-item, status-timeout, run_from_running, stopped_close, stopped_cancel,
}
use icinga_go_library.Com.Bulker.{
  SplitPolicy, Event, item, close, timeout, cancel, Status, running, finished, Bulker, new_bulker,
  send, flush, receive, check_full, handle, run_from, run,
}

-- the items that the events deliver before the input ends or the context does
abbrev pub received : {T : Type 0} → List (Event T) → List T
received [] = []
received (item v ∷ es) = v ∷ received es
received (timeout ∷ es) = received es
received (close ∷ es) = []
received (cancel ∷ es) = []

concat-send :
    {T : Type 0} (buf : List T) (sent : List (List T)) → concat (send buf sent) ≡ concat sent ++ buf
unfolding send
concat-send [] sent = sym (append-nil (concat sent))
concat-send (v ∷ buf) sent = simp (concat-append, append-nil)

module _ {T S : Type 0} where
  abbrev pub content : Bulker T S → List T
  content b = concat b.sent ++ b.buf

module _ {T S : Type 0} (split : SplitPolicy T S) (count : ℕ) where
  content-flush : (st : Status) (b : Bulker T S) → content (flush split count st b) ≡ content b
  unfolding flush
  content-flush st b = simp (append-nil, concat-send)

  content-receive :
      (v : T) (b : Bulker T S) → content (receive split count v b) ≡ content b ++ v ∷ []
  unfolding receive
  content-receive v b = elim (Bool-cases (split.call b.policy v).1) [
    | inl e ↦ rw (e, if◌then◌else◌) (simp (concat-send, append_assoc))
    | inr e ↦ rw e (simp append_assoc)
  ]

  content-check_full : (b : Bulker T S) → content (check_full split count b) ≡ content b
  unfolding check_full
  content-check_full b = elim (Bool-cases (ltb (length b.buf) count)) [
    | inl e ↦ rw e
    | inr e ↦ rw e (content-flush running b)
  ]

  content-item :
      (v : T) (b : Bulker T S) → content (handle split count (item v) b) ≡ content b ++ v ∷ []
  unfolding handle
  content-item v b = content-check_full (receive split count v b) ∙ content-receive v b

  content-timeout : (b : Bulker T S) → content (handle split count timeout b) ≡ content b
  unfolding handle
  content-timeout b = content-flush running b

  content-close : (b : Bulker T S) → content (handle split count close b) ≡ content b
  unfolding handle
  content-close b = content-flush finished b

  content-run_from :
      (es : List (Event T)) (b : Bulker T S)
      → b.status ≡ running
      → content (run_from split count b es) ≡ content b ++ received es
  content-run_from [] b h = unfold run_from in sym (append-nil (content b))
  content-run_from (item v ∷ es) b h =
      rw
        (
          run_from_running split count b (item v) es h,
          content-run_from es (handle split count (item v) b) (status-item split count v b),
          content-item,
        )
        (append_assoc (content b) (v ∷ []) (received es))
  content-run_from (timeout ∷ es) b h =
      rw
        (
          run_from_running split count b timeout es h,
          content-run_from es (handle split count timeout b) (status-timeout split count b),
        )
        (ap (λ (l : List T). l ++ received es) (content-timeout b))
  content-run_from (close ∷ es) b h =
      rw (run_from_running split count b close es h, stopped_close, content-close)
        (sym (append-nil (content b)))
  content-run_from (cancel ∷ es) b h =
      rw (run_from_running split count b cancel es h, stopped_cancel) (sym (append-nil (content b)))

  -- Until the goroutine returns, what was sent and what is in the buffer are, together and in order,
  -- the items received; this holds whatever the policy demands and whenever the timeouts fire.
  pub content-run : (es : List (Event T)) → content (run split count es) ≡ received es
  unfolding run new_bulker
  content-run es = content-run_from es (new_bulker split count) refl
