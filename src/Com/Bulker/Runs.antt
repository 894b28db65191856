-- ===== src/Com/Bulker/Runs.antt =====
-- How the goroutine of com/bulker.go moves through its events, and induction on them.
use icinga_go_library.Prelude.{
  ℕ, ◌≡◌, ◌≢◌, refl, sym, subst, ◌⊎◌, inl, inr, ap, List, [], ◌∷◌, arith,
}
use icinga_go_library.Com.Bulker.{
  SplitPolicy, Event, item, close, timeout, cancel, Status, running, finished, canceled, Bulker,
  flush, receive, check_full, handle, dispatch, step, run_from,
}

Status-cases : (st : Status) → (st ≡ running) ⊎ (st ≢ running)
Status-cases running = inl refl
Status-cases finished = inr (λ e. cc)
Status-cases canceled = inr (λ e. cc)

module _ {T S : Type 0} (split : SplitPolicy T S) (count : ℕ) where
  status-receive : (v : T) (b : Bulker T S) → (receive split count v b).status ≡ running
  unfolding receive
  status-receive v b = ground arith

  status-check_full :
      (b : Bulker T S) → b.status ≡ running → (check_full split count b).status ≡ running
  unfolding check_full flush
  status-check_full b h = ground arith

  dispatch_running :
      (st : Status) (e : Event T) (b : Bulker T S)
      → st ≡ running
      → dispatch split count st e b ≡ handle split count e b
  unfolding dispatch
  dispatch_running running e b h = refl
  dispatch_running finished e b h = cc
  dispatch_running canceled e b h = cc

  dispatch_stopped :
      (st : Status) (e : Event T) (b : Bulker T S) → st ≢ running → dispatch split count st e b ≡ b
  unfolding dispatch
  dispatch_stopped running e b h = absurd (h refl)
  dispatch_stopped finished e b h = refl
  dispatch_stopped canceled e b h = refl

  pub step_running :
      (b : Bulker T S) (e : Event T)
      → b.status ≡ running
      → step split count b e ≡ handle split count e b
  unfolding step
  step_running b e h = dispatch_running b.status e b h

  pub run_from_stopped :
      (b : Bulker T S) (es : List (Event T)) → b.status ≢ running → run_from split count b es ≡ b
  unfolding run_from step
  run_from_stopped b [] h = refl
  run_from_stopped b (e ∷ es) h = rw (dispatch_stopped b.status e b h) (run_from_stopped b es h)

  pub run_from_running :
      (b : Bulker T S) (e : Event T) (es : List (Event T))
      → b.status ≡ running
      → run_from split count b (e ∷ es) ≡ run_from split count (handle split count e b) es
  unfolding run_from
  run_from_running b e es h = ap (λ c. run_from split count c es) (step_running b e h)

  pub status-item : (v : T) (b : Bulker T S) → (handle split count (item v) b).status ≡ running
  unfolding handle
  status-item v b = status-check_full (receive split count v b) (status-receive v b)

  pub status-timeout : (b : Bulker T S) → (handle split count timeout b).status ≡ running
  unfolding handle flush
  status-timeout b = refl

  pub stopped_close :
      (b : Bulker T S) (es : List (Event T))
      → run_from split count (handle split count close b) es ≡ handle split count close b
  unfolding handle flush
  stopped_close b es = run_from_stopped _ es (λ e. cc)

  pub stopped_cancel :
      (b : Bulker T S) (es : List (Event T))
      → run_from split count (handle split count cancel b) es ≡ record b { status = canceled }
  unfolding handle
  stopped_cancel b es = run_from_stopped _ es (λ e. cc)

  -- What one event keeps, a run keeps.
  pub run_from_induction {ℓ} :
      (P : Bulker T S → Type ℓ)
      → ((e : Event T) (b : Bulker T S) → b.status ≡ running → P b → P (handle split count e b))
      → (es : List (Event T)) (b : Bulker T S) → P b
      → P (run_from split count b es)
  unfolding run_from
  run_from_induction P keep [] b p = p
  run_from_induction P keep (e ∷ es) b p = elim (Status-cases b.status) [
    | inl r ↦
        run_from_induction P keep es (step split count b e)
          (subst P (sym (step_running b e r)) (keep e b r p))
    | inr s ↦ subst P (sym (run_from_stopped b (e ∷ es) s)) p
  ]
