-- ===== src/Database/Exec/Retried.antt =====
-- What the counter and the callbacks of `NamedBulkExec` in database/db.go see of a chunk that is retried.
use icinga_go_library.Prelude.{
  false, ℕ, zero, suc, ◌+◌, ◌*◌, Bool, ◌≡◌, ◌≢◌, refl, ap, ◌∙◌, Option, none, some, List, [], ◌∷◌,
  ◌++◌, map, length, take, All, subst, arith, Option-cases, inl, inr, ◌⊎◌,
}
use icinga_go_library.Retry.{Settings, Round, returned_nil, with_backoff}
use icinga_go_library.Retry.Rounds.{AreRetried-All, with_backoff-AreRetried}
use icinga_go_library.Retry.Results.{last_round, Explains, with_backoff-Explains}
use icinga_go_library.Database.Exec.{
  ExecError, Effect, executed, counted, notified, notify, named_exec, counted_rows, Answers,
  attempt, attempt_round, exec_chunk, all_effects, exec_chunk_effects,
}

counted_rows-append :
    {T : Type 0} (xs ys : List (Effect T))
    → counted_rows (xs ++ ys) ≡ counted_rows xs + counted_rows ys
unfolding counted_rows
counted_rows-append [] ys = omega arith
counted_rows-append (executed b ∷ xs) ys = counted_rows-append xs ys
counted_rows-append (counted n ∷ xs) ys = omega (arith, counted_rows-append xs ys)
counted_rows-append (notified i b ∷ xs) ys = counted_rows-append xs ys

counted_rows-notify :
    {T E : Type 0} (i : ℕ) (answers : List (Option E)) (b : List T)
    → counted_rows (notify i answers b).0 ≡ 0
unfolding counted_rows notify
counted_rows-notify i [] b = refl
counted_rows-notify i (none ∷ answers) b = counted_rows-notify (suc i) answers b
counted_rows-notify i (some e ∷ answers) b = refl

-- the attempts that the database accepts
unfoldable pub executions : {E : Type 0} → List (Answers E) → ℕ
executions [] = 0
executions (a ∷ answers) =
    let rest = executions answers in elim a.db [ none ↦ suc rest | some e ↦ rest ]

-- no callback fails
abbrev pub AreHappy : {E : Type 0} → Answers E → Type 0
AreHappy a = All (λ answer. answer ≡ none) a.callbacks

pub ends_after_one :
    {A : Type 0} (n : ℕ) (rs : List A) (r : A) → last_round n rs ≡ some r → (m : ℕ) × (n ≡ suc m)
ends_after_one zero [] r h = cc
ends_after_one zero (q ∷ rs) r h = cc
ends_after_one (suc m) rs r h = (m, refl)

abbrev IsFailed : {E : Type 0} → Round E → Type 0
IsFailed r = r.outcome ≢ none

module _ {T E : Type 0} (b : List T) where
  counted_rows-attempt :
      (a : Answers E) → counted_rows (attempt b a).0 ≡ elim a.db [ none ↦ length b | some e ↦ 0 ]
  unfolding attempt named_exec counted_rows
  counted_rows-attempt a = elim (Option-cases a.db) [
    | inl e ↦ rw (named_exec, e) (omega (arith, counted_rows-notify 0 a.callbacks b))
    | inr (x, e) ↦ rw (named_exec, e) refl
  ]

  counted_rows-all :
      (answers : List (Answers E))
      → counted_rows (all_effects b answers) ≡ length b * executions answers
  unfolding all_effects executions counted_rows
  counted_rows-all [] = omega arith
  counted_rows-all (a ∷ answers) = elim (Option-cases a.db) [
    | inl e ↦
        rw
          (
            counted_rows-append (attempt b a).0,
            counted_rows-attempt a,
            counted_rows-all answers,
            executions,
            e,
          )
          (omega arith)
    | inr (x, e) ↦
        rw
          (
            counted_rows-append (attempt b a).0,
            counted_rows-attempt a,
            counted_rows-all answers,
            executions,
            e,
          )
          (omega arith)
  ]

  outcome-notify :
      (i : ℕ) (answers : List (Option E))
      → All (λ answer. answer ≡ none) answers
      → (notify i answers b).1 ≡ none
  unfolding notify
  outcome-notify i [] h = refl
  outcome-notify i (none ∷ answers) (h, hs) = outcome-notify (suc i) answers hs
  outcome-notify i (some e ∷ answers) (h, hs) = cc

  -- With callbacks that succeed, an attempt fails exactly if the database refuses.
  outcome-attempt :
      (a : Answers E)
      → AreHappy a
      → ((a.db ≡ none) × ((attempt_round b a).outcome ≡ none))
        ⊎ ((x : E) × (a.db ≡ some x) × ((attempt_round b a).outcome ≢ none))
  unfolding attempt_round attempt named_exec
  outcome-attempt a h = elim (Option-cases a.db) [
    | inl e ↦ inl (e, rw (named_exec, e) (outcome-notify 0 a.callbacks h))
    | inr (x, e) ↦ inr (x, e, rw (named_exec, e) (λ k. cc))
  ]

  -- attempts that failed up to one that did not
  executions-one :
      (n : ℕ) (answers : List (Answers E)) (r : Round (ExecError E))
      → All AreHappy answers
      → All IsFailed (take n (map (attempt_round b) answers))
      → last_round (suc n) (map (attempt_round b) answers) ≡ some r
      → r.outcome ≡ none
      → executions (take (suc n) answers) ≡ 1
  unfolding executions
  executions-one n [] r hs fs at_end ok_end = cc
  executions-one zero (a ∷ answers) r (h, hs) fs at_end ok_end = elim (outcome-attempt a h) [
    | inl (e, k) ↦ rw (executions, e) refl
    | inr (x, e, k) ↦
        let same : attempt_round b a ≡ r = cc in
        absurd (k (ap (λ (q : Round (ExecError E)). q.outcome) same ∙ ok_end))
  ]
  executions-one (suc n) (a ∷ answers) r (h, hs) (f, fs) at_end ok_end =
      elim (outcome-attempt a h) [
        | inl (e, k) ↦ absurd (f k)
        | inr (x, e, k) ↦ rw (executions, e) (executions-one n answers r hs fs at_end ok_end)
      ]

module _ {T E : Type 0} (b : List T) (retryable : ExecError E → Bool) (delays : ℕ → ℕ)
    (settings : Settings) where
  -- Whatever the database, the callbacks, the context and the timer answer, `NamedBulkExec` counts each
  -- chunk once for every attempt that the database accepted.
  pub exec_chunk-counts :
      (answers : List (Answers E))
      → counted_rows (exec_chunk_effects b retryable delays settings answers)
        ≡ length b
          * executions (take (exec_chunk b retryable delays settings answers).rounds answers)
  unfolding exec_chunk_effects
  exec_chunk-counts answers =
      counted_rows-all b (take (exec_chunk b retryable delays settings answers).rounds answers)

  -- If no callback fails, a chunk for which `NamedBulkExec` succeeds is counted exactly once, however
  -- often it was retried.
  pub exec_chunk-counts_once :
      (answers : List (Answers E))
      → All AreHappy answers
      → (exec_chunk b retryable delays settings answers).result ≡ returned_nil
      → counted_rows (exec_chunk_effects b retryable delays settings answers) ≡ length b
  unfolding exec_chunk
  exec_chunk-counts_once answers h succeeded =
      let rs = map (attempt_round b) answers in
      let run = with_backoff retryable delays settings rs in
      let (r, at_end, why) = with_backoff-Explains retryable delays settings rs (λ e. cc) in
      let (m, e) = ends_after_one run.rounds rs r at_end in
      let nil : r.outcome ≡ none = subst (Explains retryable settings _ _ r) succeeded why in
      let retried = with_backoff-AreRetried retryable delays settings rs m (omega (arith, e)) in
      let failed =
        AreRetried-All retryable settings IsFailed (λ t x i k. let (f, is_f, _) = i.failed in cc)
          false (take m rs) retried in
      rw
        (
          exec_chunk-counts,
          exec_chunk,
          e,
          executions-one b m answers r h failed (subst (λ n. last_round n rs ≡ some r) e at_end)
              nil,
        )
        (omega arith)
