-- ===== src/Database/Exec/Pool/Jobs.antt =====
-- The goroutines of a bulk execution in database/db.go, and the end of one of them.
use icinga_go_library.Prelude.{
  ℕ, zero, suc, Bool, true, false, Option, none, some, List, [], ◌∷◌, ◌++◌, map, All, ◌≡◌, ◌⊎◌, inl,
  inr, refl, ap, ◌∙◌,
}
use icinga_go_library.Database.Exec.Pool.{
  Status, executing, succeeded, failed, Job, status_of, end_status, with_job, end_job,
  add_executing, executing_jobs,
}

abbrev pub chunks_of : {T E : Type 0} → List (Job T E) → List (List T)
chunks_of js = map (λ j. j.chunk) js

abbrev pub is_failed : {E : Type 0} → Status E → Bool
is_failed executing = false
is_failed succeeded = false
is_failed (failed e) = true

abbrev pub IfSome : {A : Type 0} → (A → Type 0) → Option A → Type 0
IfSome P none = Unit
IfSome P (some x) = P x

add_executing-suc :
    {E : Type 0} (s : Status E) (n : ℕ) → add_executing s (suc n) ≡ suc (add_executing s n)
unfolding add_executing
add_executing-suc executing n = refl
add_executing-suc succeeded n = refl
add_executing-suc (failed e) n = refl

now_succeeded :
    {E : Type 0} (s : Status E) (n : ℕ)
    → add_executing s n ≡ 0
    → is_failed s ≡ false
    → (s ≡ succeeded) × (n ≡ 0)
unfolding add_executing
now_succeeded executing n e h = cc
now_succeeded succeeded n e h = (refl, e)
now_succeeded (failed x) n e h = cc

module _ {T E : Type 0} where
  abbrev pub HasFailed : E → List (Job T E) → Type 0
  HasFailed e [] = ⊥
  HasFailed e (j ∷ js) = (j.status ≡ failed e) ⊎ HasFailed e js

  abbrev pub HasNoFailed : List (Job T E) → Type 0
  HasNoFailed js = All (λ j. is_failed j.status ≡ false) js

  -- a goroutine that was executing, and its status behind its end
  pub data Ends (s : Status E) : List (Job T E) → List (Job T E) → Type 0 where
    here :
        (j : Job T E) (js : List (Job T E))
        → j.status ≡ executing
        → Ends s (j ∷ js) (record j { status = s } ∷ js)
    there : (j : Job T E) {js ks : List (Job T E)} → Ends s js ks → Ends s (j ∷ js) (j ∷ ks)

  end_status-Ends :
      (s r : Status E) (j : Job T E) (js : List (Job T E))
      → j.status ≡ r
      → IfSome (Ends s (j ∷ js)) (end_status s j js r)
  unfolding end_status
  end_status-Ends s executing j js h = here j js h
  end_status-Ends s succeeded j js h = tt
  end_status-Ends s (failed e) j js h = tt

  with_job-Ends :
      (s : Status E) (j : Job T E) (js : List (Job T E)) (o : Option (List (Job T E)))
      → IfSome (Ends s js) o
      → IfSome (Ends s (j ∷ js)) (with_job j o)
  unfolding with_job
  with_job-Ends s j js none h = tt
  with_job-Ends s j js (some ks) h = there j h

  pub end_job-Ends :
      (i : ℕ) (s : Status E) (js : List (Job T E)) → IfSome (Ends s js) (end_job i s js)
  unfolding end_job
  end_job-Ends i s [] = tt
  end_job-Ends zero s (j ∷ js) = end_status-Ends s j.status j js refl
  end_job-Ends (suc i) s (j ∷ js) = with_job-Ends s j js (end_job i s js) (end_job-Ends i s js)

  pub executing_jobs-snoc :
      (js : List (Job T E)) (b : List T)
      → executing_jobs (js ++ record { chunk = b; status = executing } ∷ [])
        ≡ suc (executing_jobs js)
  unfolding executing_jobs add_executing
  executing_jobs-snoc [] b = refl
  executing_jobs-snoc (j ∷ js) b =
      ap (add_executing j.status) (executing_jobs-snoc js b)
      ∙ add_executing-suc j.status (executing_jobs js)

  pub executing_jobs-Ends :
      (r : Option E) {js ks : List (Job T E)}
      → Ends (status_of r) js ks
      → executing_jobs js ≡ suc (executing_jobs ks)
  unfolding executing_jobs status_of add_executing
  executing_jobs-Ends none (here j js e) = ap (λ x. add_executing x (executing_jobs js)) e
  executing_jobs-Ends (some x) (here j js e) = ap (λ x. add_executing x (executing_jobs js)) e
  executing_jobs-Ends r (there j {ks = ks} h) =
      ap (add_executing j.status) (executing_jobs-Ends r h)
      ∙ add_executing-suc j.status (executing_jobs ks)

  pub chunks_of-Ends :
      {s : Status E} {js ks : List (Job T E)} → Ends s js ks → chunks_of ks ≡ chunks_of js
  chunks_of-Ends (here j js e) = refl
  chunks_of-Ends (there j h) = ap (λ l. j.chunk ∷ l) (chunks_of-Ends h)

  pub HasFailed-Ends :
      (e : E) {s : Status E} {js ks : List (Job T E)}
      → Ends s js ks
      → HasFailed e js
      → HasFailed e ks
  HasFailed-Ends e (here j js x) (inl y) = cc
  HasFailed-Ends e (here j js x) (inr h) = inr h
  HasFailed-Ends e (there j g) (inl y) = inl y
  HasFailed-Ends e (there j g) (inr h) = inr (HasFailed-Ends e g h)

  pub HasFailed-end : (e : E) {js ks : List (Job T E)} → Ends (failed e) js ks → HasFailed e ks
  HasFailed-end e (here j js x) = inl refl
  HasFailed-end e (there j g) = inr (HasFailed-end e g)

  pub HasNoFailed-end :
      {js ks : List (Job T E)} → Ends succeeded js ks → HasNoFailed js → HasNoFailed ks
  HasNoFailed-end (here j js x) (a, h) = (refl, h)
  HasNoFailed-end (there j g) (a, h) = (a, HasNoFailed-end g h)

  -- a goroutine that no one waits for any more has succeeded
  pub all_succeeded :
      (js : List (Job T E))
      → executing_jobs js ≡ 0
      → HasNoFailed js
      → All (λ j. j.status ≡ succeeded) js
  unfolding executing_jobs
  all_succeeded [] e h = tt
  all_succeeded (j ∷ js) e (a, h) =
      let (s, n) = now_succeeded j.status (executing_jobs js) e a in (s, all_succeeded js n h)

  pub HasFailed-snoc :
      (e : E) (js : List (Job T E)) (j : Job T E) → HasFailed e js → HasFailed e (js ++ j ∷ [])
  HasFailed-snoc e [] j h = elim h [ ]
  HasFailed-snoc e (i ∷ js) j (inl h) = inl h
  HasFailed-snoc e (i ∷ js) j (inr h) = inr (HasFailed-snoc e js j h)
