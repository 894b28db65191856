-- ===== src/Database/Exec/Pool/Causes.antt =====
-- Where the error of the group of a bulk execution in database/db.go comes from.
use icinga_go_library.Prelude.{
  ℕ, ◌+◌, Bool, true, false, Option, none, some, List, [], ◌∷◌, ◌++◌, All-snoc, ◌≡◌, refl, sym, ◌∙◌,
}
use icinga_go_library.Database.Exec.Pool.{
  executing, succeeded, failed, Job, Loop, receiving, acquiring, not_acquired, input_over,
  context_seen, PoolError, cant_acquire, context_ended, of_job, Pool, first_error, executing_jobs,
}
use icinga_go_library.Database.Exec.Pool.Jobs.{
  is_failed, HasFailed, HasNoFailed, Ends, HasFailed-Ends, HasFailed-end, HasNoFailed-end,
  HasFailed-snoc,
}

abbrev pub is_not_acquired : {T : Type 0} → Loop T → Bool
is_not_acquired receiving = false
is_not_acquired (acquiring b) = false
is_not_acquired (not_acquired b) = true
is_not_acquired input_over = false
is_not_acquired context_seen = false

abbrev pub is_context_seen : {T : Type 0} → Loop T → Bool
is_context_seen receiving = false
is_context_seen (acquiring b) = false
is_context_seen (not_acquired b) = false
is_context_seen input_over = false
is_context_seen context_seen = true

module _ {T E : Type 0} where
  -- An error of the group is one of a goroutine, or the given context has ended, and the loop saw that in
  -- Acquire or in its select.
  abbrev pub IsCause : PoolError E → Loop T → Bool → List (Job T E) → Type 0
  IsCause cant_acquire l parent js = (is_not_acquired l ≡ true) × (parent ≡ true)
  IsCause context_ended l parent js = (is_context_seen l ≡ true) × (parent ≡ true)
  IsCause (of_job e) l parent js = HasFailed e js

  -- what the error of the group, its context and the given one tell of the loop and the goroutines
  abbrev pub Explained : Option (PoolError E) → Loop T → Bool → Bool → List (Job T E) → Type 0
  Explained none l canceled parent js =
      HasNoFailed js
      × (canceled ≡ parent)
      × (is_not_acquired l ≡ false)
      × (is_context_seen l ≡ false)
  Explained (some e) l canceled parent js = IsCause e l parent js

  abbrev pub IsSound : ℕ → Pool T E → Type 0
  IsSound w p =
      (executing_jobs p.jobs + (p.free + p.others) ≡ w)
      × Explained p.error p.loop p.canceled p.parent_done p.jobs

  pub Explained-loop :
      (o : Option (PoolError E)) (l m : Loop T) (c d : Bool) (js : List (Job T E))
      → is_not_acquired m ≡ is_not_acquired l
      → is_context_seen m ≡ is_context_seen l
      → Explained o l c d js
      → Explained o m c d js
  Explained-loop none l m c d js e f (a, b, x, y) = (a, b, e ∙ x, f ∙ y)
  Explained-loop (some cant_acquire) l m c d js e f (x, y) = (e ∙ x, y)
  Explained-loop (some context_ended) l m c d js e f (x, y) = (f ∙ x, y)
  Explained-loop (some (of_job r)) l m c d js e f h = h

  pub Explained-snoc :
      (o : Option (PoolError E)) (l : Loop T) (c d : Bool) (js : List (Job T E)) (b : List T)
      → Explained o l c d js
      → Explained o l c d (js ++ record { chunk = b; status = executing } ∷ [])
  Explained-snoc none l c d js b (a, x, y, z) =
      (All-snoc (λ j. is_failed j.status ≡ false) js _ a refl, x, y, z)
  Explained-snoc (some cant_acquire) l c d js b h = h
  Explained-snoc (some context_ended) l c d js b h = h
  Explained-snoc (some (of_job r)) l c d js b h = HasFailed-snoc r js _ h

  pub Explained-succeeded :
      (o : Option (PoolError E)) (l : Loop T) (c d : Bool) {js ks : List (Job T E)}
      → Ends succeeded js ks
      → Explained o l c d js
      → Explained o l c d ks
  Explained-succeeded none l c d g (a, x, y, z) = (HasNoFailed-end g a, x, y, z)
  Explained-succeeded (some cant_acquire) l c d g h = h
  Explained-succeeded (some context_ended) l c d g h = h
  Explained-succeeded (some (of_job r)) l c d g h = HasFailed-Ends r g h

  pub Explained-failed :
      (o : Option (PoolError E)) (l : Loop T) (c d : Bool) (e : E) {js ks : List (Job T E)}
      → Ends (failed e) js ks
      → Explained o l c d js
      → Explained (first_error (of_job e) o) l true d ks
  unfolding first_error
  Explained-failed none l c d e g h = HasFailed-end e g
  Explained-failed (some cant_acquire) l c d e g h = h
  Explained-failed (some context_ended) l c d e g h = h
  Explained-failed (some (of_job r)) l c d e g h = HasFailed-Ends r g h

  pub Explained-cant_acquire :
      (o : Option (PoolError E)) (b : List T) (d : Bool) (js : List (Job T E))
      → Explained o (acquiring b) true d js
      → Explained (first_error cant_acquire o) (not_acquired b) true d js
  unfolding first_error
  Explained-cant_acquire none b d js (a, e, x, y) = (refl, sym e)
  Explained-cant_acquire (some cant_acquire) b d js (x, y) = (refl, y)
  Explained-cant_acquire (some context_ended) b d js (x, y) = (x, y)
  Explained-cant_acquire (some (of_job r)) b d js h = h

  pub Explained-context_ended :
      (o : Option (PoolError E)) (d : Bool) (js : List (Job T E))
      → Explained o receiving true d js
      → Explained (first_error context_ended o) context_seen true d js
  unfolding first_error
  Explained-context_ended none d js (a, e, x, y) = (refl, sym e)
  Explained-context_ended (some cant_acquire) d js (x, y) = (x, y)
  Explained-context_ended (some context_ended) d js (x, y) = (refl, y)
  Explained-context_ended (some (of_job r)) d js h = h

  pub Explained-parent :
      (o : Option (PoolError E)) (l : Loop T) (c d : Bool) (js : List (Job T E))
      → Explained o l c d js
      → Explained o l true true js
  Explained-parent none l c d js (a, e, x, y) = (a, refl, x, y)
  Explained-parent (some cant_acquire) l c d js (x, y) = (x, refl)
  Explained-parent (some context_ended) l c d js (x, y) = (x, refl)
  Explained-parent (some (of_job r)) l c d js h = h
