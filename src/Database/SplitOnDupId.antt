-- ===== src/Database/SplitOnDupId.antt =====
-- SplitOnDupId of database/utils.go, and the chunks that a bulker makes with it.
use icinga_go_library.Prelude.{
  ℕ, Bool, true, false, ◌||◌, ◌≡◌, refl, sym, ap, ◌∙◌, List, [], ◌∷◌, ◌++◌, map, Text, text_eq,
  text_eq_iff, length, All, All-snoc, arith, ltb, if◌then◌else◌, Bool-cases, inl, inr,
}
use icinga_go_library.Com.Bulker.{
  SplitPolicy, Event, item, close, timeout, cancel, Status, running, finished, Bulker, send, flush,
  receive, check_full, handle, run, new_bulker,
}
use icinga_go_library.Com.Bulker.Runs.{run_from_induction}

-- a key of the map `seenIds`
unfoldable pub contains : Text → List Text → Bool
contains k [] = false
contains k (j ∷ seen) = text_eq j k || contains k seen

-- `id v` is `ider.ID().String()`, which the entity's type implements.
unfoldable pub split_on_dup_id : {T : Type 0} → (T → Text) → SplitPolicy T (List Text)
split_on_dup_id id = record {
  fresh = [];
  call = λ seen v. if contains (id v) seen then (id v ∷ [], true) else (seen ++ id v ∷ [], false);
}

-- no text twice
abbrev pub Distinct : List Text → Type 0
Distinct [] = Unit
Distinct (k ∷ ks) = (contains k ks ≡ false) × Distinct ks

contains-append :
    (k j : Text) (ks : List Text) → contains k (ks ++ j ∷ []) ≡ (contains k ks || text_eq j k)
unfolding contains
contains-append k j [] = ground arith
contains-append k j (i ∷ ks) = ground (arith, contains-append k j ks)

pub Distinct-snoc :
    (k : Text) (ks : List Text) → contains k ks ≡ false → Distinct ks → Distinct (ks ++ k ∷ [])
unfolding contains
Distinct-snoc k [] h d = (refl, tt)
Distinct-snoc k (j ∷ ks) h (fresh, d) = (
  ground (arith, contains-append j k ks, text_eq_iff k j, text_eq_iff j k),
  Distinct-snoc k ks (ground arith) d,
)

pub map-snoc :
    {T : Type 0} (f : T → Text) (xs : List T) (x : T) → map f (xs ++ x ∷ []) ≡ map f xs ++ f x ∷ []
map-snoc f [] x = refl
map-snoc f (y ∷ xs) x = ap (λ l. f y ∷ l) (map-snoc f xs x)

abbrev pub HasDistinctIds : {T : Type 0} → (T → Text) → List T → Type 0
HasDistinctIds id c = Distinct (map id c)

module _ {T : Type 0} (id : T → Text) (count : ℕ) where
  record Tracks (b : Bulker T (List Text)) : Type 0 where
    seen : b.policy ≡ map id b.buf
    chunks : All (HasDistinctIds id) b.sent
    pending : HasDistinctIds id b.buf

  send-Distinct :
      (buf : List T) (sent : List (List T))
      → All (HasDistinctIds id) sent
      → HasDistinctIds id buf
      → All (HasDistinctIds id) (send buf sent)
  unfolding send
  send-Distinct [] sent h k = h
  send-Distinct (v ∷ buf) sent h k = All-snoc (HasDistinctIds id) sent (v ∷ buf) h k

  flush-Tracks :
      (st : Status) (b : Bulker T (List Text))
      → Tracks b
      → Tracks (flush (split_on_dup_id id) count st b)
  unfolding flush split_on_dup_id
  flush-Tracks st b t = record {
    seen = refl;
    chunks = send-Distinct b.buf b.sent t.chunks t.pending;
    pending = tt;
  }

  receive-Tracks :
      (v : T) (b : Bulker T (List Text))
      → Tracks b
      → Tracks (receive (split_on_dup_id id) count v b)
  unfolding receive split_on_dup_id
  receive-Tracks v b t = elim (Bool-cases (contains (id v) b.policy)) [
    | inl e ↦
        rw (e, if◌then◌else◌)
          (record {
            seen = refl;
            chunks = send-Distinct b.buf b.sent t.chunks t.pending;
            pending = (unfold contains in refl, tt);
          })
    | inr e ↦
        rw (e, if◌then◌else◌)
          (record {
            seen = ap (λ l. l ++ id v ∷ []) t.seen ∙ sym (map-snoc id b.buf v);
            chunks = t.chunks;
            pending = rw map-snoc (Distinct-snoc (id v) (map id b.buf) (rw (← t.seen) e) t.pending);
          })
  ]

  check_full-Tracks :
      (b : Bulker T (List Text)) → Tracks b → Tracks (check_full (split_on_dup_id id) count b)
  unfolding check_full
  check_full-Tracks b t = elim (Bool-cases (ltb (length b.buf) count)) [
    | inl e ↦ rw e t
    | inr e ↦ rw e (flush-Tracks running b t)
  ]

  handle-Tracks :
      (e : Event T) (b : Bulker T (List Text))
      → Tracks b
      → Tracks (handle (split_on_dup_id id) count e b)
  unfolding handle
  handle-Tracks (item v) b t =
      check_full-Tracks (receive (split_on_dup_id id) count v b) (receive-Tracks v b t)
  handle-Tracks close b t = flush-Tracks finished b t
  handle-Tracks timeout b t = flush-Tracks running b t
  handle-Tracks cancel b t = record { seen = t.seen; chunks = t.chunks; pending = t.pending }

  -- No chunk that a bulker with `SplitOnDupId` sends holds two entities of one ID, for every size
  -- and every order of items, timeouts, ends and cancellations.
  pub run-Distinct :
      (es : List (Event T)) → All (HasDistinctIds id) (run (split_on_dup_id id) count es).sent
  unfolding run new_bulker split_on_dup_id
  run-Distinct es =
      (run_from_induction (split_on_dup_id id) count Tracks (λ e b r. handle-Tracks e b) es
        (new_bulker (split_on_dup_id id) count)
        (record { seen = refl; chunks = tt; pending = tt })).chunks
