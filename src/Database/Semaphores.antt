-- ===== src/Database/Semaphores.antt =====
-- `GetSemaphoreForTable` of database/db.go: one semaphore for each table, made at the first request. A
-- semaphore is the number of its allocation, as in the store of the program, with its weight.
use icinga_go_library.Prelude.{
  ℕ, suc, ℤ, ◌≡◌, List, [], ◌∷◌, Option, none, some, Text, text_eq, text_eq_iff, text_eq_refl,
  arith, if◌then◌else◌, Bool-cases, Option-cases, inl, inr,
}

pub record Semaphore : Type 0 where
  pub address : ℕ
  pub weight : ℤ

-- `tableSemaphores`, and the address of the next allocation
pub record Semaphores : Type 0 where
  pub entries : List (Text × Semaphore)
  pub next : ℕ

unfoldable pub no_semaphores : Semaphores
no_semaphores = record { entries = []; next = 0 }

unfoldable pub find_semaphore : Text → List (Text × Semaphore) → Option Semaphore
find_semaphore table [] = none
find_semaphore table ((t, s) ∷ es) =
    let rest = find_semaphore table es in if text_eq t table then some s else rest

-- a missing table: `semaphore.NewWeighted` and the assignment to the map
unfoldable pub make_semaphore : ℤ → Text → Semaphores → Semaphore × Semaphores
make_semaphore weight table m =
    let s : Semaphore = record { address = m.next; weight = weight } in
    (s, record { entries = (table, s) ∷ m.entries; next = suc m.next })

unfoldable pub found_or_made : ℤ → Text → Semaphores → Option Semaphore → Semaphore × Semaphores
unfolding make_semaphore
found_or_made weight table m (some s) = (s, m)
found_or_made weight table m none = make_semaphore weight table m

unfoldable pub get_semaphore_for_table : ℤ → Text → Semaphores → Semaphore × Semaphores
unfolding found_or_made find_semaphore
get_semaphore_for_table weight table m =
    found_or_made weight table m (find_semaphore table m.entries)

-- the map after a series of requests
unfoldable pub after_requests : ℤ → Semaphores → List Text → Semaphores
unfolding get_semaphore_for_table
after_requests weight m [] = m
after_requests weight m (t ∷ ts) = after_requests weight (get_semaphore_for_table weight t m).1 ts

find_semaphore_self :
    (table : Text) (s : Semaphore) (es : List (Text × Semaphore))
    → find_semaphore table ((table, s) ∷ es) ≡ some s
unfolding find_semaphore
find_semaphore_self table s es = rw (text_eq_refl table)

find_semaphore-get :
    (weight : ℤ) (t : Text) (m : Semaphores)
    → find_semaphore t (get_semaphore_for_table weight t m).1.entries
      ≡ some (get_semaphore_for_table weight t m).0
unfolding get_semaphore_for_table found_or_made make_semaphore
find_semaphore-get weight t m = elim (Option-cases (find_semaphore t m.entries)) [
  | inl e ↦ rw e (find_semaphore_self t (record { address = m.next; weight = weight }) m.entries)
  | inr (s, e) ↦ rw e e
]

find_semaphore-kept :
    (weight : ℤ) (t u : Text) (m : Semaphores) (s : Semaphore)
    → find_semaphore t m.entries ≡ some s
    → find_semaphore t (get_semaphore_for_table weight u m).1.entries ≡ some s
unfolding get_semaphore_for_table found_or_made make_semaphore find_semaphore
find_semaphore-kept weight t u m s h = elim (Option-cases (find_semaphore u m.entries)) [
  | inl e ↦
      rw e (elim (Bool-cases (text_eq u t)) [
        | inl q ↦ ground (arith, text_eq_iff u t)
        | inr q ↦ rw q h
      ])
  | inr (r, e) ↦ rw e h
]

find_semaphore-after :
    (weight : ℤ) (t : Text) (m : Semaphores) (s : Semaphore) (ts : List Text)
    → find_semaphore t m.entries ≡ some s
    → find_semaphore t (after_requests weight m ts).entries ≡ some s
unfolding after_requests
find_semaphore-after weight t m s [] h = h
find_semaphore-after weight t m s (u ∷ ts) h =
    find_semaphore-after weight t (get_semaphore_for_table weight u m).1 s ts
      (find_semaphore-kept weight t u m s h)

-- Whatever tables are asked for in between, and with whatever weight the second request comes, a table
-- keeps the semaphore of its first request.
pub get_semaphore-stable :
    (weight later : ℤ) (t : Text) (m : Semaphores) (ts : List Text)
    → (get_semaphore_for_table later t
        (after_requests weight (get_semaphore_for_table weight t m).1 ts)).0
      ≡ (get_semaphore_for_table weight t m).0
unfolding get_semaphore_for_table found_or_made
get_semaphore-stable weight later t m ts = rw (
    find_semaphore-after weight t (get_semaphore_for_table weight t m).1
      (get_semaphore_for_table weight t m).0 ts (find_semaphore-get weight t m))
