-- ===== src/Database/YieldAll.antt =====
-- YieldAll and OnSuccessSendTo of database/db.go. What the query, the rows and the context do is an
-- argument; `sends` is how many sends there are before the context ends.
use icinga_go_library.Prelude.{
  ℕ, zero, suc, ◌≤◌, ◌<◌, Option, List, [], ◌∷◌, ◌++◌, map, length, take, ◌≡◌, refl, arith, ap,
  Result, ok, err, ◌⊎◌, inl, inr,
}

pub data SendEnd : Type 0 where
  sent_all context_done : SendEnd

unfoldable pub sent_row : {T : Type 0} → T → List T × SendEnd → List T × SendEnd
sent_row row (rows, e) = (row ∷ rows, e)

-- what the channel takes of the rows, and what is returned
unfoldable pub on_success_send_to : {T : Type 0} → ℕ → List T → List T × SendEnd
unfolding sent_row
on_success_send_to sends [] = ([], sent_all)
on_success_send_to zero (row ∷ rows) = ([], context_done)
on_success_send_to (suc sends) (row ∷ rows) = sent_row row (on_success_send_to sends rows)

-- OnSuccessSendTo sends the rows in order, as many as there are sends before the context ends, and returns
-- nil exactly where that is all of them.
on_success_send_to_lem :
    {T : Type 0} (sends : ℕ) (rows : List T)
    → ((on_success_send_to sends rows).0 ≡ take sends rows)
      × (((on_success_send_to sends rows).1 ≡ sent_all) × (length rows ≤ sends)
          ⊎ ((on_success_send_to sends rows).1 ≡ context_done) × (sends < length rows))
unfolding on_success_send_to sent_row
on_success_send_to_lem zero [] = (refl, inl (refl, omega arith))
on_success_send_to_lem (suc sends) [] = (refl, inl (refl, omega arith))
on_success_send_to_lem zero (row ∷ rows) = (refl, inr (refl, omega arith))
on_success_send_to_lem {T} (suc sends) (row ∷ rows) =
    let (e, h) = on_success_send_to_lem sends rows in
    (
      ap (λ (l : List T). row ∷ l) e,
      elim h [ inl (s, k) ↦ inl (s, omega arith) | inr (s, k) ↦ inr (s, omega arith) ],
    )

-- The rows of a query: what scanning each one gives, and what `rows.Err()` is once there is no next one.
pub record Rows (T E : Type 0) : Type 0 where
  pub scanned : List (Result E T)
  pub error : Option E

pub data YieldEnd (E : Type 0) : Type 0 where
  returned_nil : YieldEnd E
  cant_perform cant_store : E → YieldEnd E
  context_ended : YieldEnd E

-- what the channel of the entities takes, before it is closed, and what is returned
pub record Yielded (T E : Type 0) : Type 0 where
  pub entities : List T
  pub result : YieldEnd E

module _ {T E : Type 0} where
  unfoldable pub yield : T → Yielded T E → Yielded T E
  yield e y = record y { entities = e ∷ y.entities }

  -- the loop over the rows
  unfoldable pub yield_rows : ℕ → List (Result E T) → Yielded T E
  unfolding yield
  yield_rows sends [] = record { entities = []; result = returned_nil }
  yield_rows sends (err e ∷ rest) = record { entities = []; result = cant_store e }
  yield_rows zero (ok t ∷ rest) = record { entities = []; result = context_ended }
  yield_rows (suc sends) (ok t ∷ rest) = yield t (yield_rows sends rest)

  unfoldable pub yield_all : ℕ → Result E (Rows T E) → Yielded T E
  unfolding yield_rows
  yield_all sends (err e) = record { entities = []; result = cant_perform e }
  yield_all sends (ok rows) = yield_rows sends rows.scanned

  -- what the results up to an entity are, and what follows
  yield_rows_lem :
      (sends : ℕ) (rows : List (Result E T))
      → (rest : List (Result E T)) × (rows ≡ map ok (yield_rows sends rows).entities ++ rest)
        × (((yield_rows sends rows).result ≡ returned_nil) × (rest ≡ [])
            ⊎ ((e : E) × (later : List (Result E T)) × ((yield_rows sends rows).result
                  ≡ cant_store e)
                × (rest ≡ err e ∷ later))
            ⊎ ((yield_rows sends rows).result ≡ context_ended)
              × (length (yield_rows sends rows).entities ≡ sends))
  unfolding yield_rows yield
  yield_rows_lem sends [] = ([], refl, inl (refl, refl))
  yield_rows_lem sends (err e ∷ rest) = (err e ∷ rest, refl, inr (inl (e, rest, refl, refl)))
  yield_rows_lem zero (ok t ∷ rest) = (ok t ∷ rest, refl, inr (inr (refl, refl)))
  yield_rows_lem (suc sends) (ok t ∷ rows) =
      let (rest, e, why) = yield_rows_lem sends rows in
      (
        rest,
        ap (λ (l : List (Result E T)). ok t ∷ l) e,
        elim why [
          | inl h ↦ inl h
          | inr (inl h) ↦ inr (inl h)
          | inr (inr (h, n)) ↦ inr (inr (h, ap suc n))
        ],
      )

  entities-le-sends :
      (sends : ℕ) (rows : List (Result E T)) → length (yield_rows sends rows).entities ≤ sends
  unfolding yield_rows yield
  entities-le-sends sends [] = omega arith
  entities-le-sends sends (err e ∷ rest) = omega arith
  entities-le-sends zero (ok t ∷ rest) = omega arith
  entities-le-sends (suc sends) (ok t ∷ rest) = omega (arith, entities-le-sends sends rest)

  -- Of a query that can be performed, YieldAll sends the entities in the order of the rows, never more than
  -- there are sends before the context ends: all of them where it returns nil; those before the first row
  -- that cannot be stored where it returns that row's error; and where the context ended it, as many as
  -- could be sent before. An error that ended the iteration is not looked at: whatever `rows.Err()` is, in
  -- its place another error or none, the same entities are sent, and the same is returned.
  pub yield_all_lem :
      (sends : ℕ) (scanned : List (Result E T)) (error other : Option E)
      → let y = yield_all sends (ok (record { scanned = scanned; error = error })) in
        (yield_all sends (ok (record { scanned = scanned; error = other })) ≡ y)
        × (length y.entities ≤ sends)
        × ((rest : List (Result E T)) × (scanned ≡ map ok y.entities ++ rest)
            × ((y.result ≡ returned_nil) × (rest ≡ [])
                ⊎ ((e : E) × (later : List (Result E T)) × (y.result ≡ cant_store e)
                    × (rest ≡ err e ∷ later))
                ⊎ (y.result ≡ context_ended) × (length y.entities ≡ sends)))
  unfolding yield_all
  yield_all_lem sends scanned error other =
      (refl, entities-le-sends sends scanned, yield_rows_lem sends scanned)
