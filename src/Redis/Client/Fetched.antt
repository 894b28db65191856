-- ===== src/Redis/Client/Fetched.antt =====
-- HMYield and XReadUntilResult of redis/client.go: what is fetched, and how often is tried.
use icinga_go_library.Prelude.{
  ℕ, zero, suc, ◌≤◌, pos, Bool, true, false, Option, none, some, List, [], ◌∷◌, ◌++◌, map, Text,
  length, concat, length-append, ◌≡◌, refl, sym, ap, ◌∙◌, arith, All,
}
use icinga_go_library.Utils.Batches.{AreFull, batch_slice_of_strings_lem, take_all}
use icinga_go_library.Redis.{HPair, Options}
use icinga_go_library.Redis.Client.{
  Sent, batch_sent, send_values, with_pair, with_missing, BatchReply, values, fetch_batch,
  fetch_all, fetched, hmyield, ReadRound, is_tried_again, returned, xread_until_result,
}

-- the fields of a hash that have a value, as pairs, and those that have none
abbrev pub add_found : Text → Option Text → List HPair → List HPair
add_found f none ps = ps
add_found f (some v) ps = record { field = f; value = v } ∷ ps

abbrev pub add_absent : Text → Option Text → List Text → List Text
add_absent f none fs = f ∷ fs
add_absent f (some v) fs = fs

abbrev pub present : (Text → Option Text) → List Text → List HPair
present hash [] = []
present hash (f ∷ fs) = add_found f (hash f) (present hash fs)

abbrev pub absent : (Text → Option Text) → List Text → List Text
absent hash [] = []
absent hash (f ∷ fs) = add_absent f (hash f) (absent hash fs)

-- the server answers from the hash, and the context lives
abbrev pub answers : (Text → Option Text) → List Text → BatchReply
answers hash batch = values (map hash batch) (length batch)

abbrev pub pairs_of : List Sent → List HPair
pairs_of [] = []
pairs_of (s ∷ ss) = s.pairs ++ pairs_of ss

abbrev pub missing_of : List Sent → List Text
missing_of [] = []
missing_of (s ∷ ss) = s.missing ++ missing_of ss

module _ (hash : Text → Option Text) where
  abbrev IsFetched : List Text → Sent → Type 0
  IsFetched batch s =
      (s.pairs ≡ present hash batch) × (s.missing ≡ absent hash batch) × (s.end ≡ batch_sent)

  send_next :
      (f : Text) (o : Option Text) (fs : List Text) (vs : List (Option Text)) (n : ℕ)
      → ((m : ℕ) → n ≤ m → IsFetched fs (send_values fs vs m))
      → (m : ℕ) → suc n ≤ m
      → ((send_values (f ∷ fs) (o ∷ vs) m).pairs ≡ add_found f o (present hash fs))
        × ((send_values (f ∷ fs) (o ∷ vs) m).missing ≡ add_absent f o (absent hash fs))
        × ((send_values (f ∷ fs) (o ∷ vs) m).end ≡ batch_sent)
  unfolding send_values with_pair with_missing
  send_next f none fs vs n h m k =
      let (p, q, r) = h m (omega arith) in (p, ap (λ (l : List Text). f ∷ l) q, r)
  send_next f (some v) fs vs n h zero k = absurd (omega arith)
  send_next f (some v) fs vs n h (suc m) k =
      let (p, q, r) = h m (omega arith) in
      (ap (λ (l : List HPair). record { field = f; value = v } ∷ l) p, q, r)

  send_values-IsFetched :
      (batch : List Text) (m : ℕ)
      → length batch ≤ m
      → IsFetched batch (send_values batch (map hash batch) m)
  send_values-IsFetched [] m h = unfold send_values in (refl, refl, refl)
  send_values-IsFetched (f ∷ fs) m h =
      send_next f (hash f) fs (map hash fs) (length fs) (λ k le. send_values-IsFetched fs k le) m h

  present-append :
      (xs ys : List Text) → present hash (xs ++ ys) ≡ present hash xs ++ present hash ys
  present-append [] ys = refl
  present-append (x ∷ xs) ys =
      ap (add_found x (hash x)) (present-append xs ys)
      ∙ found_out x (hash x) (present hash xs) (present hash ys)
    where
      found_out :
          (f : Text) (o : Option Text) (ps qs : List HPair)
          → add_found f o (ps ++ qs) ≡ add_found f o ps ++ qs
      found_out f none ps qs = refl
      found_out f (some v) ps qs = refl

  absent-append : (xs ys : List Text) → absent hash (xs ++ ys) ≡ absent hash xs ++ absent hash ys
  absent-append [] ys = refl
  absent-append (x ∷ xs) ys =
      ap (add_absent x (hash x)) (absent-append xs ys)
      ∙ absent_out x (hash x) (absent hash xs) (absent hash ys)
    where
      absent_out :
          (f : Text) (o : Option Text) (ps qs : List Text)
          → add_absent f o (ps ++ qs) ≡ add_absent f o ps ++ qs
      absent_out f none ps qs = refl
      absent_out f (some v) ps qs = refl

  fetch_all_lem :
      (bs : List (List Text))
      → (pairs_of (fetch_all (answers hash) bs) ≡ present hash (concat bs))
        × (missing_of (fetch_all (answers hash) bs) ≡ absent hash (concat bs))
        × All (λ s. s.end ≡ batch_sent) (fetch_all (answers hash) bs)
  unfolding fetch_all fetch_batch
  fetch_all_lem [] = (refl, refl, tt)
  fetch_all_lem (b ∷ bs) =
      let (p, q, r) = send_values-IsFetched b (length b) (omega arith) in
      let (ps, qs, rs) = fetch_all_lem bs in
      (
        rw (p, ps) (sym (present-append b (concat bs))),
        rw (q, qs) (sym (absent-append b (concat bs))),
        (r, rs),
      )

AreFull-length :
    (n : ℕ) (bs : List (List Text)) → AreFull (suc n) bs → length bs ≤ length (concat bs)
AreFull-length n [] h = omega arith
AreFull-length n (b ∷ []) h = omega (arith, length-append b [])
AreFull-length n (b ∷ c ∷ bs) (h, hs) =
    omega (arith, AreFull-length n (c ∷ bs) hs, length-append b (concat (c ∷ bs)))

-- If the server answers each HMGET from one hash, and the context lives: whatever the fields, and for each
-- positive number of fields per call, HMYield sends, batch for batch, exactly the fields that have a
-- value, with it, in the order of the fields; it warns of exactly the other ones; and each batch succeeds.
pub hmyield_lem :
    (hash : Text → Option Text) (o : Options) (n : ℕ) (fields : List Text)
    → o.hmget_count ≡ pos (suc n)
    → (sent : List Sent) × (hmyield o fields (length fields) (answers hash) ≡ some sent)
      × (pairs_of sent ≡ present hash fields)
      × (missing_of sent ≡ absent hash fields)
      × All (λ s. s.end ≡ batch_sent) sent
unfolding hmyield fetched
hmyield_lem hash o n fields h =
    let (bs, sliced, whole, full) = batch_slice_of_strings_lem fields n (length fields) in
    let few : length bs ≤ length fields =
      omega (arith, AreFull-length n bs full, ap length whole) in
    let (p, q, r) = fetch_all_lem hash bs in
    (
      fetch_all (answers hash) bs,
      rw (h, sliced, take_all (length fields) bs few) refl,
      p ∙ ap (present hash) whole,
      q ∙ ap (absent hash) whole,
      r,
    )

module _ {S E : Type 0} (retryable : E → Bool) where
  -- the rounds before the one that ends the loop are tried again, the last one is not
  pub xread_until_result_lem :
      (before : List (ReadRound S E)) (r : ReadRound S E) (after : List (ReadRound S E))
      → All (λ x. is_tried_again retryable x ≡ true) before
      → is_tried_again retryable r ≡ false
      → xread_until_result retryable (before ++ (r ∷ after)) ≡ returned retryable r.answer
  unfolding xread_until_result
  xread_until_result_lem [] r after h last = rw last refl
  xread_until_result_lem (x ∷ before) r after (h, hs) last =
      rw h (xread_until_result_lem before r after hs last)
