-- ===== src/Database/Exec/Transactions.antt =====
-- `ExecTx` of database/db.go, and the transaction that `NamedBulkExecTx` runs for a chunk.
use icinga_go_library.Prelude.{
  ℕ, suc, ◌+◌, ap, subst, ◌≡◌, refl, Option, none, some, List, [], ◌∷◌, ◌++◌, map, length,
  Option-cases, inl, inr, ◌⊎◌, ◌↔◌, arith,
}

-- the calls to the database and to the counter, in order
pub data Call (T : Type 0) : Type 0 where
  begin : Call T
  prepare : Call T
  exec : T → Call T
  commit : Call T
  rollback : Call T
  count : ℕ → Call T

pub data TxError (E : Type 0) : Type 0 where
  cant_start_transaction : E → TxError E
  cant_prepare : E → TxError E
  cant_execute : E → TxError E
  failed : E → TxError E
  cant_commit : E → TxError E

-- what the database answers: `none` is success; the executions are numbered from 0 on
pub record Answers (E : Type 0) : Type 0 where
  pub begin : Option E
  pub prepare : Option E
  pub exec : ℕ → Option E
  pub commit : Option E

abbrev pub Done : (T E : Type 0) → Type 0
Done T E = List (Call T) × Option (TxError E)

module _ {T E : Type 0} where
  -- the calls, then what follows if they have not failed
  unfoldable pub before : List (Call T) → Done T E → Done T E
  before calls (later, result) = (calls ++ later, result)

  -- `tx.Commit`, and what is done if it succeeds
  unfoldable pub finish : Option E → List (Call T) → Done T E
  finish (some e) calls = (commit ∷ [], some (cant_commit e))
  finish none calls = (commit ∷ calls, none)

  -- the loop over the rows of the chunk, from the row of a number on
  unfoldable pub exec_all : (ℕ → Option E) → ℕ → List T → Done T E → Done T E
  unfolding before
  exec_all answer i [] rest = rest
  exec_all answer i (v ∷ vs) rest =
      let later = exec_all answer (suc i) vs rest in
      elim (answer i) [
        | some e ↦ (exec v ∷ [], some (cant_execute e))
        | none ↦ before (exec v ∷ []) later
      ]

  -- The deferred rollback: it comes last, whatever is returned.
  unfoldable pub rolled_back : Done T E → Done T E
  rolled_back (calls, result) = (calls ++ rollback ∷ [], result)

  unfoldable pub begun : Option E → Done T E → Done T E
  unfolding before rolled_back
  begun (some e) body = (begin ∷ [], some (cant_start_transaction e))
  begun none body = before (begin ∷ []) (rolled_back body)

  unfoldable pub prepared : Option E → Done T E → Done T E
  unfolding before
  prepared (some e) rest = (prepare ∷ [], some (cant_prepare e))
  prepared none rest = before (prepare ∷ []) rest

  -- one attempt of `NamedBulkExecTx` at a chunk
  unfoldable pub exec_chunk_tx : Answers E → List T → Done T E
  unfolding begun prepared exec_all finish
  exec_chunk_tx a b =
      begun a.begin
        (prepared a.prepare (exec_all a.exec 0 b (finish a.commit (count (length b) ∷ []))))

  unfoldable pub called : Done T E → Option E → Done T E
  unfolding before finish
  called (calls, some e) commit_answer = (calls, some e)
  called (calls, none) commit_answer = before calls (finish commit_answer [])

  -- `ExecTx`: the function is what it does on the transaction, with its error
  unfoldable pub exec_tx : Option E → Option E → List (Call T) × Option E → Done T E
  unfolding begun called
  exec_tx begin_answer commit_answer (calls, none) =
      begun begin_answer (called (calls, none) commit_answer)
  exec_tx begin_answer commit_answer (calls, some e) =
      begun begin_answer (called (calls, some (failed e)) commit_answer)

-- The rows that are counted.
unfoldable pub counted_in : {T : Type 0} → List (Call T) → ℕ
counted_in [] = 0
counted_in (begin ∷ cs) = counted_in cs
counted_in (prepare ∷ cs) = counted_in cs
counted_in (exec v ∷ cs) = counted_in cs
counted_in (commit ∷ cs) = counted_in cs
counted_in (rollback ∷ cs) = counted_in cs
counted_in (count n ∷ cs) = let rest = counted_in cs in n + rest

-- The executions of a chunk.
abbrev pub execs : {T : Type 0} → List T → List (Call T)
execs b = map exec b

-- The executions of the rows from a number on succeed.
abbrev pub AllSucceed : {T E : Type 0} → (ℕ → Option E) → ℕ → List T → Type 0
AllSucceed answer i [] = Unit
AllSucceed answer i (v ∷ vs) = (answer i ≡ none) × AllSucceed answer (suc i) vs

-- The calls of an attempt that returns an error: a commit is among them only behind all rows, where the
-- commit itself failed; a transaction that was started is rolled back.
abbrev pub EndsBy : {T E : Type 0} → Answers E → List T → TxError E → List (Call T) → Type 0
EndsBy a b (cant_start_transaction e) calls = (a.begin ≡ some e) × (calls ≡ begin ∷ [])
EndsBy a b (cant_prepare e) calls =
    (a.begin ≡ none) × (a.prepare ≡ some e) × (calls ≡ begin ∷ prepare ∷ rollback ∷ [])
EndsBy {T} a b (cant_execute e) calls =
    (vs : List T) × (v : T) × (ws : List T) × (b ≡ vs ++ v ∷ ws)
    × AllSucceed a.exec 0 vs
    × (a.exec (length vs) ≡ some e)
    × (calls ≡ begin ∷ prepare ∷ (execs (vs ++ v ∷ []) ++ rollback ∷ []))
EndsBy a b (failed e) calls = ⊥
EndsBy a b (cant_commit e) calls =
    AllSucceed a.exec 0 b
    × (a.commit ≡ some e)
    × (calls ≡ begin ∷ prepare ∷ ((execs b ++ commit ∷ []) ++ rollback ∷ []))

module _ {T : Type 0} where
  counted_in-append :
      (xs ys : List (Call T)) → counted_in (xs ++ ys) ≡ counted_in xs + counted_in ys
  unfolding counted_in
  counted_in-append [] ys = omega arith
  counted_in-append (begin ∷ xs) ys = counted_in-append xs ys
  counted_in-append (prepare ∷ xs) ys = counted_in-append xs ys
  counted_in-append (exec v ∷ xs) ys = counted_in-append xs ys
  counted_in-append (commit ∷ xs) ys = counted_in-append xs ys
  counted_in-append (rollback ∷ xs) ys = counted_in-append xs ys
  counted_in-append (count n ∷ xs) ys = omega (arith, counted_in-append xs ys)

  counted_in-execs : (vs : List T) → counted_in (execs vs) ≡ 0
  unfolding counted_in
  counted_in-execs [] = refl
  counted_in-execs (v ∷ vs) = counted_in-execs vs

zero_add : {T : Type 0} (vs : List T) → 0 + length vs ≡ length vs
zero_add vs = omega arith

module _ {T E : Type 0} where
  exec_all-cases :
      (answer : ℕ → Option E) (i : ℕ) (b : List T) (rest : Done T E)
      → (AllSucceed answer i b × (exec_all answer i b rest ≡ before (execs b) rest))
        ⊎ ((vs : List T) × (v : T) × (ws : List T) × (e : E) × (b ≡ vs ++ v ∷ ws)
            × AllSucceed answer i vs
            × (answer (i + length vs) ≡ some e)
            × (exec_all answer i b rest ≡ (execs (vs ++ v ∷ []), some (cant_execute e))))
  unfolding exec_all before
  exec_all-cases answer i [] rest = inl (tt, refl)
  exec_all-cases answer i (v ∷ vs) rest = elim (Option-cases (answer i)) [
    | inr (e, h) ↦
        let same : i + 0 ≡ i = omega arith in
        inr ([], v, vs, e, refl, tt, rw same h, rw (exec_all, h) refl)
    | inl h ↦ elim (exec_all-cases answer (suc i) vs rest) [
      | inl (hs, q) ↦ inl ((h, hs), rw (exec_all, h, q) refl)
      | inr (ws, w, us, e, split, hs, x, q) ↦
          let same : i + suc (length ws) ≡ suc i + length ws = omega arith in
          inr
            (v ∷ ws, w, us, e, ap (λ l. v ∷ l) split, (h, hs), rw same x, rw (exec_all, h, q) refl)
    ]
  ]

  -- An attempt of NamedBulkExecTx at a chunk is all or nothing. Either it returns nil: then each row was
  -- executed without an error, in order, between one prepare and one commit, and the rows were counted
  -- behind the commit. Or it returns an error: then no row was counted, the calls end at the one that
  -- failed, but for the rollback of a transaction that was started, and a commit is among them only if all
  -- rows were executed and it is the commit that failed.
  pub exec_chunk_tx-atomic :
      (a : Answers E) (b : List T)
      → (((exec_chunk_tx a b).1 ≡ none)
          × AllSucceed a.exec 0 b
          × ((exec_chunk_tx a b).0
              ≡ begin ∷ prepare ∷ ((execs b ++ commit ∷ count (length b) ∷ []) ++ rollback ∷ [])))
        ⊎ ((e : TxError E) × ((exec_chunk_tx a b).1 ≡ some e)
            × (counted_in (exec_chunk_tx a b).0 ≡ 0)
            × EndsBy a b e (exec_chunk_tx a b).0)
  unfolding exec_chunk_tx begun prepared finish before rolled_back counted_in
  exec_chunk_tx-atomic a b = elim (Option-cases a.begin) [
    | inr (e, h) ↦ rw (begun, h) (inr (cant_start_transaction e, refl, refl, (refl, refl)))
    | inl h ↦ elim (Option-cases a.prepare) [
      | inr (e, k) ↦
          rw (begun, h, prepared, k) (inr (cant_prepare e, refl, refl, (refl, refl, refl)))
      | inl k ↦ elim (exec_all-cases a.exec 0 b (finish a.commit (count (length b) ∷ []))) [
        | inr (vs, v, ws, e, split, hs, x, q) ↦
            rw (begun, h, prepared, k, q)
              (inr (
                cant_execute e,
                refl,
                rw (counted_in-append (execs (vs ++ v ∷ [])), counted_in-execs (vs ++ v ∷ [])) refl,
                (vs, v, ws, split, hs, subst (λ n. a.exec n ≡ some e) (zero_add vs) x, refl),
              ))
        | inl (all, q) ↦ elim (Option-cases a.commit) [
          | inr (e, m) ↦
              rw (begun, h, prepared, k, q, finish, m)
                (inr (
                  cant_commit e,
                  refl,
                  rw
                      (
                        counted_in-append (execs b ++ commit ∷ []),
                        counted_in-append (execs b),
                        counted_in-execs b,
                      )
                      refl,
                  (all, refl, refl),
                ))
          | inl m ↦ rw (begun, h, prepared, k, q, finish, m) (inl (refl, all, refl))
        ]
      ]
    ]
  ]

  -- `ExecTx` returns nil exactly where the transaction could be started, the function returned
  -- nil, the commit succeeded, and the calls are the begin, those of the function, the commit and
  -- the deferred rollback, in this order.
  pub exec_tx_lem :
      (begin_answer commit_answer result : Option E) (calls : List (Call T))
      → ((exec_tx begin_answer commit_answer (calls, result)).1 ≡ none) ↔ (
          (begin_answer ≡ none)
          × (result ≡ none)
          × (commit_answer ≡ none)
          × ((exec_tx begin_answer commit_answer (calls, result)).0
              ≡ begin ∷ ((calls ++ commit ∷ []) ++ rollback ∷ [])))
  unfolding exec_tx begun called finish before rolled_back
  exec_tx_lem none none none calls = (λ h. (refl, refl, refl, refl), λ h. refl)
  exec_tx_lem none (some c) none calls = (λ h. cc, λ (a, b, c, d). cc)
  exec_tx_lem none none (some e) calls = (λ h. cc, λ (a, b, c, d). cc)
  exec_tx_lem none (some c) (some e) calls = (λ h. cc, λ (a, b, c, d). cc)
  exec_tx_lem (some x) c none calls = (λ h. cc, λ (a, b, c, d). cc)
  exec_tx_lem (some x) c (some e) calls = (λ h. cc, λ (a, b, c, d). cc)
