-- ===== src/Database/Statements/Placeholders.antt =====
-- How many named placeholders the statements of database/db.go hold, against the number that the builders
-- return. A placeholder is a colon: the names of tables, columns and constraints hold none.
use icinga_go_library.Prelude.{
  length-map, ◌*◌, ℕ, suc, ◌+◌, ◌≡◌, refl, ◌≢◌, List, [], ◌∷◌, ◌++◌, map, Text, codes, join, length,
  All, ◌==◌, if◌then◌else◌, arith,
}
use icinga_go_library.Database.Statements.{
  Subject, quoted, named, assignment, insert_into, build_insert_stmt, constraint_of, build_where,
  build_update_stmt, update_columns,
}

-- the colons of a text
unfoldable pub placeholders : Text → ℕ
placeholders [] = 0
placeholders (c ∷ s) = let rest = placeholders s in if c == 58 then suc rest else rest

unfoldable pub IsName : Text → Type 0
IsName s = placeholders s ≡ 0

pub placeholders-append : (s t : Text) → placeholders (s ++ t) ≡ placeholders s + placeholders t
unfolding placeholders
placeholders-append [] t = omega arith
placeholders-append (c ∷ s) t = ground (arith, placeholders-append s t)

-- joined pieces of `k` placeholders each, with none between them
pub placeholders-join :
    (sep : Text) (k : ℕ) (ps : List Text)
    → IsName sep
    → All (λ p. placeholders p ≡ k) ps
    → placeholders (join ps sep) ≡ k * length ps
unfolding IsName placeholders join
placeholders-join sep k [] h hs = omega arith
placeholders-join sep k (p ∷ []) h (hp, hs) = omega arith
placeholders-join sep k (p ∷ q ∷ ps) h (hp, hs) =
    let rest : placeholders (join (q ∷ ps) sep) ≡ k * length (q ∷ ps) =
      placeholders-join sep k (q ∷ ps) h hs in
    rw (placeholders-append p, placeholders-append sep, hp, h, rest) (omega arith)

-- joined names, with a placeholder between any two
placeholders-join_names :
    (sep : Text) (c : Text) (cs : List Text)
    → placeholders sep ≡ 1
    → IsName c
    → All IsName cs
    → placeholders (join (c ∷ cs) sep) ≡ length cs
unfolding IsName join
placeholders-join_names sep c [] h hc hs = hc
placeholders-join_names sep c (d ∷ ds) h hc (hd, hs) =
    rw
      (
        placeholders-append c,
        placeholders-append sep,
        hc,
        h,
        placeholders-join_names sep d ds h hd hs,
      )
      (omega arith)

IsName-quoted : (cols : List Text) → All IsName cols → IsName (quoted cols)
unfolding IsName quoted placeholders
IsName-quoted cols h =
    rw
      (
        placeholders-append (join cols (codes "\", \"")),
        placeholders-join (codes "\", \"") 0 cols refl h,
      )
      (omega arith)

placeholders-assignment : (col : Text) → IsName col → placeholders (assignment col) ≡ 1
unfolding IsName assignment placeholders
placeholders-assignment col h = rw (placeholders-append col, h)

placeholders-assignments :
    (cols : List Text) → All IsName cols → All (λ p. placeholders p ≡ 1) (map assignment cols)
placeholders-assignments [] h = tt
placeholders-assignments (c ∷ cs) (hc, hs) =
    (placeholders-assignment c hc, placeholders-assignments cs hs)

-- one placeholder for each column of an insert
pub placeholders-insert_into :
    (sep : Text) (s : Subject) (cols : List Text)
    → s.columns ≡ cols
    → s.columns ≢ []
    → IsName s.table
    → All IsName cols
    → placeholders sep ≡ 1
    → placeholders (insert_into sep s) ≡ length s.columns
unfolding IsName insert_into named placeholders
placeholders-insert_into sep s [] e some_column h hs k = absurd (some_column e)
placeholders-insert_into sep s (c ∷ cs) e some_column h hs k =
    rw
      (
        e,
        placeholders-append s.table,
        placeholders-append (quoted (c ∷ cs)),
        placeholders-append (join (c ∷ cs) sep),
        h,
        IsName-quoted (c ∷ cs) hs,
        placeholders-join_names sep c cs k hs.0 hs.1,
      )
      (omega arith)

-- The names of the statements of a subject.
pub record IsNamed (s : Subject) : Type 0 where
  pub table_name : IsName s.table
  pub column_names : All IsName s.columns
  pub update_names : All IsName (update_columns s s.upsert_columns)
  pub constraint_name : IsName (constraint_of s.table s.constraint)

-- The number that `BuildInsertStmt` returns is the number of placeholders of its statement, for a
-- subject with at least one column whose names hold no colon.
pub build_insert_stmt-placeholders :
    (s : Subject)
    → s.columns ≢ []
    → IsNamed s
    → placeholders (build_insert_stmt s).0 ≡ (build_insert_stmt s).1
unfolding build_insert_stmt
build_insert_stmt-placeholders s h n =
    placeholders-insert_into (codes ", :") s s.columns refl h n.table_name n.column_names
      (unfold placeholders in refl)

-- The number that `BuildUpdateStmt` returns is the number of placeholders of its statement, the id in the
-- condition included, for a subject whose names hold no colon.
pub build_update_stmt-placeholders :
    (s : Subject) → IsNamed s → placeholders (build_update_stmt s).0 ≡ (build_update_stmt s).1
unfolding build_update_stmt placeholders
build_update_stmt-placeholders s n =
    let table : placeholders s.table ≡ 0 = unfold IsName in n.table_name in
    rw
      (
        placeholders-append s.table,
        placeholders-append (join (map assignment s.columns) (codes ", ")),
        table,
        placeholders-join (codes ", ") 1 (map assignment s.columns) (unfold IsName in refl)
            (placeholders-assignments s.columns n.column_names),
        length-map,
      )
      (omega arith)

-- The number that `BuildWhere` returns is the number of placeholders of its clause, for any list of
-- columns whose names hold no colon, the empty one too.
pub build_where-placeholders :
    (cols : List Text) → All IsName cols → placeholders (build_where cols).0 ≡ (build_where cols).1
unfolding build_where
build_where-placeholders cols h =
    rw
      (
        placeholders-join (codes " AND ") 1 (map assignment cols)
            (unfold IsName placeholders in refl) (placeholders-assignments cols h),
        length-map,
      )
      (omega arith)
