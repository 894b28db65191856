-- ===== src/Database/Statements/Conflicts.antt =====
-- How many named placeholders the statements of database/db.go hold that say what to do on a conflict:
-- `BuildInsertIgnoreStmt` and `BuildUpsertStmt`.
use icinga_go_library.Prelude.{
  ap, ◌∙◌, ◌≡◌, refl, ◌≢◌, List, [], ◌∷◌, ◌++◌, map, some, Text, codes, length, All, arith,
}
use icinga_go_library.Database.Statements.{
  Driver, mysql, postgresql, Subject, named, insert_into, constraint_of, ignore_clause,
  insert_ignore_with, build_insert_ignore_stmt, update_columns, set_value, upsert_clause,
  build_upsert_stmt,
}
use icinga_go_library.Database.Statements.Placeholders.{
  placeholders, IsName, IsNamed, placeholders-append, placeholders-join, placeholders-insert_into,
}

set_value-IsName : (driver : Driver) (col : Text) → IsName col → IsName (set_value driver col)
unfolding IsName set_value placeholders
set_value-IsName mysql col h = rw (placeholders-append col, placeholders-append col, h) refl
set_value-IsName postgresql col h = rw (placeholders-append col, placeholders-append col, h) refl

set_values-IsName :
    (driver : Driver) (cols : List Text)
    → All IsName cols
    → All IsName (map (set_value driver) cols)
set_values-IsName driver [] h = tt
set_values-IsName driver (c ∷ cs) (hc, hs) =
    (set_value-IsName driver c hc, set_values-IsName driver cs hs)

upsert_clause-IsName :
    (driver : Driver) (s : Subject)
    → IsName (constraint_of s.table s.constraint)
    → IsName (upsert_clause driver s)
unfolding IsName upsert_clause placeholders
upsert_clause-IsName mysql s h = refl
upsert_clause-IsName postgresql s h =
    rw (placeholders-append (constraint_of s.table s.constraint), h) refl

-- The number that `BuildUpsertStmt` returns is the number of placeholders of its statement, for both
-- databases and a subject with at least one column whose names hold no colon: the clause that updates a
-- row on conflict adds none.
pub build_upsert_stmt-placeholders :
    (driver : Driver) (s : Subject)
    → s.columns ≢ []
    → IsNamed s
    → placeholders (build_upsert_stmt driver s).0 ≡ (build_upsert_stmt driver s).1
unfolding build_upsert_stmt placeholders
build_upsert_stmt-placeholders driver s h n =
    let clause : placeholders (upsert_clause driver s) ≡ 0 =
      unfold IsName in upsert_clause-IsName driver s n.constraint_name in
    let values = set_values-IsName driver (update_columns s s.upsert_columns) n.update_names in
    rw
      (
        placeholders-append (insert_into (codes ",:") s),
        placeholders-append (upsert_clause driver s),
        clause,
        placeholders-insert_into (codes ",:") s s.columns refl h n.table_name n.column_names refl,
        placeholders-join (codes ",") 0 (map (set_value driver) (update_columns s s.upsert_columns))
            (unfold IsName in refl) (unfold IsName in values),
      )
      (omega arith)

ignore_clause-IsName :
    (driver : Driver) (s : Subject) (c : Text) (cs : List Text)
    → All IsName (c ∷ cs)
    → IsName (constraint_of s.table s.constraint)
    → (clause : Text) × (ignore_clause driver s (c ∷ cs) ≡ some clause) × IsName clause
unfolding IsName ignore_clause placeholders
ignore_clause-IsName mysql s c cs (hc, hs) h =
    (_, refl, rw (placeholders-append c, placeholders-append c, hc) refl)
ignore_clause-IsName postgresql s c cs hs h =
    (_, refl, rw (placeholders-append (constraint_of s.table s.constraint), h) refl)

insert_ignore_with_lem :
    (driver : Driver) (s : Subject) (cols : List Text)
    → s.columns ≡ cols
    → s.columns ≢ []
    → IsNamed s
    → All IsName cols
    → (stmt : Text) × (build_insert_ignore_stmt driver s ≡ some (stmt, length s.columns))
      × (placeholders stmt ≡ length s.columns)
unfolding build_insert_ignore_stmt insert_ignore_with placeholders
insert_ignore_with_lem driver s [] e h n hs = absurd (h e)
insert_ignore_with_lem driver s (c ∷ cs) e h n hs =
    let (clause, found, named) = ignore_clause-IsName driver s c cs hs n.constraint_name in
    let none_in : placeholders clause ≡ 0 = unfold IsName in named in
    let inserted =
      placeholders-insert_into (codes ", :") s s.columns refl h n.table_name n.column_names refl in
    (
      insert_into (codes ", :") s ++ (codes " " ++ clause),
      ap (insert_ignore_with s) (ap (ignore_clause driver s) e ∙ found),
      rw (placeholders-append (insert_into (codes ", :") s), none_in, inserted) (omega arith),
    )

-- For a subject with at least one column, `BuildInsertIgnoreStmt` returns a statement for both
-- databases, and the number that it returns is the number of placeholders of the statement.
pub build_insert_ignore_stmt-placeholders :
    (driver : Driver) (s : Subject)
    → s.columns ≢ []
    → IsNamed s
    → (stmt : Text) × (build_insert_ignore_stmt driver s ≡ some (stmt, length s.columns))
      × (placeholders stmt ≡ length s.columns)
build_insert_ignore_stmt-placeholders driver s h n =
    insert_ignore_with_lem driver s s.columns refl h n n.column_names
