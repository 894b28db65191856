-- ===== src/Database/Statements.antt =====
-- The statement builders of database/db.go (`BuildInsertStmt` and its siblings), as texts. A subject is what
-- they read of a Go value: `TableName`, the columns that `ColumnMap` gives, and the optional interfaces
-- `Upserter`, `PgsqlOnConflictConstrainter` and `Scoper`.
pub mod Placeholders
pub mod Conflicts
use icinga_go_library.Prelude.{
  ℕ, suc, ◌+◌, List, [], ◌∷◌, ◌++◌, map, Option, none, some, Text, codes, join, length,
}

pub data Driver : Type 0 where
  mysql postgresql : Driver

pub record Subject : Type 0 where
  pub table : Text
  pub columns : List Text
  pub upsert_columns : Option (List Text)
  pub constraint : Option Text
  pub scope_columns : Option (List Text)

-- `"a", "b"`
unfoldable pub quoted : List Text → Text
unfolding join
quoted cols = codes "\"" ++ (join cols (codes "\", \"") ++ codes "\"")

-- `:a, :b`, with the separator that the code joins the names by
unfoldable pub named : Text → List Text → Text
unfolding join
named sep cols = codes ":" ++ join cols sep

-- `"a" = :a`
unfoldable pub assignment : Text → Text
assignment col = codes "\"" ++ (col ++ (codes "\" = :" ++ col))

unfoldable pub build_delete_stmt : Subject → Text
build_delete_stmt s = codes "DELETE FROM \"" ++ (s.table ++ codes "\" WHERE id IN (?)")

-- `INSERT INTO "table" ("a", "b") VALUES (:a, :b)`
unfoldable pub insert_into : Text → Subject → Text
unfolding quoted named
insert_into sep s =
    codes "INSERT INTO \""
    ++ (s.table
        ++ (codes "\" ("
            ++ (quoted s.columns ++ (codes ") VALUES (" ++ (named sep s.columns ++ codes ")")))))

unfoldable pub build_insert_stmt : Subject → Text × ℕ
unfolding insert_into
build_insert_stmt s = (insert_into (codes ", :") s, length s.columns)

-- the constraint of the table, unless the subject names its own
unfoldable pub constraint_of : Text → Option Text → Text
constraint_of table (some c) = c
constraint_of table none = codes "pk_" ++ table

-- The code reads `columns[0]`, which panics where there is no column.
unfoldable pub ignore_clause : Driver → Subject → List Text → Option Text
unfolding constraint_of
ignore_clause mysql s [] = none
ignore_clause mysql s (c ∷ cs) =
    some (codes "ON DUPLICATE KEY UPDATE \"" ++ (c ++ (codes "\" = \"" ++ (c ++ codes "\""))))
ignore_clause postgresql s cols = some (
    codes "ON CONFLICT ON CONSTRAINT "
    ++ (constraint_of s.table s.constraint ++ codes " DO NOTHING"))

unfoldable pub insert_ignore_with : Subject → Option Text → Option (Text × ℕ)
unfolding insert_into
insert_ignore_with s none = none
insert_ignore_with s (some clause) =
    some (insert_into (codes ", :") s ++ (codes " " ++ clause), length s.columns)

-- none where the code panics
unfoldable pub build_insert_ignore_stmt : Driver → Subject → Option (Text × ℕ)
unfolding ignore_clause insert_ignore_with
build_insert_ignore_stmt driver s = insert_ignore_with s (ignore_clause driver s s.columns)

unfoldable pub build_where : List Text → Text × ℕ
unfolding assignment join
build_where cols = (join (map assignment cols) (codes " AND "), length cols)

unfoldable pub scope_clause : Option (List Text) → Text
unfolding build_where
scope_clause none = []
scope_clause (some cols) = codes " WHERE " ++ (build_where cols).0

-- the columns of the one subject from the table of the other
unfoldable pub build_select_stmt : Subject → List Text → Text
unfolding quoted scope_clause
build_select_stmt s cols =
    codes "SELECT "
    ++ (quoted cols
        ++ (codes " FROM \"" ++ (s.table ++ (codes "\"" ++ scope_clause s.scope_columns))))

unfoldable pub build_update_stmt : Subject → Text × ℕ
unfolding assignment join
build_update_stmt s = (
  codes "UPDATE \""
      ++ (s.table
          ++ (codes "\" SET "
              ++ (join (map assignment s.columns) (codes ", ") ++ codes " WHERE id = :id"))),
  suc (length s.columns),
)

unfoldable pub update_columns : Subject → Option (List Text) → List Text
update_columns s none = s.columns
update_columns s (some cols) = cols

unfoldable pub set_value : Driver → Text → Text
set_value mysql col = codes "\"" ++ (col ++ (codes "\" = VALUES(\"" ++ (col ++ codes "\")")))
set_value postgresql col = codes "\"" ++ (col ++ (codes "\" = EXCLUDED.\"" ++ (col ++ codes "\"")))

unfoldable pub upsert_clause : Driver → Subject → Text
unfolding constraint_of
upsert_clause mysql s = codes "ON DUPLICATE KEY UPDATE"
upsert_clause postgresql s =
    codes "ON CONFLICT ON CONSTRAINT "
    ++ (constraint_of s.table s.constraint ++ codes " DO UPDATE SET")

unfoldable pub build_upsert_stmt : Driver → Subject → Text × ℕ
unfolding insert_into update_columns set_value upsert_clause join
build_upsert_stmt driver s = (
  insert_into (codes ",:") s
      ++ (codes " "
          ++ (upsert_clause driver s
              ++ (codes " "
                  ++ join (map (set_value driver) (update_columns s s.upsert_columns))
                      (codes ",")))),
  length s.columns,
)
