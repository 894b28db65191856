-- ===== src/Examples/Statements.antt =====
-- Inputs for the statements of database: a table of two columns.
use icinga_go_library.Prelude.{◌≡◌, ◌≢◌, refl, [], ◌∷◌, some, none, codes}
use icinga_go_library.Database.Statements.{
  postgresql, Subject, build_insert_stmt, build_update_stmt, build_upsert_stmt, update_columns,
  constraint_of,
}
use icinga_go_library.Database.Statements.Placeholders.{placeholders, IsName, IsNamed}
use icinga_go_library.Database.Statements.Conflicts.{build_upsert_stmt-placeholders}

abbrev host : Subject
host = record {
  table = codes "host";
  columns = codes "id" ∷ codes "name" ∷ [];
  upsert_columns = some (codes "name" ∷ []);
  constraint = none;
  scope_columns = none;
}

insert_text :
    (build_insert_stmt host).0 ≡ codes "INSERT INTO \"host\" (\"id\", \"name\") VALUES (:id, :name)"
unfolding build_insert_stmt
insert_text = refl

update_text :
    (build_update_stmt host).0
    ≡ codes "UPDATE \"host\" SET \"id\" = :id, \"name\" = :name WHERE id = :id"
unfolding build_update_stmt
update_text = refl

upsert_text :
    (build_upsert_stmt postgresql host).0
    ≡ codes
        "INSERT INTO \"host\" (\"id\", \"name\") VALUES (:id,:name) ON CONFLICT ON CONSTRAINT pk_host DO UPDATE SET \"name\" = EXCLUDED.\"name\""
unfolding build_upsert_stmt
upsert_text = refl

host-IsNamed : IsNamed host
host-IsNamed =
    unfold IsName placeholders update_columns constraint_of in
    record {
      table_name = refl;
      column_names = (refl, (refl, tt));
      update_names = (refl, tt);
      constraint_name = refl;
    }

some_columns : host.columns ≢ []
some_columns e = cc

build_upsert_stmt-placeholders_example :
    placeholders (build_upsert_stmt postgresql host).0 ≡ (build_upsert_stmt postgresql host).1
build_upsert_stmt-placeholders_example =
    build_upsert_stmt-placeholders postgresql host some_columns host-IsNamed
