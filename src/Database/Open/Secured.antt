-- ===== src/Database/Open/Secured.antt =====
-- NewDbFromConfig of database/db.go: with TLS enabled, no connection does without it.
use icinga_go_library.Prelude.{
  ◌≡◌, refl, Bool, true, Option, none, some, List, [], ◌∷◌, Text, codes, text_eq, Result, ok, err,
  if◌then◌else◌, arith, Bool-cases, inl, inr,
}
use icinga_go_library.Tls.{
  Tls, Files, TlsConfig, TlsError, make_config, IsSecured, make_config-IsSecured, assembled,
  client_certificates, root_pool,
}
use icinga_go_library.Database.Open.{
  FullConfig, Driver, mysql, pgsql, Db, opened, open_mysql, open_pgsql, pgsql_query, tls_query,
  if_given, new_db_from_config,
}

-- `Values.Get`, with whether there is one
unfoldable pub lookup : Text → List (Text × Text) → Option Text
lookup key [] = none
lookup key ((k, v) ∷ rest) = if text_eq k key then some v else lookup key rest

abbrev pub given : Text → Option Text
given [] = none
given (c ∷ s) = some (c ∷ s)

-- what the connections of a driver use of the TLS settings
abbrev pub UsesTls : {C P B : Type 0} → Files C P B → Driver C P → FullConfig → Type 0
UsesTls {C} {P} files (mysql m) c =
    (t : TlsConfig C P) × (m.tls ≡ some t) × IsSecured files c.tls c.config.host t
UsesTls files (pgsql q) c =
    (lookup (codes "sslmode") q
      ≡ some (if c.tls.insecure then codes "require" else codes "verify-full"))
    × (lookup (codes "sslcert") q ≡ given c.tls.cert)
    × (lookup (codes "sslkey") q ≡ given c.tls.key)
    × (lookup (codes "sslrootcert") q ≡ given c.tls.ca)

given_query :
    (insecure : Bool) (cert key ca host port : Text) (t : Tls)
    → t ≡ record { enable = true; cert = cert; key = key; ca = ca; insecure = insecure }
    → let q : List (Text × Text) =
        (codes "connect_timeout", codes "60")
        ∷ (codes "binary_parameters", codes "yes")
        ∷ (codes "host", host)
        ∷ (codes "port", port)
        ∷ tls_query t in
      (lookup (codes "sslmode") q
        ≡ some (if insecure then codes "require" else codes "verify-full"))
      × (lookup (codes "sslcert") q ≡ given cert)
      × (lookup (codes "sslkey") q ≡ given key)
      × (lookup (codes "sslrootcert") q ≡ given ca)
unfolding lookup tls_query if_given text_eq
given_query insecure [] [] [] host port t e = rw e (refl, refl, refl, refl)
given_query insecure [] [] (c ∷ ca) host port t e = rw e (refl, refl, refl, refl)
given_query insecure [] (k ∷ key) [] host port t e = rw e (refl, refl, refl, refl)
given_query insecure [] (k ∷ key) (c ∷ ca) host port t e = rw e (refl, refl, refl, refl)
given_query insecure (x ∷ cert) [] [] host port t e = rw e (refl, refl, refl, refl)
given_query insecure (x ∷ cert) [] (c ∷ ca) host port t e = rw e (refl, refl, refl, refl)
given_query insecure (x ∷ cert) (k ∷ key) [] host port t e = rw e (refl, refl, refl, refl)
given_query insecure (x ∷ cert) (k ∷ key) (c ∷ ca) host port t e = rw e (refl, refl, refl, refl)

assembled-some :
    {C P : Type 0} (insecure : Bool) (name : Text) (crts : Result TlsError (List C))
    (pool : Result TlsError (Option P)) (o : Option (TlsConfig C P))
    → assembled insecure name crts pool ≡ ok o
    → (x : TlsConfig C P) × (o ≡ some x)
unfolding assembled
assembled-some insecure name (err e) pool o h = cc
assembled-some insecure name (ok crts) (err e) o h = cc
assembled-some insecure name (ok crts) (ok pool) none h = cc
assembled-some insecure name (ok crts) (ok pool) (some x) h = (x, refl)

module _ {C P B E : Type 0} (files : Files C P B) (connector : Driver C P → Option E) where
  opened-driver :
      (c : FullConfig) (shown : Text) (d : Driver C P) (e : Option E) (db : Db C P)
      → opened c shown d e ≡ ok db
      → db.driver ≡ d
  unfolding opened
  opened-driver c shown d none db h = ground arith
  opened-driver c shown d (some e) db h = cc

  make_config-some :
      (t : Tls) (name : Text) (o : Option (TlsConfig C P))
      → t.enable ≡ true
      → make_config files t name ≡ ok o
      → (x : TlsConfig C P) × (o ≡ some x)
  unfolding make_config
  make_config-some t name o on h =
      assembled-some t.insecure name (client_certificates files t.cert t.key)
        (root_pool files t.insecure t.ca) o (rw on at h)

  open_mysql-UsesTls :
      (c : FullConfig) (r : Result TlsError (Option (TlsConfig C P))) (db : Db C P)
      → c.tls.enable ≡ true
      → make_config files c.tls c.config.host ≡ r
      → open_mysql files connector c r ≡ ok db
      → UsesTls files db.driver c
  unfolding open_mysql
  open_mysql-UsesTls c (err e) db on made h = cc
  open_mysql-UsesTls c (ok tls) db on made h =
      let (t, e) = make_config-some c.tls c.config.host tls on made in
      rw (opened-driver c _ _ _ db h)
        (t, e, make_config-IsSecured files c.tls c.config.host t (rw e at made))

  open_pgsql-UsesTls :
      (c : FullConfig) (r : Result TlsError (Option (TlsConfig C P))) (db : Db C P)
      → c.tls.enable ≡ true
      → open_pgsql files connector c r ≡ ok db
      → UsesTls files db.driver c
  unfolding open_pgsql pgsql_query
  open_pgsql-UsesTls c (err e) db on h = cc
  open_pgsql-UsesTls c (ok tls) db on h = rw (opened-driver c _ _ _ db h) (
      given_query c.tls.insecure c.tls.cert c.tls.key c.tls.ca c.config.host _ c.tls (ground arith))

  -- Whatever the files hold and the drivers answer: where TLS is enabled and NewDbFromConfig succeeds, a
  -- MySQL database has a TLS configuration of at least TLS 1.2 that verifies the server as the settings
  -- ask for, with the pool of the file of their CA and the pair of the files of their certificate and key;
  -- and a PostgreSQL database has the sslmode verify-full, or require where the settings are insecure, and
  -- is given the paths of the certificate, the key and the CA that are set, and no other.
  pub new_db_from_config-UsesTls :
      (c : FullConfig) (db : Db C P)
      → c.tls.enable ≡ true
      → new_db_from_config files connector c ≡ ok db
      → UsesTls files db.driver c
  unfolding new_db_from_config
  new_db_from_config-UsesTls c db on h = elim (Bool-cases (text_eq c.config.type (codes "mysql"))) [
    | inl is_mysql ↦
        open_mysql-UsesTls c (make_config files c.tls c.config.host) db on refl (rw is_mysql at h)
    | inr other ↦ elim (Bool-cases (text_eq c.config.type (codes "pgsql"))) [
      | inl is_pgsql ↦
          open_pgsql-UsesTls c (make_config files c.tls c.config.host) db on
            (rw (other, is_pgsql) at h)
      | inr unknown ↦ absurd (ground arith)
    ]
  ]
