-- ===== src/Database/Config.antt =====
-- `Options.Validate` of database/db.go and `Config.Validate` of database/config.go, with the errors as
-- data: a constructor for each message.
use icinga_go_library.Prelude.{
  ℤ, pos, negsuc, ◌≤ℤ◌, ltb_ℤ, eqb_ℤ, Bool, true, false, ◌||◌, ◌≡◌, ◌≢◌, ◌↔◌, ◌⊎◌, refl, Result, ok,
  err, Text, codes, text_eq, text_eq_iff, [], ◌∷◌, arith, if◌then◌else◌,
}

-- Go's `int` fields; -1 means no limit where the documentation says so.
pub record Options : Type 0 where
  pub max_connections : ℤ
  pub max_connections_per_table : ℤ
  pub max_placeholders_per_statement : ℤ
  pub max_rows_per_transaction : ℤ
  pub wsrep_sync_wait : ℤ

pub data ConfigError : Type 0 where
  max_connections_zero : ConfigError
  max_connections_per_table_small : ConfigError
  max_placeholders_per_statement_small : ConfigError
  max_rows_per_transaction_small : ConfigError
  wsrep_sync_wait_range : ConfigError
  unknown_db_type : Text → ConfigError
  host_missing : ConfigError
  user_missing : ConfigError
  database_missing : ConfigError

unfoldable pub validate_options : Options → Result ConfigError (Unit {0})
validate_options o =
    if eqb_ℤ o.max_connections (pos 0)
    then err max_connections_zero
    else if ltb_ℤ o.max_connections_per_table (pos 1)
    then err max_connections_per_table_small
    else if ltb_ℤ o.max_placeholders_per_statement (pos 1)
    then err max_placeholders_per_statement_small
    else if ltb_ℤ o.max_rows_per_transaction (pos 1)
    then err max_rows_per_transaction_small
    else if ltb_ℤ o.wsrep_sync_wait (pos 0) || ltb_ℤ (pos 15) o.wsrep_sync_wait
    then err wsrep_sync_wait_range
    else ok tt

-- The fields that are checked; the port, the password and the TLS options are not.
pub record Config : Type 0 where
  pub type : Text
  pub host : Text
  pub database : Text
  pub user : Text
  pub options : Options

unfoldable pub is_empty : Text → Bool
is_empty [] = true
is_empty (c ∷ s) = false

unfoldable pub validate : Config → Result ConfigError (Unit {0})
validate c =
    if text_eq c.type (codes "mysql") || text_eq c.type (codes "pgsql")
    then (if is_empty c.host
        then err host_missing
        else if is_empty c.user
        then err user_missing
        else if is_empty c.database
        then err database_missing
        else validate_options c.options)
    else err (unknown_db_type c.type)

-- what the documentation of the options asks for
pub record AreValid (o : Options) : Type 0 where
  pub connections : o.max_connections ≢ pos 0
  pub per_table : pos 1 ≤ℤ o.max_connections_per_table
  pub placeholders : pos 1 ≤ℤ o.max_placeholders_per_statement
  pub rows : pos 1 ≤ℤ o.max_rows_per_transaction
  pub sync_wait_low : pos 0 ≤ℤ o.wsrep_sync_wait
  pub sync_wait_high : o.wsrep_sync_wait ≤ℤ pos 15

eqb_ℤ_zero : (z : ℤ) → (eqb_ℤ z (pos 0) ≡ true) ↔ (z ≡ pos 0)
eqb_ℤ_zero (pos n) = (λ h. ground arith, λ h. ground arith)
eqb_ℤ_zero (negsuc n) = (λ h. cc, λ h. cc)

-- The options are accepted exactly if each limit is in its range: `max_connections` is any number but
-- 0, the other limits are at least 1, and `wsrep_sync_wait` lies between 0 and 15.
pub validate_options-AreValid : (o : Options) → (validate_options o ≡ ok tt) ↔ AreValid o
unfolding validate_options
validate_options-AreValid o = (
  λ h. record {
    connections = λ e. ground (arith, eqb_ℤ_zero o.max_connections);
    per_table = ground arith;
    placeholders = ground arith;
    rows = ground arith;
    sync_wait_low = ground arith;
    sync_wait_high = ground arith;
  },
  λ v. ground (arith, eqb_ℤ_zero o.max_connections),
)

is_empty_iff : (s : Text) → (is_empty s ≡ true) ↔ (s ≡ [])
unfolding is_empty
is_empty_iff [] = (λ h. refl, λ h. refl)
is_empty_iff (c ∷ s) = (λ h. cc, λ h. cc)

-- A configuration is accepted exactly if its type is one of the two databases, host, user and
-- database name are given, and its options are in their ranges: `max_connections` is not 0, the
-- other limits are at least 1, and `wsrep_sync_wait` lies between 0 and 15.
pub validate_lem :
    (c : Config)
    → (validate c ≡ ok tt) ↔ (
        ((c.type ≡ codes "mysql") ⊎ (c.type ≡ codes "pgsql"))
        × (c.host ≢ [])
        × (c.user ≢ [])
        × (c.database ≢ [])
        × AreValid c.options)
unfolding validate
validate_lem c = (
  λ h.
      let passed : validate_options c.options ≡ ok tt = ground arith in
      (
        ground (arith, text_eq_iff c.type (codes "mysql"), text_eq_iff c.type (codes "pgsql")),
        λ e. ground (arith, is_empty_iff c.host),
        λ e. ground (arith, is_empty_iff c.user),
        λ e. ground (arith, is_empty_iff c.database),
        (validate_options-AreValid c.options).0 passed,
      ),
  λ (type, host, user, database, valid).
      let passed : validate_options c.options ≡ ok tt =
        (validate_options-AreValid c.options).1 valid in
      ground (
        arith,
        text_eq_iff c.type (codes "mysql"),
        text_eq_iff c.type (codes "pgsql"),
        is_empty_iff c.host,
        is_empty_iff c.user,
        is_empty_iff c.database,
      ),
)
