-- ===== src/Database/Open.antt =====
-- NewDbFromConfig of database/db.go, and what its connections are initialised with. The TLS files and the
-- drivers' constructors are arguments.
pub mod Secured
use icinga_go_library.Prelude.{
  ℕ, zero, suc, ◌+◌, ◌/◌, ℤ, pos, negsuc, eqb_ℤ, Bool, true, false, Option, none, some, List, [],
  ◌∷◌, ◌++◌, map, Text, codes, text_eq, Result, ok, err, if◌then◌else◌, ◌==◌, ◌&&◌,
}
use icinga_go_library.Strconv.{format_int, negated}
use icinga_go_library.Tls.{Tls, Files, TlsConfig, TlsError, make_config}
use icinga_go_library.Utils.{is_unix_addr, net_join_host_port, join_host_port}
use icinga_go_library.Database.Config.{Config, Options}

-- the configuration with the fields that Validate does not check
pub record FullConfig : Type 0 where
  pub config : Config
  pub port : ℤ
  pub password : Text
  pub tls : Tls

pub data OpenError (E : Type 0) : Type 0 where
  unknown_type : Text → OpenError E
  tls_error : TlsError → OpenError E
  cant_open : E → OpenError E

unfoldable pub port_or : ℤ → ℤ → ℤ
port_or default port = if eqb_ℤ port (pos 0) then default else port

-- the method of the logger to which the MySQL driver logs
pub data LogMethod : Type 0 where
  debug : LogMethod

-- what is set in the configuration of the MySQL driver; the timeout is in nanoseconds
pub record MysqlConfig (C P : Type 0) : Type 0 where
  pub user : Text
  pub password : Text
  pub network : Text
  pub address : Text
  pub database : Text
  pub logger : LogMethod
  pub timeout : ℤ
  pub params : List (Text × Text)
  pub tls : Option (TlsConfig C P)

-- the network, the address for the driver, and how it is shown
pub record Endpoint : Type 0 where
  pub network : Text
  pub address : Text
  pub shown : Text

unfoldable pub mysql_endpoint : Text → ℤ → Endpoint
unfolding is_unix_addr net_join_host_port port_or format_int
mysql_endpoint host port =
    if is_unix_addr host
    then record { network = codes "unix"; address = host; shown = codes "(" ++ (host ++ codes ")") }
    else (let address = net_join_host_port host (format_int (port_or (pos 3306) port)) in
        record { network = codes "tcp"; address = address; shown = address })

-- `if t.Cert != "" { query[…] = … }`
unfoldable pub if_given : Text → Text → List (Text × Text)
if_given key [] = []
if_given key (c ∷ s) = (key, c ∷ s) ∷ []

unfoldable pub tls_query : Tls → List (Text × Text)
unfolding if_given
tls_query t =
    if t.enable
    then (codes "sslmode", if t.insecure then codes "require" else codes "verify-full")
      ∷ (if_given (codes "sslcert") t.cert
          ++ (if_given (codes "sslkey") t.key ++ if_given (codes "sslrootcert") t.ca))
    else (codes "sslmode", codes "disable") ∷ []

-- The user, the password and the path of the URI are given beside the query.
unfoldable pub pgsql_query : Text → ℤ → Tls → List (Text × Text)
unfolding port_or tls_query format_int
pgsql_query host port t =
    (codes "connect_timeout", codes "60")
    ∷ (codes "binary_parameters", codes "yes")
    ∷ (codes "host", host)
    ∷ (codes "port", format_int (port_or (pos 5432) port))
    ∷ tls_query t

-- strings.TrimRight with one byte: `seen` is the run of that byte before what is left
unfoldable pub trim_right : ℕ → Text → Text
trim_right b [] = []
trim_right b (c ∷ s) = elim (trim_right b s) [
  | [] ↦ if c == b then [] else c ∷ []
  | d ∷ t ↦ c ∷ d ∷ t
]

unfoldable pub pgsql_shown : Text → ℤ → Text
unfolding is_unix_addr trim_right join_host_port port_or format_int
pgsql_shown host port =
    if is_unix_addr host
    then codes "("
      ++ (trim_right b'/' host
          ++ (codes "/.s.PGSQL." ++ (format_int (port_or (pos 5432) port) ++ codes ")")))
    else join_host_port host (format_int (port_or (pos 5432) port))

unfoldable pub full_addr : FullConfig → Text → Text
full_addr c addr =
    c.config.type
    ++ ((if c.tls.enable then codes "+tls://" else codes "://")
        ++ (c.config.user ++ (codes "@" ++ (addr ++ (codes "/" ++ c.config.database)))))

-- Go's division rounds towards 0.
unfoldable pub third : ℤ → ℤ
unfolding negated
third (pos n) = pos (n / 3)
third (negsuc n) = negated (suc n / 3)

pub data Driver (C P : Type 0) : Type 0 where
  mysql : MysqlConfig C P → Driver C P
  pgsql : List (Text × Text) → Driver C P

pub record Db (C P : Type 0) : Type 0 where
  pub driver : Driver C P
  pub max_idle : ℤ
  pub max_open : ℤ
  pub addr : Text
  pub options : Options

unfoldable pub opened :
    {C P E : Type 0} → FullConfig → Text → Driver C P → Option E → Result (OpenError E) (Db C P)
unfolding third full_addr
opened c shown d (some e) = err (cant_open e)
opened c shown d none = ok (record {
  driver = d;
  max_idle = third c.config.options.max_connections;
  max_open = c.config.options.max_connections;
  addr = full_addr c shown;
  options = c.config.options;
})

module _ {C P B E : Type 0} (files : Files C P B) (connector : Driver C P → Option E) where
  unfoldable pub open_mysql :
      FullConfig → Result TlsError (Option (TlsConfig C P)) → Result (OpenError E) (Db C P)
  unfolding opened mysql_endpoint
  open_mysql c (err e) = err (tls_error e)
  open_mysql c (ok tls) =
      let e = mysql_endpoint c.config.host c.port in
      let d : Driver C P = mysql (record {
        user = c.config.user;
        password = c.password;
        network = e.network;
        address = e.address;
        database = c.config.database;
        logger = debug;
        timeout = pos 60_000_000_000;
        params = (codes "sql_mode", codes "'TRADITIONAL,ANSI_QUOTES'") ∷ [];
        tls = tls;
      }) in
      opened c e.shown d (connector d)

  -- The TLS configuration is made here to find its errors.
  unfoldable pub open_pgsql :
      FullConfig → Result TlsError (Option (TlsConfig C P)) → Result (OpenError E) (Db C P)
  unfolding opened pgsql_query pgsql_shown
  open_pgsql c (err e) = err (tls_error e)
  open_pgsql c (ok tls) =
      let d : Driver C P = pgsql (pgsql_query c.config.host c.port c.tls) in
      opened c (pgsql_shown c.config.host c.port) d (connector d)

  unfoldable pub new_db_from_config : FullConfig → Result (OpenError E) (Db C P)
  unfolding open_mysql open_pgsql make_config
  new_db_from_config c =
      if text_eq c.config.type (codes "mysql")
      then open_mysql c (make_config files c.tls c.config.host)
      else if text_eq c.config.type (codes "pgsql")
      then open_pgsql c (make_config files c.tls c.config.host)
      else err (unknown_type c.config.type)

-- what SET SESSION answers: `unknown_variable` is the error 1193
pub data SetAnswer (E : Type 0) : Type 0 where
  set : SetAnswer E
  unknown_variable : SetAnswer E
  other_error : E → SetAnswer E

unfoldable pub set_session_stmt : Text → Text → Text
set_session_stmt variable value = codes "SET SESSION " ++ (variable ++ (codes "=" ++ value))

unfoldable pub set_session_variable_if_exists : {E : Type 0} → SetAnswer E → Option E
set_session_variable_if_exists set = none
set_session_variable_if_exists unknown_variable = none
set_session_variable_if_exists (other_error e) = some e

-- The callback of a MySQL connection: the one of the caller, if it is set, and then the session variable;
-- with the statements that are executed.
unfoldable pub init_session :
    {E : Type 0} → Option (Option E) → ℤ → SetAnswer E → List Text × Option E
unfolding set_session_stmt set_session_variable_if_exists format_int
init_session (some (some e)) wait answer = ([], some e)
init_session (some none) wait answer = (
  set_session_stmt (codes "wsrep_sync_wait") (format_int wait) ∷ [],
  set_session_variable_if_exists answer,
)
init_session none wait answer = (
  set_session_stmt (codes "wsrep_sync_wait") (format_int wait) ∷ [],
  set_session_variable_if_exists answer,
)
