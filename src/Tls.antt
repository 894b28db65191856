-- ===== src/Tls.antt =====
-- `TLS.MakeConfig` of config/tls.go. What the files hold is an argument: the key pair and the pool of
-- certificates that Go's packages make of them, if they can.
use icinga_go_library.Prelude.{
  ℕ, Bool, true, false, ◌≡◌, ◌≢◌, refl, Option, none, some, List, [], ◌∷◌, Text, Result, ok, err,
  if◌then◌else◌, arith, Bool-cases, inl, inr, ◌⊎◌,
}

pub record Tls : Type 0 where
  pub enable : Bool
  pub cert : Text
  pub key : Text
  pub ca : Text
  pub insecure : Bool

-- `tls.LoadX509KeyPair`, `os.ReadFile` and `AppendCertsFromPEM`; `none` is an error
pub record Files (C P B : Type 0) : Type 0 where
  pub load_pair : Text → Text → Option C
  pub read_file : Text → Option B
  pub parse_pool : B → Option P

-- the fields of `tls.Config` that are set
pub record TlsConfig (C P : Type 0) : Type 0 where
  pub min_version : ℕ
  pub certificates : List C
  pub insecure_skip_verify : Bool
  pub root_cas : Option P
  pub server_name : Text

-- tls.VersionTLS12
abbrev pub version_tls12 : ℕ
version_tls12 = 0x0303

pub data TlsError : Type 0 where
  certificate_missing key_missing cant_load_pair cant_read_ca cant_parse_ca : TlsError

unfoldable pub loaded : {C : Type 0} → Option C → Result TlsError (List C)
loaded none = err cant_load_pair
loaded (some crt) = ok (crt ∷ [])

unfoldable pub parsed : {P : Type 0} → Option P → Result TlsError (Option P)
parsed none = err cant_parse_ca
parsed (some p) = ok (some p)

unfoldable pub assembled :
    {C P : Type 0}
    → Bool
    → Text
    → Result TlsError (List C)
    → Result TlsError (Option P)
    → Result TlsError (Option (TlsConfig C P))
assembled insecure name (err e) pool = err e
assembled insecure name (ok crts) (err e) = err e
assembled insecure name (ok crts) (ok pool) = ok (
    some (record {
      min_version = version_tls12;
      certificates = crts;
      insecure_skip_verify = insecure;
      root_cas = pool;
      server_name = name;
    }))

-- What a configuration that was made has of the settings and of the files at their paths.
pub record IsSecured {C P B : Type 0} (files : Files C P B) (t : Tls) (name : Text)
    (c : TlsConfig C P) : Type 0 where
  pub enabled : t.enable ≡ true
  pub at_least_tls12 : c.min_version ≡ version_tls12
  pub same_verification : c.insecure_skip_verify ≡ t.insecure
  pub same_name : c.server_name ≡ name
  pub own_pool :
      ((t.insecure ≡ true) × (c.root_cas ≡ none))
      ⊎ ((t.insecure ≡ false) × (t.ca ≡ []) × (c.root_cas ≡ none))
      ⊎ ((t.insecure ≡ false)
          × (t.ca ≢ [])
          × ((raw : B) × (p : P) × (files.read_file t.ca ≡ some raw)
              × (files.parse_pool raw ≡ some p)
              × (c.root_cas ≡ some p)))
  pub both_paths :
      ((t.cert ≡ []) × (t.key ≡ []) × (c.certificates ≡ []))
      ⊎ ((t.cert ≢ [])
          × (t.key ≢ [])
          × ((crt : C) × (files.load_pair t.cert t.key ≡ some crt) × (c.certificates ≡ crt ∷ [])))

loaded-cases :
    {C : Type 0} (o : Option C) (crts : List C)
    → loaded o ≡ ok crts
    → (crt : C) × (o ≡ some crt) × (crts ≡ crt ∷ [])
unfolding loaded
loaded-cases none crts h = cc
loaded-cases (some crt) crts h = (crt, refl, cc)

parsed-cases :
    {P : Type 0} (o : Option P) (pool : Option P)
    → parsed o ≡ ok pool
    → (p : P) × (o ≡ some p) × (pool ≡ some p)
unfolding parsed
parsed-cases none pool h = cc
parsed-cases (some p) pool h = (p, refl, cc)

module _ {C P B : Type 0} (files : Files C P B) where
  -- the branches on the paths of the certificate and of the key
  unfoldable pub client_certificates : Text → Text → Result TlsError (List C)
  unfolding loaded
  client_certificates [] [] = ok []
  client_certificates [] (k ∷ key) = err certificate_missing
  client_certificates (c ∷ cert) [] = err key_missing
  client_certificates (c ∷ cert) (k ∷ key) = loaded (files.load_pair (c ∷ cert) (k ∷ key))

  unfoldable pub pool_of : Option B → Result TlsError (Option P)
  unfolding parsed
  pool_of none = err cant_read_ca
  pool_of (some raw) = parsed (files.parse_pool raw)

  -- The pool is none where the one of the system is used, or no verification is wanted.
  unfoldable pub root_pool : Bool → Text → Result TlsError (Option P)
  unfolding pool_of
  root_pool true ca = ok none
  root_pool false [] = ok none
  root_pool false (c ∷ ca) = pool_of (files.read_file (c ∷ ca))

  unfoldable pub make_config : Tls → Text → Result TlsError (Option (TlsConfig C P))
  unfolding client_certificates root_pool assembled
  make_config t name =
      if t.enable
      then assembled t.insecure name (client_certificates t.cert t.key) (root_pool t.insecure t.ca)
      else ok none

  client_certificates-cases :
      (cert key : Text) (crts : List C)
      → client_certificates cert key ≡ ok crts
      → ((cert ≡ []) × (key ≡ []) × (crts ≡ []))
        ⊎ ((cert ≢ [])
            × (key ≢ [])
            × ((crt : C) × (files.load_pair cert key ≡ some crt) × (crts ≡ crt ∷ [])))
  unfolding client_certificates
  client_certificates-cases [] [] crts h = inl (refl, refl, cc)
  client_certificates-cases [] (k ∷ key) crts h = cc
  client_certificates-cases (c ∷ cert) [] crts h = cc
  client_certificates-cases (c ∷ cert) (k ∷ key) crts h =
      inr ((λ q. cc), (λ q. cc), loaded-cases (files.load_pair (c ∷ cert) (k ∷ key)) crts h)

  pool_of-cases :
      (o : Option B) (pool : Option P)
      → pool_of o ≡ ok pool
      → (raw : B) × (p : P) × (o ≡ some raw) × (files.parse_pool raw ≡ some p) × (pool ≡ some p)
  unfolding pool_of
  pool_of-cases none pool h = cc
  pool_of-cases (some raw) pool h =
      let (p, e, q) = parsed-cases (files.parse_pool raw) pool h in (raw, p, refl, e, q)

  root_pool-cases :
      (insecure : Bool) (ca : Text) (pool : Option P)
      → root_pool insecure ca ≡ ok pool
      → ((insecure ≡ true) × (pool ≡ none))
        ⊎ ((insecure ≡ false) × (ca ≡ []) × (pool ≡ none))
        ⊎ ((insecure ≡ false)
            × (ca ≢ [])
            × ((raw : B) × (p : P) × (files.read_file ca ≡ some raw)
                × (files.parse_pool raw ≡ some p)
                × (pool ≡ some p)))
  unfolding root_pool
  root_pool-cases true ca pool h = inl (refl, cc)
  root_pool-cases false [] pool h = inr (inl (refl, refl, cc))
  root_pool-cases false (c ∷ ca) pool h =
      inr (inr (refl, (λ q. cc), pool_of-cases (files.read_file (c ∷ ca)) pool h))

  assembled-cases :
      (insecure : Bool) (name : Text) (crts : Result TlsError (List C))
      (pool : Result TlsError (Option P)) (c : TlsConfig C P)
      → assembled insecure name crts pool ≡ ok (some c)
      → (crts ≡ ok c.certificates)
        × (pool ≡ ok c.root_cas)
        × (c.insecure_skip_verify ≡ insecure)
        × (c.server_name ≡ name)
        × (c.min_version ≡ version_tls12)
  unfolding assembled
  assembled-cases insecure name (err e) pool c h = cc
  assembled-cases insecure name (ok crts) (err e) c h = cc
  assembled-cases insecure name (ok crts) (ok pool) c h = ground arith

  -- Whatever the files hold: a TLS configuration that is made comes from enabled settings, wants at least
  -- TLS 1.2, verifies the server's certificate unless the settings say otherwise, for the given name,
  -- against the pool of the file of the given CA where one is given, and holds the pair that is loaded from
  -- the two paths of the client certificate where both are given, and none where neither is.
  pub make_config-IsSecured :
      (t : Tls) (name : Text) (c : TlsConfig C P)
      → make_config t name ≡ ok (some c)
      → IsSecured files t name c
  unfolding make_config
  make_config-IsSecured t name c h = elim (Bool-cases t.enable) [
    | inr e ↦ absurd (ground arith)
    | inl e ↦
        let made : assembled t.insecure name (client_certificates t.cert t.key)
              (root_pool t.insecure t.ca)
            ≡ ok (some c) =
          ground arith in
        let (crts, pool, verification, same, version) =
          assembled-cases t.insecure name (client_certificates t.cert t.key)
            (root_pool t.insecure t.ca) c made in
        record {
          enabled = e;
          at_least_tls12 = version;
          same_verification = verification;
          same_name = same;
          own_pool = root_pool-cases t.insecure t.ca c.root_cas pool;
          both_paths = client_certificates-cases t.cert t.key c.certificates crts;
        }
  ]
