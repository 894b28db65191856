-- ===== src/Retry/Retryable.antt =====
-- `Retryable` of retry/retry.go. An error is the chain that `errors.Unwrap` gives; of each link it is given
-- what `errors.As` and `errors.Is` ask for. Errors that wrap several others are not covered.
use icinga_go_library.Prelude.{
  Bool, true, false, ◌||◌, ◌≡◌, refl, Option, none, some, Text, codes, has_prefix, if◌then◌else◌,
  arith,
}

-- the errors that the code compares with
pub data Sentinel : Type 0 where
  conn_refused no_entry conn_reset host_down host_unreachable net_down net_unreachable pipe :
      Sentinel
  eof unexpected_eof bad_conn invalid_conn : Sentinel

-- `temporary` and `timeout` are what the methods return, if the link has them; `database` is whether it is
-- a `mysql.MySQLError` or a `pq.Error`.
pub record Facts : Type 0 where
  pub temporary : Option Bool
  pub timeout : Option Bool
  pub is_dns : Bool
  pub sentinel : Option Sentinel
  pub database : Bool
  pub message : Text

-- `op` is a `net.OpError` around its `Err`.
pub data Error : Type 0 where
  last : Facts → Error
  wrap : Facts → Error → Error
  op : Facts → Error → Error

abbrev pub facts : Error → Facts
facts (last f) = f
facts (wrap f e) = f
facts (op f e) = f

-- `errors.As` for an interface, and the method of the link that it finds
unfoldable pub or_rest : Option Bool → Bool → Bool
or_rest none rest = rest
or_rest (some b) rest = b

unfoldable pub is_temporary : Error → Bool
unfolding or_rest
is_temporary (last f) = or_rest f.temporary false
is_temporary (wrap f e) = or_rest f.temporary (is_temporary e)
is_temporary (op f e) = or_rest f.temporary (is_temporary e)

unfoldable pub is_timeout : Error → Bool
unfolding or_rest
is_timeout (last f) = or_rest f.timeout false
is_timeout (wrap f e) = or_rest f.timeout (is_timeout e)
is_timeout (op f e) = or_rest f.timeout (is_timeout e)

-- whether a link passes a test
unfoldable pub has_link : (Facts → Bool) → Error → Bool
has_link p (last f) = p f
has_link p (wrap f e) = p f || has_link p e
has_link p (op f e) = p f || has_link p e

-- `err = opError.Err`, of the first `net.OpError` of the chain
unfoldable pub in_op : Error → Option Error
in_op (last f) = none
in_op (wrap f e) = in_op e
in_op (op f e) = some e

unfoldable pub or_self : Error → Option Error → Error
or_self e none = e
or_self e (some inner) = inner

-- the sentinels that the code lists are all that there are here
unfoldable pub is_sentinel : Facts → Bool
is_sentinel f = elim f.sentinel [ none ↦ false | some s ↦ true ]

unfoldable pub is_network_error : Error → Bool
unfolding is_temporary is_timeout has_link
is_network_error e = is_temporary e || is_timeout e || has_link (λ f. f.is_dns) e

unfoldable pub is_known : Error → Bool
unfolding has_link is_sentinel
is_known e = has_link is_sentinel e || has_link (λ f. f.database) e

-- the error that the second half of the checks looks at
unfoldable pub unpacked : Error → Error
unfolding in_op or_self
unpacked e = or_self e (in_op e)

unfoldable pub retryable : Error → Bool
unfolding is_network_error is_known unpacked has_prefix
retryable e =
    if is_network_error e
    then true
    else if is_known (unpacked e)
    then true
    else has_prefix (facts (unpacked e)).message (codes "pq: ")

-- What `errors.Wrap` puts around an error: no methods and no identity of its own.
pub record IsPlain (f : Facts) : Type 0 where
  pub no_temporary : f.temporary ≡ none
  pub no_timeout : f.timeout ≡ none
  pub no_dns : f.is_dns ≡ false
  pub no_sentinel : f.sentinel ≡ none
  pub no_database : f.database ≡ false

is_network_error-wrap :
    (f : Facts) (e : Error) → IsPlain f → is_network_error (wrap f e) ≡ is_network_error e
unfolding is_network_error is_temporary is_timeout has_link or_rest
is_network_error-wrap f e p = rw (p.no_temporary, p.no_timeout, p.no_dns) refl

is_known-wrap : (f : Facts) (e : Error) → IsPlain f → is_known (wrap f e) ≡ is_known e
unfolding is_known has_link is_sentinel
is_known-wrap f e p = rw (p.no_sentinel, p.no_database) refl

-- An error without a `net.OpError`, wrapped by a link that has no methods and no identity of its
-- own, is retryable exactly if the inner error is one of the network or a known one, or the new
-- message starts with "pq: ": the message of the inner error does not count.
pub retryable-wrap :
    (f : Facts) (e : Error)
    → IsPlain f
    → in_op e ≡ none
    → retryable (wrap f e)
      ≡ (is_network_error e || is_known e || has_prefix f.message (codes "pq: "))
unfolding retryable unpacked in_op or_self
retryable-wrap f e p h =
    rw (is_network_error-wrap f e p, h, or_self, is_known-wrap f e p) (ground arith)
