-- ===== src/Auth.antt =====
-- src/auth.rs: who may open a websocket connection. The JWT libraries and the HTTP client are
-- parameters; so is what a header map gives for `Authorization`.
pub mod Bearer
pub mod Token
pub mod Bindings
pub mod Oidc
pub mod Admission
pub mod Configured
pub mod Tests
use mcp_core.Common.{
  Bool, true, false, not, ◌&&◌, Option, none, some, List, [], ◌∷◌, ◌++◌, any, is_empty, Text, codes,
  str_eq, eq_ignore_ascii_case, split_once, trim, trim_end_matches, ◌==◌, if◌then◌else◌,
}
use mcp_core.Config.{WsAuth, no_auth, secret, jwks, oidc_issuer, WsClaimBindings}
use mcp_core.Error.{config, Result, ok, err}
use mcp_core.Utf8.{Bytes, encode}

-- `Result<_, AuthError>` and `Result<_, String>`
pub data Checked (A : Type 0) : Type 0 where
  passed : A → Checked A
  denied : Text → Checked A

-- A header's value: `to_str` gives a text, or fails.
pub data HeaderValue : Type 0 where
  visible : Text → HeaderValue
  opaque : HeaderValue

abbrev pub expected_bearer : Text
expected_bearer = codes "expected `Authorization: Bearer <token>`"

-- `extract_bearer`, from the text of the header on.
unfoldable pub bearer_token : Text → Checked Text
bearer_token value = elim (split_once b' ' value) [
  | none ↦ denied expected_bearer
  | some (scheme, rest) ↦
      if not (eq_ignore_ascii_case scheme (codes "Bearer"))
      then denied expected_bearer
      else if is_empty (trim rest)
      then denied (codes "empty Bearer token")
      else passed (trim rest)
]

unfoldable pub extract_bearer : Option HeaderValue → Checked Text
unfolding bearer_token
extract_bearer none = denied (codes "missing Authorization header")
extract_bearer (some opaque) = denied (codes "invalid Authorization header")
extract_bearer (some (visible value)) = bearer_token value

-- The issuer's part of `check_claim_bindings`: the reason to refuse, if any.
unfoldable pub issuer_fault : Option Text → Option Text → Option Text
issuer_fault none iss = none
issuer_fault (some expected) none =
    some (codes "token is missing the required `iss` claim (" ++ (expected ++ codes ")"))
issuer_fault (some expected) (some iss) =
    if str_eq iss expected
    then none
    else some (codes "issuer mismatch: expected " ++ (expected ++ (codes ", got " ++ iss)))

-- The audience's part.
unfoldable pub audience_fault : Option Text → List Text → Option Text
audience_fault none auds = none
audience_fault (some expected) auds =
    if not (any (λ a. str_eq a expected) auds)
    then some (codes "token `aud` does not contain the required audience " ++ expected)
    else none

abbrev refuse_or : Option Text → Checked (Unit {0}) → Checked (Unit {0})
refuse_or none next = next
refuse_or (some reason) next = denied reason

unfoldable pub check_claim_bindings :
    Bool → Option Text → List Text → WsClaimBindings → Checked (Unit {0})
unfolding issuer_fault audience_fault
check_claim_bindings has_exp iss auds bindings =
    if not has_exp
    then denied (codes "token is missing the required `exp` claim")
    else refuse_or (issuer_fault bindings.issuer iss)
        (refuse_or (audience_fault bindings.audience auds) (passed tt))

-- What the checks read of a verified token.
pub record Claims : Type 0 where
  pub exp : Bool
  pub iss : Option Text
  pub aud : List Text

-- What OIDC discovery comes to: a failure of the client, of the request or of the body, or the two
-- members that are read.
pub data Discovery : Type 0 where
  no_client : Text → Discovery
  no_answer : Text → Discovery
  no_config : Text → Discovery
  found : (jwks_uri issuer : Text) → Discovery

-- `jsonwebtoken`, `jwtk` and `reqwest`, as far as they are called.
pub record Libraries : Type 1 where
  pub Key : Type 0
  pub Validation : Type 0
  pub default_validation : Validation
  pub set_issuer : Validation → List Text → Validation
  pub set_audience : Validation → List Text → Validation
  pub require_claim : Validation → Text → Validation
  pub ignore_audience : Validation → Validation
  pub from_secret : Bytes → Key
  pub decode : Text → Key → Validation → Checked (Unit {0})
  pub Remote : Type 0
  pub remote : Text → Remote
  -- the client keeps keys, and may fetch them again
  pub verify : Remote → Text → Checked Claims × Remote
  pub discover : Text → Discovery

module _ (lib : Libraries) where
  pub record JwksVerifier : Type 0 where
    pub jwks_url : Text
    pub bindings : WsClaimBindings
    pub verifier : Option (lib.Remote)

  pub data Kind : Type 0 where
    open_to_all : Kind
    with_secret : lib.Key → lib.Validation → Kind
    with_jwks : JwksVerifier → Kind

  unfoldable pub from_jwks_url : Text → WsClaimBindings → JwksVerifier
  from_jwks_url jwks_url bindings = record {
    jwks_url = jwks_url;
    bindings = bindings;
    verifier = none;
  }

  abbrev pub without_slash : Text → Text
  without_slash s = trim_end_matches (λ c. c == b'/') s

  -- The `match &bindings.issuer` of `from_oidc_issuer`.
  unfoldable pub bind_issuer : Text → Text → WsClaimBindings → Option Text → Result JwksVerifier
  bind_issuer jwks_uri config_issuer bindings none =
      ok (from_jwks_url jwks_uri (record bindings { issuer = some config_issuer }))
  bind_issuer jwks_uri config_issuer bindings (some explicit) =
      if not (str_eq (without_slash explicit) config_issuer)
      then err (
          config (
            codes "auth: configured expected issuer "
            ++ (explicit ++ (codes " disagrees with OIDC issuer " ++ config_issuer))))
      else ok (from_jwks_url jwks_uri (record bindings { issuer = some config_issuer }))

  -- `from_oidc_issuer` from the answer on.
  unfoldable pub accept_discovery : Text → WsClaimBindings → Discovery → Result JwksVerifier
  accept_discovery issuer_url bindings (no_client e) =
      err (config (codes "auth: building http client: " ++ e))
  accept_discovery issuer_url bindings (no_answer e) =
      err (config (codes "auth: OIDC discovery failed: " ++ e))
  accept_discovery issuer_url bindings (no_config e) =
      err (config (codes "auth: parsing OIDC config: " ++ e))
  accept_discovery issuer_url bindings (found jwks_uri issuer) =
      if not (str_eq (without_slash issuer) issuer_url)
      then err (
          config (
            codes "auth: OIDC issuer mismatch: expected "
            ++ (issuer_url ++ (codes ", got " ++ without_slash issuer))))
      else bind_issuer jwks_uri (without_slash issuer) bindings bindings.issuer

  unfoldable pub from_oidc_issuer : Text → WsClaimBindings → Result JwksVerifier
  from_oidc_issuer issuer_url bindings =
      let url = without_slash issuer_url in
      accept_discovery url bindings
        (lib.discover (url ++ codes "/.well-known/openid-configuration"))

  abbrev require_issuer : Option Text → lib.Validation → lib.Validation
  require_issuer none v = v
  require_issuer (some iss) v = lib.require_claim (lib.set_issuer v (iss ∷ [])) (codes "iss")

  abbrev require_audience : Option Text → lib.Validation → lib.Validation
  require_audience none v = lib.ignore_audience v
  require_audience (some aud) v = lib.require_claim (lib.set_audience v (aud ∷ [])) (codes "aud")

  abbrev jwks_kind : Result JwksVerifier → Result Kind
  jwks_kind (ok v) = ok (with_jwks v)
  jwks_kind (err e) = err e

  -- `Authenticator::from`
  unfoldable pub from : WsAuth → WsClaimBindings → Result Kind
  from no_auth bindings = ok open_to_all
  from (secret s) bindings = ok (
      with_secret (lib.from_secret (encode s)) (
        require_audience bindings.audience (require_issuer bindings.issuer lib.default_validation)))
  from (jwks url) bindings = ok (with_jwks (from_jwks_url url bindings))
  from (oidc_issuer issuer) bindings = jwks_kind (from_oidc_issuer issuer bindings)

  unfoldable pub is_enabled : Kind → Bool
  is_enabled open_to_all = false
  is_enabled _ = true

  -- The verifier is built on its first use, and kept.
  unfoldable pub get_verifier : JwksVerifier → lib.Remote × JwksVerifier
  get_verifier v = elim v.verifier [
    | some r ↦ (r, v)
    | none ↦ (lib.remote v.jwks_url, record v { verifier = some (lib.remote v.jwks_url) })
  ]

  abbrev claims_bound : WsClaimBindings → Checked Claims → Checked (Unit {0})
  claims_bound bindings (denied e) = denied e
  claims_bound bindings (passed c) = check_claim_bindings c.exp c.iss c.aud bindings

  unfoldable pub verify : JwksVerifier → Text → Checked (Unit {0}) × JwksVerifier
  unfolding get_verifier
  verify v token =
      let (r, v') = get_verifier v in
      let (verdict, r') = lib.verify r token in
      (claims_bound v.bindings verdict, record v' { verifier = some r' })

  abbrev explained : Text → Checked (Unit {0}) → Checked (Unit {0})
  explained what (passed x) = passed x
  explained what (denied e) = denied (what ++ e)

  -- `Authenticator::check` from the token on.
  unfoldable pub check_token : Kind → Checked Text → Checked (Unit {0}) × Kind
  unfolding verify
  check_token open_to_all token = (passed tt, open_to_all)
  check_token k (denied e) = (denied e, k)
  check_token (with_secret key validation) (passed token) = (
    explained (codes "JWT validation failed: ") (lib.decode token key validation),
    with_secret key validation,
  )
  check_token (with_jwks v) (passed token) =
      let (r, v') = verify v token in
      (explained (codes "JWT verification failed: ") r, with_jwks v')

  -- `Authenticator::check`
  unfoldable pub check : Kind → Option HeaderValue → Checked (Unit {0}) × Kind
  unfolding check_token
  check k header = check_token k (extract_bearer header)
