-- ===== src/Auth/Admission.antt =====
-- What a successful `Authenticator::check` in src/auth.rs says of the header.
use mathlib.Core.Path.{subst}
use mcp_core.Common.{
  arith, str_eq, Bool-cases, inl, inr, Option, none, some, false, true, ◌≡◌, refl, ◌∙◌, Text, codes,
}
use mcp_core.Config.{WsAuth, no_auth, secret, jwks, oidc_issuer, WsClaimBindings}
use mcp_core.Error.{Result, ok, err}
use mcp_core.Auth.{
  found, no_config, no_answer, no_client, Discovery, without_slash, HeaderValue, Checked, passed,
  denied, Libraries, Claims, Kind, open_to_all, with_secret, with_jwks, JwksVerifier, from, check,
  check_token, explained, claims_bound, extract_bearer, check_claim_bindings, jwks_kind,
  from_oidc_issuer, accept_discovery, bind_issuer, from_jwks_url,
}
use mcp_core.Auth.Oidc.{ClientOf, IsCacheOf, verify-ClientOf}

abbrev pub Header : Type 0
Header = Option HeaderValue

module _ (lib : Libraries) where
  -- A header carries a bearer token that the secret's key verifies.
  abbrev pub IsSigned : lib.Key → lib.Validation → Header → Type 0
  IsSigned key v header =
      (token : Text) × (extract_bearer header ≡ passed token) × (lib.decode token key v ≡ passed tt)

  -- A header carries a bearer token that a client of the key set at an address verifies, with claims
  -- that meet the bindings.
  abbrev pub IsBound : Text → WsClaimBindings → Header → Type 0
  IsBound url bindings header =
      (token : Text) × (claims : Claims) × (r : lib.Remote) × (extract_bearer header ≡ passed token)
      × ClientOf lib url r
      × ((lib.verify r token).0 ≡ passed claims)
      × (check_claim_bindings claims.exp claims.iss claims.aud bindings ≡ passed tt)

  -- What an authenticator asks of a header.
  abbrev pub IsAdmitted : Kind lib → Header → Type 0
  IsAdmitted open_to_all header = Unit
  IsAdmitted (with_secret key v) header = IsSigned key v header
  IsAdmitted (with_jwks v) header = IsBound v.jwks_url v.bindings header

  -- An authenticator and another that asks the same, its cache filled or not.
  abbrev pub IsSame : Kind lib → Kind lib → Type 0
  IsSame open_to_all k = k ≡ open_to_all
  IsSame (with_secret key v) k = k ≡ with_secret key v
  IsSame (with_jwks v) (with_jwks v') =
      IsCacheOf lib v'.jwks_url v'.verifier
      × (v'.jwks_url ≡ v.jwks_url)
      × (v'.bindings ≡ v.bindings)
  IsSame (with_jwks v) _ = false ≡ true

  abbrev pub Grants : Kind lib → Header → Checked (Unit {0}) → Type 0
  Grants k header (denied e) = Unit
  Grants k header (passed x) = IsAdmitted k header

  explained-signed :
      (what : Text) (key : lib.Key) (v : lib.Validation) (header : Header) (token : Text)
      (r : Checked (Unit {0}))
      → extract_bearer header ≡ passed token
      → lib.decode token key v ≡ r
      → Grants (with_secret key v) header (explained lib what r)
  explained-signed what key v header token (denied e) h k = tt
  explained-signed what key v header token (passed x) h k = (token, h, k)

  explained-bound :
      (what : Text) (v : JwksVerifier lib) (header : Header) (token : Text) (client : lib.Remote)
      (r : Checked Claims)
      → extract_bearer header ≡ passed token
      → ClientOf lib v.jwks_url client
      → (lib.verify client token).0 ≡ r
      → Grants (with_jwks v) header (explained lib what (claims_bound lib v.bindings r))
  explained-bound what v header token client (denied e) h o k = tt
  explained-bound what v header token client (passed c) h o k =
      go (check_claim_bindings c.exp c.iss c.aud v.bindings) refl
    where
      go :
          (r : Checked (Unit {0}))
          → check_claim_bindings c.exp c.iss c.aud v.bindings ≡ r
          → Grants (with_jwks v) header (explained lib what r)
      go (denied e) q = tt
      go (passed x) q = (token, c, client, h, o, k, q)

  check_token-Grants :
      (k : Kind lib) (header : Header) (t : Checked Text)
      → IsSame k k
      → extract_bearer header ≡ t
      → Grants k header (check_token lib k t).0 × IsSame k (check_token lib k t).1
  unfolding check_token
  check_token-Grants open_to_all header t s h = (tt, refl)
  check_token-Grants (with_secret key v) header (denied e) s h = (tt, refl)
  check_token-Grants (with_jwks v) header (denied e) s h = (tt, s)
  check_token-Grants (with_secret key v) header (passed token) s h =
      (explained-signed (codes "JWT validation failed: ") key v header token _ h refl, refl)
  check_token-Grants (with_jwks v) header (passed token) s h =
      let (r, o, a, b, c, d) = verify-ClientOf lib v token s.0 in
      (
        rw a (explained-bound (codes "JWT verification failed: ") v header token r _ h o refl),
        (b, c, d),
      )

  pub check-Grants :
      (k : Kind lib) (header : Header)
      → IsSame k k
      → Grants k header (check lib k header).0 × IsSame k (check lib k header).1
  unfolding check
  check-Grants k header s = check_token-Grants k header (extract_bearer header) s refl

  pub IsSame-ready : (k k' : Kind lib) → IsSame k k' → IsSame k' k'
  IsSame-ready open_to_all k' s = rw s refl
  IsSame-ready (with_secret key v) k' s = rw s refl
  IsSame-ready (with_jwks v) (with_jwks v') (c, u, b) = (c, refl, refl)
  IsSame-ready (with_jwks v) open_to_all s = absurd (ground arith)
  IsSame-ready (with_jwks v) (with_secret key w) s = absurd (ground arith)

  pub IsSame-IsAdmitted :
      (k k' : Kind lib) (header : Header) → IsSame k k' → IsAdmitted k' header → IsAdmitted k header
  IsSame-IsAdmitted open_to_all k' header s h = tt
  IsSame-IsAdmitted (with_secret key v) k' header s h = subst (λ k. IsAdmitted k header) s h
  IsSame-IsAdmitted (with_jwks v) (with_jwks v') header (c, u, b) h =
      subst (λ x. IsBound x v.bindings header) u (subst (λ x. IsBound v'.jwks_url x header) b h)
  IsSame-IsAdmitted (with_jwks v) open_to_all header s h = absurd (ground arith)
  IsSame-IsAdmitted (with_jwks v) (with_secret key w) header s h = absurd (ground arith)

  pub IsSame-trans : (k k' k'' : Kind lib) → IsSame k k' → IsSame k' k'' → IsSame k k''
  IsSame-trans open_to_all k' k'' s t = let u = subst (λ k. IsSame k k'') s t in u
  IsSame-trans (with_secret key v) k' k'' s t = let u = subst (λ k. IsSame k k'') s t in u
  IsSame-trans (with_jwks v) (with_jwks v') (with_jwks v'') (c, u, b) (c', u', b') =
      (c', u' ∙ u, b' ∙ b)
  IsSame-trans (with_jwks v) (with_jwks v') open_to_all s t = absurd (ground arith)
  IsSame-trans (with_jwks v) (with_jwks v') (with_secret key w) s t = absurd (ground arith)
  IsSame-trans (with_jwks v) open_to_all k'' s t = absurd (ground arith)
  IsSame-trans (with_jwks v) (with_secret key w) k'' s t = absurd (ground arith)

  -- What has just been made is ready to be asked.
  abbrev pub IsReady : Result (Kind lib) → Type 0
  IsReady (ok k) = IsSame k k
  IsReady (err e) = Unit

  abbrev IsUncached : Result (JwksVerifier lib) → Type 0
  IsUncached (ok v) = IsCacheOf lib v.jwks_url v.verifier
  IsUncached (err e) = Unit

  bind_issuer-IsUncached :
      (uri issuer : Text) (b : WsClaimBindings) (explicit : Option Text)
      → IsUncached (bind_issuer lib uri issuer b explicit)
  unfolding bind_issuer from_jwks_url
  bind_issuer-IsUncached uri issuer b none = tt
  bind_issuer-IsUncached uri issuer b (some e) =
      elim (Bool-cases (str_eq (without_slash lib e) issuer)) [ inl h ↦ rw h tt | inr h ↦ rw h tt ]

  accept_discovery-IsUncached :
      (url : Text) (b : WsClaimBindings) (x : Discovery) → IsUncached (accept_discovery lib url b x)
  unfolding accept_discovery
  accept_discovery-IsUncached url b (no_client e) = tt
  accept_discovery-IsUncached url b (no_answer e) = tt
  accept_discovery-IsUncached url b (no_config e) = tt
  accept_discovery-IsUncached url b (found uri issuer) =
      elim (Bool-cases (str_eq (without_slash lib issuer) url)) [
        | inr h ↦ rw (h, accept_discovery) tt
        | inl h ↦ rw (h, accept_discovery) (bind_issuer-IsUncached uri _ b b.issuer)
      ]

  jwks_kind-IsReady : (r : Result (JwksVerifier lib)) → IsUncached r → IsReady (jwks_kind lib r)
  jwks_kind-IsReady (ok v) h = (h, refl, refl)
  jwks_kind-IsReady (err e) h = tt

  pub from-IsReady : (auth : WsAuth) (bindings : WsClaimBindings) → IsReady (from lib auth bindings)
  unfolding from from_oidc_issuer from_jwks_url
  from-IsReady no_auth bindings = refl
  from-IsReady (secret s) bindings = refl
  from-IsReady (jwks url) bindings = (tt, refl, refl)
  from-IsReady (oidc_issuer issuer) bindings =
      jwks_kind-IsReady _ (accept_discovery-IsUncached _ bindings _)
