-- ===== src/Auth/Configured.antt =====
-- What the configured strategy of src/auth.rs asks of the header of a request.
use mcp_core.Common.{
  Bool-cases, inl, inr, true, false, Option, none, some, [], ◌∷◌, ◌++◌, ◌≡◌, refl, sym, arith, Text,
  codes, str_eq, str_eq_iff,
}
use mathlib.Core.Path.{subst}
use mcp_core.Config.{WsAuth, no_auth, secret, jwks, oidc_issuer, WsClaimBindings}
use mcp_core.Error.{Result, ok, err}
use mcp_core.Utf8.{encode}
use mcp_core.Auth.{
  Discovery, no_client, no_answer, no_config, found, Libraries, Kind, from, jwks_kind,
  without_slash, bind_issuer, accept_discovery, from_oidc_issuer, from_jwks_url,
}
use mcp_core.Auth.Admission.{Header, IsSigned, IsBound, IsAdmitted}

module _ (lib : Libraries) where
  -- What a token signed with the secret must meet, by the configured issuer and audience.
  abbrev pub required : (issuer audience : Option Text) → lib.Validation
  required none none = lib.ignore_audience lib.default_validation
  required (some iss) none =
      lib.ignore_audience
        (lib.require_claim (lib.set_issuer lib.default_validation (iss ∷ [])) (codes "iss"))
  required none (some aud) =
      lib.require_claim (lib.set_audience lib.default_validation (aud ∷ [])) (codes "aud")
  required (some iss) (some aud) =
      lib.require_claim
        (lib.set_audience
          (lib.require_claim (lib.set_issuer lib.default_validation (iss ∷ [])) (codes "iss"))
          (aud ∷ []))
        (codes "aud")

  abbrev pub discovery : Text → Text
  discovery issuer = without_slash lib issuer ++ codes "/.well-known/openid-configuration"

  -- What a strategy, with its claim bindings, asks of a header: nothing; a bearer token that the
  -- secret verifies, with the issuer and the audience that are configured; one that the keys at the
  -- configured address verify, with claims that meet the bindings; or one that the keys which the
  -- issuer names verify, with claims that meet the bindings and of this issuer.
  abbrev pub Admits : WsAuth → WsClaimBindings → Header → Type 0
  Admits no_auth b header = Unit
  Admits (secret s) b header =
      IsSigned lib (lib.from_secret (encode s)) (required b.issuer b.audience) header
  Admits (jwks url) b header = IsBound lib url b header
  Admits (oidc_issuer issuer) b header =
      (uri : Text) × (named : Text) × (lib.discover (discovery issuer) ≡ found uri named)
      × IsBound lib uri (record b { issuer = some (without_slash lib issuer) }) header

  -- An authenticator that was made admits the header.
  abbrev AdmittedBy : Result (Kind lib) → Header → Type 0
  AdmittedBy (ok k) header = IsAdmitted lib k header
  AdmittedBy (err e) header = false ≡ true

  Admits-secret :
      (s : Text) (iss aud : Option Text) (header : Header)
      → let b : WsClaimBindings = record { issuer = iss; audience = aud } in
        AdmittedBy (from lib (secret s) b) header → Admits (secret s) b header
  unfolding from
  Admits-secret s none none header h = h
  Admits-secret s (some i) none header h = h
  Admits-secret s none (some a) header h = h
  Admits-secret s (some i) (some a) header h = h

  IsBound-bind_issuer :
      (uri issuer : Text) (b : WsClaimBindings) (explicit : Option Text) (header : Header)
      → AdmittedBy (jwks_kind lib (bind_issuer lib uri issuer b explicit)) header
      → IsBound lib uri (record b { issuer = some issuer }) header
  unfolding bind_issuer from_jwks_url
  IsBound-bind_issuer uri issuer b none header h = h
  IsBound-bind_issuer uri issuer b (some e) header h =
      elim (Bool-cases (str_eq (without_slash lib e) issuer)) [
        | inl k ↦ rw k at h
        | inr k ↦ absurd (let q = rw k at h in ground arith)
      ]

  Admits-accept_discovery :
      (issuer : Text) (b : WsClaimBindings) (header : Header) (x : Discovery)
      → lib.discover (discovery issuer) ≡ x
      → AdmittedBy (jwks_kind lib (accept_discovery lib (without_slash lib issuer) b x)) header
      → Admits (oidc_issuer issuer) b header
  unfolding accept_discovery
  Admits-accept_discovery issuer b header (no_client e) d h = absurd (ground arith)
  Admits-accept_discovery issuer b header (no_answer e) d h = absurd (ground arith)
  Admits-accept_discovery issuer b header (no_config e) d h = absurd (ground arith)
  Admits-accept_discovery issuer b header (found uri named) d h =
      elim (Bool-cases (str_eq (without_slash lib named) (without_slash lib issuer))) [
        | inr k ↦ absurd (let q = rw k at h in ground arith)
        | inl k ↦
            let e = (str_eq_iff (without_slash lib named) (without_slash lib issuer)).0 k in
            let q = rw k at h in
            (
              uri,
              named,
              d,
              subst (λ i. IsBound lib uri (record b { issuer = some i }) header) e
                  (IsBound-bind_issuer uri (without_slash lib named) b b.issuer header q),
            )
      ]

  Admits-from :
      (auth : WsAuth) (b : WsClaimBindings) (header : Header)
      → AdmittedBy (from lib auth b) header
      → Admits auth b header
  unfolding from from_jwks_url from_oidc_issuer
  Admits-from no_auth b header h = tt
  Admits-from (secret s) b header h = Admits-secret s b.issuer b.audience header h
  Admits-from (jwks url) b header h = h
  Admits-from (oidc_issuer issuer) b header h = Admits-accept_discovery issuer b header _ refl h

  -- What an authenticator admits, the configuration that it was made from admits.
  pub from-Admits :
      (auth : WsAuth) (b : WsClaimBindings) (k : Kind lib) (header : Header)
      → from lib auth b ≡ ok k
      → IsAdmitted lib k header
      → Admits auth b header
  from-Admits auth b k header made h =
      Admits-from auth b header (subst (λ r. AdmittedBy r header) (sym made) h)
