-- ===== src/Auth/Bearer.antt =====
-- What `Authenticator::check` in src/auth.rs makes of a header that brings no token.
use mathlib.Core.Path.{subst}
use mcp_core.Common.{ap, ◌∙◌, sym, Bool, true, false, Option, ◌≡◌, refl, Text}
use mcp_core.Config.{WsAuth, no_auth, secret, jwks, oidc_issuer, WsClaimBindings}
use mcp_core.Error.{Result, ok, err}
use mcp_core.Auth.{
  Checked, Checked, open_to_all, with_secret, with_jwks, JwksVerifier, jwks_kind, from_oidc_issuer,
  passed, denied, HeaderValue, extract_bearer, Libraries, Kind, from, is_enabled, check,
  check_token,
}

abbrev pub demands : WsAuth → Bool
demands no_auth = false
demands _ = true

module _ (lib : Libraries) where
  -- What an authenticator that demands a token, or demands none, makes of what a header brings.
  abbrev pub Judges : Bool → Checked Text → Checked (Unit {0}) → Type 0
  Judges false token verdict = verdict ≡ passed tt
  Judges true (denied e) verdict = verdict ≡ denied e
  Judges true (passed token) verdict = Unit

  Judges-check_token :
      (k : Kind lib) (t : Checked Text) → Judges (is_enabled lib k) t (check_token lib k t).0
  unfolding check_token is_enabled
  Judges-check_token open_to_all t = refl
  Judges-check_token (with_secret key v) (denied e) = refl
  Judges-check_token (with_secret key v) (passed t) = tt
  Judges-check_token (with_jwks v) (denied e) = refl
  Judges-check_token (with_jwks v) (passed t) = tt

  -- Whether an authenticator that was made checks anything; `b` where none was made.
  abbrev enabled_or : Bool → Result (Kind lib) → Bool
  enabled_or b (ok k) = is_enabled lib k
  enabled_or b (err e) = b

  enabled_or-jwks_kind : (r : Result (JwksVerifier lib)) → enabled_or true (jwks_kind lib r) ≡ true
  unfolding is_enabled
  enabled_or-jwks_kind (ok v) = refl
  enabled_or-jwks_kind (err e) = refl

  enabled_or-from :
      (auth : WsAuth) (bindings : WsClaimBindings)
      → enabled_or (demands auth) (from lib auth bindings) ≡ demands auth
  unfolding from is_enabled
  enabled_or-from no_auth bindings = refl
  enabled_or-from (secret s) bindings = refl
  enabled_or-from (jwks url) bindings = refl
  enabled_or-from (oidc_issuer issuer) bindings =
      enabled_or-jwks_kind (from_oidc_issuer lib issuer bindings)

  is_enabled-from :
      (auth : WsAuth) (bindings : WsClaimBindings) (k : Kind lib)
      → from lib auth bindings ≡ ok k
      → is_enabled lib k ≡ demands auth
  is_enabled-from auth bindings k h =
      ap (enabled_or (demands auth)) (sym h) ∙ enabled_or-from auth bindings

  -- An authenticator made for any strategy but none refuses a connection that brings no token, one
  -- with no `Authorization` header or with a header that is not a bearer token, for the reason why
  -- it brings none. One made for none lets every connection in, whatever it brings.
  pub check-from :
      (auth : WsAuth) (bindings : WsClaimBindings) (k : Kind lib) (header : Option HeaderValue)
      → from lib auth bindings ≡ ok k
      → Judges (demands auth) (extract_bearer header) (check lib k header).0
  unfolding check
  check-from auth bindings k header f =
      subst (λ b. Judges b (extract_bearer header) (check lib k header).0)
        (is_enabled-from auth bindings k f) (Judges-check_token k (extract_bearer header))
