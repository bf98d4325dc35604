-- ===== src/Auth/Oidc.antt =====
-- The verifiers of src/auth.rs that take their keys from a server.
use mathlib.Core.Path.{subst}
use mcp_core.Common.{
  Option-cases, Option, none, some, ◌≡◌, refl, sym, ap, ◌∙◌, inl, inr, arith, Text, str_eq,
  str_eq_iff, Bool-cases,
}
use mcp_core.Config.{WsClaimBindings}
use mcp_core.Error.{Result, ok, err}
use mcp_core.Auth.{
  Discovery, no_client, no_answer, no_config, found, Libraries, JwksVerifier, from_jwks_url,
  without_slash, bind_issuer, accept_discovery, from_oidc_issuer, get_verifier, verify,
  claims_bound,
}

module _ (lib : Libraries) where
  -- What a verifier that was made expects of a token's issuer; `o` where none was made.
  abbrev issuer_or : Option Text → Result (JwksVerifier lib) → Option Text
  issuer_or o (ok v) = v.bindings.issuer
  issuer_or o (err e) = o

  issuer_or-bind_issuer :
      (uri issuer : Text) (b : WsClaimBindings) (explicit : Option Text)
      → issuer_or (some issuer) (bind_issuer lib uri issuer b explicit) ≡ some issuer
  unfolding bind_issuer from_jwks_url
  issuer_or-bind_issuer uri issuer b none = refl
  issuer_or-bind_issuer uri issuer b (some e) = ground arith

  issuer_or-accept_discovery :
      (url : Text) (b : WsClaimBindings) (d : Discovery)
      → issuer_or (some url) (accept_discovery lib url b d) ≡ some url
  unfolding accept_discovery
  issuer_or-accept_discovery url b (no_client e) = refl
  issuer_or-accept_discovery url b (no_answer e) = refl
  issuer_or-accept_discovery url b (no_config e) = refl
  issuer_or-accept_discovery url b (found uri issuer) =
      elim (Bool-cases (str_eq (without_slash lib issuer) url)) [
        | inr h ↦ rw (h, accept_discovery) refl
        | inl h ↦
            let e = (str_eq_iff (without_slash lib issuer) url).0 h in
            rw (h, accept_discovery) (rw e (issuer_or-bind_issuer uri url b b.issuer))
      ]

  -- A verifier that was made from an OIDC issuer asks every token to be of that issuer, whatever
  -- was configured and whatever the discovery answered.
  pub from_oidc_issuer-issuer :
      (issuer : Text) (bindings : WsClaimBindings) (v : JwksVerifier lib)
      → from_oidc_issuer lib issuer bindings ≡ ok v
      → v.bindings.issuer ≡ some (without_slash lib issuer)
  unfolding from_oidc_issuer
  from_oidc_issuer-issuer issuer bindings v h =
      ap (issuer_or (some (without_slash lib issuer))) (sym h)
      ∙ issuer_or-accept_discovery (without_slash lib issuer) bindings _

  -- A client of an address: one that was built for it, after some tokens that it was asked about.
  pub data ClientOf (url : Text) : lib.Remote → Type 0 where
    built : ClientOf url (lib.remote url)
    asked : {r : lib.Remote} → ClientOf url r → (token : Text) → ClientOf url (lib.verify r token).1

  -- A cached client is one of the keys' address.
  abbrev pub IsCacheOf : Text → Option (lib.Remote) → Type 0
  IsCacheOf url none = Unit
  IsCacheOf url (some r) = ClientOf url r

  get_verifier-ClientOf :
      (v : JwksVerifier lib)
      → IsCacheOf v.jwks_url v.verifier
      → ClientOf v.jwks_url (get_verifier lib v).0
        × ((get_verifier lib v).1.jwks_url ≡ v.jwks_url)
        × ((get_verifier lib v).1.bindings ≡ v.bindings)
  unfolding get_verifier
  get_verifier-ClientOf v h = elim (Option-cases v.verifier) [
    | inl e ↦ rw (e, get_verifier) (built, refl, refl)
    | inr (r, e) ↦ rw (e, get_verifier) (rw e at h, refl, refl)
  ]

  -- Each token is verified by a client of the keys' address, and then held to the bindings, and the
  -- verifier is left ready for the next token.
  pub verify-ClientOf :
      (v : JwksVerifier lib) (token : Text)
      → IsCacheOf v.jwks_url v.verifier
      → (r : lib.Remote) × ClientOf v.jwks_url r
        × ((verify lib v token).0 ≡ claims_bound lib v.bindings (lib.verify r token).0)
        × IsCacheOf (verify lib v token).1.jwks_url (verify lib v token).1.verifier
        × ((verify lib v token).1.jwks_url ≡ v.jwks_url)
        × ((verify lib v token).1.bindings ≡ v.bindings)
  unfolding verify
  verify-ClientOf v token h =
      let (a, c, d) = get_verifier-ClientOf v h in
      (
        (get_verifier lib v).0,
        a,
        refl,
        subst (λ u. ClientOf u (lib.verify (get_verifier lib v).0 token).1) (sym c) (asked a token),
        c,
        d,
      )
