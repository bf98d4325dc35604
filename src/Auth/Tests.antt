-- ===== src/Auth/Tests.antt =====
-- src/auth.rs with libraries that accept one token.
use mcp_core.Common.{
  trim_end_matches, ◌++◌, ◌∷◌, true, none, some, [], ◌≡◌, ◌↔◌, refl, Text, codes, str_eq,
  if◌then◌else◌,
}
use mcp_core.Config.{default_bindings, WsClaimBindings, secret}
use mcp_core.Utf8.{Bytes, encode}
use mcp_core.Auth.{
  visible, passed, denied, found, Libraries, Claims, JwksVerifier, with_secret, without_slash,
  from_jwks_url, bind_issuer, accept_discovery, from_oidc_issuer, extract_bearer,
  check_claim_bindings, from, check,
}
use mcp_core.Auth.Bindings.{IsIssuedBy, IsMeantFor, check_claim_bindings_iff}
use mcp_core.Auth.Token.{Brings, extract_bearer-Brings}
use mcp_core.Auth.Bearer.{check-from}
use mcp_core.Auth.Oidc.{from_oidc_issuer-issuer}

abbrev issuer : Text
issuer = codes "https://id.example"

abbrev demo_claims : Claims
demo_claims = record { exp = true; iss = some issuer; aud = codes "mcp" ∷ [] }

abbrev pub one_token : Libraries
one_token = record {
  Key = Bytes;
  Validation = Text;
  default_validation = [];
  set_issuer = λ v iss. v;
  set_audience = λ v aud. v;
  require_claim = λ v c. v ++ c;
  ignore_audience = λ v. v;
  from_secret = λ b. b;
  decode = λ token key v. if str_eq token (codes "good") then passed tt else denied (codes "bad");
  Remote = Text;
  remote = λ url. url;
  verify = λ r token.
      (if str_eq token (codes "good") then passed demo_claims else denied (codes "bad"), r);
  discover = λ url. found (codes "https://id.example/keys") issuer;
}

abbrev bound : WsClaimBindings
bound = record { issuer = some issuer; audience = some (codes "mcp") }

check_claim_bindings_iff_example :
    (check_claim_bindings true (some issuer) (codes "mcp" ∷ []) bound ≡ passed tt) ↔ (
      (true ≡ true)
      × IsIssuedBy (some issuer) (some issuer)
      × IsMeantFor (some (codes "mcp")) (codes "mcp" ∷ []))
check_claim_bindings_iff_example =
    check_claim_bindings_iff true (some issuer) (codes "mcp" ∷ []) bound

extract_bearer-Brings_example :
    (extract_bearer (some (visible (codes "bEaReR  good "))) ≡ passed (codes "good"))
    ↔ Brings (some (visible (codes "bEaReR  good "))) (codes "good")
extract_bearer-Brings_example =
    extract_bearer-Brings (some (visible (codes "bEaReR  good "))) (codes "good")

check-from_example :
    (check one_token (with_secret (encode (codes "s")) []) none).0
    ≡ denied (codes "missing Authorization header")
unfolding from extract_bearer
check-from_example =
    check-from one_token (secret (codes "s")) default_bindings (with_secret (encode (codes "s")) [])
      none refl

abbrev demo_verifier : JwksVerifier one_token
demo_verifier = record {
  jwks_url = codes "https://id.example/keys";
  bindings = record { issuer = some issuer; audience = none };
  verifier = none;
}

from_oidc_issuer-issuer_example :
    demo_verifier.bindings.issuer ≡ some (without_slash one_token (codes "https://id.example/"))
unfolding from_oidc_issuer accept_discovery bind_issuer from_jwks_url str_eq trim_end_matches
from_oidc_issuer-issuer_example =
    from_oidc_issuer-issuer one_token (codes "https://id.example/") default_bindings demo_verifier
      refl
