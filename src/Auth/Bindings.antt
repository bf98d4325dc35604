-- ===== src/Auth/Bindings.antt =====
-- The claim policy of src/auth.rs.
use mcp_core.Common.{
  Bool, true, false, Option, none, some, List, ◌≡◌, ◌↔◌, refl, any, arith, Text, str_eq, str_eq_iff,
}
use mcp_core.Config.{WsClaimBindings}
use mcp_core.Auth.{refuse_or, Checked, passed, issuer_fault, audience_fault, check_claim_bindings}

-- A token's issuer is the one that is expected, if one is.
abbrev pub IsIssuedBy : Option Text → Option Text → Type 0
IsIssuedBy none iss = Unit
IsIssuedBy (some expected) iss = iss ≡ some expected

-- A token's audiences have the one that is expected, if one is.
abbrev pub IsMeantFor : Option Text → List Text → Type 0
IsMeantFor none auds = Unit
IsMeantFor (some expected) auds = any (λ a. str_eq a expected) auds ≡ true

issuer_fault_iff :
    (expected iss : Option Text) → (issuer_fault expected iss ≡ none) ↔ IsIssuedBy expected iss
unfolding issuer_fault
issuer_fault_iff none iss = (λ _. tt, λ _. refl)
issuer_fault_iff (some e) none = ground arith
issuer_fault_iff (some e) (some i) = ground (arith, str_eq_iff i e)

audience_fault_iff :
    (expected : Option Text) (auds : List Text)
    → (audience_fault expected auds ≡ none) ↔ IsMeantFor expected auds
unfolding audience_fault
audience_fault_iff none auds = (λ _. tt, λ _. refl)
audience_fault_iff (some e) auds = ground arith

refuse_or_iff :
    (o : Option Text) (next : Checked (Unit {0}))
    → (refuse_or o next ≡ passed tt) ↔ ((o ≡ none) × (next ≡ passed tt))
refuse_or_iff none next = (λ h. (refl, h), λ h. h.1)
refuse_or_iff (some reason) next = (λ h. cc, λ h. let e = h.0 in cc)

-- A token's claims pass exactly if it has an expiry, and its issuer and its audiences are as the
-- bindings ask, where they ask.
pub check_claim_bindings_iff :
    (has_exp : Bool) (iss : Option Text) (auds : List Text) (bindings : WsClaimBindings)
    → (check_claim_bindings has_exp iss auds bindings ≡ passed tt)
      ↔ ((has_exp ≡ true) × IsIssuedBy bindings.issuer iss × IsMeantFor bindings.audience auds)
unfolding check_claim_bindings
check_claim_bindings_iff false iss auds bindings = (λ h. cc, λ h. let e = h.0 in cc)
check_claim_bindings_iff true iss auds bindings =
    let i = issuer_fault_iff bindings.issuer iss in
    let a = audience_fault_iff bindings.audience auds in
    let r =
      refuse_or_iff (issuer_fault bindings.issuer iss)
        (refuse_or (audience_fault bindings.audience auds) (passed tt)) in
    let s = refuse_or_iff (audience_fault bindings.audience auds) (passed tt) in
    (
      λ h. let (x, y) = r.0 h in (refl, i.0 x, a.0 (s.0 y).0),
      λ h. let (_, x, y) = h in r.1 (i.1 x, s.1 (a.1 y, refl)),
    )
