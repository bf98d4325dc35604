-- ===== src/Auth/Token.antt =====
-- Which headers src/auth.rs takes a bearer token from.
use mathlib.Core.Path.{subst}
use mcp_core.Common.{
  ◌∙◌, ◌↔◌, ap, Bool-cases, inl, inr, ℕ, true, false, not, Option, none, some, [], ◌∷◌, ◌++◌, ◌≡◌,
  refl, all, arith, Text, codes, is_empty, split_once, trim, eq_ignore_ascii_case, ◌==◌,
}
use mcp_core.Auth.{
  Checked, passed, denied, HeaderValue, visible, opaque, bearer_token, extract_bearer,
}

split_once-append :
    (d : ℕ) (s t : Text)
    → all (λ c. not (c == d)) s ≡ true
    → split_once d (s ++ (d ∷ t)) ≡ some (s, t)
unfolding split_once
split_once-append d [] t h = ground arith
split_once-append d (c ∷ s) t h = ground (arith, split_once-append d s t)

-- The parts of a text around its first occurrence of a character.
record IsSplit (d : ℕ) (s a b : Text) : Type 0 where
  whole : s ≡ a ++ (d ∷ b)
  first : all (λ c. not (c == d)) a ≡ true

abbrev IsSplitBy : ℕ → Text → Option (Text × Text) → Type 0
IsSplitBy d s none = Unit
IsSplitBy d s (some (a, b)) = IsSplit d s a b

IsSplitBy-split_once : (d : ℕ) (s : Text) → IsSplitBy d s (split_once d s)
unfolding split_once
IsSplitBy-split_once d [] = tt
IsSplitBy-split_once d (c ∷ s) = elim (Bool-cases (c == d)) [
  | inl e ↦ rw e (record { whole = ap (λ x. x ∷ s) (ground arith); first = refl })
  | inr e ↦ rw e (go (split_once d s) e (IsSplitBy-split_once d s))
]
  where
    go :
        (x : Option (Text × Text))
        → (c == d) ≡ false
        → IsSplitBy d s x
        → IsSplitBy d (c ∷ s) (elim x [ none ↦ none | some (a, b) ↦ some (c ∷ a, b) ])
    go none e h = tt
    go (some (a, b)) e h = record { whole = ap (λ x. c ∷ x) h.whole; first = rw e h.first }

-- A text is the scheme Bearer, in any case of its letters, a space, and a token, which is not empty,
-- between blanks.
pub record IsBearer (value token : Text) : Type 0 where
  pub scheme : Text
  pub rest : Text
  pub parts : value ≡ scheme ++ (b' ' ∷ rest)
  pub one_word : all (λ c. not (c == b' ')) scheme ≡ true
  pub is_bearer : eq_ignore_ascii_case scheme (codes "Bearer") ≡ true
  pub trimmed : trim rest ≡ token
  pub not_empty : is_empty token ≡ false

-- A header is there, is a text, and is that.
abbrev pub Brings : Option HeaderValue → Text → Type 0
Brings none token = false ≡ true
Brings (some opaque) token = false ≡ true
Brings (some (visible value)) token = IsBearer value token

abbrev BringsBy : Text → Checked Text → Type 0
BringsBy value (denied e) = Unit
BringsBy value (passed token) = IsBearer value token

bearer_token-IsBearer : (value : Text) → BringsBy value (bearer_token value)
unfolding bearer_token
bearer_token-IsBearer value = go (split_once b' ' value) refl (IsSplitBy-split_once b' ' value)
  where
    go :
        (x : Option (Text × Text))
        → split_once b' ' value ≡ x
        → IsSplitBy b' ' value x
        → BringsBy value (bearer_token value)
    go none e h = rw (e, bearer_token) tt
    go (some (scheme, rest)) e h =
        elim (Bool-cases (eq_ignore_ascii_case scheme (codes "Bearer"))) [
          | inr k ↦ rw (e, bearer_token) (rw k tt)
          | inl k ↦ elim (Bool-cases (is_empty (trim rest))) [
            | inl n ↦ rw (e, bearer_token) (rw k (rw n tt))
            | inr n ↦
                rw (e, bearer_token)
                  (rw k (
                    rw n (record {
                      scheme = scheme;
                      rest = rest;
                      parts = h.whole;
                      one_word = h.first;
                      is_bearer = k;
                      trimmed = refl;
                      not_empty = n;
                    })))
          ]
        ]

bearer_token-passed :
    (value token : Text) → IsBearer value token → bearer_token value ≡ passed token
unfolding bearer_token
bearer_token-passed value token h =
    let e = ap (split_once b' ') h.parts ∙ split_once-append b' ' h.scheme h.rest h.one_word in
    let n = ap is_empty h.trimmed ∙ h.not_empty in
    rw (e, bearer_token) (rw h.is_bearer (rw n (ap passed h.trimmed)))

-- A token is taken from a header exactly if there is one, it is a text, and that is the scheme
-- Bearer, in any case of its letters, a space, and the token, which is not empty, between blanks.
pub extract_bearer-Brings :
    (header : Option HeaderValue) (token : Text)
    → (extract_bearer header ≡ passed token) ↔ Brings header token
unfolding extract_bearer
extract_bearer-Brings none token = (λ h. ground arith, λ h. ground arith)
extract_bearer-Brings (some opaque) token = (λ h. ground arith, λ h. ground arith)
extract_bearer-Brings (some (visible value)) token =
    (λ h. subst (BringsBy value) h (bearer_token-IsBearer value), bearer_token-passed value token)
