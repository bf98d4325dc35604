-- ===== src/Json.antt =====
-- `serde_json::Value` as src/server.rs and src/service.rs use it: built by `json!`, read by `get`,
-- `as_str`, `is_object` and `is_array`, and extended by `v[key] = x`. An object is a list of
-- fields; no code of the crate reads their order. Parsing and printing are not modelled here.
use mcp_core.Common.{
  ℕ, ◌≡◌, refl, Bool, true, false, Option, none, some, List, [], ◌∷◌, arith, Text, str_eq,
  str_eq_iff, and_then, if◌then◌else◌,
}

-- `serde_json::Number`: a non-negative integer, `negative n` for -(n + 1), or the bits of a double.
pub data Number : Type 0 where
  positive : ℕ → Number
  negative : ℕ → Number
  float : ℕ → Number

mutual
  pub data Value : Type 0 where
    null : Value
    bool : Bool → Value
    number : Number → Value
    string : Text → Value
    array : Items → Value
    object : Fields → Value

  pub data Items : Type 0 where
    nil : Items
    cons : Value → Items → Items

  pub data Fields : Type 0 where
    end : Fields
    field : Text → Value → Fields → Fields

-- `Value::Array` of a vector
unfoldable pub items : List Value → Items
items [] = nil
items (v ∷ vs) = cons v (items vs)

unfoldable pub lookup : Fields → Text → Option Value
lookup end k = none
lookup (field j v fs) k = if str_eq j k then some v else lookup fs k

-- `v[k] = x` on an object
unfoldable pub insert : Fields → Text → Value → Fields
insert end k x = field k x end
insert (field j v fs) k x = if str_eq j k then field k x fs else field j v (insert fs k x)

pub lookup-insert :
    (fs : Fields) (k j : Text) (x : Value)
    → lookup (insert fs k x) j ≡ (if str_eq k j then some x else lookup fs j)
unfolding lookup insert
lookup-insert end k j x = refl
lookup-insert (field i v fs) k j x =
    ground (arith, str_eq_iff k j, str_eq_iff i k, str_eq_iff i j, lookup-insert fs k j x)

-- `Value::get` with a key
abbrev pub get : Value → Text → Option Value
get (object fs) k = lookup fs k
get _ k = none

abbrev pub as_str : Value → Option Text
as_str (string s) = some s
as_str _ = none

abbrev pub is_object : Value → Bool
is_object (object fs) = true
is_object _ = false

abbrev pub is_array : Value → Bool
is_array (array xs) = true
is_array _ = false

-- `v.get(k).and_then(Value::as_str)`
abbrev pub get_str : Value → Text → Option Text
get_str v k = and_then (get v k) as_str

-- `json!(id)` of an `Option<Value>`
abbrev pub value_or_null : Option Value → Value
value_or_null none = null
value_or_null (some v) = v
