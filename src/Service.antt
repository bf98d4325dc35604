-- ===== src/Service.antt =====
-- src/service.rs: what a concrete server provides, and the values that it exchanges with the core.
use mcp_core.Common.{Bool, true, false, Option, none, some, List, [], ◌∷◌, map, Text, codes}
use mcp_core.Json.{Value, bool, string, array, object, Fields, field, end, items, insert}

pub record ToolDef : Type 0 where
  pub name : Text
  pub description : Text
  pub input_schema : Value
  pub annotations : Option Value

unfoldable pub new : Text → Text → Value → ToolDef
new name description input_schema = record {
  name = name;
  description = description;
  input_schema = input_schema;
  annotations = none;
}

unfoldable pub with_annotations : ToolDef → Value → ToolDef
with_annotations t ann = record t { annotations = some ann }

abbrev insert_some : Fields → Text → Option Value → Fields
insert_some fs k none = fs
insert_some fs k (some v) = insert fs k v

unfoldable pub tool_to_json : ToolDef → Value
tool_to_json t =
    let v : Fields = field (codes "name") (string t.name) (
      field (codes "description") (string t.description)
        (field (codes "inputSchema") t.input_schema end)) in
    object (insert_some v (codes "annotations") t.annotations)

pub data Content : Type 0 where
  text : Text → Content
  raw : Value → Content

unfoldable pub content_to_json : Content → Value
content_to_json (text t) =
    object (field (codes "type") (string (codes "text")) (field (codes "text") (string t) end))
content_to_json (raw v) = v

pub record ToolReply : Type 0 where
  pub content : List Content
  pub is_error : Bool
  pub structured_content : Option Value
  pub tools_list_changed : Bool

unfoldable pub text_reply : Text → ToolReply
text_reply s = record {
  content = text s ∷ [];
  is_error = false;
  structured_content = none;
  tools_list_changed = false;
}

unfoldable pub error_reply : Text → ToolReply
error_reply message = record {
  content = text message ∷ [];
  is_error = true;
  structured_content = none;
  tools_list_changed = false;
}

unfoldable pub with_content : ToolReply → List Content → ToolReply
with_content r content = record r { content = content }

unfoldable pub with_structured : ToolReply → Value → ToolReply
with_structured r value = record r { structured_content = some value }

unfoldable pub tools_changed : ToolReply → ToolReply
tools_changed r = record r { tools_list_changed = true }

unfoldable pub to_result_json : ToolReply → Value
unfolding content_to_json
to_result_json r =
    let v : Fields =
      field (codes "content") (array (items (map content_to_json r.content)))
        (field (codes "isError") (bool r.is_error) end) in
    object (insert_some v (codes "structuredContent") r.structured_content)

pub data CallError : Type 0 where
  tool : Text → CallError
  invalid_params : Text → CallError
  internal : Text → CallError

-- `Display`
unfoldable pub call_error_to_string : CallError → Text
call_error_to_string (tool m) = m
call_error_to_string (invalid_params m) = m
call_error_to_string (internal m) = m

-- `From<serde_json::Error>`, by the text of the error.
abbrev pub from_serde : Text → CallError
from_serde e = internal e

-- `Result<ToolReply, CallError>`
pub data CallResult : Type 0 where
  ok : ToolReply → CallResult
  err : CallError → CallResult

-- `ToolReply::json(&value)?` in a method that returns `CallError`, by the two serializers that it
-- calls; a failure of either converts into `Internal`.
pub data Serialized {ℓ} (A : Type ℓ) : Type ℓ where
  done : A → Serialized A
  failed : Text → Serialized A

unfoldable pub json_reply :
    {T : Type 0} → (T → Serialized Value) → (Value → Serialized Text) → T → CallResult
json_reply to_value to_string_pretty value = elim (to_value value) [
  | failed e ↦ err (from_serde e)
  | done v ↦ elim (to_string_pretty v) [
    | failed e ↦ err (from_serde e)
    | done s ↦ ok (record {
      content = text s ∷ [];
      is_error = false;
      structured_content = some v;
      tools_list_changed = false;
    })
  ]
]

-- The trait. `World` is whatever an implementor keeps behind `&self`.
pub record McpService : Type 1 where
  pub World : Type 0
  pub tools : World → List ToolDef
  pub call_tool : World → Text → Value → CallResult × World
  pub shutdown : World → World
