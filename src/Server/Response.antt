-- ===== src/Server/Response.antt =====
-- src/server.rs: the JSON-RPC responses, and what one handled message gives back.
use mcp_core.Common.{Bool, true, Option, none, some, List, Text, codes}
use mcp_core.Json.{
  Number, Value, bool, number, string, array, object, nil, cons, end, field, value_or_null,
}

pub record Dispatch : Type 0 where
  pub response : Option Value
  pub notifications : List Value

pub data Outcome : Type 0 where
  result : Value → Outcome
  error : Number → Text → Outcome
  nothing : Outcome

unfoldable pub success_response : Option Value → Value → Value
success_response id value = object (
    field (codes "jsonrpc") (string (codes "2.0"))
      (field (codes "id") (value_or_null id) (field (codes "result") value end)))

unfoldable pub error_response : Option Value → Number → Text → Value
error_response id code message = object (
    field (codes "jsonrpc") (string (codes "2.0")) (
      field (codes "id") (value_or_null id) (
        field (codes "error")
          (object
            (field (codes "code") (number code) (field (codes "message") (string message) end)))
          end)))

unfoldable pub tool_error_result : Text → Value
tool_error_result message =
    let block : Value =
      object (
        field (codes "type") (string (codes "text")) (field (codes "text") (string message) end)) in
    object
      (field (codes "isError") (bool true) (field (codes "content") (array (cons block nil)) end))

unfoldable pub finish : Bool → Option Value → Outcome → List Value → Dispatch
finish true id (result v) ns = record {
  response = some (success_response id v);
  notifications = ns;
}
finish true id (error code msg) ns = record {
  response = some (error_response id code msg);
  notifications = ns;
}
finish _ id _ ns = record { response = none; notifications = ns }
