-- ===== src/Mcp/Sanitize.antt =====
-- crates/elasticctl-mcp/src/bounded_io.rs: what the client is shown of a protocol error.
pub mod Shown
use elasticctl.Prelude.{
  ℕ, String, Bool, true, false, ◌||◌, Option, none, some, List, [], ◌∷◌, ◌==◌, if◌then◌else◌,
}
use elasticctl.Json.{
  Number, unsigned, negative, float, Value, null, boolean, number, string, array, object, Fields,
  empty, field, get, JsonMap,
}
use elasticctl.Api.Normalize.{update_entry}

-- a message for each code, and nothing of the error itself
unfoldable pub message_for : Option Value → String
message_for (some (number (negative n))) =
    if (n == 32600) || (n == 32602)
    then "Invalid MCP request"
    else if n == 32601
    then "Unknown MCP tool"
    else if n == 32603
    then "MCP server error"
    else if n == 32700
    then "Invalid JSON-RPC message"
    else "MCP protocol error"
message_for _ = "MCP protocol error"

module _ (J : JsonMap) where
  unfoldable pub sanitize_error : Value → Value
  sanitize_error (object e) =
      object (J.remove "data" (J.insert "message" (string (message_for (get "code" e))) e))
  sanitize_error v = v

  unfoldable pub sanitize_protocol_error : Value → Value
  sanitize_protocol_error (object m) = object (update_entry "error" sanitize_error m)
  sanitize_protocol_error v = v
