-- ===== src/Mcp/Sanitize/Shown.antt =====
-- What is left of an error, and what is not.
use elasticctl.Prelude.{String, ◌≡◌, false, Option, none, some, arith, if◌then◌else◌}
use elasticctl.Prelude.Order.{◌=?◌, string_ord}
use elasticctl.Json.{Value, string, object, Fields, get, get_key, JsonMap}
use elasticctl.Api.Normalize.Entries.{get-update_entry}
use elasticctl.Mcp.Sanitize.{message_for, sanitize_error, sanitize_protocol_error}

-- the entries of an error as the client sees them
abbrev pub shown_entry : String → Fields → Option Value
shown_entry k e =
    if k =? "data"
    then none
    else if k =? "message"
    then some (string (message_for (get "code" e)))
    else get k e

-- Of an error in a message, the client sees a text that depends on its code alone in place of its own,
-- none of its data, and every other entry; the rest of the message stays.
pub sanitize_protocol_error-shown :
    (J : JsonMap) (m e : Fields)
    → get "error" m ≡ some (object e)
    → (e' : Fields) × (get_key "error" (sanitize_protocol_error J (object m)) ≡ some (object e'))
      × ((k : String) → get k e' ≡ shown_entry k e)
      × ((k : String)
          → (k =? "error") ≡ false
          → get_key k (sanitize_protocol_error J (object m)) ≡ get k m)
unfolding sanitize_protocol_error sanitize_error
sanitize_protocol_error-shown J m e h =
    let written = J.insert "message" (string (message_for (get "code" e))) e in
    (
      J.remove "data" written,
      cc (get-update_entry "error" "error" (sanitize_error J) m, h),
      λ k. cc (
        J.get-remove k "data" written,
        J.get-insert k "message" (string (message_for (get "code" e))) e,
      ),
      λ k other. ground (arith, other, get-update_entry k "error" (sanitize_error J) m),
    )
