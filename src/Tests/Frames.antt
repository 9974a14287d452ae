-- ===== src/Tests/Frames.antt =====
-- The input of the server, and the errors that it shows.
use elasticctl.Prelude.{String, ◌≡◌, refl, false, some, List, [], ◌∷◌, ◌++◌, arith, inl}
use elasticctl.Prelude.Order.{◌=?◌, string_ord}
use elasticctl.Json.{string, number, negative, object, Fields, empty, field, get, get_key}
use elasticctl.Mcp.Frames.{Bytes, position, read_frame}
use elasticctl.Mcp.Frames.Chunks.{framing_of, pieces, read_frame-framing_of}
use elasticctl.Mcp.Sanitize.{sanitize_protocol_error}
use elasticctl.Mcp.Sanitize.Shown.{shown_entry, sanitize_protocol_error-shown}
use elasticctl.Tests.Sample.{json}

-- a line in two pieces, the return and the newline in different ones
abbrev input : List Bytes
input = (123 ∷ 125 ∷ 13 ∷ []) ∷ (10 ∷ 91 ∷ []) ∷ []

read_frame-framing_of_example : (read_frame [] input).framing ≡ framing_of ([] ++ pieces input)
unfolding position
read_frame-framing_of_example = read_frame-framing_of [] input (refl, inl (ground arith))

abbrev failure : Fields
failure =
    field "code" (number (negative 32601))
      (field "message" (string "no tool x") (field "data" (string "x") empty))

abbrev message : Fields
message = field "id" (string "1") (field "error" (object failure) empty)

sanitize_protocol_error-shown_example :
    (e' : Fields) × (get_key "error" (sanitize_protocol_error json (object message))
      ≡ some (object e'))
    × ((k : String) → get k e' ≡ shown_entry k failure)
    × ((k : String)
        → (k =? "error") ≡ false
        → get_key k (sanitize_protocol_error json (object message)) ≡ get k message)
unfolding get
sanitize_protocol_error-shown_example = sanitize_protocol_error-shown json message failure refl
