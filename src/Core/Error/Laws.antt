-- ===== src/Core/Error/Laws.antt =====
-- The printed classes are told apart, and the envelope loses nothing.
use elasticctl.Prelude.{ℕ, String, ◌≡◌, refl, Option, none, some, if◌then◌else◌}
use elasticctl.Prelude.Order.{◌=?◌, string_ord}
use elasticctl.Json.{Value, number, unsigned, get, get_key, as_str}
use elasticctl.Core.Error.{
  ErrorKind, auth, permission, not_found, conflict, unsupported, http, connection, timeout, error,
  kind_as_str, Error, to_envelope,
}

-- the class with a printed name
parse_kind : String → Option ErrorKind
parse_kind s =
    if s =? "auth"
    then some auth
    else if s =? "permission"
    then some permission
    else if s =? "not_found"
    then some not_found
    else if s =? "conflict"
    then some conflict
    else if s =? "unsupported"
    then some unsupported
    else if s =? "http"
    then some http
    else if s =? "connection"
    then some connection
    else if s =? "timeout"
    then some timeout
    else if s =? "error"
    then some error
    else none

parse_kind-kind_as_str : (k : ErrorKind) → parse_kind (kind_as_str k) ≡ some k
unfolding parse_kind kind_as_str
parse_kind-kind_as_str auth = refl
parse_kind-kind_as_str permission = refl
parse_kind-kind_as_str not_found = refl
parse_kind-kind_as_str conflict = refl
parse_kind-kind_as_str unsupported = refl
parse_kind-kind_as_str http = refl
parse_kind-kind_as_str connection = refl
parse_kind-kind_as_str timeout = refl
parse_kind-kind_as_str error = refl

infixl 10 ◌>>=◌
abbrev ◌>>=◌ : {A B : Type 0} → Option A → (A → Option B) → Option B
none >>= f = none
some a >>= f = f a

abbrev read_number : Option Value → Option ℕ
read_number (some (number (unsigned n))) = some n
read_number _ = none

-- what a reader of the envelope can tell of the error
unfoldable pub read_envelope : Value → Option Error
unfolding parse_kind
read_envelope v = do
  inner ← get_key "error" v
  kind_text ← get_key "kind" inner
  kind_name ← as_str kind_text
  kind ← parse_kind kind_name
  message_text ← get_key "message" inner
  message ← as_str message_text
  let status = read_number (get_key "http_status" inner)
  some (record { kind = kind; http_status = status; message = message })

-- The envelope of an error, with or without a status, reads back as the error: its class, its
-- status and its message are all there.
pub read_envelope-to_envelope : (e : Error) → read_envelope (to_envelope e) ≡ some e
unfolding read_envelope to_envelope get
read_envelope-to_envelope e = go e.kind e.http_status e.message
  where
    go :
        (k : ErrorKind) (h : Option ℕ) (m : String)
        → read_envelope (to_envelope (record { kind = k; http_status = h; message = m }))
          ≡ some (record { kind = k; http_status = h; message = m })
    go auth none m = refl
    go auth (some s) m = refl
    go permission none m = refl
    go permission (some s) m = refl
    go not_found none m = refl
    go not_found (some s) m = refl
    go conflict none m = refl
    go conflict (some s) m = refl
    go unsupported none m = refl
    go unsupported (some s) m = refl
    go http none m = refl
    go http (some s) m = refl
    go connection none m = refl
    go connection (some s) m = refl
    go timeout none m = refl
    go timeout (some s) m = refl
    go error none m = refl
    go error (some s) m = refl
