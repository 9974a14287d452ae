-- ===== src/Core/Error.antt =====
-- crates/elasticctl-core/src/error.rs: the errors that the user sees, and their classes.
pub mod Laws
pub mod Outcomes
use elasticctl.Prelude.{
  arith, refl, ℕ, String, Bool, true, false, Option, none, some, List, [], ◌∷◌, ◌==◌, if◌then◌else◌,
  unwrap_or, ◌≡◌, refl, ◌⊎◌, inl, inr,
}
use elasticctl.Prelude.Text.{concat, show, trim, is_empty}
use elasticctl.Json.{Value, object, string, number, unsigned, Fields, empty, field, get_key, as_str}

pub data ErrorKind : Type 0 where
  auth permission not_found conflict unsupported http connection timeout error : ErrorKind

unfoldable pub kind_as_str : ErrorKind → String
kind_as_str auth = "auth"
kind_as_str permission = "permission"
kind_as_str not_found = "not_found"
kind_as_str conflict = "conflict"
kind_as_str unsupported = "unsupported"
kind_as_str http = "http"
kind_as_str connection = "connection"
kind_as_str timeout = "timeout"
kind_as_str error = "error"

unfoldable pub from_status : ℕ → ErrorKind
from_status status =
    if status == 401
    then auth
    else if status == 403
    then permission
    else if status == 404
    then not_found
    else if status == 409
    then conflict
    else http

pub record Error : Type 0 where
  pub kind : ErrorKind
  pub http_status : Option ℕ
  pub message : String

abbrev pub new_error : ErrorKind → String → Error
new_error kind message = record { kind = kind; http_status = none; message = message }

abbrev pub with_status : ErrorKind → ℕ → String → Error
with_status kind status message = record {
  kind = kind;
  http_status = some status;
  message = message;
}

-- `panic` stands for what a failed `expect` or an `unreachable!` does.
pub data Result {ℓ} (A : Type ℓ) : Type ℓ where
  ok : A → Result A
  err : Error → Result A
  panic : String → Result A

infixl 10 ◌>>=◌ ◌>>◌
abbrev pub ◌>>=◌ {ℓ κ} : {X : Type ℓ} {Y : Type κ} → Result X → (X → Result Y) → Result Y
panic why >>= next = panic why
err e >>= next = err e
ok x >>= next = next x

abbrev pub ◌>>◌ {ℓ} : {Y : Type ℓ} → Result (Unit {0}) → Result Y → Result Y
first >> second = first >>= λ _. second

-- `Result::ok`, for a result that does not panic
abbrev pub to_option {ℓ} : {A : Type ℓ} → Result A → Option A
to_option (ok a) = some a
to_option _ = none

-- the text that a response body gives: `message`, or else the reason of `error`, if it is a text
body_message : Value → Option String
body_message v = elim (get_key "message" v) [
  | some m ↦ as_str m
  | none ↦ elim (get_key "error" v) [
    | some e ↦ elim (get_key "reason" e) [ some r ↦ as_str r | none ↦ none ]
    | none ↦ none
  ]
]

fallback_message : ℕ → String → String
fallback_message status trimmed =
    if is_empty trimmed
    then concat ("HTTP " ∷ show status ∷ [])
    else concat ("HTTP " ∷ show status ∷ ": " ∷ trimmed ∷ [])

-- the parser of `serde_json` is an argument: `none` is its error
unfoldable pub from_response_body : (String → Option Value) → ℕ → String → Error
unfolding body_message fallback_message
from_response_body parse status body = record {
  kind = from_status status;
  http_status = some status;
  message =
      unwrap_or (elim (parse body) [ some v ↦ body_message v | none ↦ none ])
        (fallback_message status (trim body));
}

-- the object that goes to the standard error output
unfoldable pub to_envelope : Error → Value
unfolding kind_as_str
to_envelope e = object (
    field "error"
      (object (
        field "kind" (string (kind_as_str e.kind)) (
          field "message" (string e.message) (elim e.http_status [
            | none ↦ empty
            | some status ↦ field "http_status" (number (unsigned status)) empty
          ]))))
      empty)

module _ {ℓ} {A : Type ℓ} where
  abbrev pub is_ok : Result A → Bool
  is_ok (ok a) = true
  is_ok _ = false

  pub Result-cases :
      (r : Result A)
      → ((a : A) × (r ≡ ok a)) ⊎ (((e : Error) × (r ≡ err e)) ⊎ ((s : String) × (r ≡ panic s)))
  Result-cases (ok a) = inl (a, refl)
  Result-cases (err e) = inr (inl (e, refl))
  Result-cases (panic s) = inr (inr (s, refl))

-- a sequence that returned: both its parts did
pub bind-ok_inv :
    {X Y : Type 0} (first : Result X) (next : X → Result Y) {y : Y}
    → (first >>= next) ≡ ok y
    → (x : X) × (first ≡ ok x) × (next x ≡ ok y)
bind-ok_inv (panic why) next h = absurd (ground (arith, h))
bind-ok_inv (err e) next h = absurd (ground (arith, h))
bind-ok_inv (ok x) next h = (x, refl, h)
