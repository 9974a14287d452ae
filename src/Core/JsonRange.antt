-- ===== src/Core/JsonRange.antt =====
-- crates/elasticctl-core/src/transport.rs: the range of the integers in the JSON of a response. The text
-- is its bytes, and the index of the code is the bytes that are left.
pub mod Tokens
pub mod Numbers
pub mod Shorter
pub mod Scan
use elasticctl.Prelude.{
  ℕ, zero, suc, ◌+◌, ◌-◌, ◌*◌, ◌^◌, String, Bool, true, false, not, ◌&&◌, ◌||◌, Option, none, some,
  is_some, List, [], ◌∷◌, ◌++◌, leb, ltb, ◌==◌, if◌then◌else◌, length, ◌⊎◌, inl, inr,
}
use elasticctl.Prelude.Text.{concat}
use elasticctl.Json.{Value}
use elasticctl.Core.Error.{Error, http, new_error, Result, ok, err, panic}
use elasticctl.Core.Transport.{Bytes}

-- `is_ascii_digit`
abbrev pub is_digit : ℕ → Bool
is_digit b = leb 48 b && leb b 57

-- what a string leaves of the text, after its first quote; a byte after a backslash is passed over
unfoldable pub skip_string : Bool → Bytes → Bytes
skip_string escaped [] = []
skip_string true (b ∷ bs) = skip_string false bs
skip_string false (b ∷ bs) = let rest = skip_string (b == 92) bs in if b == 34 then bs else rest

-- the digits at the start, and what is left
unfoldable pub span_digits : Bytes → Bytes × Bytes
span_digits [] = ([], [])
span_digits (b ∷ bs) =
    let rest = span_digits bs in if is_digit b then (b ∷ rest.0, rest.1) else ([], b ∷ bs)

-- the integer part: a zero, or digits
unfoldable pub integer_part : Bytes → Bytes × Bytes
integer_part [] = ([], [])
integer_part (b ∷ bs) = if b == 48 then (b ∷ [], bs) else span_digits (b ∷ bs)

-- whether there is no fraction, and what is left
unfoldable pub skip_fraction : Bytes → Bool × Bytes
skip_fraction [] = (true, [])
skip_fraction (b ∷ bs) = if b == 46 then (false, (span_digits bs).1) else (true, b ∷ bs)

unfoldable pub skip_sign : Bytes → Bytes
skip_sign [] = []
skip_sign (b ∷ bs) = if b == 43 || b == 45 then bs else b ∷ bs

-- whether there is no exponent, and what is left
unfoldable pub skip_exponent : Bytes → Bool × Bytes
skip_exponent [] = (true, [])
skip_exponent (b ∷ bs) =
    if b == 101 || b == 69 then (false, (span_digits (skip_sign bs)).1) else (true, b ∷ bs)

unfoldable pub starts_with_digit : Bytes → Bool
starts_with_digit [] = false
starts_with_digit (b ∷ bs) = is_digit b

abbrev pub u64_max : ℕ
u64_max = 2 ^ 64 - 1

-- how far an `i64` goes below zero
abbrev pub i64_min : ℕ
i64_min = 2 ^ 63

-- `from_str` of an integer type: the checked multiplications and additions of the digits, and for a
-- negative number the subtractions, whose limit is how far the type goes below zero
unfoldable pub parse_from : ℕ → ℕ → Bytes → Option ℕ
parse_from limit n [] = some n
parse_from limit n (b ∷ bs) =
    let rest = parse_from limit (n * 10 + (b - 48)) bs in
    if leb (n * 10 + (b - 48)) limit then rest else none

-- `parse::<i64>` of a minus and digits, or `parse::<u64>` of digits, is no error
unfoldable pub in_range : Bool → Bytes → Bool
in_range negative digits = is_some (parse_from (if negative then i64_min else u64_max) 0 digits)

-- the text of a number from its sign on
abbrev pub signed : Bool → Bytes → Bytes
signed true digits = 45 ∷ digits
signed false digits = digits

-- what one turn of the loop does
pub data Turn : Type 0 where
  finished : Turn
  refused : Error → Turn
  resumed : Bytes → Turn

module _ (text_of : Bytes → String) where
  unfoldable pub range_error : Bytes → Error
  range_error digits = new_error http (
      concat (
        "parsing response JSON: integer "
        ∷ text_of digits
        ∷ " is outside supported integer range"
        ∷ []))

  -- a turn at a number, after its sign; `next` is what follows its first byte
  unfoldable pub number_turn : Bool → Bytes → Bytes → Turn
  number_turn negative unsigned next =
      if not (starts_with_digit unsigned)
      then resumed next
      else (let whole = integer_part unsigned in
          let fraction = skip_fraction whole.1 in
          let exponent = skip_exponent fraction.1 in
          if (fraction.0 && exponent.0) && not (in_range negative whole.0)
          then refused (range_error (signed negative whole.0))
          else resumed exponent.1)

  unfoldable pub turn : Bytes → Turn
  turn [] = finished
  turn (b ∷ bs) =
      if b == 34
      then resumed (skip_string false bs)
      else if not (b == 45) && not (is_digit b)
      then resumed bs
      else number_turn (b == 45) (if b == 45 then bs else b ∷ bs) bs

  -- the loop, with a bound on its turns
  unfoldable pub scan : ℕ → Bytes → Result (Unit {0})
  scan zero bytes = panic "no turn is left"
  scan (suc fuel) bytes = elim (turn bytes) [
    | finished ↦ ok tt
    | refused e ↦ err e
    | resumed rest ↦ scan fuel rest
  ]

  unfoldable pub validate_json_integer_ranges : Bytes → Result (Unit {0})
  validate_json_integer_ranges bytes = scan (length bytes + 1) bytes

  -- `serde_json::from_str` is the parameter `from_str`
  unfoldable pub parse_response_json : (Bytes → String ⊎ Value) → Bytes → Result Value
  parse_response_json from_str bytes = elim (validate_json_integer_ranges bytes) [
    | ok _ ↦ elim (from_str bytes) [
      | inl e ↦ err (new_error http (concat ("parsing response JSON: " ∷ e ∷ [])))
      | inr v ↦ ok v
    ]
    | err e ↦ err e
    | panic why ↦ panic why
  ]
