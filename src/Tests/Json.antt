-- ===== src/Tests/Json.antt =====
-- The text `[-42,18446744073709551616,1.5e9,"\""]`, whose second integer is one too large.
use elasticctl.Prelude.{String, true, false, none, some, List, [], ◌∷◌, ◌≡◌, refl, ◌⊎◌}
use elasticctl.Core.Error.{Error, ok, err}
use elasticctl.Core.Transport.{Bytes}
use elasticctl.Core.JsonRange.{validate_json_integer_ranges, range_error, starts_with_digit}
use elasticctl.Core.JsonRange.Tokens.{
  Token, quoted, numeral, other, escape, print, print_pieces, is_text, is_number, is_whole,
  ends_number, is_piece, integers_in_range, is_within, value_from,
}
use elasticctl.Core.JsonRange.Scan.{
  validate_json_integer_ranges-integers_in_range, validate_json_integer_ranges-returns,
}

abbrev text_of : Bytes → String
text_of bytes = "n"

abbrev too_large : Bytes
too_large =
    49 ∷ 56 ∷ 52 ∷ 52 ∷ 54 ∷ 55 ∷ 52 ∷ 52 ∷ 48 ∷ 55 ∷ 51 ∷ 55 ∷ 48 ∷ 57 ∷ 53 ∷ 53 ∷ 49 ∷ 54 ∷ 49
    ∷ 54 ∷ []

abbrev tokens : List Token
tokens =
    other 91
    ∷ numeral (record { negative = true; whole = 52 ∷ 50 ∷ []; fraction = none; exponent = none })
    ∷ other 44
    ∷ numeral (record { negative = false; whole = too_large; fraction = none; exponent = none })
    ∷ other 44
    ∷ numeral (record {
      negative = false;
      whole = 49 ∷ [];
      fraction = some (53 ∷ []);
      exponent = some (record { letter = 101; sign = none; power = 57 ∷ [] });
    })
    ∷ other 44
    ∷ quoted (escape 34 ∷ [])
    ∷ other 93
    ∷ []

validate_json_integer_ranges-integers_in_range_example :
    validate_json_integer_ranges text_of (print tokens) ≡ integers_in_range text_of tokens
unfolding print print_pieces is_text is_number is_whole ends_number is_piece starts_with_digit
validate_json_integer_ranges-integers_in_range_example =
    validate_json_integer_ranges-integers_in_range text_of tokens refl

refuses_too_large : integers_in_range text_of tokens ≡ err (range_error text_of too_large)
unfolding integers_in_range is_within value_from
refuses_too_large = refl

validate_json_integer_ranges-returns_example :
    (validate_json_integer_ranges text_of (print tokens) ≡ ok tt)
    ⊎ ((e : Error) × (validate_json_integer_ranges text_of (print tokens) ≡ err e))
validate_json_integer_ranges-returns_example =
    validate_json_integer_ranges-returns text_of (print tokens)
