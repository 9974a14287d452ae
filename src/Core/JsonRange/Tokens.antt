-- ===== src/Core/JsonRange/Tokens.antt =====
-- The texts of JSON as the scan meets them: strings, numbers and single bytes of everything else. A number
-- is followed by what cannot go on with it.
use elasticctl.Prelude.{
  ℕ, ◌*◌, ◌+◌, ◌-◌, leb, Bool, true, false, not, ◌&&◌, ◌||◌, List, [], ◌∷◌, ◌++◌, ◌==◌, Option,
  none, some, is_some, all, if◌then◌else◌, String,
}
use elasticctl.Core.Error.{Result, ok, err}
use elasticctl.Core.Transport.{Bytes}
use elasticctl.Core.JsonRange.{is_digit, starts_with_digit, u64_max, i64_min, range_error, signed}

pub data Piece : Type 0 where
  plain : ℕ → Piece
  escape : ℕ → Piece

pub record Exponent : Type 0 where
  pub letter : ℕ
  pub sign : Option ℕ
  pub power : Bytes

pub record NumberToken : Type 0 where
  pub negative : Bool
  pub whole : Bytes
  pub fraction : Option Bytes
  pub exponent : Option Exponent

pub data Token : Type 0 where
  quoted : List Piece → Token
  numeral : NumberToken → Token
  other : ℕ → Token

unfoldable pub print_pieces : List Piece → Bytes
print_pieces [] = 34 ∷ []
print_pieces (plain b ∷ ps) = b ∷ print_pieces ps
print_pieces (escape b ∷ ps) = 92 ∷ b ∷ print_pieces ps

abbrev pub print_fraction : Option Bytes → Bytes
print_fraction none = []
print_fraction (some digits) = 46 ∷ digits

abbrev pub print_sign : Option ℕ → Bytes
print_sign none = []
print_sign (some b) = b ∷ []

abbrev pub print_exponent : Option Exponent → Bytes
print_exponent none = []
print_exponent (some e) = e.letter ∷ print_sign e.sign ++ e.power

-- a text, with what comes after it
unfoldable pub print : List Token → Bytes
unfolding print_pieces
print [] = []
print (quoted ps ∷ ts) = 34 ∷ print_pieces ps ++ print ts
print (numeral n ∷ ts) =
    signed n.negative
      (n.whole ++ (print_fraction n.fraction ++ (print_exponent n.exponent ++ print ts)))
print (other b ∷ ts) = b ∷ print ts

unfoldable pub is_piece : Piece → Bool
is_piece (plain b) = not (b == 34) && not (b == 92)
is_piece (escape b) = true

-- a zero alone, or digits of which the first is not zero
unfoldable pub is_whole : Bytes → Bool
is_whole [] = false
is_whole (b ∷ bs) =
    is_digit b && all is_digit bs && (not (b == 48) || elim bs [ [] ↦ true | _ ↦ false ])

abbrev pub is_fraction : Option Bytes → Bool
is_fraction none = true
is_fraction (some digits) = all is_digit digits

abbrev pub is_sign : Option ℕ → Bool
is_sign none = true
is_sign (some b) = b == 43 || b == 45

abbrev pub is_exponent : Option Exponent → Bool
is_exponent none = true
is_exponent (some e) =
    (e.letter == 101 || e.letter == 69)
    && is_sign e.sign
    && starts_with_digit e.power
    && all is_digit e.power

unfoldable pub is_number : NumberToken → Bool
is_number n = is_whole n.whole && is_fraction n.fraction && is_exponent n.exponent

-- what can follow a number: the end, or no digit, point or letter of an exponent
unfoldable pub ends_number : Bytes → Bool
ends_number [] = true
ends_number (b ∷ bs) = not (is_digit b) && not (b == 46) && not (b == 101 || b == 69)

unfoldable pub is_text : List Token → Bool
unfolding print is_piece is_number ends_number
is_text [] = true
is_text (quoted ps ∷ ts) = all is_piece ps && is_text ts
is_text (numeral n ∷ ts) = is_number n && ends_number (print ts) && is_text ts
is_text (other b ∷ ts) = not (b == 34) && not (b == 45) && not (is_digit b) && is_text ts

abbrev pub is_integer : NumberToken → Bool
is_integer n = not (is_some n.fraction) && not (is_some n.exponent)

unfoldable pub value_from : ℕ → Bytes → ℕ
value_from n [] = n
value_from n (b ∷ bs) = value_from (n * 10 + (b - 48)) bs

-- an integer of 64 bits, signed where it is negative
unfoldable pub is_within : Bool → Bytes → Bool
is_within negative digits = leb (value_from 0 digits) (if negative then i64_min else u64_max)

-- The integers of a text, from its first: each is within its range, or the first that is not is named.
unfoldable pub integers_in_range : (Bytes → String) → List Token → Result (Unit {0})
integers_in_range text_of [] = ok tt
integers_in_range text_of (quoted ps ∷ ts) = integers_in_range text_of ts
integers_in_range text_of (other b ∷ ts) = integers_in_range text_of ts
integers_in_range text_of (numeral n ∷ ts) =
    let rest = integers_in_range text_of ts in
    if is_integer n && not (is_within n.negative n.whole)
    then err (range_error text_of (signed n.negative n.whole))
    else rest
