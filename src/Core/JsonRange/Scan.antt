-- ===== src/Core/JsonRange/Scan.antt =====
-- The scan of a text, token by token, and that its turns are enough for any bytes.
use elasticctl.Prelude.{
  ℕ, zero, suc, ◌+◌, ◌<◌, String, Bool, true, false, not, ◌&&◌, List, [], ◌∷◌, ◌++◌, ◌==◌, Option,
  all, arith, ◌≡◌, refl, ap, ◌∙◌, ◌⊎◌, inl, inr, Bool-cases, if◌then◌else◌, length,
}
use elasticctl.Core.Error.{Error, ok, err}
use elasticctl.Core.Transport.{Bytes}
use elasticctl.Core.JsonRange.{
  is_digit, signed, Turn, refused, resumed, number_turn, turn, scan, validate_json_integer_ranges,
  range_error,
}
use elasticctl.Core.JsonRange.Tokens.{
  Piece, Exponent, Token, NumberToken, quoted, numeral, other, print, print_pieces, print_fraction,
  print_exponent, is_piece, is_whole, is_fraction, is_exponent, is_number, is_integer, is_text,
  ends_number, is_within, integers_in_range,
}
use elasticctl.Core.JsonRange.Numbers.{
  skip_string-print_pieces, integer_part-append, skip_fraction-print, skip_exponent-print,
  in_range-is_within, starts_with_digit-print_fraction, starts_with_digit-whole,
}
use elasticctl.Core.JsonRange.Shorter.{turn-shorter, scan-returns}

module _ (text_of : Bytes → String) where
  -- a number and what comes after it
  abbrev unsigned_text : NumberToken → Bytes → Bytes
  unsigned_text n tail =
      n.whole ++ (print_fraction n.fraction ++ (print_exponent n.exponent ++ tail))

  abbrev number_outcome : NumberToken → Bytes → Turn
  number_outcome n tail =
      if is_integer n && not (is_within n.negative n.whole)
      then refused (range_error text_of (signed n.negative n.whole))
      else resumed tail

  number_turn-print :
      (n : NumberToken) (tail next : Bytes)
      → is_number n ≡ true
      → ends_number tail ≡ true
      → number_turn text_of n.negative (unsigned_text n tail) next ≡ number_outcome n tail
  unfolding number_turn is_number
  number_turn-print n tail next h stop =
      let whole : is_whole n.whole ≡ true = ground (arith, h) in
      let fraction : is_fraction n.fraction ≡ true = ground (arith, h) in
      let exponent : is_exponent n.exponent ≡ true = ground (arith, h) in
      let rest : Bytes = print_fraction n.fraction ++ (print_exponent n.exponent ++ tail) in
      rw
        (
          starts_with_digit-whole n.whole rest whole,
          integer_part-append n.whole rest whole
              (starts_with_digit-print_fraction n.fraction n.exponent tail exponent stop),
          skip_fraction-print n.fraction n.exponent tail fraction exponent stop,
          skip_exponent-print n.exponent tail exponent stop,
          in_range-is_within n.negative n.whole,
        )
        refl

  number_outcome-within :
      (n : NumberToken) (tail : Bytes)
      → (is_integer n && not (is_within n.negative n.whole)) ≡ false
      → number_outcome n tail ≡ resumed tail
  number_outcome-within n tail h = rw h refl

  turn-digits :
      (d : ℕ) (ds : Bytes)
      → is_digit d ≡ true
      → turn text_of (d ∷ ds) ≡ number_turn text_of false (d ∷ ds) ds
  unfolding turn
  turn-digits d ds h =
      let no_quote : (d == 34) ≡ false = ground (arith, h) in
      let no_minus : (d == 45) ≡ false = ground (arith, h) in rw (no_quote, no_minus, h) refl

  turn-numeral :
      (negative : Bool) (whole : Bytes) (f : Option Bytes) (e : Option Exponent) (tail : Bytes)
      → is_number (record { negative = negative; whole = whole; fraction = f; exponent = e }) ≡ true
      → ends_number tail ≡ true
      → turn text_of (signed negative (whole ++ (print_fraction f ++ (print_exponent e ++ tail))))
        ≡ number_outcome
            (record { negative = negative; whole = whole; fraction = f; exponent = e })
            tail
  unfolding turn is_number is_whole
  turn-numeral true whole f e tail h stop =
      number_turn-print (record { negative = true; whole = whole; fraction = f; exponent = e }) tail
        (whole ++ (print_fraction f ++ (print_exponent e ++ tail))) h stop
  turn-numeral false [] f e tail h stop = absurd (ground (arith, h))
  turn-numeral false (d ∷ ds) f e tail h stop =
      turn-digits d (ds ++ (print_fraction f ++ (print_exponent e ++ tail))) (ground (arith, h))
      ∙ number_turn-print (record { negative = false; whole = d ∷ ds; fraction = f; exponent = e })
          tail (ds ++ (print_fraction f ++ (print_exponent e ++ tail))) h stop

  turn-quoted :
      (ps : List Piece) (tail : Bytes)
      → all is_piece ps ≡ true
      → turn text_of (34 ∷ print_pieces ps ++ tail) ≡ resumed tail
  unfolding turn
  turn-quoted ps tail h = ap resumed (skip_string-print_pieces ps tail h)

  scan-resumed :
      (fuel : ℕ) (bs rest : Bytes)
      → turn text_of bs ≡ resumed rest
      → scan text_of (suc fuel) bs ≡ scan text_of fuel rest
  unfolding scan
  scan-resumed fuel bs rest h = rw (h, scan) refl

  scan-end : (fuel : ℕ) → scan text_of (suc fuel) [] ≡ ok tt
  unfolding scan turn
  scan-end fuel = refl

  turn-other :
      (b : ℕ) (tail : Bytes)
      → (not (b == 34) && not (b == 45) && not (is_digit b)) ≡ true
      → turn text_of (b ∷ tail) ≡ resumed tail
  unfolding turn
  turn-other b tail h =
      let no_quote : (b == 34) ≡ false = ground (arith, h) in
      let no_minus : (b == 45) ≡ false = ground (arith, h) in
      let no_digit : is_digit b ≡ false = ground (arith, h) in
      rw (no_quote, no_minus, no_digit) refl

  scan-print :
      (fuel : ℕ) (ts : List Token)
      → is_text ts ≡ true
      → length (print ts) < fuel
      → scan text_of fuel (print ts) ≡ integers_in_range text_of ts
  unfolding scan print is_text integers_in_range
  scan-print zero ts h k = absurd (omega (arith, k))
  scan-print (suc fuel) [] h k = scan-end fuel
  scan-print (suc fuel) (quoted ps ∷ ts) h k =
      let step : turn text_of (print (quoted ps ∷ ts)) ≡ resumed (print ts) =
        turn-quoted ps (print ts) (ground (arith, h)) in
      scan-resumed fuel (print (quoted ps ∷ ts)) (print ts) step
      ∙ scan-print fuel ts (ground (arith, h))
          (omega (arith, k, turn-shorter text_of (print (quoted ps ∷ ts)) (print ts) step))
  scan-print (suc fuel) (other b ∷ ts) h k =
      scan-resumed fuel (b ∷ print ts) (print ts) (turn-other b (print ts) (ground (arith, h)))
      ∙ scan-print fuel ts (ground (arith, h)) (omega (arith, k))
  scan-print (suc fuel) (numeral n ∷ ts) h k =
      let step : turn text_of (print (numeral n ∷ ts)) ≡ number_outcome n (print ts) =
        turn-numeral n.negative n.whole n.fraction n.exponent (print ts) (ground (arith, h))
          (ground (arith, h)) in
      elim (Bool-cases (is_integer n && not (is_within n.negative n.whole))) [
        | inl out ↦ rw (step, out, scan) refl
        | inr within ↦
            let on : turn text_of (print (numeral n ∷ ts)) ≡ resumed (print ts) =
              step ∙ number_outcome-within n (print ts) within in
            rw within (
              scan-resumed fuel (print (numeral n ∷ ts)) (print ts) on
              ∙ scan-print fuel ts (ground (arith, h))
                  (omega (arith, k, turn-shorter text_of (print (numeral n ∷ ts)) (print ts) on)))
      ]

  -- A text of strings, numbers and other bytes, with no number that goes on in what follows it,
  -- is accepted where each integer in it is one of 64 bits, signed where it is negative. Otherwise the
  -- first that is not is named by the error. Integers in strings and numbers with a fraction or an
  -- exponent are not looked at.
  pub validate_json_integer_ranges-integers_in_range :
      (ts : List Token)
      → is_text ts ≡ true
      → validate_json_integer_ranges text_of (print ts) ≡ integers_in_range text_of ts
  unfolding validate_json_integer_ranges
  validate_json_integer_ranges-integers_in_range ts h =
      scan-print (length (print ts) + 1) ts h (omega arith)

  -- Whatever the bytes are, the scan of a text comes to its end: it accepts the text or fails with an
  -- error.
  pub validate_json_integer_ranges-returns :
      (bytes : Bytes)
      → (validate_json_integer_ranges text_of bytes ≡ ok tt)
        ⊎ ((e : Error) × (validate_json_integer_ranges text_of bytes ≡ err e))
  unfolding validate_json_integer_ranges
  validate_json_integer_ranges-returns bytes =
      scan-returns text_of (length bytes + 1) bytes (omega arith)
