-- ===== src/Core/JsonRange/Numbers.antt =====
-- The parts of a printed string or number, as the scan passes over them.
use elasticctl.Prelude.{
  ℕ, ◌*◌, ◌+◌, ◌-◌, ◌≤◌, Bool, true, false, not, ◌||◌, List, [], ◌∷◌, ◌++◌, ◌==◌, leb, Option, none,
  some, is_some, all, arith, ◌≡◌, refl, leb→le, Bool-cases, inl, inr, if◌then◌else◌,
}
use elasticctl.Core.Transport.{Bytes}
use elasticctl.Core.JsonRange.{
  is_digit, starts_with_digit, in_range, skip_string, span_digits, integer_part, skip_fraction,
  skip_exponent, skip_sign, parse_from, u64_max, i64_min,
}
use elasticctl.Core.JsonRange.Tokens.{
  Piece, plain, escape, Exponent, print_pieces, print_fraction, print_exponent, print_sign,
  is_piece, is_whole, is_sign, is_fraction, is_exponent, ends_number, value_from, is_within,
}

pub skip_string-print_pieces :
    (ps : List Piece) (tail : Bytes)
    → all is_piece ps ≡ true
    → skip_string false (print_pieces ps ++ tail) ≡ tail
unfolding skip_string print_pieces is_piece
skip_string-print_pieces [] tail h = refl
skip_string-print_pieces (plain b ∷ ps) tail h =
    let other : (b == 34) ≡ false = ground (arith, h) in
    let closed : (b == 92) ≡ false = ground (arith, h) in
    rw (other, closed) (skip_string-print_pieces ps tail (ground (arith, h)))
skip_string-print_pieces (escape b ∷ ps) tail h = skip_string-print_pieces ps tail h

span_digits-stop : (tail : Bytes) → starts_with_digit tail ≡ false → span_digits tail ≡ ([], tail)
unfolding span_digits starts_with_digit
span_digits-stop [] h = refl
span_digits-stop (b ∷ bs) h = rw h refl

span_digits-append :
    (ds tail : Bytes)
    → all is_digit ds ≡ true
    → starts_with_digit tail ≡ false
    → span_digits (ds ++ tail) ≡ (ds, tail)
unfolding span_digits
span_digits-append [] tail h stop = span_digits-stop tail stop
span_digits-append (d ∷ ds) tail h stop =
    let first : is_digit d ≡ true = ground (arith, h) in
    rw (first, span_digits-append ds tail (ground (arith, h)) stop) refl

pub integer_part-append :
    (ds tail : Bytes)
    → is_whole ds ≡ true
    → starts_with_digit tail ≡ false
    → integer_part (ds ++ tail) ≡ (ds, tail)
unfolding integer_part is_whole
integer_part-append [] tail h stop = absurd (ground (arith, h))
integer_part-append (d ∷ []) tail h stop = elim (Bool-cases (d == 48)) [
  | inl zero ↦ rw zero refl
  | inr more ↦ rw more (span_digits-append (d ∷ []) tail (ground (arith, h)) stop)
]
integer_part-append (d ∷ e ∷ ds) tail h stop =
    let more : (d == 48) ≡ false = ground (arith, h) in
    rw more (span_digits-append (d ∷ e ∷ ds) tail (ground (arith, h)) stop)

ends_number-starts_with_digit :
    (tail : Bytes) → ends_number tail ≡ true → starts_with_digit tail ≡ false
unfolding ends_number starts_with_digit
ends_number-starts_with_digit [] h = refl
ends_number-starts_with_digit (b ∷ bs) h = ground (arith, h)

skip_sign-print_sign :
    (sign : Option ℕ) (power tail : Bytes)
    → is_sign sign ≡ true
    → starts_with_digit power ≡ true
    → skip_sign ((print_sign sign ++ power) ++ tail) ≡ power ++ tail
unfolding skip_sign starts_with_digit
skip_sign-print_sign (some b) power tail h k = rw h refl
skip_sign-print_sign none [] tail h k = absurd (ground (arith, k))
skip_sign-print_sign none (b ∷ bs) tail h k =
    let no_sign : (b == 43 || b == 45) ≡ false = ground (arith, k) in rw no_sign refl

pub skip_exponent-print :
    (e : Option Exponent) (tail : Bytes)
    → is_exponent e ≡ true
    → ends_number tail ≡ true
    → skip_exponent (print_exponent e ++ tail) ≡ (not (is_some e), tail)
unfolding skip_exponent ends_number
skip_exponent-print none [] h stop = refl
skip_exponent-print none (b ∷ bs) h stop =
    let no_letter : (b == 101 || b == 69) ≡ false = ground (arith, stop) in rw no_letter refl
skip_exponent-print (some e) tail h stop =
    let letter : (e.letter == 101 || e.letter == 69) ≡ true = ground (arith, h) in
    rw
      (
        letter,
        skip_sign-print_sign e.sign e.power tail (ground (arith, h)) (ground (arith, h)),
        span_digits-append e.power tail (ground (arith, h))
            (ends_number-starts_with_digit tail stop),
      )
      refl

starts_with_digit-print_exponent :
    (e : Option Exponent) (tail : Bytes)
    → is_exponent e ≡ true
    → ends_number tail ≡ true
    → starts_with_digit (print_exponent e ++ tail) ≡ false
unfolding starts_with_digit
starts_with_digit-print_exponent none tail h stop = ends_number-starts_with_digit tail stop
starts_with_digit-print_exponent (some e) tail h stop = ground (arith, h)

pub skip_fraction-print :
    (f : Option Bytes) (e : Option Exponent) (tail : Bytes)
    → is_fraction f ≡ true
    → is_exponent e ≡ true
    → ends_number tail ≡ true
    → skip_fraction (print_fraction f ++ (print_exponent e ++ tail))
      ≡ (not (is_some f), print_exponent e ++ tail)
unfolding skip_fraction ends_number
skip_fraction-print none none [] h k stop = refl
skip_fraction-print none none (b ∷ bs) h k stop =
    let no_point : (b == 46) ≡ false = ground (arith, stop) in rw no_point refl
skip_fraction-print none (some e) tail h k stop =
    let no_point : (e.letter == 46) ≡ false = ground (arith, k) in rw no_point refl
skip_fraction-print (some ds) e tail h k stop =
    rw
      (span_digits-append ds (print_exponent e ++ tail) h
        (starts_with_digit-print_exponent e tail k stop))
      refl

pub starts_with_digit-print_fraction :
    (f : Option Bytes) (e : Option Exponent) (tail : Bytes)
    → is_exponent e ≡ true
    → ends_number tail ≡ true
    → starts_with_digit (print_fraction f ++ (print_exponent e ++ tail)) ≡ false
unfolding starts_with_digit
starts_with_digit-print_fraction none e tail h stop = starts_with_digit-print_exponent e tail h stop
starts_with_digit-print_fraction (some ds) e tail h stop = refl

pub starts_with_digit-whole :
    (ds tail : Bytes) → is_whole ds ≡ true → starts_with_digit (ds ++ tail) ≡ true
unfolding starts_with_digit is_whole
starts_with_digit-whole [] tail h = absurd (ground (arith, h))
starts_with_digit-whole (d ∷ ds) tail h = ground (arith, h)

value_from-grows : (n : ℕ) (ds : Bytes) → n ≤ value_from n ds
unfolding value_from
value_from-grows n [] = omega arith
value_from-grows n (d ∷ ds) = omega (arith, value_from-grows (n * 10 + (d - 48)) ds)

-- an overflow of an early digit is one of the whole
parse_from-value_from :
    (limit n : ℕ) (ds : Bytes)
    → n ≤ limit
    → is_some (parse_from limit n ds) ≡ leb (value_from n ds) limit
unfolding parse_from value_from
parse_from-value_from limit n [] h = ground (arith, h)
parse_from-value_from limit n (d ∷ ds) h = elim (Bool-cases (leb (n * 10 + (d - 48)) limit)) [
  | inl fits ↦ rw fits (parse_from-value_from limit (n * 10 + (d - 48)) ds (leb→le _ limit fits))
  | inr over ↦
      let grows : n * 10 + (d - 48) ≤ value_from (n * 10 + (d - 48)) ds =
        value_from-grows (n * 10 + (d - 48)) ds in
      rw over (ground (arith, over, grows))
]

pub in_range-is_within :
    (negative : Bool) (ds : Bytes) → in_range negative ds ≡ is_within negative ds
unfolding in_range is_within
in_range-is_within negative ds =
    parse_from-value_from (if negative then i64_min else u64_max) 0 ds (omega arith)
