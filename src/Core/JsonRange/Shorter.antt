-- ===== src/Core/JsonRange/Shorter.antt =====
-- Each turn of the scan leaves fewer bytes, so the turns that `validate_json_integer_ranges` has are
-- enough.
use elasticctl.Prelude.{
  ℕ, zero, suc, ◌<◌, ◌≤◌, String, Bool, true, false, not, ◌&&◌, ◌||◌, [], ◌∷◌, ◌==◌, arith, ◌≡◌,
  refl, subst, ◌⊎◌, inl, inr, Bool-cases, if◌then◌else◌, length,
}
use elasticctl.Core.Error.{Error, ok, err}
use elasticctl.Core.Transport.{Bytes}
use elasticctl.Core.JsonRange.{
  is_digit, starts_with_digit, in_range, skip_string, span_digits, integer_part, skip_fraction,
  skip_exponent, skip_sign, Turn, finished, refused, resumed, number_turn, turn, scan,
}

-- a test, and what holds on each of its branches
branches :
    {A : Type 0} (P : A → Type 0) (b : Bool) (x y : A)
    → (b ≡ true → P x)
    → (b ≡ false → P y)
    → P (if b then x else y)
branches P true x y f g = f refl
branches P false x y f g = g refl

abbrev NoLonger : Bytes → Bytes → Type 0
NoLonger bytes rest = length rest ≤ length bytes

skip_string-NoLonger : (escaped : Bool) (bs : Bytes) → NoLonger bs (skip_string escaped bs)
unfolding skip_string
skip_string-NoLonger escaped [] = omega arith
skip_string-NoLonger true (b ∷ bs) = omega (arith, skip_string-NoLonger false bs)
skip_string-NoLonger false (b ∷ bs) =
    branches (NoLonger (b ∷ bs)) (b == 34) bs (skip_string (b == 92) bs) (λ h. omega arith)
      (λ h. omega (arith, skip_string-NoLonger (b == 92) bs))

span_digits-NoLonger : (bs : Bytes) → NoLonger bs (span_digits bs).1
unfolding span_digits
span_digits-NoLonger [] = omega arith
span_digits-NoLonger (b ∷ bs) =
    branches (λ (r : Bytes × Bytes). NoLonger (b ∷ bs) r.1) (is_digit b) _ _
      (λ h. omega (arith, span_digits-NoLonger bs)) (λ h. omega arith)

span_digits-shorter :
    (b : ℕ) (bs : Bytes) → is_digit b ≡ true → length (span_digits (b ∷ bs)).1 < length (b ∷ bs)
unfolding span_digits
span_digits-shorter b bs h = rw h (omega (arith, span_digits-NoLonger bs))

integer_part-shorter :
    (bs : Bytes) → starts_with_digit bs ≡ true → length (integer_part bs).1 < length bs
unfolding integer_part starts_with_digit
integer_part-shorter [] h = absurd (ground (arith, h))
integer_part-shorter (b ∷ bs) h =
    branches (λ (r : Bytes × Bytes). length r.1 < length (b ∷ bs)) (b == 48) _ _ (λ k. omega arith)
      (λ k. span_digits-shorter b bs h)

skip_fraction-NoLonger : (bs : Bytes) → NoLonger bs (skip_fraction bs).1
unfolding skip_fraction
skip_fraction-NoLonger [] = omega arith
skip_fraction-NoLonger (b ∷ bs) =
    branches (λ (r : Bool × Bytes). NoLonger (b ∷ bs) r.1) (b == 46) _ _
      (λ h. omega (arith, span_digits-NoLonger bs)) (λ h. omega arith)

skip_sign-NoLonger : (bs : Bytes) → NoLonger bs (skip_sign bs)
unfolding skip_sign
skip_sign-NoLonger [] = omega arith
skip_sign-NoLonger (b ∷ bs) =
    branches (NoLonger (b ∷ bs)) (b == 43 || b == 45) _ _ (λ h. omega arith) (λ h. omega arith)

skip_exponent-NoLonger : (bs : Bytes) → NoLonger bs (skip_exponent bs).1
unfolding skip_exponent
skip_exponent-NoLonger [] = omega arith
skip_exponent-NoLonger (b ∷ bs) =
    branches (λ (r : Bool × Bytes). NoLonger (b ∷ bs) r.1) (b == 101 || b == 69) _ _
      (λ h. omega (arith, span_digits-NoLonger (skip_sign bs), skip_sign-NoLonger bs))
      (λ h. omega arith)

pub Turn-cases :
    (t : Turn)
    → (t ≡ finished) ⊎ ((e : Error) × (t ≡ refused e)) ⊎ ((rest : Bytes) × (t ≡ resumed rest))
Turn-cases finished = inl refl
Turn-cases (refused e) = inr (inl (e, refl))
Turn-cases (resumed rest) = inr (inr (rest, refl))

module _ (text_of : Bytes → String) where
  abbrev Shortens : ℕ → Turn → Type 0
  Shortens n finished = Unit
  Shortens n (refused e) = Unit
  Shortens n (resumed rest) = length rest < n

  number_turn-Shortens :
      (negative : Bool) (unsigned next : Bytes) (n : ℕ)
      → length next < n
      → length unsigned ≤ n
      → Shortens n (number_turn text_of negative unsigned next)
  unfolding number_turn
  number_turn-Shortens negative unsigned next n h k =
      elim (Bool-cases (starts_with_digit unsigned)) [
        | inr none ↦ rw none h
        | inl digit ↦
            let whole : Bytes = (integer_part unsigned).1 in
            let first : length whole < length unsigned = integer_part-shorter unsigned digit in
            rw digit (
              branches (Shortens n)
                (((skip_fraction whole).0 && (skip_exponent (skip_fraction whole).1).0)
                  && not (in_range negative (integer_part unsigned).0))
                _ _ (λ out. tt)
                (λ within. omega (
                  arith,
                  first,
                  k,
                  skip_fraction-NoLonger whole,
                  skip_exponent-NoLonger (skip_fraction whole).1,
                )))
      ]

  turn-Shortens : (bs : Bytes) → Shortens (length bs) (turn text_of bs)
  unfolding turn
  turn-Shortens [] = tt
  turn-Shortens (b ∷ bs) =
      branches (Shortens (suc (length bs))) (b == 34) _ _
        (λ h. omega (arith, skip_string-NoLonger false bs))
        (λ h.
          branches (Shortens (suc (length bs))) (not (b == 45) && not (is_digit b)) _ _
            (λ k. omega arith)
            (λ k.
              number_turn-Shortens (b == 45) (if b == 45 then bs else b ∷ bs) bs (suc (length bs))
                (omega arith)
                (branches (λ u. length u ≤ suc (length bs)) (b == 45) bs (b ∷ bs) (λ m. omega arith)
                  (λ m. omega arith))))

  pub turn-shorter : (bs rest : Bytes) → turn text_of bs ≡ resumed rest → length rest < length bs
  turn-shorter bs rest h = subst (Shortens (length bs)) h (turn-Shortens bs)

  -- the scan comes to its end
  pub scan-returns :
      (fuel : ℕ) (bs : Bytes)
      → length bs < fuel
      → (scan text_of fuel bs ≡ ok tt) ⊎ ((e : Error) × (scan text_of fuel bs ≡ err e))
  unfolding scan
  scan-returns zero bs h = absurd (omega (arith, h))
  scan-returns (suc fuel) bs h = elim (Turn-cases (turn text_of bs)) [
    | inl end ↦ inl (rw (end, scan) refl)
    | inr (inl (e, out)) ↦ inr (e, rw (out, scan) refl)
    | inr (inr (rest, more)) ↦
        rw (more, scan) (scan-returns fuel rest (omega (arith, h, turn-shorter bs rest more)))
  ]
