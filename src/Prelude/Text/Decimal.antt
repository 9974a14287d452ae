-- ===== src/Prelude/Text/Decimal.antt =====
-- A number is read back from its decimal text, so different numbers have different texts.
use Prim.Native.Nat.{ℕ, zero, suc, ◌+◌, ◌-◌, ◌*◌, ◌/◌, ◌%◌, ◌<◌}
use Prim.Native.Char.{code}
use Prim.Native.String
use Prim.Native.String.append
use Prim.Native.String.{String}
use mathlib.Core.Path.{◌≡◌, sym, ap, ◌∙◌}
use mathlib.Core.Logic.{inl, inr}
use mathlib.Core.List.{[], ◌∷◌}
use native.Mathlib.Omega.{arith}
use elasticctl.Prelude.Tests.{◌==◌, ==_iff, Bool-cases}
use elasticctl.Prelude.Text.{concat, show, decimal, digit}

-- the value of digits behind a number
abbrev read : ℕ → String → ℕ
read n String.[] = n
read n (String.◌∷◌ c s) = read (n * 10 + (code c - 48)) s

read-append : (n : ℕ) (s t : String) → read n (String.◌++◌ s t) ≡ read (read n s) t
read-append n String.[] t = ap (read n) (λ i. append.nil t i)
read-append n (String.◌∷◌ c s) t =
    ap (read n) (λ i. append.cons c s t i) ∙ read-append (n * 10 + (code c - 48)) s t

read-digit : (n d : ℕ) → d < 10 → read n (digit d) ≡ n * 10 + d
unfolding digit
read-digit n zero h = omega arith
read-digit n (suc zero) h = omega arith
read-digit n (suc (suc zero)) h = omega arith
read-digit n (suc (suc (suc zero))) h = omega arith
read-digit n (suc (suc (suc (suc zero)))) h = omega arith
read-digit n (suc (suc (suc (suc (suc zero))))) h = omega arith
read-digit n (suc (suc (suc (suc (suc (suc zero)))))) h = omega arith
read-digit n (suc (suc (suc (suc (suc (suc (suc zero))))))) h = omega arith
read-digit n (suc (suc (suc (suc (suc (suc (suc (suc zero)))))))) h = omega arith
read-digit n (suc (suc (suc (suc (suc (suc (suc (suc (suc zero))))))))) h = omega arith
read-digit n (suc (suc (suc (suc (suc (suc (suc (suc (suc (suc d)))))))))) h =
    absurd (omega (arith, h))

read-decimal : (fuel n : ℕ) → n < fuel → read 0 (decimal fuel n) ≡ n
unfolding decimal
read-decimal zero n h = absurd (omega (arith, h))
read-decimal (suc fuel) n h = elim (Bool-cases (n / 10 == 0)) [
  | inl small ↦
      let alone : n < 10 = omega (arith, (==_iff (n / 10) 0).0 small) in
      rw small (omega (arith, read-digit 0 n alone))
  | inr more ↦ rw more (
      let front : read 0 (decimal fuel (n / 10)) ≡ n / 10 =
        read-decimal fuel (n / 10) (ground (arith, more, h)) in
      let last = read-digit (n / 10) (n % 10) (omega arith) in
      let whole = read-append 0 (decimal fuel (n / 10)) (concat (digit (n % 10) ∷ [])) in
      let back = read-append (n / 10) (digit (n % 10)) "" in
      whole ∙ ap (λ x. read x (concat (digit (n % 10) ∷ []))) front ∙ back ∙ last ∙ omega arith)
]

pub show-injective : (n m : ℕ) → show n ≡ show m → n ≡ m
unfolding show
show-injective n m h =
    sym (read-decimal (suc n) n (omega arith))
    ∙ ap (read 0) h
    ∙ read-decimal (suc m) m (omega arith)
