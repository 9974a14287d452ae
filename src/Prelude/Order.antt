-- ===== src/Prelude/Order.antt =====
-- The bound `Ord` with the laws that the trait asks of `cmp`, for texts.
use Prim.Native.Nat.{compare as compare_ℕ, Ordering}
use Prim.Native.Nat.Ordering.{lt, eq, gt}
use Prim.Native.Char.{Char, code}
use Prim.Native.String.{String, compare, then}
use Prim.Native.String.compare as compare_laws
use mathlib.Core.Path.{◌≡◌, subst}
use mathlib.Core.Logic.{◌↔◌}
use mathlib.Core.Bool.{Bool, true, false}
use native.Mathlib.Omega.{arith}
use text.Mathlib.TextEquality.{path_by_compare}

pub record Ord {ℓ} (K : Type ℓ) : Type ℓ where
  pub cmp : K → K → Ordering
  pub lt_trans : (x y z : K) → cmp x y ≡ lt → cmp y z ≡ lt → cmp x z ≡ lt
  pub gt_of_lt : (x y : K) → cmp x y ≡ lt → cmp y x ≡ gt
  pub lt_of_gt : (x y : K) → cmp x y ≡ gt → cmp y x ≡ lt
  pub eq_of_cmp : (x y : K) → cmp x y ≡ eq → x ≡ y
  pub cmp_refl : (x : K) → cmp x x ≡ eq

-- equality by the order
infix 50 ◌=?◌
abbrev pub ◌=?◌ {ℓ} : {K : Type ℓ} ⦃o : Ord K⦄ → K → K → Bool
◌=?◌ ⦃o⦄ a b = elim (o.cmp a b) [ eq ↦ true | _ ↦ false ]

infix 50 ◌≺◌
abbrev pub ◌≺◌ {ℓ} : {K : Type ℓ} ⦃o : Ord K⦄ → K → K → Type 0
◌≺◌ ⦃o⦄ a b = o.cmp a b ≡ lt

module _ {ℓ} {K : Type ℓ} ⦃o : Ord K⦄ where
  pub =?_refl : (a : K) → (a =? a) ≡ true
  =?_refl a = ground (arith, o.cmp_refl a)

  pub =?_iff : (a b : K) → ((a =? b) ≡ true) ↔ (a ≡ b)
  =?_iff a b =
      (λ h. o.eq_of_cmp a b (ground arith), λ e. subst (λ (x : K). (a =? x) ≡ true) e (=?_refl a))

-- the clause of the native comparison of two texts that are not empty
step :
    (c d : Char) (s t : String)
    → compare (String.◌∷◌ c s) (String.◌∷◌ d t) ≡ then (compare_ℕ (code c) (code d)) (compare s t)
step c d s t = compare_laws.cons-cons c d s t

nil_cons : (d : Char) (t : String) → compare String.[] (String.◌∷◌ d t) ≡ lt
nil_cons d t = compare_laws.nil-cons d t

cons_nil : (c : Char) (s : String) → compare (String.◌∷◌ c s) String.[] ≡ gt
cons_nil c s = compare_laws.cons-nil c s

nil_nil : compare String.[] String.[] ≡ eq
nil_nil = compare_laws.nil-nil

pub compare_refl : (s : String) → compare s s ≡ eq
compare_refl String.[] = nil_nil
compare_refl (String.◌∷◌ c s) = ground (arith, step c c s s, compare_refl s)

pub compare-lt_of_gt : (s t : String) → compare s t ≡ gt → compare t s ≡ lt
compare-lt_of_gt String.[] String.[] h = cc nil_nil
compare-lt_of_gt String.[] (String.◌∷◌ d t) h = cc (nil_cons d t)
compare-lt_of_gt (String.◌∷◌ c s) String.[] h = nil_cons c s
compare-lt_of_gt (String.◌∷◌ c s) (String.◌∷◌ d t) h =
    ground (arith, step c d s t, step d c t s, compare-lt_of_gt s t)

pub compare-gt_of_lt : (s t : String) → compare s t ≡ lt → compare t s ≡ gt
compare-gt_of_lt String.[] String.[] h = cc nil_nil
compare-gt_of_lt String.[] (String.◌∷◌ d t) h = cons_nil d t
compare-gt_of_lt (String.◌∷◌ c s) String.[] h = cc (cons_nil c s)
compare-gt_of_lt (String.◌∷◌ c s) (String.◌∷◌ d t) h =
    ground (arith, step c d s t, step d c t s, compare-gt_of_lt s t)

pub compare-lt_trans : (s t u : String) → compare s t ≡ lt → compare t u ≡ lt → compare s u ≡ lt
compare-lt_trans String.[] String.[] u h k = k
compare-lt_trans String.[] (String.◌∷◌ d t) String.[] h k = cc (cons_nil d t)
compare-lt_trans String.[] (String.◌∷◌ d t) (String.◌∷◌ e u) h k = nil_cons e u
compare-lt_trans (String.◌∷◌ c s) String.[] u h k = cc (cons_nil c s)
compare-lt_trans (String.◌∷◌ c s) (String.◌∷◌ d t) String.[] h k = cc (cons_nil d t)
compare-lt_trans (String.◌∷◌ c s) (String.◌∷◌ d t) (String.◌∷◌ e u) h k =
    ground (arith, step c d s t, step d e t u, step c e s u, compare-lt_trans s t u)

-- Rust compares texts by their bytes, which is the order of the code points.
instance abbrev pub string_ord : Ord String
string_ord = record {
  cmp = compare;
  cmp_refl = compare_refl;
  eq_of_cmp = path_by_compare;
  lt_of_gt = compare-lt_of_gt;
  gt_of_lt = compare-gt_of_lt;
  lt_trans = compare-lt_trans;
}
