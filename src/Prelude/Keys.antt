-- ===== src/Prelude/Keys.antt =====
-- The lexicographic order of two keys, and the stable sort of a `Vec` by a comparison.
use Prim.Native.Nat.{Ordering}
use Prim.Native.Nat.Ordering.{lt, eq, gt}
use mathlib.Core.Path.{◌≡◌}
use mathlib.Core.List.{List, [], ◌∷◌}
use native.Mathlib.Omega.{arith}
use elasticctl.Prelude.Order.{Ord}

-- `Ordering::then`
abbrev pub then_cmp : Ordering → Ordering → Ordering
then_cmp lt o = lt
then_cmp eq o = o
then_cmp gt o = gt

module _ {ℓ κ} {A : Type ℓ} {B : Type κ} ⦃o : Ord A⦄ ⦃p : Ord B⦄ where
  abbrev pub cmp_pair : A × B → A × B → Ordering
  cmp_pair x y = then_cmp (o.cmp x.0 y.0) (p.cmp x.1 y.1)

  pub cmp_pair_refl : (x : A × B) → cmp_pair x x ≡ eq
  cmp_pair_refl x = ground (arith, o.cmp_refl x.0, p.cmp_refl x.1)

  pub cmp_pair-eq : (x y : A × B) → cmp_pair x y ≡ eq → x ≡ y
  cmp_pair-eq x y h = ground (arith, o.eq_of_cmp x.0 y.0, p.eq_of_cmp x.1 y.1)

  pub cmp_pair-lt_of_gt : (x y : A × B) → cmp_pair x y ≡ gt → cmp_pair y x ≡ lt
  cmp_pair-lt_of_gt x y h =
      ground (arith, o.lt_of_gt x.0 y.0, p.lt_of_gt x.1 y.1, o.eq_of_cmp x.0 y.0, o.cmp_refl x.0)

  pub cmp_pair-gt_of_lt : (x y : A × B) → cmp_pair x y ≡ lt → cmp_pair y x ≡ gt
  cmp_pair-gt_of_lt x y h =
      ground (arith, o.gt_of_lt x.0 y.0, p.gt_of_lt x.1 y.1, o.eq_of_cmp x.0 y.0, o.cmp_refl x.0)

  pub cmp_pair-lt_trans :
      (x y z : A × B) → cmp_pair x y ≡ lt → cmp_pair y z ≡ lt → cmp_pair x z ≡ lt
  cmp_pair-lt_trans x y z h k = ground (
    arith,
    o.lt_trans x.0 y.0 z.0,
    p.lt_trans x.1 y.1 z.1,
    o.eq_of_cmp x.0 y.0,
    o.eq_of_cmp y.0 z.0,
  )

  -- as the derived order of a struct with these two fields
  abbrev pub pair_ord : Ord (A × B)
  pair_ord = record {
    cmp = cmp_pair;
    cmp_refl = cmp_pair_refl;
    eq_of_cmp = cmp_pair-eq;
    lt_of_gt = cmp_pair-lt_of_gt;
    gt_of_lt = cmp_pair-gt_of_lt;
    lt_trans = cmp_pair-lt_trans;
  }

module _ {ℓ} {A : Type ℓ} (cmp : A → A → Ordering) where
  place_by : A → List A → List A
  place_by x [] = x ∷ []
  place_by x (y ∷ l) = let rest = place_by x l in elim (cmp x y) [ gt ↦ y ∷ rest | _ ↦ x ∷ y ∷ l ]

  -- `slice::sort_by`, which keeps the order of equal elements
  unfoldable pub sort_by : List A → List A
  unfolding place_by
  sort_by [] = []
  sort_by (x ∷ l) = place_by x (sort_by l)
