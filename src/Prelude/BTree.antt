-- ===== src/Prelude/BTree.antt =====
-- `BTreeMap` and `BTreeSet` as lists in the order of their keys, and `sort` and `dedup` of a `Vec`.
use Prim.Native.Nat.Ordering.{lt, eq, gt}
use mathlib.Core.Path.{◌≡◌, refl}
use mathlib.Core.Bool.{Bool, false, ◌||◌}
use mathlib.Core.Option.{Option, none, some}
use mathlib.Core.List.{List, [], ◌∷◌, ◌++◌}
use native.Mathlib.Omega.{arith}
use elasticctl.Prelude.Tests.{if◌then◌else◌, is_some}
use elasticctl.Prelude.Order.{Ord, ◌=?◌, ◌≺◌}

abbrev pub BTreeMap {ℓ κ} : Type ℓ → Type κ → Type (ℓ ⊔ κ)
BTreeMap K V = List (K × V)

module _ {ℓ κ} {K : Type ℓ} {V : Type κ} ⦃o : Ord K⦄ where
  unfoldable pub get : K → BTreeMap K V → Option V
  get k [] = none
  get k ((j, v) ∷ m) = if k =? j then some v else get k m

  -- the new map; whether the key was there before is `is_some (get k m)`
  unfoldable pub insert : K → V → BTreeMap K V → BTreeMap K V
  insert k v [] = (k, v) ∷ []
  insert k v ((j, w) ∷ m) =
      let rest = insert k v m in
      elim (o.cmp k j) [ lt ↦ (k, v) ∷ (j, w) ∷ m | eq ↦ (j, v) ∷ m | gt ↦ (j, w) ∷ rest ]

  unfoldable pub keys : BTreeMap K V → List K
  keys [] = []
  keys ((j, v) ∷ m) = j ∷ keys m

  -- Every key is above `k`.
  abbrev pub Above : K → BTreeMap K V → Type 0
  Above k [] = Unit
  Above k ((j, v) ∷ m) = (k ≺ j) × Above k m

  abbrev pub IsOrdered : BTreeMap K V → Type 0
  IsOrdered [] = Unit
  IsOrdered ((j, v) ∷ m) = Above j m × IsOrdered m

  pub get-insert :
      (j k : K) (v : V) (m : BTreeMap K V)
      → get j (insert k v m) ≡ (if j =? k then some v else get j m)
  unfolding get insert
  get-insert j k v [] = refl
  get-insert j k v ((i, w) ∷ m) =
      ground (arith, get-insert j k v m, o.eq_of_cmp j i, o.eq_of_cmp k i, o.eq_of_cmp j k)

module _ {ℓ} {K : Type ℓ} ⦃o : Ord K⦄ where
  -- `contains` of a set or a slice
  unfoldable pub contains : K → List K → Bool
  contains k [] = false
  contains k (j ∷ l) = (k =? j) || contains k l

  pub contains-append :
      (k : K) (xs ys : List K) → contains k (xs ++ ys) ≡ (contains k xs || contains k ys)
  unfolding contains
  contains-append k [] ys = refl
  contains-append k (x ∷ xs) ys = ground (arith, contains-append k xs ys)

  place : K → List K → List K
  place k [] = k ∷ []
  place k (j ∷ l) = let rest = place k l in elim (o.cmp k j) [ gt ↦ j ∷ rest | _ ↦ k ∷ j ∷ l ]

  unfoldable pub sort : List K → List K
  unfolding place
  sort [] = []
  sort (k ∷ l) = place k (sort l)

  -- drops what equals its predecessor
  dedup_after : K → List K → List K
  dedup_after k [] = []
  dedup_after k (j ∷ l) = let rest = dedup_after j l in if k =? j then rest else j ∷ rest

  unfoldable pub dedup : List K → List K
  unfolding dedup_after
  dedup [] = []
  dedup (k ∷ l) = k ∷ dedup_after k l

  contains-place : (i k : K) (l : List K) → contains i (place k l) ≡ ((i =? k) || contains i l)
  unfolding contains place
  contains-place i k [] = refl
  contains-place i k (j ∷ l) = ground (arith, contains-place i k l)

  pub contains-sort : (i : K) (l : List K) → contains i (sort l) ≡ contains i l
  unfolding contains sort
  contains-sort i [] = refl
  contains-sort i (k ∷ l) = ground (arith, contains-place i k (sort l), contains-sort i l)

  contains-dedup_after :
      (i k : K) (l : List K)
      → ((i =? k) || contains i (dedup_after k l)) ≡ ((i =? k) || contains i l)
  unfolding contains dedup_after
  contains-dedup_after i k [] = refl
  contains-dedup_after i k (j ∷ l) = ground (arith, contains-dedup_after i j l, o.eq_of_cmp k j)

  pub contains-dedup : (i : K) (l : List K) → contains i (dedup l) ≡ contains i l
  unfolding contains dedup
  contains-dedup i [] = refl
  contains-dedup i (k ∷ l) = contains-dedup_after i k l

  -- the first key is at most each key of a list, and each is at most the next
  abbrev pub AtMost : K → List K → Type 0
  AtMost k [] = Unit
  AtMost k (j ∷ l) = (o.cmp k j ≡ gt → ⊥) × AtMost j l

  -- strictly ascending from a key on
  abbrev pub Ascending : K → List K → Type 0
  Ascending k [] = Unit
  Ascending k (j ∷ l) = (k ≺ j) × Ascending j l

  abbrev pub IsSorted : List K → Type 0
  IsSorted [] = Unit
  IsSorted (k ∷ l) = AtMost k l

  abbrev pub IsAscending : List K → Type 0
  IsAscending [] = Unit
  IsAscending (k ∷ l) = Ascending k l

  AtMost-place : (i k : K) (l : List K) → (o.cmp i k ≡ gt → ⊥) → AtMost i l → AtMost i (place k l)
  unfolding place
  AtMost-place i k [] h a = (h, tt)
  AtMost-place i k (j ∷ l) h a = ground (arith, AtMost-place j k l, o.lt_of_gt k j)

  place-IsSorted : (k : K) (l : List K) → IsSorted l → IsSorted (place k l)
  unfolding place
  place-IsSorted k [] h = tt
  place-IsSorted k (j ∷ l) h = ground (arith, AtMost-place j k l, o.lt_of_gt k j)

  sort-IsSorted : (l : List K) → IsSorted (sort l)
  unfolding sort
  sort-IsSorted [] = tt
  sort-IsSorted (k ∷ l) = place-IsSorted k (sort l) (sort-IsSorted l)

  dedup_after-Ascending : (k : K) (l : List K) → AtMost k l → Ascending k (dedup_after k l)
  unfolding dedup_after
  dedup_after-Ascending k [] a = tt
  dedup_after-Ascending k (j ∷ l) a = ground (arith, dedup_after-Ascending j l, o.eq_of_cmp k j)

  -- Sorting and dropping repetitions leaves a strictly ascending list.
  pub dedup-sort-IsAscending : (l : List K) → IsAscending (dedup (sort l))
  unfolding dedup
  dedup-sort-IsAscending l = go (sort l) (sort-IsSorted l)
    where
      go : (l : List K) → IsSorted l → IsAscending (dedup l)
      go [] h = tt
      go (k ∷ l) h = dedup_after-Ascending k l h

module _ {ℓ κ} {K : Type ℓ} {V : Type κ} ⦃o : Ord K⦄ where
  pub contains-keys : (k : K) (m : BTreeMap K V) → contains k (keys m) ≡ is_some (get k m)
  unfolding contains keys get
  contains-keys k [] = refl
  contains-keys k ((j, v) ∷ m) = ground (arith, contains-keys k m)
