-- ===== src/Api/Reconcile/Items.antt =====
-- The writes of the items of a list make the stack hold what the mirror holds.
use elasticctl.Prelude.{
  String, ◌≡◌, refl, sym, subst, true, false, ◌||◌, Option, none, some, List, [], ◌∷◌, ◌++◌,
  is_some, arith, ◌⊎◌, inl, inr, Bool-cases,
}
use elasticctl.Prelude.Order.{◌=?◌, string_ord, =?_iff, =?_refl}
use elasticctl.Prelude.BTree.{contains}
use elasticctl.Json.{object, JsonMap}
use elasticctl.Core.Error.{ok}
use elasticctl.Api.Model.{ListKey}
use elasticctl.Api.Exceptions.{ExceptionItem, item_id}
use elasticctl.Api.Exceptions.Stored.{canonical_item-entries}
use elasticctl.Api.Reconcile.{
  ListChange, item_modified, item_removed, ItemOp, update_item, remove_item, collect, add_change,
  map_field_changes, classify_item,
}
use elasticctl.Api.Reconcile.Applied.{
  perform_items, perform_items-append, SameItem, Settles, create-Settles, update-Settles,
  remove-Settles, keep-Settles,
}

-- An item that is there has the `item_id`.
abbrev pub HasId : String → Option ExceptionItem → Type 0
HasId id o = (i : ExceptionItem) → o ≡ some i → item_id i ≡ ok id

abbrev pub Found : Type 0
Found = List ListChange × List ItemOp

module _ (J : JsonMap) (key : ListKey) where
  open J use {value_eq}

  classify_item-Settles :
      (id : String) (l r : Option ExceptionItem)
      → HasId id l
      → HasId id r
      → (is_some l || is_some r) ≡ true
      → (found : Found) × (classify_item J key id l r ≡ ok found) × Settles J id l r found.1
  unfolding classify_item
  classify_item-Settles id none none hl hr there = absurd (ground (arith, there))
  classify_item-Settles id (some l) none hl hr there =
      (_, refl, create-Settles J id l none (hl l refl))
  classify_item-Settles id none (some r) hl hr there =
      let (d, made, same_id, _) = canonical_item-entries J r id (hr r refl) in
      (
        (item_removed key.list_id id ∷ [], remove_item d key.namespace_type ∷ []),
        ground (arith, made),
        remove-Settles J id d key.namespace_type (some r) same_id,
      )
  classify_item-Settles id (some l) (some r) hl hr there =
      let (c, made, _, _) = canonical_item-entries J l id (hl l refl) in
      let (d, made', _, _) = canonical_item-entries J r id (hr r refl) in
      elim (Bool-cases (value_eq (object c.map) (object d.map))) [
        | inl same ↦ (
          ([], []),
          ground (arith, made, made', same),
          keep-Settles J id (some l) (some r) (c, d, made, made', same),
        )
        | inr differ ↦ (
          (
            item_modified key.list_id id (map_field_changes J d.map c.map) ∷ [],
            update_item d l ∷ [],
          ),
          ground (arith, made, made', differ),
          update-Settles J id l d (some r) (hl l refl),
        )
      ]

  -- nothing to write where the two sides have the same
  classify_item-same :
      (id : String) (l r : Option ExceptionItem)
      → (is_some l || is_some r) ≡ true
      → SameItem J l r
      → classify_item J key id l r ≡ ok ([], [])
  unfolding classify_item
  classify_item-same id none none there s = absurd (ground (arith, there))
  classify_item-same id none (some r) there s = absurd s
  classify_item-same id (some l) none there s = absurd s
  classify_item-same id (some l) (some r) there (c, d, made, made', same) =
      ground (arith, made, made', same)

  module _ (L R : String → Option ExceptionItem) where
    -- What the writes for these `item_id`s leave.
    pub record Reaches (ids : List String) (ops : List ItemOp) : Type 0 where
      pub keeps :
          (k : String) (old : Option ExceptionItem)
          → SameItem J (L k) old
          → SameItem J (L k) (perform_items k old ops)
      pub reaches :
          (k : String) (old : Option ExceptionItem)
          → contains k ids ≡ true
          → (old ≡ R k) ⊎ SameItem J (L k) old
          → SameItem J (L k) (perform_items k old ops)
      pub elsewhere :
          (k : String) (old : Option ExceptionItem)
          → contains k ids ≡ false
          → perform_items k old ops ≡ old

    cons-Reaches :
        (id : String) (ids : List String) (xs ys : List ItemOp)
        → Settles J id (L id) (R id) xs
        → Reaches ids ys
        → Reaches (id ∷ ids) (xs ++ ys)
    unfolding contains
    cons-Reaches id ids xs ys one rest = record {
      keeps = λ k old same. rw (perform_items-append k old xs ys) (
          rest.keeps k (perform_items k old xs) (elim (Bool-cases (k =? id)) [
            | inl here ↦ at k old here (inr same)
            | inr other ↦ rw (one.elsewhere k old other) same
          ]));
      reaches = λ k old there p.
          rw (perform_items-append k old xs ys) (elim (Bool-cases (k =? id)) [
            | inl here ↦ rest.keeps k (perform_items k old xs) (at k old here p)
            | inr other ↦
                rw (one.elsewhere k old other) (rest.reaches k old (ground (arith, other)) p)
          ]);
      elsewhere = λ k old out.
          rw (perform_items-append k old xs ys)
            (rw (one.elsewhere k old (ground arith)) (rest.elsewhere k old (ground arith)));
    }
      where
        at :
            (k : String) (old : Option ExceptionItem)
            → (k =? id) ≡ true
            → (old ≡ R k) ⊎ SameItem J (L k) old
            → SameItem J (L k) (perform_items k old xs)
        at k old here p =
            let same : id ≡ k = sym ((=?_iff k id).0 here) in
            subst
              (λ (i : String).
                (old ≡ R i) ⊎ SameItem J (L i) old → SameItem J (L i) (perform_items i old xs))
              same (one.at_it old) p

    pub collect-Reaches :
        (ids : List String)
        → ((id : String) → HasId id (L id))
        → ((id : String) → HasId id (R id))
        → ((id : String) → contains id ids ≡ true → (is_some (L id) || is_some (R id)) ≡ true)
        → (found : Found) × (collect (λ id. classify_item J key id (L id) (R id)) ids ≡ ok found)
          × Reaches ids found.1
    unfolding collect contains perform_items
    collect-Reaches [] hl hr there = (
      ([], []),
      refl,
      record {
        keeps = λ k old same. same;
        reaches = λ k old out p. absurd (ground (arith, out));
        elsewhere = λ k old out. refl;
      },
    )
    collect-Reaches (id ∷ ids) hl hr there =
        let (one, made, settles) =
          classify_item-Settles id (L id) (R id) (hl id) (hr id)
            (there id (ground (arith, =?_refl id))) in
        let (rest, mades, reach) = collect-Reaches ids hl hr (λ k m. there k (ground (arith, m))) in
        (
          add_change one rest,
          ground (arith, made, mades),
          cons-Reaches id ids one.1 rest.1 settles reach,
        )

    pub collect-same :
        (ids : List String)
        → ((id : String) → SameItem J (L id) (R id))
        → ((id : String) → contains id ids ≡ true → (is_some (L id) || is_some (R id)) ≡ true)
        → collect (λ id. classify_item J key id (L id) (R id)) ids ≡ ok ([], [])
    unfolding collect contains
    collect-same [] same there = refl
    collect-same (id ∷ ids) same there = ground (
      arith,
      classify_item-same id (L id) (R id) (there id (ground (arith, =?_refl id))) (same id),
      collect-same ids same (λ k m. there k (ground (arith, m))),
    )
