-- ===== src/Api/Reconcile/Convergence.antt =====
-- The reconciliation of the items of a list reaches what the mirror holds, and then has nothing to do.
use elasticctl.Prelude.{
  String, ◌≡◌, ◌↔◌, refl, sym, subst, ◌∙◌, true, false, ◌||◌, Option, none, some, List, [], ◌++◌,
  is_some, map_option, arith, inl, inr, Bool-cases,
}
use elasticctl.Prelude.Order.{string_ord}
use elasticctl.Prelude.BTree
use elasticctl.Prelude.BTree.{
  BTreeMap, keys, contains, sort, dedup, contains-append, contains-sort, contains-dedup,
  contains-keys,
}
use elasticctl.Json.{JsonMap}
use elasticctl.Core.Error.{ok}
use elasticctl.Api.Model.{ListKey}
use elasticctl.Api.Exceptions.{ExceptionItem, canonical_item}
use elasticctl.Api.Reconcile.{ItemOp, index_items, classify_item, collect, reconcile}
use elasticctl.Api.Reconcile.Applied.{
  item_with, are_distinct_items, perform_items, item_with-item_id, disjoint-nil, index_items-ok,
  SameItem,
}
use elasticctl.Api.Reconcile.Items.{HasId, Found, collect-Reaches, collect-same}

abbrev all_ids : BTreeMap String ExceptionItem → BTreeMap String ExceptionItem → List String
all_ids l r = dedup (sort (keys l ++ keys r))

contains-all_ids :
    (id : String) (l r : BTreeMap String ExceptionItem)
    → contains id (all_ids l r) ≡ (is_some (BTree.get id l) || is_some (BTree.get id r))
contains-all_ids id l r = ground (
  arith,
  contains-dedup id (sort (keys l ++ keys r)),
  contains-sort id (keys l ++ keys r),
  contains-append id (keys l) (keys r),
  contains-keys id l,
  contains-keys id r,
)

-- The index of items whose `item_id`s are distinct.
index-ok :
    (side : String) (is : List ExceptionItem)
    → are_distinct_items is ≡ true
    → (m : BTreeMap String ExceptionItem) × (index_items side is [] ≡ ok m)
      × ((id : String) → BTree.get id m ≡ item_with id is)
      × ((id : String) → HasId id (BTree.get id m))
unfolding BTree.get
index-ok side is distinct =
    let (m, made, at) = index_items-ok side is [] distinct (disjoint-nil is) in
    (m, made, at, λ id i e. item_with-item_id id is i (sym (at id) ∙ e))

none_or_both :
    (o p : Option ExceptionItem) (J : JsonMap) → (is_some o || is_some p) ≡ false → SameItem J o p
none_or_both none none J h = tt
none_or_both none (some p) J h = absurd (ground (arith, h))
none_or_both (some o) p J h = absurd (ground (arith, h))

module _ (J : JsonMap) (key : ListKey) where
  -- Where no `item_id` of either side occurs twice, the reconciliation of a list exists, and a stack
  -- that performs its writes on the items that it has holds, at each `item_id`, an item with the
  -- canonical form of the mirror's, and no item where the mirror has none.
  pub reconcile-SameItem :
      (local remote : List ExceptionItem)
      → are_distinct_items local ≡ true
      → are_distinct_items remote ≡ true
      → (found : Found) × (reconcile J key local remote ≡ ok found)
        × ((id : String)
            → SameItem J (item_with id local) (perform_items id (item_with id remote) found.1))
  unfolding reconcile
  reconcile-SameItem local remote dl dr =
      let (l, made_l, at_l, has_l) = index-ok "local" local dl in
      let (r, made_r, at_r, has_r) = index-ok "remote" remote dr in
      let (found, made, reach) =
        collect-Reaches J key (λ id. BTree.get id l) (λ id. BTree.get id r) (all_ids l r) has_l
          has_r (λ id m. sym (contains-all_ids id l r) ∙ m) in
      (
        found,
        ground (arith, made_l, made_r, made),
        λ id.
            rw (← at_l id, ← at_r id)
              (elim (Bool-cases (contains id (all_ids l r))) [
                | inl there ↦ reach.reaches id (BTree.get id r) there (inl refl)
                | inr nowhere ↦ rw (reach.elsewhere id (BTree.get id r) nowhere) (
                    none_or_both (BTree.get id l) (BTree.get id r) J
                      (sym (contains-all_ids id l r) ∙ nowhere))
              ]),
      )

  -- Where no `item_id` of either side occurs twice, the reconciliation of a list has no change and no
  -- write exactly when the two sides have the same items, up to their canonical forms.
  pub reconcile-nothing_iff :
      (local remote : List ExceptionItem)
      → are_distinct_items local ≡ true
      → are_distinct_items remote ≡ true
      → (reconcile J key local remote ≡ ok ([], []))
        ↔ ((id : String) → SameItem J (item_with id local) (item_with id remote))
  unfolding reconcile perform_items
  reconcile-nothing_iff local remote dl dr =
      let (l, made_l, at_l, has_l) = index-ok "local" local dl in
      let (r, made_r, at_r, has_r) = index-ok "remote" remote dr in
      let (found, made, same) = reconcile-SameItem local remote dl dr in
      (
        λ h id.
            let nothing : found.1 ≡ [] = ground (arith, made, h) in
            subst
              (λ (ops : List ItemOp).
                SameItem J (item_with id local) (perform_items id (item_with id remote) ops))
              nothing (same id),
        λ h.
            let none_found : collect
                  (λ id. classify_item J key id (BTree.get id l) (BTree.get id r)) (all_ids l r)
                ≡ ok ([], []) =
              collect-same J key (λ id. BTree.get id l) (λ id. BTree.get id r) (all_ids l r)
                (λ id. rw (at_l id, at_r id) (h id)) (λ id m. sym (contains-all_ids id l r) ∙ m) in
            ground (arith, made_l, made_r, none_found),
      )

  -- an item is the same as one with its canonical form
  SameItem-canonical :
      (l x y : Option ExceptionItem)
      → map_option (canonical_item J) x ≡ map_option (canonical_item J) y
      → SameItem J l x
      → SameItem J l y
  SameItem-canonical none none none h s = tt
  SameItem-canonical none none (some y) h s = absurd (ground (arith, h))
  SameItem-canonical none (some x) y h s = absurd s
  SameItem-canonical (some l) none y h s = absurd s
  SameItem-canonical (some l) (some x) none h s = absurd (ground (arith, h))
  SameItem-canonical (some l) (some x) (some y) h (c, d, made, made', same) =
      (c, d, made, ground (arith, h, made'), same)

  -- After the writes of a reconciliation the next one has nothing to do: where the items that the
  -- stack then returns have, at each `item_id`, the canonical forms of those that the writes left, it
  -- has no change and no write.
  pub reconcile-converges :
      (local remote after : List ExceptionItem) (found : Found)
      → are_distinct_items local ≡ true
      → are_distinct_items remote ≡ true
      → are_distinct_items after ≡ true
      → reconcile J key local remote ≡ ok found
      → ((id : String)
          → map_option (canonical_item J) (perform_items id (item_with id remote) found.1)
            ≡ map_option (canonical_item J) (item_with id after))
      → reconcile J key local after ≡ ok ([], [])
  reconcile-converges local remote after found dl dr da h performed =
      let (found', made, same) = reconcile-SameItem local remote dl dr in
      let ops : found'.1 ≡ found.1 = ground (arith, made, h) in
      (reconcile-nothing_iff local after dl da).1 (λ id.
        SameItem-canonical (item_with id local) (perform_items id (item_with id remote) found.1)
          (item_with id after) (performed id)
          (subst
            (λ (ops : List ItemOp).
              SameItem J (item_with id local) (perform_items id (item_with id remote) ops))
            ops (same id)))
