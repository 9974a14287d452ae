-- ===== src/Api/Reconcile/Applied.antt =====
-- What the writes of the items of a list leave on the stack, seen at one `item_id`.
use elasticctl.Prelude.{
  String, ◌≡◌, refl, sym, subst, Bool, true, false, not, ◌&&◌, Option, none, some, List, [], ◌∷◌,
  ◌++◌, is_some, if◌then◌else◌, arith, ◌⊎◌, inl, inr, or_else,
}
use elasticctl.Prelude.Order.{◌=?◌, string_ord, =?_iff, =?_refl}
use elasticctl.Prelude.BTree.{BTreeMap, get, insert, get-insert}
use elasticctl.Json.{object, JsonMap}
use elasticctl.Core.Error.{ok, Result-cases}
use elasticctl.Api.Exceptions.{ExceptionItem, item_id, canonical_item}
use elasticctl.Api.Exceptions.Stored.{canonical_item-entries}
use elasticctl.Api.Reconcile.{ItemOp, create_item, update_item, remove_item, index_items}

-- whether the `item_id` can be read and is this one
abbrev pub has_item_id : String → ExceptionItem → Bool
has_item_id id i = elim (item_id i) [ ok s ↦ id =? s | _ ↦ false ]

-- the first item with an `item_id`
unfoldable pub item_with : String → List ExceptionItem → Option ExceptionItem
item_with id [] = none
item_with id (i ∷ is) = if has_item_id id i then some i else item_with id is

-- No `item_id` that can be read occurs twice.
unfoldable pub are_distinct_items : List ExceptionItem → Bool
are_distinct_items [] = true
are_distinct_items (i ∷ is) =
    let rest = are_distinct_items is in
    elim (item_id i) [ ok s ↦ not (is_some (item_with s is)) && rest | _ ↦ rest ]

-- the item with this `item_id` after a write that the stack performs
unfoldable pub perform_item : String → Option ExceptionItem → ItemOp → Option ExceptionItem
perform_item id old (create_item i) = if has_item_id id i then some i else old
perform_item id old (update_item before after) = if has_item_id id after then some after else old
perform_item id old (remove_item before namespace) = if has_item_id id before then none else old

unfoldable pub perform_items : String → Option ExceptionItem → List ItemOp → Option ExceptionItem
perform_items id old [] = old
perform_items id old (op ∷ ops) = perform_items id (perform_item id old op) ops

pub perform_items-append :
    (id : String) (old : Option ExceptionItem) (xs ys : List ItemOp)
    → perform_items id old (xs ++ ys) ≡ perform_items id (perform_items id old xs) ys
unfolding perform_items
perform_items-append id old [] ys = refl
perform_items-append id old (x ∷ xs) ys = perform_items-append id (perform_item id old x) xs ys

pub item_with-item_id :
    (id : String) (is : List ExceptionItem) (i : ExceptionItem)
    → item_with id is ≡ some i
    → item_id i ≡ ok id
unfolding item_with
item_with-item_id id [] i h = cc
item_with-item_id id (x ∷ is) i h = elim (Result-cases (item_id x)) [
  | inl e ↦ ground (arith, e.1, item_with-item_id id is i, =?_iff id e.0)
  | inr (inl e) ↦ ground (arith, e.1, item_with-item_id id is i)
  | inr (inr e) ↦ ground (arith, e.1, item_with-item_id id is i)
]

-- none of the items is in the map
pub disjoint : BTreeMap String ExceptionItem → List ExceptionItem → Bool
disjoint m [] = true
disjoint m (i ∷ is) =
    let rest = disjoint m is in
    elim (item_id i) [ ok s ↦ not (is_some (get s m)) && rest | _ ↦ rest ]

pub disjoint-nil : (is : List ExceptionItem) → disjoint [] is ≡ true
unfolding disjoint get
disjoint-nil [] = refl
disjoint-nil (i ∷ is) = ground (arith, disjoint-nil is)

disjoint-insert :
    (id : String) (x : ExceptionItem) (m : BTreeMap String ExceptionItem) (is : List ExceptionItem)
    → disjoint (insert id x m) is ≡ (not (is_some (item_with id is)) && disjoint m is)
unfolding disjoint item_with
disjoint-insert id x m [] = refl
disjoint-insert id x m (i ∷ is) = elim (Result-cases (item_id i)) [
  | inl e ↦
      rw (e.1, disjoint, item_with)
        (ground
          (arith, disjoint-insert id x m is, get-insert e.0 id x m, =?_iff e.0 id, =?_iff id e.0))
  | inr (inl e) ↦ ground (arith, e.1, disjoint-insert id x m is)
  | inr (inr e) ↦ ground (arith, e.1, disjoint-insert id x m is)
]

-- Where no `item_id` occurs twice, the index exists, and holds the items by it.
pub index_items-ok :
    (side : String) (is : List ExceptionItem) (m : BTreeMap String ExceptionItem)
    → are_distinct_items is ≡ true
    → disjoint m is ≡ true
    → (out : BTreeMap String ExceptionItem) × (index_items side is m ≡ ok out)
      × ((id : String) → get id out ≡ or_else (get id m) (item_with id is))
unfolding index_items are_distinct_items disjoint item_with
index_items-ok side [] m d n = (m, refl, λ id. ground arith)
index_items-ok side (i ∷ is) m d n = elim (Result-cases (item_id i)) [
  | inl e ↦
      let (out, made, at) =
        index_items-ok side is (insert e.0 i m) (ground (arith, e.1))
          (ground (arith, e.1, disjoint-insert e.0 i m is)) in
      (
        out,
        ground (arith, e.1, made),
        λ id. ground (arith, e.1, at id, get-insert id e.0 i m, =?_iff id e.0),
      )
  | inr (inl e) ↦
      let (out, made, at) = index_items-ok side is m (ground (arith, e.1)) (ground (arith, e.1)) in
      (out, ground (arith, e.1, made), λ id. ground (arith, e.1, at id))
  | inr (inr e) ↦
      let (out, made, at) = index_items-ok side is m (ground (arith, e.1)) (ground (arith, e.1)) in
      (out, ground (arith, e.1, made), λ id. ground (arith, e.1, at id))
]

module _ (J : JsonMap) where
  open J use {value_eq, value_eq_refl}

  -- Neither side has the item, or both have it with the same canonical form.
  abbrev pub SameItem : Option ExceptionItem → Option ExceptionItem → Type 0
  SameItem none none = Unit {0}
  SameItem (some l) (some r) =
      (c d : ExceptionItem) × (canonical_item J l ≡ ok c)
      × (canonical_item J r ≡ ok d)
      × (value_eq (object c.map) (object d.map) ≡ true)
  SameItem _ _ = ⊥

  -- What the writes of one item leave, where `l` and `r` are what the two sides have.
  pub record Settles (id : String) (l r : Option ExceptionItem) (ops : List ItemOp) : Type 0 where
    pub at_it :
        (old : Option ExceptionItem)
        → (old ≡ r) ⊎ SameItem l old
        → SameItem l (perform_items id old ops)
    pub elsewhere :
        (k : String) (old : Option ExceptionItem)
        → (k =? id) ≡ false
        → perform_items k old ops ≡ old

  SameItem-refl : (i : ExceptionItem) (s : String) → item_id i ≡ ok s → SameItem (some i) (some i)
  SameItem-refl i s e =
      let (c, made, _, _) = canonical_item-entries J i s e in
      (c, c, made, made, value_eq_refl (object c.map))

  pub create-Settles :
      (id : String) (i : ExceptionItem) (r : Option ExceptionItem)
      → item_id i ≡ ok id
      → Settles id (some i) r (create_item i ∷ [])
  unfolding perform_items perform_item
  create-Settles id i r e = record {
    at_it = λ old h.
        let done : perform_items id old (create_item i ∷ []) ≡ some i =
          ground (arith, e, =?_refl id) in
        subst (λ (o : Option ExceptionItem). SameItem (some i) o) (sym done) (SameItem-refl i id e);
    elsewhere = λ k old other. ground (arith, e, other);
  }

  pub update-Settles :
      (id : String) (i b : ExceptionItem) (r : Option ExceptionItem)
      → item_id i ≡ ok id
      → Settles id (some i) r (update_item b i ∷ [])
  unfolding perform_items perform_item
  update-Settles id i b r e = record {
    at_it = λ old h.
        let done : perform_items id old (update_item b i ∷ []) ≡ some i =
          ground (arith, e, =?_refl id) in
        subst (λ (o : Option ExceptionItem). SameItem (some i) o) (sym done) (SameItem-refl i id e);
    elsewhere = λ k old other. ground (arith, e, other);
  }

  pub remove-Settles :
      (id : String) (b : ExceptionItem) (namespace : String) (r : Option ExceptionItem)
      → item_id b ≡ ok id
      → Settles id none r (remove_item b namespace ∷ [])
  unfolding perform_items perform_item
  remove-Settles id b namespace r e = record {
    at_it = λ old h.
        let done : perform_items id old (remove_item b namespace ∷ []) ≡ none =
          ground (arith, e, =?_refl id) in
        subst (λ (o : Option ExceptionItem). SameItem none o) (sym done) tt;
    elsewhere = λ k old other. ground (arith, e, other);
  }

  pub keep-Settles : (id : String) (l r : Option ExceptionItem) → SameItem l r → Settles id l r []
  unfolding perform_items
  keep-Settles id l r same = record {
    at_it = λ old h. elim h [ inl e ↦ rw e same | inr s ↦ s ];
    elsewhere = λ k old other. refl;
  }
