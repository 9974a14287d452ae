-- ===== src/Api/Normalize/Paths.antt =====
-- What the normal forms hold at each path, as the rule holds it.
use elasticctl.Prelude.{
  ℕ, zero, suc, String, ◌≡◌, refl, ◌∙◌, ap, Option, none, some, List, [], ◌∷◌, arith, if◌then◌else◌,
  ◌&&◌, map_option, and_then, or_else, inl, inr, Option-cases, Bool-cases,
}
use elasticctl.Prelude.Order.{◌=?◌, string_ord}
use elasticctl.Prelude.BTree.{contains}
use elasticctl.Json.{
  Value, null, boolean, number, string, array, object, Items, nil, cons, Fields, JsonMap, get,
}
use elasticctl.Json.Paths.{
  Step, key, index, Leaf, is_object, is_array, size, item, look, is_first, is_in_elements, is_among,
}
use elasticctl.Core.Error.{ok}
use elasticctl.Api.Model.{Rule, volatile_fields, server_defaults, rule_id}
use elasticctl.Api.Normalize.{
  remove_all, strip_id, strip_ids, strip_references, sort_value, sort_items, canonical, comparable,
}
use elasticctl.Api.Normalize.Entries.{
  sorted, get-sorted, get-remove_all, default, stored_entry, canonical_entry, comparable_entry,
  comparable-entries, canonical-entries,
}

-- what is done to each element of an array
unfoldable pub each : (Value → Value) → Items → Items
each f nil = nil
each f (cons v vs) = cons (f v) (each f vs)

size-each : (f : Value → Value) (vs : Items) → size (each f vs) ≡ size vs
unfolding size each
size-each f nil = refl
size-each f (cons v vs) = ap suc (size-each f vs)

item-each : (i : ℕ) (f : Value → Value) (vs : Items) → item i (each f vs) ≡ map_option f (item i vs)
unfolding item each
item-each i f nil = refl
item-each zero f (cons v vs) = refl
item-each (suc i) f (cons v vs) = item-each i f vs

module _ (J : JsonMap) where
  sort_items-each : (vs : Items) → sort_items J vs ≡ each (sort_value J) vs
  unfolding sort_value each
  sort_items-each nil = refl
  sort_items-each (cons v vs) = ap (cons (sort_value J v)) (sort_items-each vs)

  -- sorting the keys of every map changes nothing at any path
  pub look-sort_value : (p : List Step) (v : Value) → look p (sort_value J v) ≡ look p v
  unfolding look sort_value sorted
  look-sort_value [] null = refl
  look-sort_value [] (boolean b) = refl
  look-sort_value [] (number n) = refl
  look-sort_value [] (string s) = refl
  look-sort_value [] (array vs) =
      ap (λ n. some (is_array n)) (ap size (sort_items-each vs) ∙ size-each (sort_value J) vs)
  look-sort_value [] (object m) = refl
  look-sort_value (key k ∷ p) null = refl
  look-sort_value (key k ∷ p) (boolean b) = refl
  look-sort_value (key k ∷ p) (number n) = refl
  look-sort_value (key k ∷ p) (string s) = refl
  look-sort_value (key k ∷ p) (array vs) = refl
  look-sort_value (key k ∷ p) (object m) =
      ap (λ o. and_then o (look p)) (get-sorted J k m) ∙ (elim (Option-cases (get k m)) [
        | inl e ↦ rw e refl
        | inr (v, e) ↦ rw e (look-sort_value p v)
      ])
  look-sort_value (index i ∷ p) null = refl
  look-sort_value (index i ∷ p) (boolean b) = refl
  look-sort_value (index i ∷ p) (number n) = refl
  look-sort_value (index i ∷ p) (string s) = refl
  look-sort_value (index i ∷ p) (object m) = refl
  look-sort_value (index i ∷ p) (array vs) =
      ap (λ o. and_then o (look p))
        (ap (item i) (sort_items-each vs) ∙ item-each i (sort_value J) vs)
      ∙ (elim (Option-cases (item i vs)) [
        | inl e ↦ rw e refl
        | inr (v, e) ↦ rw e (look-sort_value p v)
      ])

  -- an object without these keys
  abbrev pub without : List String → Value → Value
  without ks (object m) = object (remove_all J ks m)
  without ks v = v

  -- an array whose objects are without these keys
  abbrev pub elements : List String → Value → Value
  elements ks (array vs) = array (each (without ks) vs)
  elements ks v = v

  look-without :
      (ks : List String) (p : List Step) (v : Value)
      → look p (without ks v) ≡ (if is_first ks p then none else look p v)
  unfolding look is_first
  look-without ks [] null = refl
  look-without ks [] (boolean b) = refl
  look-without ks [] (number n) = refl
  look-without ks [] (string s) = refl
  look-without ks [] (array vs) = refl
  look-without ks [] (object m) = refl
  look-without ks (index i ∷ p) null = refl
  look-without ks (index i ∷ p) (boolean b) = refl
  look-without ks (index i ∷ p) (number n) = refl
  look-without ks (index i ∷ p) (string s) = refl
  look-without ks (index i ∷ p) (array vs) = refl
  look-without ks (index i ∷ p) (object m) = refl
  look-without ks (key k ∷ p) null = ground arith
  look-without ks (key k ∷ p) (boolean b) = ground arith
  look-without ks (key k ∷ p) (number n) = ground arith
  look-without ks (key k ∷ p) (string s) = ground arith
  look-without ks (key k ∷ p) (array vs) = ground arith
  look-without ks (key k ∷ p) (object m) =
      rw (get-remove_all J k ks m)
        (elim (Bool-cases (contains k ks)) [ inl e ↦ rw e refl | inr e ↦ rw e refl ])

  pub look-elements :
      (ks : List String) (p : List Step) (v : Value)
      → look p (elements ks v) ≡ (if is_in_elements ks p then none else look p v)
  unfolding look is_in_elements size
  look-elements ks [] null = refl
  look-elements ks [] (boolean b) = refl
  look-elements ks [] (number n) = refl
  look-elements ks [] (string s) = refl
  look-elements ks [] (array vs) = ap (λ n. some (is_array n)) (size-each (without ks) vs)
  look-elements ks [] (object m) = refl
  look-elements ks (key k ∷ p) null = refl
  look-elements ks (key k ∷ p) (boolean b) = refl
  look-elements ks (key k ∷ p) (number n) = refl
  look-elements ks (key k ∷ p) (string s) = refl
  look-elements ks (key k ∷ p) (array vs) = refl
  look-elements ks (key k ∷ p) (object m) = refl
  look-elements ks (index i ∷ p) null = ground arith
  look-elements ks (index i ∷ p) (boolean b) = ground arith
  look-elements ks (index i ∷ p) (number n) = ground arith
  look-elements ks (index i ∷ p) (string s) = ground arith
  look-elements ks (index i ∷ p) (object m) = ground arith
  look-elements ks (index i ∷ p) (array vs) =
      rw (item-each i (without ks) vs) (elim (Option-cases (item i vs)) [
        | inl e ↦ rw e (ground arith)
        | inr (v, e) ↦ rw e (look-without ks p v)
      ])

  strip_ids-each : (vs : Items) → strip_ids J vs ≡ each (without ("id" ∷ [])) vs
  unfolding strip_ids strip_id each remove_all
  strip_ids-each nil = refl
  strip_ids-each (cons null vs) = ap (cons null) (strip_ids-each vs)
  strip_ids-each (cons (boolean b) vs) = ap (cons (boolean b)) (strip_ids-each vs)
  strip_ids-each (cons (number n) vs) = ap (cons (number n)) (strip_ids-each vs)
  strip_ids-each (cons (string s) vs) = ap (cons (string s)) (strip_ids-each vs)
  strip_ids-each (cons (array us) vs) = ap (cons (array us)) (strip_ids-each vs)
  strip_ids-each (cons (object m) vs) = ap (cons (object (J.remove "id" m))) (strip_ids-each vs)

  pub strip_references-elements : (v : Value) → strip_references J v ≡ elements ("id" ∷ []) v
  unfolding strip_references
  strip_references-elements null = refl
  strip_references-elements (boolean b) = refl
  strip_references-elements (number n) = refl
  strip_references-elements (string s) = refl
  strip_references-elements (array vs) = ap array (strip_ids-each vs)
  strip_references-elements (object m) = refl

  -- an entry of an object whose maps are sorted
  pub look-entry :
      (k : String) (q : List Step) (m : Fields) (o : Option Value)
      → get k m ≡ map_option (sort_value J) o
      → look (key k ∷ q) (object m) ≡ and_then o (look q)
  unfolding look
  look-entry k q m none h = rw h refl
  look-entry k q m (some v) h = rw h (look-sort_value q v)

  look-stored :
      (k : String) (q : List Step) (o : Option Value)
      → and_then (stored_entry J k o) (look q) ≡ (
          if is_among volatile_fields "exceptions_list" ("id" ∷ []) (key k ∷ q)
          then none
          else and_then o (look q))
  unfolding stored_entry is_among
  look-stored k q none = ground arith
  look-stored k q (some v) =
      ground (arith, ap (look q) (strip_references-elements v) ∙ look-elements ("id" ∷ []) q v)

  -- The form on disk of a rule with a readable `rule_id` exists, has that `rule_id`, and holds at every
  -- path what the rule holds there, save at the paths of the fields of the server and of the ids of the
  -- exception references, where it holds nothing.
  pub canonical-look :
      (r : Rule) (s : String)
      → rule_id r ≡ ok s
      → (c : Rule) × (canonical J r ≡ ok c)
        × (rule_id c ≡ ok s)
        × ((p : List Step)
            → look p (object c.map) ≡ (
                if is_among volatile_fields "exceptions_list" ("id" ∷ []) p
                then none
                else look p (object r.map)))
  unfolding look is_among canonical_entry
  canonical-look r s h =
      let (c, made, named, entries) = canonical-entries J r s h in
      (c, made, named, λ p. go c.map entries p)
    where
      go :
          (m : Fields)
          → ((k : String) → get k m ≡ canonical_entry J k (get k r.map))
          → (p : List Step)
          → look p (object m) ≡ (
              if is_among volatile_fields "exceptions_list" ("id" ∷ []) p
              then none
              else look p (object r.map))
      go m entries [] = refl
      go m entries (index i ∷ q) = refl
      go m entries (key k ∷ q) =
          look-entry k q m (stored_entry J k (get k r.map)) (entries k)
          ∙ look-stored k q (get k r.map)

  -- what the compared form of a rule holds at a path: what the rule holds, and that of a default where
  -- the rule has no such field or the field is the server's
  unfoldable pub compared_look : Rule → List Step → Option Leaf
  compared_look r [] = some is_object
  compared_look r (index i ∷ q) = none
  compared_look r (key k ∷ q) = elim (if contains k volatile_fields then none else get k r.map) [
    | none ↦ and_then (default k server_defaults) (look q)
    | some v ↦ if (k =? "exceptions_list") && is_in_elements ("id" ∷ []) q then none else look q v
  ]

  look-compared :
      (r : Rule) (k : String) (q : List Step)
      → and_then (or_else (stored_entry J k (get k r.map)) (default k server_defaults)) (look q)
        ≡ compared_look r (key k ∷ q)
  unfolding compared_look stored_entry
  look-compared r k q = elim (Bool-cases (contains k volatile_fields)) [
    | inl e ↦ ground (arith, e)
    | inr e ↦ elim (Option-cases (get k r.map)) [
      | inl none_there ↦ ground (arith, e, none_there)
      | inr (v, there) ↦ ground (
        arith,
        e,
        there,
        ap (look q) (strip_references-elements v) ∙ look-elements ("id" ∷ []) q v,
      )
    ]
  ]

  -- The compared form of a rule with a readable `rule_id` exists, has that `rule_id`, and holds at every
  -- path what the rule holds there, save that it has nothing at the paths of the fields of the server
  -- and of the ids of the exception references, and holds a field's default where the rule has no
  -- such field.
  pub comparable-look :
      (r : Rule) (s : String)
      → rule_id r ≡ ok s
      → (c : Rule) × (comparable J r ≡ ok c)
        × (rule_id c ≡ ok s)
        × ((p : List Step) → look p (object c.map) ≡ compared_look r p)
  unfolding look comparable_entry compared_look
  comparable-look r s h =
      let (c, made, named, entries) = comparable-entries J r s h in
      (c, made, named, λ p. go c.map entries p)
    where
      go :
          (m : Fields)
          → ((k : String) → get k m ≡ comparable_entry J k (get k r.map))
          → (p : List Step) → look p (object m) ≡ compared_look r p
      go m entries [] = refl
      go m entries (index i ∷ q) = refl
      go m entries (key k ∷ q) =
          look-entry k q m (or_else (stored_entry J k (get k r.map)) (default k server_defaults))
            (entries k)
          ∙ look-compared r k q
