-- ===== src/Api/Normalize/Entries.antt =====
-- What the normal forms hold at each key, as a function of what the rule holds there.
use elasticctl.Prelude.{
  String, ◌≡◌, refl, ap, Option, none, some, List, [], ◌∷◌, arith, if◌then◌else◌, or_else,
  map_option, inl, inr, Option-cases,
}
use elasticctl.Prelude.Order.{◌=?◌, string_ord, =?_iff}
use elasticctl.Prelude.BTree.{sort, contains, contains-sort}
use elasticctl.Json.{Value, string, object, Fields, empty, field, JsonMap, get, keys}
use elasticctl.Json.Laws.{contains-keys}
use elasticctl.Core.Error.{ok}
use elasticctl.Api.Model.{Rule, volatile_fields, server_defaults, rule_id, from_value}
use elasticctl.Api.Normalize.{
  update_entry, remove_all, strip_volatile, strip_references, strip_exception_ids, fill,
  fill_defaults, copy, sort_value, sort_each, canonical, comparable, expect, survives,
}

pub get-update_entry :
    (j k : String) (f : Value → Value) (m : Fields)
    → get j (update_entry k f m) ≡ (if j =? k then map_option f (get j m) else get j m)
unfolding get update_entry
get-update_entry j k f empty = ground arith
get-update_entry j k f (field i v m) =
    ground (arith, get-update_entry j k f m, =?_iff j i, =?_iff k i, =?_iff j k)

-- the value of a key in a list of defaults
unfoldable pub default : String → List (String × Value) → Option Value
default k [] = none
default k ((j, v) ∷ ds) = if k =? j then some v else default k ds

module _ (J : JsonMap) where
  pub get-remove_all :
      (k : String) (fs : List String) (m : Fields)
      → get k (remove_all J fs m) ≡ (if contains k fs then none else get k m)
  unfolding remove_all contains
  get-remove_all k [] m = refl
  get-remove_all k (f ∷ fs) m =
      ground (arith, get-remove_all k fs (J.remove f m), J.get-remove k f m)

  get-fill :
      (k : String) (ds : List (String × Value)) (m : Fields)
      → get k (fill J ds m) ≡ or_else (get k m) (default k ds)
  unfolding fill default
  get-fill k [] m = ground arith
  get-fill k ((j, v) ∷ ds) m = elim (Option-cases (get j m)) [
    | inl e ↦
        rw e (ground (arith, get-fill k ds (J.insert j v m), J.get-insert k j v m, =?_iff k j))
    | inr e ↦ rw e.1 (ground (arith, get-fill k ds m, =?_iff k j))
  ]

  get-sort_each :
      (k : String) (m : Fields) → get k (sort_each J m) ≡ map_option (sort_value J) (get k m)
  unfolding get sort_value
  get-sort_each k empty = refl
  get-sort_each k (field j v m) = ground (arith, get-sort_each k m)

  get-copy :
      (k : String) (ks : List String) (m out : Fields)
      → get k (copy J ks m out)
        ≡ (if contains k ks then or_else (get k m) (get k out) else get k out)
  unfolding copy contains
  get-copy k [] m out = refl
  get-copy k (j ∷ ks) m out = elim (Option-cases (get j m)) [
    | inl e ↦ rw e (ground (arith, get-copy k ks m out, =?_iff k j))
    | inr e ↦
        let v = e.0 in
        rw e.1
          (ground (arith, get-copy k ks m (J.insert j v out), J.get-insert k j v out, =?_iff k j))
  ]

  -- What is left at a key once the server's fields and the pointers of the references are gone.
  unfoldable pub stored_entry : String → Option Value → Option Value
  stored_entry k o =
      if contains k volatile_fields
      then none
      else if k =? "exceptions_list"
      then map_option (strip_references J) o
      else o

  -- The entry of the form on disk.
  unfoldable pub canonical_entry : String → Option Value → Option Value
  canonical_entry k o = map_option (sort_value J) (stored_entry k o)

  -- The entry of the form that is compared.
  unfoldable pub comparable_entry : String → Option Value → Option Value
  comparable_entry k o =
      map_option (sort_value J) (or_else (stored_entry k o) (default k server_defaults))

  get-strip :
      (k : String) (r : Rule)
      → get k (strip_exception_ids J (strip_volatile J r)).map ≡ stored_entry k (get k r.map)
  unfolding strip_exception_ids strip_volatile stored_entry
  get-strip k r = ground (
    arith,
    get-update_entry k "exceptions_list" (strip_references J) (remove_all J volatile_fields r.map),
    get-remove_all k volatile_fields r.map,
  )

  unfoldable pub sorted : Fields → Fields
  sorted m = copy J (sort (keys m)) (sort_each J m) empty

  pub get-sorted :
      (k : String) (m : Fields) → get k (sorted m) ≡ map_option (sort_value J) (get k m)
  unfolding sorted get
  get-sorted k m = ground (
    arith,
    get-copy k (sort (keys m)) (sort_each J m) empty,
    contains-sort k (keys m),
    contains-keys k m,
    get-sort_each k m,
  )

  get-canonical :
      (k : String) (r : Rule)
      → get k (sorted (strip_exception_ids J (strip_volatile J r)).map)
        ≡ canonical_entry k (get k r.map)
  unfolding canonical_entry
  get-canonical k r =
      let stripped = strip_exception_ids J (strip_volatile J r) in
      cc (get-sorted k stripped.map, get-strip k r)

  get-comparable :
      (k : String) (r : Rule)
      → get k (sorted (fill_defaults J (strip_exception_ids J (strip_volatile J r))).map)
        ≡ comparable_entry k (get k r.map)
  unfolding comparable_entry fill_defaults
  get-comparable k r =
      let stripped = strip_exception_ids J (strip_volatile J r) in
      cc (
        get-sorted k (fill J server_defaults stripped.map),
        get-fill k server_defaults stripped.map,
        get-strip k r,
      )

  rule_id_entry : (r : Rule) (s : String) → rule_id r ≡ ok s → get "rule_id" r.map ≡ some (string s)
  unfolding rule_id
  rule_id_entry r s h = ground arith

  rule_id_stays : (s : String) → comparable_entry "rule_id" (some (string s)) ≡ some (string s)
  unfolding comparable_entry stored_entry contains default sort_value
  rule_id_stays s = refl

  canonical_rule_id : (s : String) → canonical_entry "rule_id" (some (string s)) ≡ some (string s)
  unfolding canonical_entry stored_entry contains sort_value
  canonical_rule_id s = refl

  checked-rule_id :
      (m : Fields) (s : String)
      → get "rule_id" m ≡ some (string s)
      → from_value (object m) ≡ ok (record { map = m })
  unfolding from_value
  checked-rule_id m s h = ground arith

  rule_id_of_entry :
      (m : Fields) (s : String)
      → get "rule_id" m ≡ some (string s)
      → rule_id (record { map = m }) ≡ ok s
  unfolding rule_id
  rule_id_of_entry m s h = ground arith

  -- The compared form of a rule with a readable `rule_id` exists, has that `rule_id`, and holds at
  -- each key what the rule holds there, less the server's fields and with the defaults.
  pub comparable-entries :
      (r : Rule) (s : String)
      → rule_id r ≡ ok s
      → (c : Rule) × (comparable J r ≡ ok c)
        × (rule_id c ≡ ok s)
        × ((k : String) → get k c.map ≡ comparable_entry k (get k r.map))
  unfolding comparable sorted sort_value
  comparable-entries r s h =
      let filled = (fill_defaults J (strip_exception_ids J (strip_volatile J r))).map in
      let entries : (k : String) → get k (sorted filled) ≡ comparable_entry k (get k r.map) =
        λ k. get-comparable k r in
      let at_id : get "rule_id" (sorted filled) ≡ some (string s) =
        cc (entries "rule_id", rule_id_entry r s h, rule_id_stays s) in
      (
        record { map = sorted filled },
        ap (λ x. expect x survives) (checked-rule_id (sorted filled) s at_id),
        rule_id_of_entry (sorted filled) s at_id,
        entries,
      )

  -- The form on disk of a rule with a readable `rule_id` exists, has that `rule_id`, and holds at
  -- each key what the rule holds there, less the server's fields.
  pub canonical-entries :
      (r : Rule) (s : String)
      → rule_id r ≡ ok s
      → (c : Rule) × (canonical J r ≡ ok c)
        × (rule_id c ≡ ok s)
        × ((k : String) → get k c.map ≡ canonical_entry k (get k r.map))
  unfolding canonical sorted sort_value
  canonical-entries r s h =
      let stripped = (strip_exception_ids J (strip_volatile J r)).map in
      let entries : (k : String) → get k (sorted stripped) ≡ canonical_entry k (get k r.map) =
        λ k. get-canonical k r in
      let at_id : get "rule_id" (sorted stripped) ≡ some (string s) =
        cc (entries "rule_id", rule_id_entry r s h, canonical_rule_id s) in
      (
        record { map = sorted stripped },
        ap (λ x. expect x survives) (checked-rule_id (sorted stripped) s at_id),
        rule_id_of_entry (sorted stripped) s at_id,
        entries,
      )
