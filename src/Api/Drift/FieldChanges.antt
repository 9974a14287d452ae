-- ===== src/Api/Drift/FieldChanges.antt =====
-- The field changes of two rules are none exactly when the rules are equal at every key.
use elasticctl.Prelude.{
  String, ◌≡◌, refl, true, List, [], ◌∷◌, ◌++◌, ◌||◌, arith, is_some, unwrap_or,
}
use elasticctl.Prelude.Order.{string_ord, =?_iff}
use elasticctl.Prelude.BTree.{contains, sort, dedup, contains-append, contains-sort, contains-dedup}
use elasticctl.Json.{Value, null, JsonMap, get, keys}
use elasticctl.Json.Laws.{contains-keys}
use elasticctl.Api.Model.{Rule}
use elasticctl.Api.Drift.{field_change, changes_of, field_changes}

-- what a comparison sees at a key: an absent field is `null`
abbrev pub seen : Rule → String → Value
seen r k = unwrap_or (get k r.map) null

abbrev compared_keys : Rule → Rule → List String
compared_keys before after = dedup (sort (keys before.map ++ keys after.map))

contains-compared_keys :
    (k : String) (before after : Rule)
    → contains k (compared_keys before after)
      ≡ (is_some (get k before.map) || is_some (get k after.map))
contains-compared_keys k before after = ground (
  arith,
  contains-dedup k (sort (keys before.map ++ keys after.map)),
  contains-sort k (keys before.map ++ keys after.map),
  contains-append k (keys before.map) (keys after.map),
  contains-keys k before.map,
  contains-keys k after.map,
)

module _ (J : JsonMap) where
  open J use {value_eq, value_eq_refl}

  changes_of_none :
      (before after : Rule) (ks : List String)
      → ((k : String) → value_eq (seen before k) (seen after k) ≡ true)
      → changes_of J before after ks ≡ []
  unfolding changes_of field_change
  changes_of_none before after [] h = refl
  changes_of_none before after (k ∷ ks) h = ground (arith, h k, changes_of_none before after ks h)

  eq_of_changes_of :
      (before after : Rule) (ks : List String) (k : String)
      → changes_of J before after ks ≡ []
      → contains k ks ≡ true
      → value_eq (seen before k) (seen after k) ≡ true
  unfolding changes_of field_change contains
  eq_of_changes_of before after [] k h c = cc
  eq_of_changes_of before after (j ∷ ks) k h c =
      ground (arith, eq_of_changes_of before after ks k, =?_iff k j)

  -- no change of a field, if every key is seen the same
  pub field_changes-nil :
      (before after : Rule)
      → ((k : String) → value_eq (seen before k) (seen after k) ≡ true)
      → field_changes J before after ≡ []
  unfolding field_changes
  field_changes-nil before after h = changes_of_none before after (compared_keys before after) h

  -- every key is seen the same, if there is no change of a field
  pub eq_of_field_changes :
      (before after : Rule) (k : String)
      → field_changes J before after ≡ []
      → value_eq (seen before k) (seen after k) ≡ true
  unfolding field_changes
  eq_of_field_changes before after k h = ground (
    arith,
    eq_of_changes_of before after (compared_keys before after) k h,
    contains-compared_keys k before after,
    value_eq_refl null,
  )
