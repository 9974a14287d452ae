-- ===== src/Api/Drift/ServerFields.antt =====
-- Two sides that differ by what the server does to a rule.
use elasticctl.Prelude.{
  String, ◌≡◌, refl, ◌∙◌, ap, sym, true, false, Option, none, some, List, [], ◌∷◌, arith, ◌⊎◌, inl,
  inr, is_some, or_else, Option-cases, Bool-cases,
}
use elasticctl.Prelude.Order.{◌=?◌, string_ord, =?_iff}
use elasticctl.Prelude.BTree.{contains}
use elasticctl.Json.{Value, array, nil, JsonMap, get}
use elasticctl.Core.Error.{ok}
use elasticctl.Api.Model.{Rule, volatile_fields, server_defaults}
use elasticctl.Api.Normalize.{strip_references}
use elasticctl.Api.Normalize.Entries.{default, stored_entry, comparable_entry}
use elasticctl.Api.Normalize.Paths.{elements, each, strip_references-elements}
use elasticctl.Api.Drift.{Drift, compute, is_clean}
use elasticctl.Api.Drift.Index.{rule_with}
use elasticctl.Api.Drift.Clean.{server_fields_clean}

module _ (J : JsonMap) where
  -- An entry as it is on one side and on the other: the same, absent on one side and a default on the
  -- other, or two lists of references that differ in their ids only.
  abbrev pub IsServed : String → Option Value → Option Value → Type 0
  IsServed k o u =
      (o ≡ u)
      ⊎ (((o ≡ none) × (u ≡ default k server_defaults))
          ⊎ (((u ≡ none) × (o ≡ default k server_defaults))
              ⊎ ((k ≡ "exceptions_list")
                  × ((v : Value) × (w : Value) × (o ≡ some v)
                      × (u ≡ some w)
                      × (elements J ("id" ∷ []) v ≡ elements J ("id" ∷ []) w)))))

  no_reference :
      (v : Value)
      → default "exceptions_list" server_defaults ≡ some v
      → elements J ("id" ∷ []) v ≡ v
  unfolding default each
  no_reference v h = let found : array nil ≡ v = ground (arith, h) in rw (← found) refl

  default_stays :
      (k : String)
      → contains k volatile_fields ≡ false
      → or_else (stored_entry J k (default k server_defaults)) (default k server_defaults)
        ≡ default k server_defaults
  unfolding stored_entry
  default_stays k h = elim (Option-cases (default k server_defaults)) [
    | inl e ↦ rw e (ground (arith, h))
    | inr (v, e) ↦ elim (Bool-cases (k =? "exceptions_list")) [
      | inr other ↦ rw e (ground (arith, h, other))
      | inl at ↦
          let same : k ≡ "exceptions_list" = (=?_iff k "exceptions_list").0 at in
          let bare : strip_references J v ≡ v =
            strip_references-elements J v
            ∙ no_reference v (ap (λ j. default j server_defaults) (sym same) ∙ e) in
          rw e (ground (arith, h, at, bare))
    ]
  ]

  IsServed-comparable :
      (k : String) (o u : Option Value)
      → (contains k volatile_fields ≡ false → IsServed k o u)
      → comparable_entry J k o ≡ comparable_entry J k u
  unfolding comparable_entry stored_entry
  IsServed-comparable k o u h = elim (Bool-cases (contains k volatile_fields)) [
    | inl owned ↦ ground (arith, owned)
    | inr kept ↦ elim (h kept) [
      | inl same ↦ ap (comparable_entry J k) same
      | inr (inl (gone, filled)) ↦ rw (gone, filled) (ground (arith, kept, default_stays k kept))
      | inr (inr (inl (gone, filled))) ↦
          rw (gone, filled) (ground (arith, kept, default_stays k kept))
      | inr (inr (inr (at, (v, w, here, there, same)))) ↦
          let stripped : strip_references J v ≡ strip_references J w =
            strip_references-elements J v ∙ same ∙ sym (strip_references-elements J w) in
          rw (here, there) (ground (arith, kept, (=?_iff k "exceptions_list").1 at, stripped))
    ]
  ]

  -- Two sides that have the same rules, up to the fields that the server owns, the ids in the exception
  -- references and defaults that one side spells out and the other has not: their drift is clean.
  pub is_clean-IsServed :
      (local remote : List Rule) (d : Drift)
      → compute J local remote ≡ ok d
      → ((id : String) → is_some (rule_with id local) ≡ is_some (rule_with id remote))
      → ((id : String) (l r : Rule)
          → rule_with id local ≡ some l
          → rule_with id remote ≡ some r
          → (k : String) → contains k volatile_fields ≡ false
          → IsServed k (get k l.map) (get k r.map))
      → is_clean d ≡ true
  is_clean-IsServed local remote d h both served =
      server_fields_clean J local remote d h both
        (λ id l r e e' k. IsServed-comparable k (get k l.map) (get k r.map) (served id l r e e' k))
