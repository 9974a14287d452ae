-- ===== src/Api/Pointers.antt =====
-- crates/elasticctl-api/src/state/push.rs: the live ids of the exception lists that a rule names, written
-- into it before it is sent.
pub mod Live
use elasticctl.Prelude.{
  String, Bool, true, false, Option, none, some, List, [], ◌∷◌, and_then, unwrap_or,
}
use elasticctl.Prelude.Text.{concat}
use elasticctl.Json.{
  Value, null, boolean, number, string, array, object, Items, nil, cons, Fields, empty, field, get,
  as_str, JsonMap,
}
use elasticctl.Core.Error.{Error, not_found, new_error, Result, ok, err, panic, ◌>>=◌}
use elasticctl.Api.Model.{Rule, ListKey}
use elasticctl.Api.Normalize.{update_entry}

-- the list that a reference names, if it names one
unfoldable pub reference_key : Fields → Option ListKey
reference_key m = elim (and_then (get "list_id" m) as_str) [
  | none ↦ none
  | some list_id ↦ some (record {
    list_id = list_id;
    namespace_type = unwrap_or (and_then (get "namespace_type" m) as_str) "single";
  })
]

unresolved : ListKey → Error
unresolved key = new_error not_found (
    concat (
      "rule references exception list \"" ∷ key.list_id ∷ "\" (" ∷ key.namespace_type
      ∷ "), whose live id could not be resolved on this stack" ∷ []))

module _ (J : JsonMap) (live : ListKey → Option String) where
  unfoldable pub inject_reference : Value → Result Value
  unfolding unresolved
  inject_reference (object m) = elim (reference_key m) [
    | none ↦ ok (object m)
    | some key ↦ elim (live key) [
      | some id ↦ ok (object (J.insert "id" (string id) m))
      | none ↦ err (unresolved key)
    ]
  ]
  inject_reference v = ok v

  unfoldable pub inject_references : Items → Result Items
  inject_references nil = ok nil
  inject_references (cons v vs) = do
    v' ← inject_reference v
    vs' ← inject_references vs
    ok (cons v' vs')

  unfoldable pub inject_list_ids : Rule → Result Rule
  inject_list_ids r = elim (get "exceptions_list" r.map) [
    | some (array refs) ↦ do
      refs' ← inject_references refs
      ok (record { map = update_entry "exceptions_list" (λ _. array refs') r.map })
    | _ ↦ ok r
  ]
