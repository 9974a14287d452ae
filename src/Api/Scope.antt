-- ===== src/Api/Scope.antt =====
-- crates/elasticctl-api/src/state/mod.rs: the rules that a command of the state acts on, and the lists
-- of exceptions that rules refer to (model.rs).
use elasticctl.Prelude.{
  ℕ, suc, String, Bool, true, false, not, Option, none, some, List, [], ◌∷◌, ◌++◌, and_then,
  unwrap_or, if◌then◌else◌, is_some, length, map_option,
}
use elasticctl.Prelude.Text.{concat, show}
use elasticctl.Prelude.Order.{string_ord}
use elasticctl.Prelude.BTree.{contains, sort, dedup}
use elasticctl.Json.{Value, get, as_str, as_bool, as_object, as_array}
use elasticctl.Core.Error.{ok}
use elasticctl.Api.Model.{Rule, ListKey, rule_id}
use elasticctl.Api.Model.Keys.{key_ord}
use elasticctl.Api.Pointers.{reference_key}

pub record ExceptionRef : Type 0 where
  pub list_id : String
  pub namespace_type : String
  pub ref_type : String
  pub id : Option String

abbrev pub ref_key : ExceptionRef → ListKey
ref_key r = record { list_id = r.list_id; namespace_type = r.namespace_type }

unfoldable pub reference_of : Value → Option ExceptionRef
reference_of v = and_then (as_object v) λ m.
    map_option
      (λ key. record {
        list_id = key.list_id;
        namespace_type = key.namespace_type;
        ref_type = unwrap_or (and_then (get "type" m) as_str) "";
        id = and_then (get "id" m) as_str;
      })
      (reference_key m)

unfoldable pub references_of : List Value → List ExceptionRef
references_of [] = []
references_of (v ∷ vs) =
    let rest = references_of vs in elim (reference_of v) [ none ↦ rest | some r ↦ r ∷ rest ]

-- an entry that is no reference is passed over
unfoldable pub exception_refs : Rule → List ExceptionRef
exception_refs r = elim (and_then (get "exceptions_list" r.map) as_array) [
  | none ↦ []
  | some vs ↦ references_of vs
]

abbrev pub keys_of : List ExceptionRef → List ListKey
keys_of [] = []
keys_of (r ∷ rs) = ref_key r ∷ keys_of rs

unfoldable pub all_keys : List Rule → List ListKey
all_keys [] = []
all_keys (r ∷ rs) = keys_of (exception_refs r) ++ all_keys rs

-- the list of a `BTreeSet`
unfoldable pub referenced_keys : List Rule → List ListKey
referenced_keys rules = dedup (sort (all_keys rules))

pub data RuleSource : Type 0 where
  custom customized prebuilt all : RuleSource

-- no `rule_ids` where no selector was given
pub record Scope : Type 0 where
  pub rule_ids : Option (List String)
  pub source : RuleSource
  pub local_total : ℕ

unfoldable pub is_scoped : Scope → Bool
is_scoped s = is_some s.rule_ids

unfoldable pub selected : Scope → ℕ
selected s = unwrap_or (map_option length s.rule_ids) 0

unfoldable pub is_prebuilt : Rule → Bool
is_prebuilt r = unwrap_or (and_then (get "immutable" r.map) as_bool) false

unfoldable pub is_customized : Rule → Bool
is_customized r =
    unwrap_or
      (and_then (and_then (and_then (get "rule_source" r.map) as_object) (get "is_customized"))
        as_bool)
      false

unfoldable pub in_source : RuleSource → Rule → Bool
in_source all r = true
in_source custom r = not (is_prebuilt r)
in_source prebuilt r = is_prebuilt r
in_source customized r = is_customized r

-- whether the `rule_id` can be read and is among those selected
unfoldable pub is_selected : List String → Rule → Bool
is_selected ids r = elim (rule_id r) [ ok id ↦ contains id ids | _ ↦ false ]

unfoldable pub keep_selected : List String → List Rule → List Rule
keep_selected ids [] = []
keep_selected ids (r ∷ rs) =
    let rest = keep_selected ids rs in if is_selected ids r then r ∷ rest else rest

unfoldable pub narrow : Scope → List Rule → List Rule
narrow s rules = elim s.rule_ids [ none ↦ rules | some ids ↦ keep_selected ids rules ]

-- the rules within the source, and the number of the others
unfoldable pub split_by_source : Scope → List Rule → List Rule × ℕ
split_by_source s [] = ([], 0)
split_by_source s (r ∷ rs) =
    let (kept, out_of_scope) = split_by_source s rs in
    if in_source s.source r then (r ∷ kept, out_of_scope) else (kept, suc out_of_scope)

unfoldable pub describe : Scope → String
describe s = elim s.rule_ids [
  | none ↦ ""
  | some ids ↦
      concat
        (" (selection: " ∷ show (length ids) ∷ " of " ∷ show s.local_total ∷ " local rules)" ∷ [])
]

-- the local rules that a command compares, and the number of those that the source leaves out
unfoldable pub local_scope : Scope → List Rule → List Rule × ℕ
local_scope s rules = if is_scoped s then (narrow s rules, 0) else split_by_source s rules
