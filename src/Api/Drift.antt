-- ===== src/Api/Drift.antt =====
-- crates/elasticctl-api/src/diff.rs: the drift between the rules on disk and those of the stack.
pub mod Index
pub mod FieldChanges
pub mod Outcome
pub mod Clean
pub mod ServerFields
use elasticctl.Prelude.{
  ℕ, ◌+◌, String, Bool, true, false, Option, none, some, List, [], ◌∷◌, ◌++◌, is_some, unwrap_or,
  if◌then◌else◌, all,
}
use elasticctl.Prelude.Text.{concat, show}
use elasticctl.Prelude.Order.{string_ord}
use elasticctl.Prelude.BTree
use elasticctl.Prelude.BTree.{BTreeMap, insert, sort, dedup}
use elasticctl.Json.{Value, null, JsonMap, get, keys}
use elasticctl.Core.Error.{
  Error, ErrorKind, error, conflict, new_error, Result, ok, err, panic, ◌>>=◌,
}
use elasticctl.Api.Model.{Rule, rule_id, name}
use elasticctl.Api.Normalize.{comparable}

pub record FieldChange : Type 0 where
  pub field : String
  pub before : Value
  pub after : Value

pub data Change : Type 0 where
  added : String → String → Change
  modified : String → String → List FieldChange → Change
  unchanged : String → Change
  remote_only : String → String → Change

unfoldable pub change_rule_id : Change → String
change_rule_id (added id n) = id
change_rule_id (modified id n fs) = id
change_rule_id (unchanged id) = id
change_rule_id (remote_only id n) = id

pub record Drift : Type 0 where
  pub changes : List Change

unfoldable pub is_actionable : Change → Bool
is_actionable (added id n) = true
is_actionable (modified id n fs) = true
is_actionable _ = false

abbrev pub keep_actionable : List Change → List Change
keep_actionable [] = []
keep_actionable (c ∷ cs) =
    let rest = keep_actionable cs in if is_actionable c then c ∷ rest else rest

unfoldable pub actionable : Drift → List Change
actionable d = keep_actionable d.changes

unfoldable pub is_unchanged : Change → Bool
is_unchanged (unchanged id) = true
is_unchanged _ = false

unfoldable pub is_clean : Drift → Bool
is_clean d = all is_unchanged d.changes

module _ (J : JsonMap) where
  open J use {value_eq}

  -- the change of one field; an absent field is `null`
  unfoldable pub field_change : Rule → Rule → String → Option FieldChange
  field_change before after k =
      let b = unwrap_or (get k before.map) null in
      let a = unwrap_or (get k after.map) null in
      if value_eq b a then none else some (record { field = k; before = b; after = a })

  unfoldable pub changes_of : Rule → Rule → List String → List FieldChange
  changes_of before after [] = []
  changes_of before after (k ∷ ks) =
      let rest = changes_of before after ks in
      elim (field_change before after k) [ none ↦ rest | some c ↦ c ∷ rest ]

  unfoldable pub field_changes : Rule → Rule → List FieldChange
  field_changes before after =
      changes_of before after (dedup (sort (keys before.map ++ keys after.map)))

  -- the rules of one side by their `rule_id`, each in its compared form
  unfoldable pub index_from :
      String → ℕ → List Rule → BTreeMap String Rule → Result (BTreeMap String Rule)
  index_from side idx [] index = ok index
  index_from side idx (r ∷ rs) index = elim (rule_id r) [
    | ok id ↦ comparable J r >>= λ c.
        if is_some (BTree.get id index)
        then err (
            new_error conflict (
              concat
                (side ∷ " has two rules with rule_id \"" ∷ id ∷ "\"; rule_id must be unique" ∷ [])))
        else index_from side (idx + 1) rs (insert id c index)
    | err e ↦ err (
        new_error error
          (concat (side ∷ " rule at position " ∷ show idx ∷ " has an unreadable rule_id" ∷ [])))
    | panic s ↦ panic s
  ]

  unfoldable pub index : String → List Rule → Result (BTreeMap String Rule)
  index side rules = index_from side 0 rules []

  -- a rule that both sides have
  unfoldable pub compare_rules : String → Rule → Rule → Change
  compare_rules id l r =
      let fields = field_changes r l in
      elim fields [ [] ↦ unchanged id | f ∷ fs ↦ modified id (name l) (f ∷ fs) ]

  unfoldable pub classify : String → Option Rule → Option Rule → Result Change
  classify id (some l) none = ok (added id (name l))
  classify id none (some r) = ok (remote_only id (name r))
  classify id (some l) (some r) = ok (compare_rules id l r)
  classify id none none = panic "an id came from one of the two maps"

  unfoldable pub classify_all :
      BTreeMap String Rule → BTreeMap String Rule → List String → Result (List Change)
  classify_all local remote [] = ok []
  classify_all local remote (id ∷ ids) = do
    c ← classify id (BTree.get id local) (BTree.get id remote)
    cs ← classify_all local remote ids
    ok (c ∷ cs)

  unfoldable pub compute : List Rule → List Rule → Result Drift
  compute local remote = do
    l ← index "local" local
    r ← index "remote" remote
    changes ← classify_all l r (dedup (sort (BTree.keys l ++ BTree.keys r)))
    ok (record { changes = changes })
