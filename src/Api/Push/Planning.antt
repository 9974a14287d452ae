-- ===== src/Api/Push/Planning.antt =====
-- crates/elasticctl-api/src/state/push.rs: the plan of a push and its preview. The mirror that was read,
-- what the stack answers to the reads, and the tables of Unicode are parameters.
pub mod Inputs
pub mod Preview
pub use elasticctl.Api.Push.Planning.Inputs.{Mirror, StackIdentity, RuleReads}
unfoldable pub use elasticctl.Api.Push.Planning.Inputs.{remote, by_id}
unfoldable pub use elasticctl.Api.Push.Planning.Preview.{
  value_list_of, value_lists_of, active_entries, all_value_lists, value_list_refs, repairs_from,
  list_lines, item_line, op_line, item_lines, change_lines, repair_lines, value_list_lines,
  removals, preview_action_of,
}
use elasticctl.Prelude.{
  ℕ, ◌+◌, ◌-◌, suc, String, Bool, true, false, not, ◌||◌, Option, none, some, List, [], ◌∷◌, ◌++◌,
  if◌then◌else◌, and_then, is_some, unwrap_or, map_option, length, ltb,
}
use elasticctl.Prelude.Text.{concat, show, join}
use elasticctl.Prelude.Order.{◌=?◌, string_ord}
use elasticctl.Prelude.BTree.{BTreeMap, insert, contains, sort, dedup}
use elasticctl.Json.{Value, get, as_str, as_object, as_array, JsonMap}
use elasticctl.Core.Error.{not_found, new_error, Result, ok, err, panic, ◌>>=◌, ◌>>◌}
use elasticctl.Api.Model.{Rule, ListKey, rule_id, name, into_value}
use elasticctl.Api.Model.Keys.{key_ord}
use elasticctl.Api.Normalize.{canonical}
use elasticctl.Api.Drift.{
  FieldChange, Change, added, modified, remote_only, change_rule_id, actionable, compute,
}
use elasticctl.Api.Exceptions.{
  ExceptionList, ExceptionItem, list_id, list_name, item_id, item_list_id, item_namespace,
}
use elasticctl.Api.Selection.{Stack, Texts, resolve}
use elasticctl.Api.Scope.{
  RuleSource, Scope, is_scoped, selected, local_scope, describe, referenced_keys,
}
use elasticctl.Api.Report.{ReportEntry, ChangeReport}
use elasticctl.Api.Reconcile.{
  ListOp, create_list, update_list, ItemOp, create_item, update_item, remove_item, DanglingPointer,
}
use elasticctl.Api.Reconcile.Planning.{Reads, exception_plan}
use elasticctl.Api.Push.{no_counts, PushPlan, push_summary}

-- what is planned: the entries of the report, and the rules to write
abbrev pub Planned : Type 0
Planned = List ReportEntry × BTreeMap String Rule

unfoldable pub planned_entry : String → String → String → Option Value → Option Value → ReportEntry
planned_entry id name action before after = record {
  rule_id = id;
  name = name;
  action = action;
  before = before;
  after = after;
  applied = false;
  error = none;
}

module _ (J : JsonMap) where
  unfoldable pub canonical_value : Option Rule → Result (Option Value)
  canonical_value none = ok none
  canonical_value (some r) = canonical J r >>= λ c. ok (some (into_value c))

  unfoldable pub skipped_entries : List Rule → List Change → Result (List ReportEntry)
  unfolding canonical_value planned_entry
  skipped_entries live [] = ok []
  skipped_entries live (remote_only id n ∷ cs) = do
    before ← canonical_value (by_id id live)
    rest ← skipped_entries live cs
    ok (planned_entry id n "skipped_remote_only" before none ∷ rest)
  skipped_entries live (c ∷ cs) = skipped_entries live cs

  -- the entry of a rule to write, whose desired form is kept
  unfoldable pub plan_write : List Rule → String → String → String → Rule → Planned → Result Planned
  unfolding canonical_value planned_entry
  plan_write live id name action rule (entries, desired) = do
    before ← canonical_value (by_id id live)
    after ← canonical_value (some rule)
    ok (entries ++ planned_entry id name action before after ∷ [], insert id rule desired)

  unfoldable pub plan_change : List Rule → List Rule → Change → Planned → Result Planned
  plan_change local live (added id n) p = elim (by_id id local) [
    | none ↦ ok p
    | some r ↦ plan_write live id n "create" r p
  ]
  plan_change local live (modified id n fs) p = elim (by_id id local) [
    | none ↦ ok p
    | some r ↦ plan_write live id n "update" r p
  ]
  plan_change local live c p = ok p

  unfoldable pub plan_changes : List Rule → List Rule → List Change → Planned → Result Planned
  plan_changes local live [] p = ok p
  plan_changes local live (c ∷ cs) p =
      plan_change local live c p >>= λ p'. plan_changes local live cs p'

  unfoldable pub plan_repairs :
      List Rule → List Rule → List DanglingPointer → Planned → Result Planned
  plan_repairs local live [] p = ok p
  plan_repairs local live (d ∷ ds) p = elim (by_id d.rule_id local) [
    | none ↦ panic "repair rule was found above"
    | some r ↦
        plan_write live d.rule_id (name r) "update" r p >>= λ p'. plan_repairs local live ds p'
  ]

-- the rules of a map, in the order of their keys
unfoldable pub values : BTreeMap String Rule → List Rule
values [] = []
values ((k, r) ∷ m) = r ∷ values m

unfoldable pub unresolvable : List ListKey → List ListKey → List ListKey
unresolvable resolvable [] = []
unresolvable resolvable (k ∷ ks) =
    let rest = unresolvable resolvable ks in if contains k resolvable then rest else k ∷ rest

quoted : List ListKey → List String
quoted [] = []
quoted (k ∷ ks) = concat ("\"" ∷ k.list_id ∷ "\" (" ∷ k.namespace_type ∷ ")" ∷ []) ∷ quoted ks

-- refuses a rule that refers to a list that is neither on the stack nor in the mirror
unfoldable pub refuse_unresolved : List ListKey → Result (Unit {0})
unfolding quoted
refuse_unresolved [] = ok tt
refuse_unresolved (k ∷ ks) = err (
    new_error not_found (
      concat (
        "rule(s) reference exception list(s) that do not exist on this stack and are not in the mirror: "
        ∷ join (quoted (k ∷ ks)) ", "
        ∷ [])))

abbrev pub change_ids : List Change → List String
change_ids [] = []
change_ids (c ∷ cs) = change_rule_id c ∷ change_ids cs

abbrev pub when_scoped : Scope → ℕ → Option ℕ
when_scoped s n = if is_scoped s then some n else none

module _ (J : JsonMap) (S : Stack) (T : Texts) (E : Reads) (R : RuleReads) where
  unfoldable pub scope_of :
      List String → Option String → Option String → RuleSource → List Rule → String → Result Scope
  scope_of selectors tag search source local noun = do
    ids ← resolve S T selectors tag search local noun
    ok (record { rule_ids = ids; source = source; local_total = length local })

  -- the plan, once the scope and the rules of both sides are there
  unfoldable pub plan_rules :
      String → StackIdentity → Mirror → Scope → List Rule → ℕ → List Rule → Result PushPlan
  plan_rules dir identity mirror scope local out_of_scope live = do
    drift ← compute J local live
    plan ← exception_plan J E mirror.lists mirror.items local live
    let changes : List Change = actionable drift
    let repairs : List DanglingPointer =
        repairs_from local (change_ids changes) [] plan.drift.dangling
    lists ← list_lines plan.list_ops
    items ← item_lines plan.item_ops
    value_lists ← value_list_lines R (value_list_refs mirror.items (referenced_keys local))
    skipped ← skipped_entries J live drift.changes
    (entries, desired) ← plan_changes J local live changes (skipped, [])
    (all_entries, all_desired) ← plan_repairs J local live repairs (entries, desired)
    refuse_unresolved (unresolvable plan.resolvable (referenced_keys (values all_desired)))
    let report : ChangeReport = record {
      profile = identity.profile;
      host = identity.host;
      space = identity.space;
      applied = false;
      entries = all_entries;
    }
    ok (record {
      preview_action =
          preview_action_of (length changes + length repairs) plan.list_ops plan.item_ops dir scope;
      preview_details =
          lists ++ (items ++ (change_lines changes ++ (repair_lines local repairs ++ value_lists)));
      report = report;
      summary =
          push_summary report (when_scoped scope (selected scope))
            (when_scoped scope scope.local_total) out_of_scope no_counts;
      desired = all_desired;
      list_ops = plan.list_ops;
      item_ops = plan.item_ops;
    })

  unfoldable pub plan_push :
      String
      → Result Mirror
      → List String
      → Option String
      → Option String
      → RuleSource
      → StackIdentity
      → Result PushPlan
  plan_push dir read selectors tag search source identity = do
    mirror ← read
    scope ← scope_of selectors tag search source mirror.rules "apply"
    let local : List Rule × ℕ = local_scope scope mirror.rules
    live ← remote R scope
    plan_rules dir identity mirror scope local.0 local.1 live
