-- ===== src/Tests/Diff.antt =====
-- A mirror and a stack that agree: the difference between them, and the plan of a push.
use elasticctl.Api.Push.Composed.{apply_planned}
use elasticctl.Api.Drift.{
  compute, index, index_from, classify_all, classify, actionable, is_actionable, is_unchanged,
  is_clean, compare_rules, field_changes, changes_of, field_change,
}
use elasticctl.Api.Model.{rule_id, from_value, name}
use elasticctl.Api.Normalize.{
  comparable, strip_volatile, strip_exception_ids, remove_all, update_entry, fill_defaults, fill,
  sort_value, sort_items, sort_each, copy, canonical,
}
use elasticctl.Json.{keys, get}
use elasticctl.Api.Selection.{resolve, is_unscoped}
use elasticctl.Api.Scope.{
  is_scoped, split_by_source, in_source, is_prebuilt, referenced_keys, all_keys, exception_refs,
  Scope, custom, local_scope,
}
use elasticctl.Api.Reconcile.{
  index_lists, index_lists_from, list_drift, item_reconciliation, collect, is_drift_clean,
  is_list_unchanged,
}
use elasticctl.Api.Reconcile.Planning.{
  exception_plan, fetch_remote_lists, created_keys, group_items, group_from, sort_values, find_each,
  items_of_created, dangling_pointers, live_ids, keys_in, keep_wanted, readable_keys, Reads,
}
use elasticctl.Api.Push.{push_summary, PushPlan, Call, Server}
use elasticctl.Api.Report.{counts, count}
use elasticctl.Api.Push.Planning.{
  plan_rules, scope_of, remote, repairs_from, list_lines, item_lines, value_list_lines,
  value_list_refs, all_value_lists, skipped_entries, plan_changes, plan_change, by_id, plan_write,
  canonical_value, planned_entry, plan_repairs, values, unresolvable, refuse_unresolved,
  change_lines, repair_lines,
}
use elasticctl.Tests.Sample.{insert, remove, json, value_eq}
use elasticctl.Prelude.{◌≡◌, refl, true, none, List, [], ◌∷◌}
use elasticctl.Prelude.Order.{string_ord}
use elasticctl.Prelude.BTree
use elasticctl.Core.Error.{Result, ok, err, new_error, not_found}
use elasticctl.Api.StateDiff.{DiffReport, diff_rules, drop_unchanged}
use elasticctl.Api.StateDiff.Nothing.{WritesNothing, diff_rules-WritesNothing}
use elasticctl.Tests.Plan.{
  rule_a, rules, texts, reads, rule_reads, identity, mirror, empty_plan, plan_or,
}

abbrev every_rule : Scope
every_rule = record { rule_ids = none; source = custom; local_total = 0 }

abbrev report : DiffReport
report = record {
  clean = true;
  local = 1;
  remote = 1;
  changes = [];
  exceptions = record { local = 0; remote = 0; changes = []; dangling = [] };
  out_of_scope = 0;
  selected = none;
  local_total = none;
}

is_clean_diff :
    diff_rules json rules texts reads rule_reads mirror every_rule (rule_a ∷ []) 0 (rule_a ∷ [])
    ≡ ok report
unfolding plan_rules scope_of resolve is_unscoped local_scope is_scoped split_by_source in_source
    is_prebuilt remote compute index index_from rule_id comparable strip_volatile
    strip_exception_ids remove_all update_entry fill_defaults fill sort_value sort_items sort_each
    copy from_value get keys BTree.get BTree.insert BTree.keys BTree.sort BTree.dedup classify_all
    classify name exception_plan referenced_keys all_keys exception_refs fetch_remote_lists
    index_lists index_lists_from list_drift collect created_keys group_items group_from sort_values
    find_each items_of_created item_reconciliation dangling_pointers live_ids keys_in keep_wanted
    readable_keys actionable is_actionable repairs_from list_lines item_lines value_list_lines
    value_list_refs all_value_lists skipped_entries plan_changes plan_change by_id plan_write
    canonical_value canonical planned_entry plan_repairs values unresolvable refuse_unresolved
    push_summary counts count change_lines repair_lines insert remove BTree.contains compare_rules
    field_changes changes_of field_change value_eq diff_rules drop_unchanged is_unchanged is_clean
    is_drift_clean is_list_unchanged
is_clean_diff = refl

abbrev planned : Result PushPlan
planned =
    plan_rules json rules texts reads rule_reads "m" identity mirror every_rule (rule_a ∷ []) 0
      (rule_a ∷ [])

abbrev idle : PushPlan
idle = plan_or empty_plan planned

is_idle : planned ≡ ok idle
unfolding plan_rules scope_of resolve is_unscoped local_scope is_scoped split_by_source in_source
    is_prebuilt remote compute index index_from rule_id comparable strip_volatile
    strip_exception_ids remove_all update_entry fill_defaults fill sort_value sort_items sort_each
    copy from_value get keys BTree.get BTree.insert BTree.keys BTree.sort BTree.dedup classify_all
    classify name exception_plan referenced_keys all_keys exception_refs fetch_remote_lists
    index_lists index_lists_from list_drift collect created_keys group_items group_from sort_values
    find_each items_of_created item_reconciliation dangling_pointers live_ids keys_in keep_wanted
    readable_keys actionable is_actionable repairs_from list_lines item_lines value_list_lines
    value_list_refs all_value_lists skipped_entries plan_changes plan_change by_id plan_write
    canonical_value canonical planned_entry plan_repairs values unresolvable refuse_unresolved
    push_summary counts count change_lines repair_lines insert remove BTree.contains compare_rules
    field_changes changes_of field_change value_eq
is_idle = refl

abbrev refusing : Server
refusing = record {
  require_exception_lists = λ log. ok tt;
  answer = λ log call. err (new_error not_found "no");
}

diff_rules-WritesNothing_example :
    WritesNothing json reads idle
    × ((later : Reads) (log : List Call) → (apply_planned json refusing later idle log).1 ≡ log)
diff_rules-WritesNothing_example =
    diff_rules-WritesNothing json refusing rules texts reads rule_reads mirror every_rule
      (rule_a ∷ []) 0 (rule_a ∷ []) report is_clean_diff refl "m" identity idle is_idle
