-- ===== src/Tests/Plan.antt =====
-- The plan of a push for a mirror with one new rule and a changed list, and its items.
use elasticctl.Api.Push.{post_rule, put_rule, push_summary, PushPlan, Call, Server}
use elasticctl.Api.Push.Proposal.{IsProposal, plan_push-IsProposal}
use elasticctl.Api.Drift.{
  compute, index, index_from, classify_all, classify, actionable, is_actionable,
}
use elasticctl.Api.Model.{rule_id, from_value, name, Rule, ListKey}
use elasticctl.Api.Normalize.{
  comparable, strip_volatile, strip_exception_ids, remove_all, update_entry, fill_defaults, fill,
  sort_value, sort_items, sort_each, copy, canonical,
}
use elasticctl.Json.{keys, Value, null, string, empty, field, get}
use elasticctl.Api.Selection.{resolve, is_unscoped, Stack, Texts}
use elasticctl.Api.Scope.{
  is_scoped, split_by_source, in_source, is_prebuilt, referenced_keys, all_keys, exception_refs,
  Scope, custom, local_scope,
}
use elasticctl.Api.Reconcile.{
  index_lists, index_lists_from, list_drift, item_reconciliation, reconcile, index_items, collect,
  classify_item, item_added, create_item,
}
use elasticctl.Api.Reconcile.Planning.{
  exception_plan, fetch_remote_lists, created_keys, group_items, group_from, sort_values, find_each,
  items_of_created, dangling_pointers, live_ids, keys_in, keep_wanted, readable_keys, Reads,
}
use elasticctl.Api.Report.{counts, count}
use elasticctl.Api.Push.Planning.{
  plan_rules, scope_of, remote, repairs_from, list_lines, item_lines, value_list_lines,
  value_list_refs, all_value_lists, skipped_entries, plan_changes, plan_change, by_id, plan_write,
  canonical_value, planned_entry, plan_repairs, values, unresolvable, refuse_unresolved,
  change_lines, repair_lines, Mirror, StackIdentity, RuleReads, plan_push,
}
use elasticctl.Tests.Sample.{insert, remove, json}
use elasticctl.Prelude.{String, ◌≡◌, ◌↔◌, refl, true, false, none, List, [], ◌∷◌}
use elasticctl.Prelude.Order.{string_ord}
use elasticctl.Prelude.BTree
use elasticctl.Core.Error.{Result, ok, err, panic, new_error, not_found}
use elasticctl.Api.Exceptions.{ExceptionItem, item_id, required}
use elasticctl.Api.Reconcile.Applied.{
  item_with, are_distinct_items, perform_item, perform_items, SameItem,
}
use elasticctl.Api.Reconcile.Items.{Found}
use elasticctl.Api.Reconcile.Convergence.{
  reconcile-SameItem, reconcile-nothing_iff, reconcile-converges,
}

abbrev list_k : ListKey
list_k = record { list_id = "trusted"; namespace_type = "single" }

abbrev item : String → String → ExceptionItem
item id text = record {
  map =
      field "item_id" (string id)
        (field "list_id" (string "trusted") (field "name" (string text) empty));
}

-- the mirror changes `a`, adds `b` and has no `c`
abbrev on_disk : List ExceptionItem
on_disk = item "a" "new" ∷ item "b" "x" ∷ []

abbrev on_stack : List ExceptionItem
on_stack = item "a" "old" ∷ item "c" "y" ∷ []

abbrev found_or : Result Found → Found
found_or (ok f) = f
found_or (err e) = ([], [])
found_or (panic why) = ([], [])

abbrev found : Found
found = found_or (reconcile json list_k on_disk on_stack)

reconcile-SameItem_example :
    (found : Found) × (reconcile json list_k on_disk on_stack ≡ ok found)
    × ((id : String)
        → SameItem json (item_with id on_disk) (perform_items id (item_with id on_stack) found.1))
unfolding are_distinct_items item_with item_id required get
reconcile-SameItem_example = reconcile-SameItem json list_k on_disk on_stack refl refl

reconcile-nothing_iff_example :
    (reconcile json list_k on_disk on_stack ≡ ok ([], []))
    ↔ ((id : String) → SameItem json (item_with id on_disk) (item_with id on_stack))
unfolding are_distinct_items item_with item_id required get
reconcile-nothing_iff_example = reconcile-nothing_iff json list_k on_disk on_stack refl refl

abbrev new_items : List ExceptionItem
new_items = item "b" "x" ∷ []

abbrev created : Found
created = (item_added "trusted" "b" ∷ [], create_item (item "b" "x") ∷ [])

reconciled : reconcile json list_k new_items [] ≡ ok created
unfolding reconcile index_items collect classify_item item_id required get BTree.get BTree.insert
    BTree.keys BTree.sort BTree.dedup
reconciled = refl

reconcile-converges_example : reconcile json list_k new_items new_items ≡ ok ([], [])
unfolding are_distinct_items item_with item_id required get perform_items perform_item
reconcile-converges_example =
    reconcile-converges json list_k new_items [] new_items created refl refl refl reconciled
      (λ id. refl)

abbrev pub rule_a : Rule
rule_a = record { map = field "rule_id" (string "r1") (field "name" (string "one") empty) }

abbrev pub rules : Stack
rules = record {
  get_rule = λ id. err (new_error not_found "no rule");
  find_named = λ n. ok ([], 0);
  find_tagged = λ t. ok [];
  find_text = λ t. ok [];
}

abbrev pub texts : Texts
texts = record { to_lowercase = λ s. s; contains_text = λ s t. false }

abbrev pub reads : Reads
reads = record { get_list = λ k. err (new_error not_found "no list"); find_items = λ k. ok [] }

abbrev pub rule_reads : RuleReads
rule_reads = record {
  find_all = λ s. ok [];
  find_by_rule_ids = λ ids. ok [];
  value_lists_bootstrapped = ok true;
  value_list_exists = λ id. ok true;
}

abbrev pub identity : StackIdentity
identity = record { profile = "p"; host = "h"; space = "default" }

abbrev pub mirror : Mirror
mirror = record { rules = rule_a ∷ []; lists = []; items = [] }

abbrev planned : Result PushPlan
planned = plan_push json rules texts reads rule_reads "m" (ok mirror) [] none none custom identity

abbrev pub empty_plan : PushPlan
empty_plan = record {
  preview_action = "";
  preview_details = [];
  report = record { profile = ""; host = ""; space = ""; applied = false; entries = [] };
  summary = record {
    applied = false;
    created = 0;
    updated = 0;
    skipped_remote_only = 0;
    failed = 0;
    pending = 0;
    lists_created = 0;
    lists_updated = 0;
    items_created = 0;
    items_updated = 0;
    items_removed = 0;
    out_of_scope = 0;
    selected = none;
    local_total = none;
  };
  desired = [];
  list_ops = [];
  item_ops = [];
}

abbrev pub plan_or : PushPlan → Result PushPlan → PushPlan
plan_or otherwise (ok p) = p
plan_or otherwise _ = otherwise

abbrev proposed : PushPlan
proposed = plan_or empty_plan planned

is_planned : planned ≡ ok proposed
unfolding plan_push plan_rules scope_of resolve is_unscoped local_scope is_scoped split_by_source
    in_source is_prebuilt remote compute index index_from rule_id comparable strip_volatile
    strip_exception_ids remove_all update_entry fill_defaults fill sort_value sort_items sort_each
    copy from_value get keys BTree.get BTree.insert BTree.keys BTree.sort BTree.dedup classify_all
    classify name exception_plan referenced_keys all_keys exception_refs fetch_remote_lists
    index_lists index_lists_from list_drift collect created_keys group_items group_from sort_values
    find_each items_of_created item_reconciliation dangling_pointers live_ids keys_in keep_wanted
    readable_keys actionable is_actionable repairs_from list_lines item_lines value_list_lines
    value_list_refs all_value_lists skipped_entries plan_changes plan_change by_id plan_write
    canonical_value canonical planned_entry plan_repairs values unresolvable refuse_unresolved
    push_summary counts count change_lines repair_lines insert remove BTree.contains
is_planned = refl

plan_push-IsProposal_example :
    (m : Mirror) × (scope : Scope) × (live : List Rule) × (◌≡◌ {A = Result Mirror}
      (ok mirror)
      (ok m))
    × (scope_of json rules texts reads rule_reads [] none none custom m.rules "apply" ≡ ok scope)
    × (remote rule_reads scope ≡ ok live)
    × IsProposal json reads m (local_scope scope m.rules).0 live proposed
plan_push-IsProposal_example =
    plan_push-IsProposal json reads rules texts rule_reads "m" (ok mirror) [] none none custom
      identity proposed is_planned

-- a stack that takes every rule as it is sent
abbrev taken : Call → Result Value
taken (post_rule v) = ok v
taken (put_rule v) = ok v
taken c = ok null

abbrev accepting : Server
accepting = record { require_exception_lists = λ log. ok tt; answer = λ log call. taken call }
