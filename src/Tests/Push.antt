-- ===== src/Tests/Push.antt =====
-- A push of one list and one rule that refers to it.
use elasticctl.Prelude.{String, ◌≡◌, refl, false, Option, none, List, [], ◌∷◌}
use elasticctl.Prelude.BTree
use elasticctl.Prelude.BTree.{BTreeMap}
use elasticctl.Prelude.Order.{string_ord}
use elasticctl.Json.{Value, null, string, array, object, nil, cons, empty, field, get}
use elasticctl.Core.Error.{Result, ok, err, panic, new_error, conflict}
use elasticctl.Api.Model.{Rule, ListKey}
use elasticctl.Api.Exceptions.{ExceptionList}
use elasticctl.Api.Report.{ReportEntry, is_write}
use elasticctl.Api.Push.{PushReport, PushPlan, Call, post_list, post_rule, Server}
use elasticctl.Api.Reconcile.{create_list}
use elasticctl.Api.Push.Calls.{rule_call, send}
use elasticctl.Api.Push.Writes.{apply_push, run, push_rules, rule_entries, rule_entry, sent_entry}
use elasticctl.Api.Pointers.{inject_list_ids}
use elasticctl.Api.Push.Requests.{phase, Extends}
use elasticctl.Api.Push.Ordered.{ItemsThenRules, apply_push-ordered}
use elasticctl.Api.Push.Evidence.{KeepsEntries, apply_push-kept}
use elasticctl.Tests.Sample.{json}

abbrev new_list : ExceptionList
new_list = record { map = field "list_id" (string "trusted") empty }

abbrev new_rule : Rule
new_rule = record {
  map = field "rule_id" (string "r1") (
      field "exceptions_list" (array (cons (object (field "list_id" (string "trusted") empty)) nil))
        empty);
}

-- the stack gives the list an id, and stores a rule as it is
abbrev answer : List Call → Call → Result Value
answer log (post_list v) =
    ok (object (field "id" (string "17") (field "list_id" (string "trusted") empty)))
answer log (post_rule v) = ok v
answer log _ = ok null

abbrev server : Server
server = record { require_exception_lists = λ log. ok tt; answer = answer }

abbrev planned_entry : String → String → ReportEntry
planned_entry id action = record {
  rule_id = id;
  name = id;
  action = action;
  before = none;
  after = none;
  applied = false;
  error = none;
}

abbrev summary : PushReport
summary = record {
  applied = false;
  created = 0;
  updated = 0;
  skipped_remote_only = 1;
  failed = 0;
  pending = 1;
  lists_created = 0;
  lists_updated = 0;
  items_created = 0;
  items_updated = 0;
  items_removed = 0;
  out_of_scope = 0;
  selected = none;
  local_total = none;
}

abbrev plan : PushPlan
plan = record {
  preview_action = "push";
  preview_details = [];
  report = record {
    profile = "p";
    host = "h";
    space = "default";
    applied = false;
    entries = planned_entry "r1" "create" ∷ planned_entry "r2" "skipped_remote_only" ∷ [];
  };
  summary = summary;
  desired = ("r1", new_rule) ∷ [];
  list_ops = create_list new_list ∷ [];
  item_ops = [];
}

abbrev unresolved : ListKey → Option String
unresolved key = none

abbrev plan_or : PushPlan → Result PushPlan → PushPlan
plan_or otherwise (ok p) = p
plan_or otherwise (err e) = otherwise
plan_or otherwise (panic why) = otherwise

abbrev requests : List Call
requests = (apply_push json server plan unresolved []).1

apply_push-ordered_example :
    (first : List Call) × Extends (λ c. phase c ≡ 0) [] first
    × ItemsThenRules json server first requests
apply_push-ordered_example = apply_push-ordered json server plan unresolved []

-- a stack that refuses the rule
abbrev refusing : Server
refusing = record {
  require_exception_lists = λ log. ok tt;
  answer = λ log call. err (new_error conflict "exists");
}

abbrev rules_only : PushPlan
rules_only = record {
  preview_action = plan.preview_action;
  preview_details = [];
  report = plan.report;
  summary = summary;
  desired = ("r1", record { map = field "rule_id" (string "r1") empty }) ∷ [];
  list_ops = [];
  item_ops = [];
}

abbrev refused : PushPlan
refused = plan_or rules_only (apply_push json refusing rules_only unresolved []).0

abbrev refused_requests : List Call
refused_requests = (apply_push json refusing rules_only unresolved []).1

returned : apply_push json refusing rules_only unresolved [] ≡ (ok refused, refused_requests)
unfolding apply_push run push_rules rule_entries rule_entry rule_call sent_entry send
    inject_list_ids get is_write BTree.get
returned = refl

apply_push-kept_example : KeepsEntries rules_only refused
apply_push-kept_example =
    apply_push-kept json refusing rules_only unresolved [] refused_requests refused returned
