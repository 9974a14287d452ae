-- ===== src/Api/Push.antt =====
-- crates/elasticctl-api/src/state/push.rs: the writes of a push, from the ids of the lists on, and the
-- requests of exceptions.rs and rules.rs that it makes. What the stack answers is a parameter.
pub mod Calls
pub mod Writes
pub mod Requests
pub mod Ordered
pub mod Reported
pub mod Evidence
pub mod Planning
pub mod Planned
pub mod Proposal
pub mod Live
pub mod Composed
use elasticctl.Prelude.{
  ℕ, suc, String, Bool, true, false, not, ◌||◌, Option, none, some, List, [], ◌∷◌, ◌++◌,
  if◌then◌else◌, ◌&&◌, and_then,
}
use elasticctl.Prelude.Text.{concat}
use elasticctl.Prelude.Order.{◌=?◌, string_ord}
use elasticctl.Prelude.BTree.{BTreeMap, get}
use elasticctl.Json
use elasticctl.Json.{Value, object, as_str, JsonMap}
use elasticctl.Core.Error.{Error, Result, ok, err, panic, ◌>>=◌}
use elasticctl.Api.Model.{Rule, ListKey, from_value, into_value}
use elasticctl.Api.Normalize.{strip_volatile, canonical}
use elasticctl.Api.Exceptions.{
  ExceptionList, ExceptionItem, list_from_value, item_from_value, list_id, list_name, list_key,
  item_id, item_list_id, canonical_list, canonical_item,
}
use elasticctl.Api.Pointers.{inject_list_ids}
use elasticctl.Api.Reconcile.{ListOp, ItemOp}
use elasticctl.Api.Report.{ReportEntry, ChangeReport, counts, pending, is_write}

pub record ExceptionCounts : Type 0 where
  pub lists_created : ℕ
  pub lists_updated : ℕ
  pub items_created : ℕ
  pub items_updated : ℕ
  pub items_removed : ℕ

abbrev pub no_counts : ExceptionCounts
no_counts = record {
  lists_created = 0;
  lists_updated = 0;
  items_created = 0;
  items_updated = 0;
  items_removed = 0;
}

pub record PushReport : Type 0 where
  pub applied : Bool
  pub created : ℕ
  pub updated : ℕ
  pub skipped_remote_only : ℕ
  pub failed : ℕ
  pub pending : ℕ
  pub lists_created : ℕ
  pub lists_updated : ℕ
  pub items_created : ℕ
  pub items_updated : ℕ
  pub items_removed : ℕ
  pub out_of_scope : ℕ
  pub selected : Option ℕ
  pub local_total : Option ℕ

pub record PushPlan : Type 0 where
  pub preview_action : String
  pub preview_details : List String
  pub report : ChangeReport
  pub summary : PushReport
  pub desired : BTreeMap String Rule
  pub list_ops : List ListOp
  pub item_ops : List ItemOp

-- a request that changes the stack, with its body, or with what the path of a deletion names
pub data Call : Type 0 where
  post_list put_list post_item put_item post_rule put_rule : Value → Call
  delete_item : (item_id namespace_type : String) → Call

-- What the stack answers after the calls so far, the last one first.
pub record Server : Type 0 where
  pub require_exception_lists : List Call → Result (Unit {0})
  pub answer : List Call → Call → Result Value

abbrev readable : Result String → String
readable (ok s) = s
readable _ = "<unreadable>"

abbrev applied_entry : String → String → String → Option Value → Option Value → ReportEntry
applied_entry id name action before after = record {
  rule_id = id;
  name = name;
  action = action;
  before = before;
  after = after;
  applied = true;
  error = none;
}

abbrev pub failed_entry : String → String → String → Option Value → String → ReportEntry
failed_entry id name action before message = record {
  rule_id = id;
  name = name;
  action = action;
  before = before;
  after = none;
  applied = false;
  error = some message;
}

unfoldable pub push_summary : ChangeReport → Option ℕ → Option ℕ → ℕ → ExceptionCounts → PushReport
push_summary report selected local_total out_of_scope done =
    let (created, updated, skipped, failed) = counts report in
    record {
      applied = report.applied;
      created = created;
      updated = updated;
      skipped_remote_only = skipped;
      failed = failed;
      pending = pending report;
      lists_created = done.lists_created;
      lists_updated = done.lists_updated;
      items_created = done.items_created;
      items_updated = done.items_updated;
      items_removed = done.items_removed;
      out_of_scope = out_of_scope;
      selected = selected;
      local_total = local_total;
    }

-- the plan with the entries of what happened
unfoldable pub finish : PushPlan → List ReportEntry → ExceptionCounts → PushPlan
finish plan entries done =
    let report : ChangeReport = record {
      profile = plan.report.profile;
      host = plan.report.host;
      space = plan.report.space;
      applied = true;
      entries = entries;
    } in
    record {
      preview_action = plan.preview_action;
      preview_details = plan.preview_details;
      report = report;
      summary =
          push_summary report plan.summary.selected plan.summary.local_total
            plan.summary.out_of_scope done;
      desired = plan.desired;
      list_ops = plan.list_ops;
      item_ops = plan.item_ops;
    }

unfoldable pub finish_after_exception_failure :
    PushPlan → List ReportEntry → ReportEntry → ExceptionCounts → PushPlan
finish_after_exception_failure plan entries failed done =
    finish plan ((entries ++ (failed ∷ [])) ++ plan.report.entries) done
