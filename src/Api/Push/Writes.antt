-- ===== src/Api/Push/Writes.antt =====
-- crates/elasticctl-api/src/state/push.rs: the phases of a push, over the requests of exceptions.rs and
-- rules.rs. A computation that makes requests goes from the calls so far, the last one first, to its
-- result and the calls after it.
use elasticctl.Prelude.{
  ℕ, ◌+◌, String, Bool, not, Option, none, some, List, [], ◌∷◌, ◌++◌, if◌then◌else◌, ◌&&◌, and_then,
}
use elasticctl.Prelude.Text.{concat}
use elasticctl.Prelude.Order.{◌=?◌, string_ord}
use elasticctl.Prelude.BTree.{BTreeMap}
use elasticctl.Prelude.BTree
use elasticctl.Json.{object, as_str, get, JsonMap}
use elasticctl.Core.Error.{Result, ok, err, panic, ◌>>=◌}
use elasticctl.Api.Model.{Rule, ListKey, into_value}
use elasticctl.Api.Normalize.{canonical}
use elasticctl.Api.Exceptions.{
  ExceptionList, ExceptionItem, list_id, list_name, list_key, item_id, item_list_id, canonical_list,
  canonical_item,
}
use elasticctl.Api.Pointers.{inject_list_ids}
use elasticctl.Api.Report.{ReportEntry, is_write}
use elasticctl.Api.Push.{
  ExceptionCounts, no_counts, PushPlan, Call, post_list, put_list, post_item, put_item, post_rule,
  put_rule, Server, readable, applied_entry, failed_entry, finish, finish_after_exception_failure,
}
use elasticctl.Api.Reconcile.{
  ListOp, create_list, update_list, ItemOp, create_item, update_item, remove_item,
}
use elasticctl.Api.Push.Calls.{list_call, item_call, delete_call, rule_call}

-- what the exception writes have done: the live ids, the counts and the entries so far
pub record Progress : Type 0 where
  pub resolved : ListKey → Option String
  pub counts : ExceptionCounts
  pub entries : List ReportEntry

abbrev pub start : (ListKey → Option String) → Progress
start resolved = record { resolved = resolved; counts = no_counts; entries = [] }

-- after a write: go on, or stop at an entry that failed
abbrev pub Outcome : Type 0
Outcome = Progress × Option ReportEntry

unfoldable pub same_key : ListKey → ListKey → Bool
same_key j k = (j.list_id =? k.list_id) && (j.namespace_type =? k.namespace_type)

-- the entry of a write that was applied and, from the error's text, of one that failed
abbrev pub settle {ℓ} :
    {A : Type ℓ}
    → Progress
    → (A → Result Progress)
    → (String → ReportEntry)
    → Result A × List Call
    → Result Outcome × List Call
settle p applied failed (ok a, log) = (applied a >>= λ q. ok (q, none), log)
settle p applied failed (err e, log) = (ok (p, some (failed e.message)), log)
settle p applied failed (panic why, log) = (panic why, log)

abbrev push_entry : Progress → ExceptionCounts → ReportEntry → Progress
push_entry p counts e = record {
  resolved = p.resolved;
  counts = counts;
  entries = p.entries ++ e ∷ [];
}

-- `resolved.insert` of the id that the answer names, if it names one
abbrev pub resolve_id : ExceptionList → Progress → Option String → Result Progress
resolve_id list p none = ok p
resolve_id list p (some id) = list_key list >>= λ key. ok (record {
  resolved = λ k. if same_key k key then some id else p.resolved k;
  counts = p.counts;
  entries = p.entries;
})

unfoldable pub resolve_created : ExceptionList → ExceptionList → Progress → Result Progress
resolve_created list created p = resolve_id list p (and_then (get "id" created.map) as_str)

abbrev pub continue :
    Result Outcome × List Call
    → (Progress → List Call → Result Outcome × List Call)
    → Result Outcome × List Call
continue (ok (p, none), log) next = next p log
continue (ok (p, some e), log) next = (ok (p, some e), log)
continue (err e, log) next = (err e, log)
continue (panic why, log) next = (panic why, log)

-- the writes of one phase, up to the first that fails
unfoldable pub run {ℓ} :
    {A : Type ℓ}
    → (Progress → A → List Call → Result Outcome × List Call)
    → Progress
    → List A
    → List Call
    → Result Outcome × List Call
run step p [] log = (ok (p, none), log)
run step p (op ∷ ops) log = continue (step p op log) (λ q log'. run step q ops log')

abbrev bump : ExceptionCounts → (a b c d e : ℕ) → ExceptionCounts
bump n a b c d e = record {
  lists_created = a + n.lists_created;
  lists_updated = b + n.lists_updated;
  items_created = c + n.items_created;
  items_updated = d + n.items_updated;
  items_removed = e + n.items_removed;
}

-- a deletion that was answered
abbrev pub removed : Progress → ExceptionItem → ExceptionItem → Result Progress
removed p before answered = ok (
    push_entry p (bump p.counts 0 0 0 0 1) (
      applied_entry (readable (item_id before)) (readable (item_list_id before)) "delete_item"
        (some (object before.map)) none))

module _ (J : JsonMap) (S : Server) where
  unfoldable pub list_op : Progress → ListOp → List Call → Result Outcome × List Call
  unfolding list_call resolve_created
  list_op p (create_list l) log =
      settle p
        (λ created. resolve_created l created p >>= λ q. canonical_list J created >>= λ c. ok (
          push_entry q (bump p.counts 1 0 0 0 0) (
            applied_entry (readable (list_id l)) (list_name l) "create_list" none
              (some (object c.map)))))
        (failed_entry (readable (list_id l)) (list_name l) "create_list" none)
        (list_call J S post_list l log)
  list_op p (update_list before l) log =
      settle p
        (λ answered. canonical_list J answered >>= λ c. ok (
          push_entry p (bump p.counts 0 1 0 0 0) (
            applied_entry (readable (list_id l)) (list_name l) "update_list"
              (some (object before.map)) (some (object c.map)))))
        (failed_entry (readable (list_id l)) (list_name l) "update_list" (some (object before.map)))
        (list_call J S put_list l log)

  unfoldable pub item_op : Progress → ItemOp → List Call → Result Outcome × List Call
  unfolding item_call delete_call
  item_op p (create_item i) log =
      settle p
        (λ answered. canonical_item J answered >>= λ c. ok (
          push_entry p (bump p.counts 0 0 1 0 0) (
            applied_entry (readable (item_id i)) (readable (item_list_id i)) "create_item" none
              (some (object c.map)))))
        (failed_entry (readable (item_id i)) (readable (item_list_id i)) "create_item" none)
        (item_call J S post_item i log)
  item_op p (update_item before i) log =
      settle p
        (λ answered. canonical_item J answered >>= λ c. ok (
          push_entry p (bump p.counts 0 0 0 1 0) (
            applied_entry (readable (item_id i)) (readable (item_list_id i)) "update_item"
              (some (object before.map)) (some (object c.map)))))
        (failed_entry (readable (item_id i)) (readable (item_list_id i)) "update_item"
          (some (object before.map)))
        (item_call J S put_item i log)
  item_op p (remove_item before namespace) log =
      settle p (removed p before)
        (failed_entry (readable (item_id before)) (readable (item_list_id before)) "delete_item"
          (some (object before.map)))
        (delete_call J S before namespace log)

  -- the entry of a rule that was sent
  unfoldable pub sent_entry : ReportEntry → Result Rule × List Call → Result ReportEntry × List Call
  sent_entry e (ok r, log) = (
    canonical J r >>= λ c.
        ok (applied_entry e.rule_id e.name e.action e.before (some (into_value c))),
    log,
  )
  sent_entry e (err why, log) =
      (ok (failed_entry e.rule_id e.name e.action e.before why.message), log)
  sent_entry e (panic why, log) = (panic why, log)

  abbrev pub after_entry :
      Result ReportEntry × List Call
      → (List Call → Result (List ReportEntry) × List Call)
      → Result (List ReportEntry) × List Call
  after_entry (ok e, log) next = let (rest, last) = next log in (rest >>= λ es. ok (e ∷ es), last)
  after_entry (err why, log) next = (err why, log)
  after_entry (panic why, log) next = (panic why, log)

  module _ (live : ListKey → Option String) (desired : BTreeMap String Rule) where
    unfoldable pub rule_entry : ReportEntry → List Call → Result ReportEntry × List Call
    unfolding sent_entry rule_call
    rule_entry e log =
        if not (is_write e) then (ok e, log) else elim (BTree.get e.rule_id desired) [
          | none ↦ (
            ok (
                failed_entry e.rule_id e.name e.action e.before
                  (concat ("the plan has no desired rule for \"" ∷ e.rule_id ∷ "\"" ∷ []))),
            log,
          )
          | some r ↦ elim (inject_list_ids J live r) [
            | err why ↦ (ok (failed_entry e.rule_id e.name e.action e.before why.message), log)
            | panic why ↦ (panic why, log)
            | ok r' ↦
                sent_entry e
                  (rule_call J S (if e.action =? "create" then post_rule else put_rule) r' log)
          ]
        ]

    -- every rule of the report, also after one that failed
    unfoldable pub rule_entries :
        List ReportEntry → List Call → Result (List ReportEntry) × List Call
    unfolding rule_entry
    rule_entries [] log = (ok [], log)
    rule_entries (e ∷ es) log = after_entry (rule_entry e log) (rule_entries es)

  -- the third phase
  unfoldable pub push_rules : PushPlan → Progress → List Call → Result PushPlan × List Call
  unfolding rule_entries
  push_rules plan p log =
      let (written, last) = rule_entries p.resolved plan.desired plan.report.entries log in
      (written >>= λ es. ok (finish plan (p.entries ++ es) p.counts), last)

  abbrev pub after_phase :
      PushPlan
      → Result Outcome × List Call
      → (Progress → List Call → Result PushPlan × List Call)
      → Result PushPlan × List Call
  after_phase plan (ok (p, none), log) next = next p log
  after_phase plan (ok (p, some e), log) next =
      (ok (finish_after_exception_failure plan p.entries e p.counts), log)
  after_phase plan (err e, log) next = (err e, log)
  after_phase plan (panic why, log) next = (panic why, log)

  -- from the ids of the lists that the stack has: the lists, then the items, then the rules
  unfoldable pub apply_push :
      PushPlan → (ListKey → Option String) → List Call → Result PushPlan × List Call
  unfolding list_op item_op run
  apply_push plan resolved log =
      after_phase plan (run list_op (start resolved) plan.list_ops log)
        (λ p log'. after_phase plan (run item_op p plan.item_ops log') (push_rules plan))
