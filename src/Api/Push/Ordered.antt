-- ===== src/Api/Push/Ordered.antt =====
-- The requests of a push: the lists, then the items, then the rules.
use elasticctl.Prelude.{
  String, ◌≡◌, refl, Option, none, some, List, [], ◌∷◌, arith, if◌then◌else◌, inl, inr,
  Option-cases, Bool-cases,
}
use elasticctl.Prelude.Order.{◌=?◌, string_ord}
use elasticctl.Prelude.BTree
use elasticctl.Prelude.BTree.{BTreeMap}
use elasticctl.Json.{JsonMap}
use elasticctl.Core.Error.{Result, ok, err, panic, Result-cases}
use elasticctl.Api.Model.{Rule, ListKey}
use elasticctl.Api.Pointers.{inject_list_ids}
use elasticctl.Api.Report.{ReportEntry, is_write}
use elasticctl.Api.Push.{
  PushPlan, Call, post_list, put_list, post_item, put_item, post_rule, put_rule, Server,
}
use elasticctl.Api.Reconcile.{
  ListOp, create_list, update_list, ItemOp, create_item, update_item, remove_item,
}
use elasticctl.Api.Push.Calls.{list_call, item_call, rule_call, delete_call}
use elasticctl.Api.Push.Writes.{
  Progress, start, Outcome, run, list_op, item_op, rule_entry, rule_entries, push_rules,
  after_phase, apply_push,
}
use elasticctl.Api.Push.Requests.{
  Extends, Extends-refl, after_entry-Extends, delete_call-Extends, item_call-Extends,
  list_call-Extends, phase, rule_call-Extends, run-Extends, sent_entry-Extends, settle-Extends,
}

module _ (J : JsonMap) (S : Server) where
  pub list_op-Extends :
      (p : Progress) (op : ListOp) (log : List Call)
      → Extends (λ c. phase c ≡ 0) log (list_op J S p op log).1
  unfolding list_op phase
  list_op-Extends p (create_list l) log =
      settle-Extends p _ _ log (list_call J S post_list l log)
        (list_call-Extends J S post_list l log (λ v. refl))
  list_op-Extends p (update_list before l) log =
      settle-Extends p _ _ log (list_call J S put_list l log)
        (list_call-Extends J S put_list l log (λ v. refl))

  pub item_op-Extends :
      (p : Progress) (op : ItemOp) (log : List Call)
      → Extends (λ c. phase c ≡ 1) log (item_op J S p op log).1
  unfolding item_op phase
  item_op-Extends p (create_item i) log =
      settle-Extends p _ _ log (item_call J S post_item i log)
        (item_call-Extends J S post_item i log (λ v. refl))
  item_op-Extends p (update_item before i) log =
      settle-Extends p _ _ log (item_call J S put_item i log)
        (item_call-Extends J S put_item i log (λ v. refl))
  item_op-Extends p (remove_item before namespace) log =
      let sent : Extends (λ c. phase c ≡ 1) log (delete_call J S before namespace log).1 =
        delete_call-Extends J S before namespace log (λ id. refl) in
      search (settle-Extends, sent)

  rule_entry-Extends :
      (live : ListKey → Option String) (desired : BTreeMap String Rule) (e : ReportEntry)
      (log : List Call)
      → Extends (λ c. phase c ≡ 2) log (rule_entry J S live desired e log).1
  unfolding rule_entry phase
  rule_entry-Extends live desired e log = elim (Bool-cases (is_write e)) [
    | inr off ↦ rw off (Extends-refl log)
    | inl on ↦ elim (Option-cases (BTree.get e.rule_id desired)) [
      | inl none_there ↦ rw (on, none_there) (Extends-refl log)
      | inr (r, there) ↦ elim (Result-cases (inject_list_ids J live r)) [
        | inl (r', fine) ↦
            rw (on, there, fine)
              (sent_entry-Extends J S e log
                (rule_call J S (if e.action =? "create" then post_rule else put_rule) r' log)
                (rule_call-Extends J S (if e.action =? "create" then post_rule else put_rule) r' log
                  (λ v. ground arith)))
        | inr (inl (w, bad)) ↦ rw (on, there, bad) (Extends-refl log)
        | inr (inr (w, bad)) ↦ rw (on, there, bad) (Extends-refl log)
      ]
    ]
  ]

  pub rule_entries-Extends :
      (live : ListKey → Option String) (desired : BTreeMap String Rule) (es : List ReportEntry)
      (log : List Call)
      → Extends (λ c. phase c ≡ 2) log (rule_entries J S live desired es log).1
  unfolding rule_entries
  rule_entries-Extends live desired [] log = Extends-refl log
  rule_entries-Extends live desired (e ∷ es) log =
      after_entry-Extends J S log (rule_entry J S live desired e log)
        (rule_entries J S live desired es) (rule_entry-Extends live desired e log)
        (rule_entries-Extends live desired es)

  -- The requests of the items, then of the rules, and no other.
  abbrev pub ItemsThenRules : List Call → List Call → Type 0
  ItemsThenRules log last =
      (middle : List Call) × Extends (λ c. phase c ≡ 1) log middle
      × Extends (λ c. phase c ≡ 2) middle last

  -- after the phase of the items
  pub after_items :
      (plan : PushPlan) (log : List Call) (r : Result Outcome × List Call)
      → Extends (λ c. phase c ≡ 1) log r.1
      → ItemsThenRules log (after_phase J S plan r (push_rules J S plan)).1
  unfolding push_rules
  after_items plan log (ok (p, none), l) h =
      (l, h, rule_entries-Extends p.resolved plan.desired plan.report.entries l)
  after_items plan log (ok (p, some e), l) h = (l, h, Extends-refl l)
  after_items plan log (err e, l) h = (l, h, Extends-refl l)
  after_items plan log (panic w, l) h = (l, h, Extends-refl l)

  after_lists :
      (plan : PushPlan) (log : List Call) (r : Result Outcome × List Call)
      → Extends (λ c. phase c ≡ 0) log r.1
      → (first : List Call) × Extends (λ c. phase c ≡ 0) log first
        × ItemsThenRules first
            (after_phase J S plan r (λ p l.
              after_phase J S plan (run (item_op J S) p plan.item_ops l) (push_rules J S plan))).1
  after_lists plan log (ok (p, none), l) h = (
    l,
    h,
    after_items plan l (run (item_op J S) p plan.item_ops l)
        (run-Extends (item_op J S) item_op-Extends p plan.item_ops l),
  )
  after_lists plan log (ok (p, some e), l) h = (l, h, (l, Extends-refl l, Extends-refl l))
  after_lists plan log (err e, l) h = (l, h, (l, Extends-refl l, Extends-refl l))
  after_lists plan log (panic w, l) h = (l, h, (l, Extends-refl l, Extends-refl l))

  -- A push makes, whatever the stack answers, first requests for lists, then requests for items and
  -- then requests for rules, and takes back none that was made before.
  pub apply_push-ordered :
      (plan : PushPlan) (resolved : ListKey → Option String) (log : List Call)
      → (first : List Call) × Extends (λ c. phase c ≡ 0) log first
        × ItemsThenRules first (apply_push J S plan resolved log).1
  unfolding apply_push
  apply_push-ordered plan resolved log =
      after_lists plan log (run (list_op J S) (start resolved) plan.list_ops log)
        (run-Extends (list_op J S) list_op-Extends (start resolved) plan.list_ops log)
