-- ===== src/Api/Push/Evidence.antt =====
-- The report of a push as the evidence of what happened.
use elasticctl.Prelude.{
  ℕ, ◌+◌, length, is_some, true, String, ◌≡◌, refl, subst, false, Option, none, some, List, [], ◌∷◌,
  ◌++◌, All, All-append, All-imp, arith, ◌⊎◌, inl, inr, ◌<◌,
}
use elasticctl.Json.{JsonMap}
use elasticctl.Core.Error.{Result, ok, err, panic, ◌>>=◌}
use elasticctl.Api.Model.{ListKey}
use elasticctl.Api.Report.{ReportEntry, is_pending, pending, count}
use elasticctl.Api.Push.{PushPlan, Call, Server, finish, finish_after_exception_failure}
use elasticctl.Api.Push.Writes.{
  Progress, Outcome, start, run, list_op, item_op, rule_entries, push_rules, after_phase,
  apply_push,
}
use elasticctl.Api.Push.Requests.{phase, Extends, Extends-trans, run-Extends}
use elasticctl.Api.Push.Ordered.{list_op-Extends, item_op-Extends}
use elasticctl.Core.Error.Outcomes.{OnOk}
use elasticctl.Api.Push.Reported.{
  IsDone, Quiet, QuietOutcome, AreKept, AreKept-refl, AreSettled, run-Quiet, list_op-Quiet,
  item_op-Quiet, rule_entries-AreSettled,
}

-- `P` of the plan and the requests of a push that returns its plan
abbrev OnDone : (PushPlan → List Call → Type 0) → Result PushPlan × List Call → Type 0
OnDone P (ok plan, log) = P plan log
OnDone P (err e, log) = Unit
OnDone P (panic w, log) = Unit

-- The report ends with the planned entries.
abbrev pub KeepsEntries : PushPlan → PushPlan → Type 0
KeepsEntries plan plan' =
    (front back : List ReportEntry) × (plan'.report.entries ≡ front ++ back)
    × AreKept plan.report.entries back

-- Every write of a list and of an item was done, and nothing is pending.
abbrev pub IsThrough : PushPlan → List ReportEntry → PushPlan → Type 0
IsThrough plan front plan' =
    All IsDone front
    × (length front ≡ length plan.list_ops + length plan.item_ops)
    × (pending plan'.report ≡ 0)

-- A write of a list or of an item failed, the last that was tried, and no rule was asked for.
abbrev pub IsStopped :
    PushPlan → List Call → List ReportEntry → List ReportEntry → List Call → Type 0
IsStopped plan log front back last =
    (done : List ReportEntry) × (e : ReportEntry) × (front ≡ done ++ e ∷ [])
    × All IsDone done
    × (is_some e.error ≡ true)
    × (back ≡ plan.report.entries)
    × Extends (λ c. phase c < 2) log last

-- What stands in the report before the planned entries tells how far the push came.
abbrev pub IsComplete : PushPlan → List Call → PushPlan → List Call → Type 0
IsComplete plan log plan' last =
    (front back : List ReportEntry) × (plan'.report.entries ≡ front ++ back)
    × AreKept plan.report.entries back
    × (IsThrough plan front plan' ⊎ IsStopped plan log front back last)

abbrev Evidence : PushPlan → List Call → PushPlan → List Call → Type 0
Evidence plan log plan' last = KeepsEntries plan plan' × IsComplete plan log plan' last

to_Evidence :
    (plan : PushPlan) (log last : List Call) (plan' : PushPlan)
    → IsComplete plan log plan' last
    → Evidence plan log plan' last
to_Evidence plan log last plan' h =
    let (front, back, whole, kept, end) = h in ((front, back, whole, kept), h)

count-none : (es : List ReportEntry) → All (λ e. is_pending e ≡ false) es → count is_pending es ≡ 0
unfolding count
count-none [] h = refl
count-none (e ∷ es) h = ground (arith, h.0, count-none es h.1)

Extends-imp :
    {K L : Call → Type 0} (f : (c : Call) → K c → L c) (log last : List Call)
    → Extends K log last
    → Extends L log last
Extends-imp f log last (new, e, h) = (new, e, All-imp f new h)

module _ (J : JsonMap) (S : Server) (plan : PushPlan) where
  -- how many writes of lists and of items are planned
  abbrev writes : ℕ
  writes = 0 + length plan.list_ops + length plan.item_ops

  finish-Evidence :
      (p : Progress) (log last : List Call) (written : Result (List ReportEntry))
      → Quiet writes p
      → OnOk (AreSettled plan.report.entries) written
      → OnDone
          (Evidence plan log)
          (written >>= λ es. ok (finish plan (p.entries ++ es) p.counts), last)
  unfolding finish pending
  finish-Evidence p log last (ok es) quiet settled =
      to_Evidence plan log last (finish plan (p.entries ++ es) p.counts) (
        p.entries,
        es,
        refl,
        settled.1,
        inl (
          quiet.0,
          ground (arith, quiet.1),
          count-none (p.entries ++ es)
              (All-append _ p.entries es (All-imp (λ e done. done.0) p.entries quiet.0) settled.0),
        ),
      )
  finish-Evidence p log last (err e) quiet settled = tt
  finish-Evidence p log last (panic w) quiet settled = tt

  push_rules-Evidence :
      (p : Progress) (log middle : List Call)
      → Quiet writes p
      → OnDone (Evidence plan log) (push_rules J S plan p middle)
  unfolding push_rules
  push_rules-Evidence p log middle quiet =
      finish-Evidence p log (rule_entries J S p.resolved plan.desired plan.report.entries middle).1
        (rule_entries J S p.resolved plan.desired plan.report.entries middle).0 quiet
        (rule_entries-AreSettled J S p.resolved plan.desired plan.report.entries middle)

  after_phase-Evidence :
      (n : ℕ) (log : List Call) (r : Result Outcome × List Call)
      (next : Progress → List Call → Result PushPlan × List Call)
      → OnOk (QuietOutcome n) r.0
      → Extends (λ c. phase c < 2) log r.1
      → ((p : Progress) (l : List Call)
          → Quiet n p
          → Extends (λ c. phase c < 2) log l
          → OnDone (Evidence plan log) (next p l))
      → OnDone (Evidence plan log) (after_phase J S plan r next)
  unfolding finish finish_after_exception_failure
  after_phase-Evidence n log (ok (p, none), l) next quiet before more = more p l quiet before
  after_phase-Evidence n log (ok (p, some e), l) next quiet before more =
      to_Evidence plan log l (finish_after_exception_failure plan p.entries e p.counts) (
        p.entries ++ e ∷ [],
        plan.report.entries,
        refl,
        AreKept-refl plan.report.entries,
        inr (p.entries, e, refl, quiet.0, quiet.2, refl, before),
      )
  after_phase-Evidence n log (err e, l) next quiet before more = tt
  after_phase-Evidence n log (panic w, l) next quiet before more = tt

  apply_push-Evidence :
      (resolved : ListKey → Option String) (log : List Call)
      → OnDone (Evidence plan log) (apply_push J S plan resolved log)
  unfolding apply_push
  apply_push-Evidence resolved log =
      after_phase-Evidence (0 + length plan.list_ops) log
        (run (list_op J S) (start resolved) plan.list_ops log) _
        (run-Quiet (list_op J S) (list_op-Quiet J S) 0 (start resolved) plan.list_ops log
          (tt, refl))
        (Extends-imp (λ c e. omega (arith, e)) log _
          (run-Extends (list_op J S) (list_op-Extends J S) (start resolved) plan.list_ops log))
        (λ p l quiet before.
          after_phase-Evidence writes log (run (item_op J S) p plan.item_ops l)
            (push_rules J S plan)
            (run-Quiet (item_op J S) (item_op-Quiet J S) (0 + length plan.list_ops) p plan.item_ops
              l quiet)
            (Extends-trans log l _ before (
              Extends-imp (λ c e. omega (arith, e)) l _
                (run-Extends (item_op J S) (item_op-Extends J S) p plan.item_ops l)))
            (λ q m still _. push_rules-Evidence q log m still))

  -- Where a push returns its plan, the report ends with the planned entries, in their order, each
  -- with the `rule_id`, the name, the action and the value before that were planned, whatever failed.
  pub apply_push-kept :
      (resolved : ListKey → Option String) (log last : List Call) (plan' : PushPlan)
      → apply_push J S plan resolved log ≡ (ok plan', last)
      → KeepsEntries plan plan'
  apply_push-kept resolved log last plan' h =
      (subst (OnDone (Evidence plan log)) h (apply_push-Evidence resolved log)).0
