-- ===== src/Api/StateDiff/Nothing.antt =====
-- After a clean `diff` a push plans no write and makes no request.
use elasticctl.Prelude.{
  ℕ, String, ◌≡◌, refl, sym, ◌∙◌, true, false, ◌&&◌, Option, List, [], ◌∷◌, ◌++◌, arith, all, All,
  inl, inr,
}
use elasticctl.Prelude.Order.{string_ord}
use elasticctl.Prelude.BTree
use elasticctl.Prelude.BTree.{BTreeMap, sort, dedup, keys}
use elasticctl.Json.{JsonMap}
use elasticctl.Core.Error.{Result, ok, ◌>>=◌, bind-ok_inv, Result-cases}
use elasticctl.Core.Error.Outcomes.{OnOk, bind-OnOk, always-OnOk, OnOk-intro, OnOk-elim}
use elasticctl.Api.Model.{Rule, ListKey}
use elasticctl.Api.Model.Keys.{key_ord}
use elasticctl.Api.Drift.{
  Change, Drift, is_unchanged, is_clean, is_actionable, keep_actionable, actionable, compute, added,
  modified, unchanged, remote_only,
}
use elasticctl.Api.Exceptions.{ExceptionList, ExceptionItem}
use elasticctl.Api.Selection.{Stack, Texts}
use elasticctl.Api.Scope.{Scope, referenced_keys}
use elasticctl.Api.Report.{ReportEntry, is_write}
use elasticctl.Api.Reconcile.{
  is_list_unchanged, ExceptionPlan, DanglingPointer, ListOp, index_lists, list_drift,
  item_reconciliation, is_drift_clean, has_no_pointer,
}
use elasticctl.Api.Reconcile.Planning.{
  Reads, fetch_remote_lists, keep_wanted, keys_in, created_keys, group_items, find_each,
  items_of_created, exception_plan, resolve_ids,
}
use elasticctl.Api.Push.{PushPlan, Call, Server}
use elasticctl.Api.Push.Writes.{run, rule_entry, rule_entries, push_rules, apply_push}
use elasticctl.Api.Push.Planning.{
  Mirror, StackIdentity, RuleReads, values, planned_entry, canonical_value, by_id, unresolvable,
  refuse_unresolved, list_lines, item_lines, value_list_lines, value_list_refs, skipped_entries,
  plan_changes, plan_repairs, repairs_from, plan_rules,
}
use elasticctl.Api.Push.Composed.{apply_planned}
use elasticctl.Api.StateDiff.{DiffReport, diff_rules}
use elasticctl.Api.StateDiff.Quiet.{all-append, list_drift-IsQuiet, item_reconciliation-IsQuiet}

keep_actionable-unchanged :
    (cs : List Change) → all is_unchanged cs ≡ true → keep_actionable cs ≡ []
unfolding is_unchanged is_actionable
keep_actionable-unchanged [] h = refl
keep_actionable-unchanged (added id n ∷ cs) h = absurd (ground (arith, h))
keep_actionable-unchanged (modified id n fs ∷ cs) h = absurd (ground (arith, h))
keep_actionable-unchanged (unchanged id ∷ cs) h = keep_actionable-unchanged cs (ground (arith, h))
keep_actionable-unchanged (remote_only id n ∷ cs) h = absurd (ground (arith, h))

-- The plan of the lists and items has no write.
abbrev HasNoWrite : ExceptionPlan → Type 0
HasNoWrite p = (p.list_ops ≡ []) × (p.item_ops ≡ [])

abbrev IsQuietPlan : ExceptionPlan → Type 0
IsQuietPlan p = all is_list_unchanged p.drift.changes ≡ true → HasNoWrite p

items_of_created-nil :
    (m : BTreeMap ListKey (List ExceptionItem)) (ops : List ListOp)
    → OnOk (λ r. ops ≡ [] → r ≡ []) (items_of_created m ops)
unfolding items_of_created
items_of_created-nil m [] = λ e. refl
items_of_created-nil m (op ∷ ops) =
    OnOk-intro (λ r. op ∷ ops ≡ [] → r ≡ []) (items_of_created m (op ∷ ops))
      (λ r made e. absurd (ground (arith, e)))

no_pointer : (ds : List DanglingPointer) → has_no_pointer ds ≡ true → ds ≡ []
no_pointer [] h = refl
no_pointer (d ∷ ds) h = absurd (ground (arith, h))

abbrev wanted : List Rule → List Rule → List ListKey
wanted local live = dedup (sort (referenced_keys local ++ referenced_keys live))

-- a step of a plan of which nothing need be known
after_step :
    {A B : Type 0} (Q : B → Type 0) (r : Result A) (f : A → Result B)
    → ((a : A) → OnOk Q (f a))
    → OnOk Q (r >>= f)
after_step Q r f more = bind-OnOk (λ _. Unit {0}) Q r f (always-OnOk r) (λ a _. more a)

module _ (J : JsonMap) (E : Reads) where
  exception_plan-HasNoWrite :
      (lists : List ExceptionList) (items : List ExceptionItem) (local live : List Rule)
      → OnOk IsQuietPlan (exception_plan J E lists items local live)
  unfolding exception_plan
  exception_plan-HasNoWrite lists items local live =
      after_step IsQuietPlan (fetch_remote_lists E (wanted local live)) _ λ remote_lists.
        after_step IsQuietPlan (index_lists J "local" (keep_wanted (wanted local live) lists)) _
          λ l. after_step IsQuietPlan (index_lists J "remote" remote_lists) _ λ r.
            bind-OnOk (λ found. all is_list_unchanged found.0.changes ≡ true → found.1 ≡ [])
              IsQuietPlan (list_drift J l r) _ (list_drift-IsQuiet J l r)
              λ drift quiet. after_step IsQuietPlan (created_keys drift.1) _ λ created.
                after_step IsQuietPlan (group_items items) _ λ local_items.
                  after_step IsQuietPlan (find_each E (keys_in r (keys l))) _ λ remote_items.
                    bind-OnOk (λ ops. drift.1 ≡ [] → ops ≡ []) IsQuietPlan
                      (items_of_created local_items drift.1) _
                      (items_of_created-nil local_items drift.1)
                      λ created_items none_of_them.
                        bind-OnOk (λ found. all is_list_unchanged found.0 ≡ true → found.1 ≡ [])
                          IsQuietPlan
                          (item_reconciliation J (keys_in r (keys l)) local_items remote_items) _
                          (item_reconciliation-IsQuiet J (keys_in r (keys l)) local_items
                            remote_items)
                          λ found still u.
                            let parts : (all is_list_unchanged drift.0.changes
                                  && all is_list_unchanged found.0)
                                ≡ true =
                              sym (all-append is_list_unchanged drift.0.changes found.0) ∙ u in
                            let no_list : drift.1 ≡ [] = quiet (ground (arith, parts)) in
                            let no_item : found.1 ≡ [] = still (ground (arith, parts)) in
                            (no_list, rw (none_of_them no_list, no_item) refl)

  -- A plan of a push that writes nothing.
  abbrev pub WritesNothing : PushPlan → Type 0
  WritesNothing plan =
      (plan.list_ops ≡ [])
      × (plan.item_ops ≡ [])
      × All (λ e. is_write e ≡ false) plan.report.entries

  skipped_entries-is_write :
      (live : List Rule) (cs : List Change)
      → OnOk (All (λ e. is_write e ≡ false)) (skipped_entries J live cs)
  unfolding skipped_entries is_write planned_entry
  skipped_entries-is_write live [] = tt
  skipped_entries-is_write live (added id n ∷ cs) = skipped_entries-is_write live cs
  skipped_entries-is_write live (modified id n fs ∷ cs) = skipped_entries-is_write live cs
  skipped_entries-is_write live (unchanged id ∷ cs) = skipped_entries-is_write live cs
  skipped_entries-is_write live (remote_only id n ∷ cs) =
      after_step (All (λ e. is_write e ≡ false)) (canonical_value J (by_id id live)) _ λ before.
        bind-OnOk (All (λ e. is_write e ≡ false)) (All (λ e. is_write e ≡ false))
          (skipped_entries J live cs) _ (skipped_entries-is_write live cs) (λ es h. (refl, h))

  module _ (R : RuleReads) (S : Stack) (T : Texts) (local live : List Rule) (mirror : Mirror) where
    plan_rules-WritesNothing :
        (dir : String) (identity : StackIdentity) (scope : Scope) (n : ℕ)
        → ((d : Drift) → compute J local live ≡ ok d → is_clean d ≡ true)
        → ((p : ExceptionPlan)
            → exception_plan J E mirror.lists mirror.items local live ≡ ok p
            → is_drift_clean p.drift ≡ true)
        → OnOk WritesNothing (plan_rules J S T E R dir identity mirror scope local n live)
    unfolding plan_rules actionable is_clean is_drift_clean repairs_from plan_changes plan_repairs
    plan_rules-WritesNothing dir identity scope n clean lists_clean =
        bind-OnOk (λ d. keep_actionable d.changes ≡ []) WritesNothing (compute J local live) _
          (OnOk-intro _ (compute J local live)
            (λ d made. keep_actionable-unchanged d.changes (clean d made)))
          λ drift none_to_do.
            bind-OnOk (λ p. HasNoWrite p × (p.drift.dangling ≡ [])) WritesNothing
              (exception_plan J E mirror.lists mirror.items local live) _
              (OnOk-intro _ (exception_plan J E mirror.lists mirror.items local live) (λ p made. (
                OnOk-elim IsQuietPlan (exception_plan J E mirror.lists mirror.items local live) p
                    (exception_plan-HasNoWrite mirror.lists mirror.items local live) made
                    (ground (arith, lists_clean p made)),
                no_pointer p.drift.dangling (ground (arith, lists_clean p made)),
              )))
              λ p quiet. after_step WritesNothing (list_lines p.list_ops) _ λ ls.
                after_step WritesNothing (item_lines p.item_ops) _ λ is.
                  after_step WritesNothing
                    (value_list_lines R (value_list_refs mirror.items (referenced_keys local))) _
                    λ vs.
                      bind-OnOk (All (λ e. is_write e ≡ false)) WritesNothing
                        (skipped_entries J live drift.changes) _
                        (skipped_entries-is_write live drift.changes)
                        λ skipped h.
                          rw (none_to_do, quiet.1)
                            (after_step WritesNothing
                              (refuse_unresolved
                                (unresolvable p.resolvable (referenced_keys (values []))))
                              _ λ _. (quiet.0.0, quiet.0.1, h))

module _ (J : JsonMap) (V : Server) where
  rule_entries-silent :
      (live : ListKey → Option String) (desired : BTreeMap String Rule) (es : List ReportEntry)
      (log : List Call)
      → All (λ e. is_write e ≡ false) es
      → (rule_entries J V live desired es log).1 ≡ log
  unfolding rule_entries rule_entry
  rule_entries-silent live desired [] log h = refl
  rule_entries-silent live desired (e ∷ es) log h =
      rw (h.0, rule_entry) (rule_entries-silent live desired es log h.1)

  apply_push-silent :
      (plan : PushPlan) (resolved : ListKey → Option String) (log : List Call)
      → (plan.list_ops ≡ [])
        × (plan.item_ops ≡ [])
        × All (λ e. is_write e ≡ false) plan.report.entries
      → (apply_push J V plan resolved log).1 ≡ log
  unfolding apply_push run push_rules
  apply_push-silent plan resolved log (lists, items, entries) =
      rw (lists, items) (rule_entries-silent resolved plan.desired plan.report.entries log entries)

  -- Where `diff` reports that the mirror and the stack agree, a push in the same scope and from the
  -- same answers plans no write of a list, of an item or of a rule, and its application makes no
  -- request.
  pub diff_rules-WritesNothing :
      (S : Stack) (T : Texts) (E : Reads) (R : RuleReads) (mirror : Mirror) (scope : Scope)
      (local : List Rule) (n : ℕ) (live : List Rule) (report : DiffReport)
      → diff_rules J S T E R mirror scope local n live ≡ ok report
      → report.clean ≡ true
      → (dir : String) (identity : StackIdentity) (plan : PushPlan)
      → plan_rules J S T E R dir identity mirror scope local n live ≡ ok plan
      → WritesNothing J E plan
        × ((later : Reads) (log : List Call) → (apply_planned J V later plan log).1 ≡ log)
  unfolding diff_rules apply_planned
  diff_rules-WritesNothing S T E R mirror scope local n live report h clean dir identity plan k =
      let (d, made, h1) = bind-ok_inv (compute J local live) _ h in
      let (p, planned, h2) =
        bind-ok_inv (exception_plan J E mirror.lists mirror.items local live) _ h1 in
      let both : (is_clean d && is_drift_clean p.drift) ≡ true = ground (arith, h2, clean) in
      let nothing : WritesNothing J E plan =
        OnOk-elim (WritesNothing J E) (plan_rules J S T E R dir identity mirror scope local n live)
          plan
          (plan_rules-WritesNothing J E R S T local live mirror dir identity scope n
            (λ d' made'. ground (arith, made, made', both))
            (λ p' planned'. ground (arith, planned, planned', both)))
          k in
      (
        nothing,
        λ later log.
            elim (Result-cases (resolve_ids later (referenced_keys (values plan.desired)))) [
              | inl (live_ids, e) ↦
                  rw (e, apply_planned)
                    (apply_push-silent plan (λ key. BTree.get key live_ids) log nothing)
              | inr (inl (w, e)) ↦ rw (e, apply_planned) refl
              | inr (inr (w, e)) ↦ rw (e, apply_planned) refl
            ],
      )
