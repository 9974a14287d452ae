-- ===== src/Api/Push/Proposal.antt =====
-- The plan of a push proposes what can be written, and what it writes of rules is the mirror's.
use elasticctl.Prelude.{ℕ, String, ◌≡◌, refl, true, false, Option, List, [], ◌∷◌, arith, All, ◌⊎◌}
use elasticctl.Prelude.Order.{string_ord, =?_iff}
use elasticctl.Prelude.BTree.{contains}
use elasticctl.Json.{JsonMap}
use elasticctl.Core.Error.{Result, ok, bind-ok_inv}
use elasticctl.Core.Error.Outcomes.{OnOk, bind-OnOk, always-OnOk, OnOk-intro, OnOk-elim}
use elasticctl.Api.Model.{Rule, ListKey}
use elasticctl.Api.Model.Keys.{key_ord}
use elasticctl.Api.Drift.{compute, actionable}
use elasticctl.Api.Selection.{Stack, Texts}
use elasticctl.Api.Scope.{RuleSource, Scope, referenced_keys, local_scope}
use elasticctl.Api.Reconcile.{ExceptionPlan}
use elasticctl.Api.Reconcile.Resolvable.{IsOnStack, Creates, Counts, exception_plan-Counts}
use elasticctl.Api.Reconcile.Planning.{Reads, exception_plan}
use elasticctl.Api.Push.{PushPlan}
use elasticctl.Api.Push.Planning.{
  Mirror, StackIdentity, RuleReads, values, unresolvable, refuse_unresolved, list_lines, item_lines,
  value_list_lines, value_list_refs, skipped_entries, plan_changes, plan_repairs, repairs_from,
  change_ids, remote, scope_of, plan_rules, plan_push,
}
use elasticctl.Api.Push.Planned.{
  IsProposed, HasRule, AreLocal, IsSound, skipped_entries-IsSound, plan_changes-IsSound,
  plan_repairs-IsSound,
}

refuse_unresolved-nil : (ks : List ListKey) → OnOk (λ _. ks ≡ []) (refuse_unresolved ks)
unfolding refuse_unresolved
refuse_unresolved-nil [] = refl
refuse_unresolved-nil (k ∷ ks) = tt

contains-resolvable :
    (resolvable ks : List ListKey) (k : ListKey)
    → unresolvable resolvable ks ≡ []
    → contains k ks ≡ true
    → contains k resolvable ≡ true
unfolding unresolvable contains
contains-resolvable resolvable [] k h m = absurd (ground (arith, m))
contains-resolvable resolvable (j ∷ ks) k h m =
    ground (arith, contains-resolvable resolvable ks k, =?_iff k j)

module _ (J : JsonMap) (E : Reads) where
  -- A plan that is a proposal only: every write of a rule has one of the mirror's rules to write, and
  -- each list that such a rule refers to is on the stack or is created before.
  pub record IsProposal (mirror : Mirror) (local live : List Rule) (plan : PushPlan) : Type 0 where
    pub not_applied : plan.report.applied ≡ false
    pub proposed : All (λ e. IsProposed e × HasRule plan.desired e) plan.report.entries
    pub from_mirror : AreLocal local plan.desired
    pub lists : ExceptionPlan
    pub planned : exception_plan J E mirror.lists mirror.items local live ≡ ok lists
    pub same_ops : (plan.list_ops ≡ lists.list_ops) × (plan.item_ops ≡ lists.item_ops)
    pub available :
        (k : ListKey)
        → contains k (referenced_keys (values plan.desired)) ≡ true
        → IsOnStack E k ⊎ Creates k plan.list_ops

  module _ (S : Stack) (T : Texts) (R : RuleReads) where
    plan_rules-IsProposal :
        (dir : String) (identity : StackIdentity) (mirror : Mirror) (scope : Scope)
        (local : List Rule) (n : ℕ) (live : List Rule)
        → OnOk
            (IsProposal mirror local live)
            (plan_rules J S T E R dir identity mirror scope local n live)
    unfolding plan_rules
    plan_rules-IsProposal dir identity mirror scope local n live =
        bind-OnOk (λ _. Unit) (IsProposal mirror local live) (compute J local live) _
          (always-OnOk (compute J local live))
          λ drift _.
            bind-OnOk (λ p. exception_plan J E mirror.lists mirror.items local live ≡ ok p)
              (IsProposal mirror local live)
              (exception_plan J E mirror.lists mirror.items local live) _
              (OnOk-intro _ (exception_plan J E mirror.lists mirror.items local live) (λ p e. e))
              λ p made.
                bind-OnOk (λ _. Unit) (IsProposal mirror local live) (list_lines p.list_ops) _
                  (always-OnOk (list_lines p.list_ops))
                  λ ls _.
                    bind-OnOk (λ _. Unit) (IsProposal mirror local live) (item_lines p.item_ops) _
                      (always-OnOk (item_lines p.item_ops))
                      λ is _.
                        bind-OnOk (λ _. Unit) (IsProposal mirror local live)
                          (value_list_lines R
                            (value_list_refs mirror.items (referenced_keys local)))
                          _
                          (always-OnOk (
                            value_list_lines R
                              (value_list_refs mirror.items (referenced_keys local))))
                          λ vs _.
                            bind-OnOk (λ es. IsSound local (es, [])) (IsProposal mirror local live)
                              (skipped_entries J live drift.changes) _
                              (skipped_entries-IsSound J local live drift.changes)
                              λ skipped h.
                                bind-OnOk (IsSound local) (IsProposal mirror local live)
                                  (plan_changes J local live (actionable drift) (skipped, [])) _
                                  (plan_changes-IsSound J local live (actionable drift)
                                    (skipped, []) h)
                                  λ q hq.
                                    bind-OnOk (IsSound local) (IsProposal mirror local live)
                                      (plan_repairs J local live
                                        (repairs_from local (change_ids (actionable drift)) []
                                          p.drift.dangling)
                                        q)
                                      _
                                      (plan_repairs-IsSound J local live
                                        (repairs_from local (change_ids (actionable drift)) []
                                          p.drift.dangling)
                                        q hq)
                                      λ z hz.
                                        bind-OnOk
                                          (λ _.
                                            unresolvable p.resolvable (referenced_keys (values z.1))
                                            ≡ [])
                                          (IsProposal mirror local live)
                                          (refuse_unresolved (
                                            unresolvable p.resolvable
                                              (referenced_keys (values z.1))))
                                          _
                                          (refuse_unresolved-nil (
                                            unresolvable p.resolvable
                                              (referenced_keys (values z.1))))
                                          λ _ fine. record {
                                            not_applied = refl;
                                            proposed = hz.0;
                                            from_mirror = hz.1;
                                            lists = p;
                                            planned = made;
                                            same_ops = (refl, refl);
                                            available = λ k there.
                                                OnOk-elim (Counts J E)
                                                  (exception_plan J E mirror.lists mirror.items
                                                    local live)
                                                  p
                                                  (exception_plan-Counts J E mirror.lists
                                                    mirror.items local live)
                                                  made k
                                                  (contains-resolvable p.resolvable
                                                    (referenced_keys (values z.1)) k fine there);
                                          }

    -- A plan that is returned is a proposal: it is not applied, each entry of it neither has been
    -- applied nor has failed, each create or update has a rule to write, every rule to write is the
    -- first of the mirror in the scope with its `rule_id`, and each list that such a rule refers to is
    -- one that the stack answered with, or is the list of one of the plan's creations.
    pub plan_push-IsProposal :
        (dir : String) (read : Result Mirror) (selectors : List String) (tag search : Option String)
        (source : RuleSource) (identity : StackIdentity) (plan : PushPlan)
        → plan_push J S T E R dir read selectors tag search source identity ≡ ok plan
        → (mirror : Mirror) × (scope : Scope) × (live : List Rule) × (read ≡ ok mirror)
          × (scope_of J S T E R selectors tag search source mirror.rules "apply" ≡ ok scope)
          × (remote R scope ≡ ok live)
          × IsProposal mirror (local_scope scope mirror.rules).0 live plan
    unfolding plan_push
    plan_push-IsProposal dir read selectors tag search source identity plan h =
        let (mirror, readable, h1) = bind-ok_inv read _ h in
        let (scope, scoped, h2) =
          bind-ok_inv (scope_of J S T E R selectors tag search source mirror.rules "apply") _ h1 in
        let (live, answered, h3) = bind-ok_inv (remote R scope) _ h2 in
        (
          mirror,
          scope,
          live,
          readable,
          scoped,
          answered,
          OnOk-elim (IsProposal mirror (local_scope scope mirror.rules).0 live)
              (plan_rules J S T E R dir identity mirror scope (local_scope scope mirror.rules).0
                (local_scope scope mirror.rules).1 live)
              plan
              (plan_rules-IsProposal dir identity mirror scope (local_scope scope mirror.rules).0
                (local_scope scope mirror.rules).1 live)
              h3,
        )
