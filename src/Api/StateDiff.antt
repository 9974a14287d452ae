-- ===== src/Api/StateDiff.antt =====
-- crates/elasticctl-api/src/state/diff.rs: the command `diff`.
pub mod Quiet
pub mod Nothing
use elasticctl.Prelude.{
  ℕ, String, Bool, true, false, ◌&&◌, Option, none, some, List, [], ◌∷◌, if◌then◌else◌, length,
}
use elasticctl.Json.{JsonMap}
use elasticctl.Core.Error.{Result, ok, err, panic, ◌>>=◌}
use elasticctl.Api.Model.{Rule}
use elasticctl.Api.Drift.{Change, Drift, is_unchanged, is_clean, compute}
use elasticctl.Api.Selection.{Stack, Texts}
use elasticctl.Api.Scope.{RuleSource, Scope, is_scoped, selected, local_scope}
use elasticctl.Api.Reconcile.{ExceptionDrift, ExceptionPlan, is_drift_clean}
use elasticctl.Api.Reconcile.Planning.{Reads, exception_plan}
use elasticctl.Api.Push.Planning.{Mirror, RuleReads, remote, when_scoped, scope_of}

pub record DiffReport : Type 0 where
  pub clean : Bool
  pub local : ℕ
  pub remote : ℕ
  pub changes : List Change
  pub exceptions : ExceptionDrift
  pub out_of_scope : ℕ
  pub selected : Option ℕ
  pub local_total : Option ℕ

-- the differences, without the rules that are the same
unfoldable pub drop_unchanged : List Change → List Change
drop_unchanged [] = []
drop_unchanged (c ∷ cs) = let rest = drop_unchanged cs in if is_unchanged c then rest else c ∷ rest

module _ (J : JsonMap) (S : Stack) (T : Texts) (E : Reads) (R : RuleReads) where
  -- the report, once the scope and the rules of both sides are there
  unfoldable pub diff_rules : Mirror → Scope → List Rule → ℕ → List Rule → Result DiffReport
  diff_rules mirror scope local out_of_scope live = do
    drift ← compute J local live
    plan ← exception_plan J E mirror.lists mirror.items local live
    ok (record {
      clean = is_clean drift && is_drift_clean plan.drift;
      local = length local;
      remote = length live;
      changes = drop_unchanged drift.changes;
      exceptions = plan.drift;
      out_of_scope = out_of_scope;
      selected = when_scoped scope (selected scope);
      local_total = when_scoped scope scope.local_total;
    })

  unfoldable pub diff :
      Result Mirror → List String → Option String → Option String → RuleSource → Result DiffReport
  diff read selectors tag search source = do
    mirror ← read
    scope ← scope_of J S T E R selectors tag search source mirror.rules "compare"
    let local : List Rule × ℕ = local_scope scope mirror.rules
    live ← remote R scope
    diff_rules mirror scope local.0 local.1 live
