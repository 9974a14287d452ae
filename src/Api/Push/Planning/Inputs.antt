-- ===== src/Api/Push/Planning/Inputs.antt =====
-- crates/elasticctl-api/src/state/push.rs: what the plan of a push reads, with the mirror and the stack of
-- state/reports.rs.
use elasticctl.Prelude.{String, Bool, Option, none, some, List, [], ◌∷◌, if◌then◌else◌}
use elasticctl.Prelude.Order.{◌=?◌, string_ord}
use elasticctl.Core.Error.{Result, ok}
use elasticctl.Api.Model.{Rule, rule_id}
use elasticctl.Api.Model.Keys.{key_ord}
use elasticctl.Api.Exceptions.{ExceptionList, ExceptionItem}
use elasticctl.Api.Scope.{RuleSource, Scope}

-- the mirror, with the items of the lists apart
pub record Mirror : Type 0 where
  pub rules : List Rule
  pub lists : List ExceptionList
  pub items : List ExceptionItem

pub record StackIdentity : Type 0 where
  pub profile : String
  pub host : String
  pub space : String

-- what the stack answers to the reads of rules and of value lists
pub record RuleReads : Type 0 where
  pub find_all : RuleSource → Result (List Rule)
  pub find_by_rule_ids : List String → Result (List Rule)
  pub value_lists_bootstrapped : Result Bool
  pub value_list_exists : String → Result Bool

-- the rules of the stack in the scope
unfoldable pub remote : RuleReads → Scope → Result (List Rule)
remote R s = elim s.rule_ids [ none ↦ R.find_all s.source | some ids ↦ R.find_by_rule_ids ids ]

-- the first rule with a `rule_id`
unfoldable pub by_id : String → List Rule → Option Rule
by_id id [] = none
by_id id (r ∷ rs) = elim (rule_id r) [
  | ok s ↦ if s =? id then some r else by_id id rs
  | _ ↦ by_id id rs
]
