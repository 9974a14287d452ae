-- ===== src/Api/Push/Composed.antt =====
-- A plan and its application, together: what is sent of rules is the mirror's.
use elasticctl.Prelude.{String, ◌≡◌, Option, some, List, ◌⊎◌, ◌<◌}
use elasticctl.Prelude.Order.{string_ord}
use elasticctl.Prelude.BTree
use elasticctl.Json.{JsonMap}
use elasticctl.Core.Error.{Result, ok, err, panic}
use elasticctl.Api.Model.{Rule, ListKey, into_value}
use elasticctl.Api.Model.Keys.{key_ord}
use elasticctl.Api.Normalize.{strip_volatile}
use elasticctl.Api.Pointers.{inject_list_ids}
use elasticctl.Api.Scope.{Scope, referenced_keys}
use elasticctl.Api.Reconcile.Planning.{Reads, resolve_ids}
use elasticctl.Api.Push.{PushPlan, Call, post_rule, put_rule, Server}
use elasticctl.Api.Push.Writes.{apply_push}
use elasticctl.Api.Push.Requests.{phase}
use elasticctl.Api.Push.Planning.{by_id, values}
use elasticctl.Api.Push.Live.{AreLive}

module _ (J : JsonMap) (V : Server) (later : Reads) where
  -- The request of a rule, without the fields of the server, and with ids in its references that the
  -- stack has for their lists, or answered their creation with.
  abbrev pub SendsRule : Rule → Call → Type 0
  SendsRule r c =
      (live : ListKey → Option String) × (r' : Rule) × AreLive J V later live
      × (inject_list_ids J live r ≡ ok r')
      × ((c ≡ post_rule (into_value (strip_volatile J r')))
          ⊎ (c ≡ put_rule (into_value (strip_volatile J r'))))

  -- A request is for a list or an item, or sends a rule of `local`.
  abbrev pub SendsLocal : List Rule → Call → Type 0
  SendsLocal local c =
      (phase c < 2) ⊎ ((id : String) × (r : Rule) × (by_id id local ≡ some r) × SendsRule r c)

  -- the whole of `apply_push`: the live ids of the lists that the rules to write refer to, then the
  -- writes
  unfoldable pub apply_planned : PushPlan → List Call → Result PushPlan × List Call
  apply_planned plan log = elim (resolve_ids later (referenced_keys (values plan.desired))) [
    | ok live ↦ apply_push J V plan (λ k. BTree.get k live) log
    | err e ↦ (err e, log)
    | panic why ↦ (panic why, log)
  ]
