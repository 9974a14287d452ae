-- ===== src/Api/Push/Calls.antt =====
-- crates/elasticctl-api/src/exceptions.rs and rules.rs: the requests of a push. A computation that makes
-- requests goes from the calls so far, the last one first, to its result and the calls after it.
use elasticctl.Prelude.{String, List, ◌∷◌}
use elasticctl.Prelude.Order.{string_ord}
use elasticctl.Json.{Value, object, JsonMap}
use elasticctl.Core.Error.{Result, ok, err, panic, ◌>>=◌}
use elasticctl.Api.Model.{Rule, from_value, into_value}
use elasticctl.Api.Normalize.{strip_volatile}
use elasticctl.Api.Exceptions.{
  ExceptionList, ExceptionItem, list_from_value, item_from_value, item_id, canonical_list,
  canonical_item,
}
use elasticctl.Api.Push.{Call, delete_item, Server, readable}

module _ (J : JsonMap) (S : Server) where
  open S use {require_exception_lists, answer}

  unfoldable pub send : List Call → Result Call → Result Value × List Call
  send log (ok call) = (answer log call, call ∷ log)
  send log (err e) = (err e, log)
  send log (panic why) = (panic why, log)

  -- a request of an exception write, and the reading of its answer
  unfoldable pub exception_call {ℓ} :
      {A : Type ℓ} → (Value → Result A) → List Call → Result Call → Result A × List Call
  unfolding send
  exception_call read log call =
      let (answered, log') = send log (require_exception_lists log >>= λ _. call) in
      (answered >>= read, log')

  unfoldable pub list_call :
      (Value → Call) → ExceptionList → List Call → Result ExceptionList × List Call
  unfolding exception_call
  list_call call l log =
      exception_call list_from_value log (canonical_list J l >>= λ p. ok (call (object p.map)))

  unfoldable pub item_call :
      (Value → Call) → ExceptionItem → List Call → Result ExceptionItem × List Call
  unfolding exception_call
  item_call call i log =
      exception_call item_from_value log (canonical_item J i >>= λ p. ok (call (object p.map)))

  unfoldable pub rule_call : (Value → Call) → Rule → List Call → Result Rule × List Call
  unfolding send
  rule_call call r log =
      let (answered, log') = send log (ok (call (into_value (strip_volatile J r)))) in
      (answered >>= from_value, log')

  unfoldable pub delete_call : ExceptionItem → String → List Call → Result ExceptionItem × List Call
  unfolding exception_call
  delete_call before namespace log =
      exception_call item_from_value log (ok (delete_item (readable (item_id before)) namespace))
