-- ===== src/Api/Pull/Staging.antt =====
-- The staged files of a pull, and the command with its reads of the stack.
use elasticctl.Prelude.{ℕ, String, List, [], ◌∷◌, ◌++◌, length, unwrap_or, ◌⊎◌, inl, inr}
use elasticctl.Prelude.Text.{concat}
use elasticctl.Prelude.Order.{string_ord}
use elasticctl.Prelude.BTree
use elasticctl.Prelude.BTree.{BTreeMap, sort, dedup}
use elasticctl.Json.{JsonMap, Value, object, array, Items, nil, cons}
use elasticctl.Core.Error.{error, new_error, Result, ok, err, ◌>>=◌}
use elasticctl.Api.Model.{Rule, ListKey, rule_id}
use elasticctl.Api.Model.Keys.{key_ord}
use elasticctl.Api.Exceptions.{ExceptionList}
use elasticctl.Api.Push.Planning.{remote}
use elasticctl.Api.Transaction.FilePath.{normal, join, path}
use elasticctl.Api.Transaction.Phase.{StagedFile}
use elasticctl.Api.Pull.{
  Format, ndjson, yaml, extension, Encoder, safe_filename, Container, split, inline_by_rule,
  claim_rules, claim_lists, refuse_collisions,
}

-- what a pull is about to write
pub record PullPlan : Type 0 where
  pub files : List StagedFile
  pub pulled : ℕ
  pub exception_lists : ℕ
  pub exception_items : ℕ

module _ (N : Encoder) where
  open N use {to_json, to_yaml, into_bytes}

  abbrev encoded : String → String ⊎ String → Result String
  encoded what (inl e) = err (new_error error (concat ("encoding " ∷ what ∷ ": " ∷ e ∷ [])))
  encoded what (inr text) = ok text

  -- one line for each object
  unfoldable pub json_lines : List Value → Result String
  json_lines [] = ok ""
  json_lines (v ∷ vs) = do
    line ← encoded "NDJSON" (to_json v)
    rest ← json_lines vs
    ok (concat (line ∷ "\n" ∷ rest ∷ []))

  abbrev list_values : List ExceptionList → List Value
  list_values [] = []
  list_values (l ∷ ls) = object l.map ∷ list_values ls

  abbrev items_of : List Value → Items
  items_of [] = nil
  items_of (v ∷ vs) = cons v (items_of vs)

  unfoldable pub encode_rule_file : Rule → List ExceptionList → Format → Result String
  encode_rule_file rule inline yaml =
      encoded "YAML" (to_yaml (array (items_of (object rule.map ∷ list_values inline))))
  encode_rule_file rule inline ndjson = json_lines (object rule.map ∷ list_values inline)

  unfoldable pub encode_list_file : ExceptionList → Format → Result String
  encode_list_file list yaml = encoded "YAML" (to_yaml (object list.map))
  encode_list_file list ndjson = json_lines (object list.map ∷ [])

  unfoldable pub stage_rules :
      BTreeMap String (List ExceptionList)
      → Format
      → List (String × Rule)
      → Result (List StagedFile)
  stage_rules inline format [] = ok []
  stage_rules inline format ((filename, rule) ∷ rules) = do
    id ← rule_id rule
    body ← encode_rule_file rule (unwrap_or (BTree.get id inline) []) format
    rest ← stage_rules inline format rules
    ok (
        record { relative = join (normal "rules" ∷ []) (path filename); bytes = into_bytes body }
        ∷ rest)

  unfoldable pub stage_lists : Format → List (ListKey × ExceptionList) → Result (List StagedFile)
  stage_lists format [] = ok []
  stage_lists format ((key, list) ∷ lists) = do
    body ← encode_list_file list format
    rest ← stage_lists format lists
    ok (
        record {
          relative =
              join (normal "exceptions" ∷ []) (path (safe_filename key.list_id (extension format)));
          bytes = into_bytes body;
        }
        ∷ rest)

  module _ (J : JsonMap) where
    unfoldable pub plan_files : Format → List Rule → BTreeMap ListKey Container → Result PullPlan
    plan_files format remote fetched = do
      lists ← split J fetched
      let inline : BTreeMap String (List ExceptionList) = inline_by_rule lists.inlines remote []
      claims ← claim_rules J (extension format) [] remote
      _ ← refuse_collisions (claims.1 ++ claim_lists (extension format) [] lists.to_write)
      rules ← stage_rules inline format claims.0
      staged_lists ← stage_lists format lists.to_write
      ok (record {
        files = rules ++ staged_lists;
        pulled = length claims.0;
        exception_lists = length fetched;
        exception_items = lists.item_count;
      })
