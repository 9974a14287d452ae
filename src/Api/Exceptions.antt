-- ===== src/Api/Exceptions.antt =====
-- crates/elasticctl-api/src/model.rs and normalize.rs: the lists of exceptions, their items, and the form
-- of each on disk.
pub mod Stored
use elasticctl.Prelude.{
  String, Bool, true, false, Option, none, some, List, [], ◌∷◌, and_then, unwrap_or,
}
use elasticctl.Json.{
  Value, null, boolean, number, string, array, object, Items, nil, cons, Fields, empty, field, get,
  as_str, JsonMap,
}
use elasticctl.Core.Error.{Error, error, new_error, Result, ok, err, panic, ◌>>=◌}
use elasticctl.Api.Model.{ListKey}
use elasticctl.Api.Normalize.{expect, update_entry, remove_all, sort_value}

abbrev pub list_volatile_fields : List String
list_volatile_fields =
    "id" ∷ "_version" ∷ "tie_breaker_id" ∷ "version" ∷ "created_at" ∷ "created_by" ∷ "updated_at"
    ∷ "updated_by" ∷ []

abbrev pub item_volatile_fields : List String
item_volatile_fields =
    "id" ∷ "_version" ∷ "tie_breaker_id" ∷ "created_at" ∷ "created_by" ∷ "updated_at" ∷ "updated_by"
    ∷ []

abbrev pub comment_volatile_fields : List String
comment_volatile_fields = "id" ∷ "created_at" ∷ "created_by" ∷ "updated_at" ∷ "updated_by" ∷ []

pub record ExceptionList : Type 0 where
  pub map : Fields

pub record ExceptionItem : Type 0 where
  pub map : Fields

with_text : {A : Type 0} → Option Value → A → String → String → Result A
with_text (some (string s)) a not_text missing = ok a
with_text (some v) a not_text missing = err (new_error error not_text)
with_text none a not_text missing = err (new_error error missing)

unfoldable pub list_from_value : Value → Result ExceptionList
unfolding with_text
list_from_value (object m) =
    with_text (get "list_id" m) (record { map = m }) "an exception list's list_id must be a string"
      "an exception list must have a list_id"
list_from_value v = err (new_error error "an exception list must be a JSON object")

unfoldable pub item_from_value : Value → Result ExceptionItem
unfolding with_text
item_from_value (object m) =
    with_text (get "item_id" m) (record { map = m }) "an exception item's item_id must be a string"
      "an exception item must have an item_id"
item_from_value v = err (new_error error "an exception item must be a JSON object")

-- a field that must be a text
unfoldable pub required : String → String → Fields → Result String
required key missing m = elim (and_then (get key m) as_str) [
  | some s ↦ ok s
  | none ↦ err (new_error error missing)
]

-- a field with a value where it is no text
unfoldable pub text_or : String → String → Fields → String
text_or key otherwise m = unwrap_or (and_then (get key m) as_str) otherwise

unfoldable pub list_id : ExceptionList → Result String
list_id l = required "list_id" "exception list is missing list_id" l.map

unfoldable pub list_namespace : ExceptionList → String
list_namespace l = text_or "namespace_type" "single" l.map

unfoldable pub list_name : ExceptionList → String
list_name l = text_or "name" "" l.map

unfoldable pub list_key : ExceptionList → Result ListKey
list_key l = list_id l >>= λ id. ok (record { list_id = id; namespace_type = list_namespace l })

unfoldable pub item_id : ExceptionItem → Result String
item_id i = required "item_id" "exception item is missing item_id" i.map

unfoldable pub item_list_id : ExceptionItem → Result String
item_list_id i = required "list_id" "exception item is missing list_id" i.map

unfoldable pub item_namespace : ExceptionItem → String
item_namespace i = text_or "namespace_type" "single" i.map

module _ (J : JsonMap) where
  unfoldable pub canonical_list : ExceptionList → Result ExceptionList
  canonical_list l =
      expect (list_from_value (sort_value J (object (remove_all J list_volatile_fields l.map))))
        "list_id survives normalization"

  unfoldable pub strip_comment : Value → Value
  strip_comment (object m) = object (remove_all J comment_volatile_fields m)
  strip_comment v = v

  unfoldable pub strip_each : Items → Items
  strip_each nil = nil
  strip_each (cons v vs) = cons (strip_comment v) (strip_each vs)

  unfoldable pub strip_comments : Value → Value
  strip_comments (array vs) = array (strip_each vs)
  strip_comments v = v

  unfoldable pub canonical_item : ExceptionItem → Result ExceptionItem
  canonical_item i =
      expect
        (item_from_value (
          sort_value J (
            object
              (update_entry "comments" strip_comments (remove_all J item_volatile_fields i.map)))))
        "item_id survives normalization"
