-- ===== src/Api/Model.antt =====
-- crates/elasticctl-api/src/model.rs: a rule and its accessors, the fields that the server owns and
-- the defaults that it fills in.
pub mod Keys
use elasticctl.Prelude.{String, false, Option, none, some, List, [], ◌∷◌, unwrap_or}
use elasticctl.Json.{
  Value, boolean, number, string, array, object, unsigned, nil, Fields, empty, field, get, to_list,
  as_str,
}
use elasticctl.Core.Error.{error, new_error, Result, ok, err}

abbrev pub volatile_fields : List String
volatile_fields =
    "id" ∷ "created_at" ∷ "created_by" ∷ "updated_at" ∷ "updated_by" ∷ "revision" ∷ "version"
    ∷ "execution_summary" ∷ []

-- in the order of the insertions, which are of distinct keys
abbrev pub server_defaults : List (String × Value)
server_defaults =
    ("actions", array nil)
    ∷ ("author", array nil)
    ∷ ("exceptions_list", array nil)
    ∷ ("false_positives", array nil)
    ∷ ("immutable", boolean false)
    ∷ ("max_signals", number (unsigned 100))
    ∷ ("output_index", string "")
    ∷ ("references", array nil)
    ∷ ("related_integrations", array nil)
    ∷ ("required_fields", array nil)
    ∷ ("risk_score_mapping", array nil)
    ∷ ("rule_source", object (field "type" (string "internal") empty))
    ∷ ("setup", string "")
    ∷ ("severity_mapping", array nil)
    ∷ ("threat", array nil)
    ∷ ("to", string "now")
    ∷ []

pub record Rule : Type 0 where
  pub map : Fields

abbrev checked_id : Option Value → Fields → Result Rule
checked_id (some (string s)) m = ok (record { map = m })
checked_id (some _) m = err (new_error error "a rule's rule_id must be a string")
checked_id none m = err (new_error error "a rule must have a rule_id")

unfoldable pub from_value : Value → Result Rule
from_value (object m) = checked_id (get "rule_id" m) m
from_value _ = err (new_error error "a rule must be a JSON object")

abbrev pub into_value : Rule → Value
into_value r = object r.map

abbrev str_of : Option Value → Option String
str_of none = none
str_of (some v) = as_str v

str_field : Rule → String → String
str_field r key = unwrap_or (str_of (get key r.map)) ""

abbrev missing_id : Option String → Result String
missing_id none = err (new_error error "rule is missing rule_id")
missing_id (some s) = ok s

unfoldable pub rule_id : Rule → Result String
rule_id r = missing_id (str_of (get "rule_id" r.map))

unfoldable pub name : Rule → String
unfolding str_field
name r = str_field r "name"

texts : List Value → List String
texts [] = []
texts (string s ∷ vs) = s ∷ texts vs
texts (v ∷ vs) = texts vs

unfoldable pub tags : Rule → List String
unfolding texts
tags r = elim (get "tags" r.map) [ some (array vs) ↦ texts (to_list vs) | _ ↦ [] ]

-- one reference of `exceptions_list` to a list, by its identity
pub record ListKey : Type 0 where
  pub list_id : String
  pub namespace_type : String
