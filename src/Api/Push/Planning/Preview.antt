-- ===== src/Api/Push/Planning/Preview.antt =====
-- crates/elasticctl-api/src/state/push.rs: the lines of the preview of a push, with the value lists that its
-- items refer to.
use elasticctl.Prelude.{
  ℕ, ◌-◌, suc, String, Bool, true, false, not, ◌||◌, Option, none, some, List, [], ◌∷◌, ◌++◌,
  if◌then◌else◌, and_then, is_some, unwrap_or, map_option, length, ltb,
}
use elasticctl.Prelude.Text.{concat, show, join}
use elasticctl.Prelude.Order.{◌=?◌, string_ord}
use elasticctl.Prelude.BTree.{contains, sort, dedup}
use elasticctl.Json.{Value, get, as_str, as_object, as_array}
use elasticctl.Core.Error.{Result, ok, ◌>>=◌}
use elasticctl.Api.Model.{Rule, ListKey, name}
use elasticctl.Api.Model.Keys.{key_ord}
use elasticctl.Api.Drift.{FieldChange, Change, added, modified}
use elasticctl.Api.Exceptions.{
  ExceptionItem, list_id, list_name, item_id, item_list_id, item_namespace,
}
use elasticctl.Api.Scope.{Scope, describe}
use elasticctl.Api.Reconcile.{
  ListOp, create_list, update_list, ItemOp, create_item, update_item, remove_item, DanglingPointer,
}
use elasticctl.Api.Push.Planning.Inputs.{RuleReads, by_id}

abbrev is_list_entry : Option String → Bool
is_list_entry none = false
is_list_entry (some t) = t =? "list"

abbrev key_at : String → String → ListKey
key_at list namespace = record { list_id = list; namespace_type = namespace }

-- the value list that an entry of an item names
unfoldable pub value_list_of : Value → Option String
value_list_of entry = and_then (as_object entry) λ m.
    if is_list_entry (and_then (get "type" m) as_str)
    then and_then (and_then (and_then (get "list" m) as_object) (get "id")) as_str
    else none

unfoldable pub value_lists_of : List Value → List String
value_lists_of [] = []
value_lists_of (v ∷ vs) =
    let rest = value_lists_of vs in elim (value_list_of v) [ none ↦ rest | some id ↦ id ∷ rest ]

-- the entries of an item of an active list
unfoldable pub active_entries : List ListKey → ExceptionItem → List Value
active_entries active i = elim (item_list_id i) [
  | ok list ↦
      if contains (key_at list (item_namespace i)) active
      then unwrap_or (and_then (get "entries" i.map) as_array) []
      else []
  | _ ↦ []
]

unfoldable pub all_value_lists : List ExceptionItem → List ListKey → List String
all_value_lists [] active = []
all_value_lists (i ∷ is) active =
    value_lists_of (active_entries active i) ++ all_value_lists is active

-- a `BTreeSet`
unfoldable pub value_list_refs : List ExceptionItem → List ListKey → List String
value_list_refs items active = dedup (sort (all_value_lists items active))

-- passed over: a rule that is written anyway, one that the mirror does not have, one that is repaired
abbrev skips : List Rule → List String → List String → DanglingPointer → Bool
skips local acted repaired d =
    contains d.rule_id acted || not (is_some (by_id d.rule_id local)) || contains d.rule_id repaired

-- the dangling pointers that need a write of their own: the first of each rule that the mirror has and
-- that has no other change
unfoldable pub repairs_from :
    List Rule → List String → List String → List DanglingPointer → List DanglingPointer
repairs_from local acted repaired [] = []
repairs_from local acted repaired (d ∷ ds) = elim (skips local acted repaired d) [
  | true ↦ repairs_from local acted repaired ds
  | false ↦ d ∷ repairs_from local acted (d.rule_id ∷ repaired) ds
]

abbrev line : List String → String
line pieces = join pieces "  "

unfoldable pub list_lines : List ListOp → Result (List String)
list_lines [] = ok []
list_lines (create_list l ∷ ops) = do
  id ← list_id l
  rest ← list_lines ops
  ok (line (id ∷ list_name l ∷ "create" ∷ []) ∷ rest)
list_lines (update_list before l ∷ ops) = do
  id ← list_id l
  rest ← list_lines ops
  ok (line (id ∷ list_name l ∷ "update" ∷ []) ∷ rest)

unfoldable pub item_line : ExceptionItem → String → Result String
item_line i action = do id ← item_id i; list ← item_list_id i; ok (line (id ∷ list ∷ action ∷ []))

unfoldable pub op_line : ItemOp → Result String
unfolding item_line
op_line (create_item i) = item_line i "create"
op_line (update_item before i) = item_line i "update"
op_line (remove_item before namespace) = item_line before "delete"

unfoldable pub item_lines : List ItemOp → Result (List String)
unfolding op_line
item_lines [] = ok []
item_lines (op ∷ ops) = op_line op >>= λ one. item_lines ops >>= λ rest. ok (one ∷ rest)

field_names : List FieldChange → List String
field_names [] = []
field_names (f ∷ fs) = f.field ∷ field_names fs

unfoldable pub change_lines : List Change → List String
unfolding field_names
change_lines [] = []
change_lines (added id n ∷ cs) = line (id ∷ n ∷ "create" ∷ []) ∷ change_lines cs
change_lines (modified id n fs ∷ cs) =
    line (id ∷ n ∷ concat ("update (" ∷ join (field_names fs) ", " ∷ ")" ∷ []) ∷ [])
    ∷ change_lines cs
change_lines (c ∷ cs) = change_lines cs

unfoldable pub repair_lines : List Rule → List DanglingPointer → List String
repair_lines local [] = []
repair_lines local (d ∷ ds) =
    line
      (d.rule_id ∷ unwrap_or (map_option name (by_id d.rule_id local)) "" ∷ "update (pointer)" ∷ [])
    ∷ repair_lines local ds

unbootstrapped_lines : List String → List String
unbootstrapped_lines [] = []
unbootstrapped_lines (id ∷ ids) =
    concat (
      "value list \"" ∷ id ∷ "\" is absent; run POST /api/lists/index to bootstrap the data streams"
      ∷ [])
    ∷ unbootstrapped_lines ids

absent_lines : RuleReads → List String → Result (List String)
absent_lines R [] = ok []
absent_lines R (id ∷ ids) = do
  there ← R.value_list_exists id
  rest ← absent_lines R ids
  ok (if there then rest else concat ("value list \"" ∷ id ∷ "\" is absent" ∷ []) ∷ rest)

unfoldable pub value_list_lines : RuleReads → List String → Result (List String)
unfolding unbootstrapped_lines absent_lines
value_list_lines R [] = ok []
value_list_lines R (id ∷ ids) = do
  bootstrapped ← R.value_lists_bootstrapped
  if bootstrapped then absent_lines R (id ∷ ids) else ok (unbootstrapped_lines (id ∷ ids))

abbrev is_removal : ItemOp → Bool
is_removal (remove_item before namespace) = true
is_removal _ = false

unfoldable pub removals : List ItemOp → ℕ
removals [] = 0
removals (op ∷ ops) = let rest = removals ops in if is_removal op then suc rest else rest

unfoldable pub preview_action_of : ℕ → List ListOp → List ItemOp → String → Scope → String
preview_action_of changes list_ops item_ops dir scope = concat (
    "Push "
    ∷ show changes
    ∷ " rule change(s), "
    ∷ show (length list_ops)
    ∷ " exception list(s) and "
    ∷ show (length item_ops - removals item_ops)
    ∷ " item(s)"
    ∷ (if ltb 0 (removals item_ops)
        then concat (", " ∷ show (removals item_ops) ∷ " item deletion(s)" ∷ [])
        else "")
    ∷ " from "
    ∷ dir
    ∷ describe scope
    ∷ [])
