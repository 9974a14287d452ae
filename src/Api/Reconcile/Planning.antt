-- ===== src/Api/Reconcile/Planning.antt =====
-- crates/elasticctl-api/src/state/diff.rs: the plan of the writes of lists and items. What the stack
-- answers to the reads of exceptions.rs is a parameter.
use elasticctl.Prelude.{
  String, Bool, true, false, not, Option, none, some, List, [], ◌∷◌, ◌++◌, is_some, unwrap_or,
  if◌then◌else◌, and_then, map_option, map,
}
use elasticctl.Prelude.Text.{is_empty}
use elasticctl.Prelude.Order.{◌=?◌, string_ord}
use elasticctl.Prelude.Keys.{cmp_pair, sort_by}
use elasticctl.Prelude.BTree
use elasticctl.Prelude.BTree.{BTreeMap, insert, sort, dedup, contains}
use elasticctl.Json.{Value, null, string, JsonMap, get, keys, as_str}
use elasticctl.Core.Error.{error, new_error, Result, ok, err, panic, ◌>>=◌, ◌>>◌}
use elasticctl.Api.Model.{Rule, ListKey, rule_id}
use elasticctl.Api.Model.Keys.{key_ord}
use elasticctl.Api.Exceptions.{
  ExceptionList, ExceptionItem, list_key, item_id, item_list_id, item_namespace,
}
use elasticctl.Api.Selection.{is_not_found}
use elasticctl.Api.Scope.{ExceptionRef, ref_key, exception_refs, referenced_keys}
use elasticctl.Api.Reconcile.{
  ListOp, create_list, update_list, ItemOp, create_item, DanglingPointer, ExceptionPlan,
  index_lists, list_drift, item_reconciliation,
}

-- what the stack answers to the reads of a list and of its items
pub record Reads : Type 0 where
  pub get_list : ListKey → Result ExceptionList
  pub find_items : ListKey → Result (List ExceptionItem)

abbrev is_some_text : Value → Bool
is_some_text (string s) = not (is_empty s)
is_some_text _ = false

-- `Result::unwrap_or`
abbrev readable_or : String → Result String → String
readable_or otherwise (ok s) = s
readable_or otherwise _ = otherwise

unfoldable pub validate_grouped_item : ExceptionItem → Result (Unit {0})
validate_grouped_item i = do
  id ← item_id i
  list ← item_list_id i
  if is_empty id
      then err (new_error error "exception item field item_id must be a non-empty string")
      else if is_empty list
      then err (new_error error "exception item field list_id must be a non-empty string")
      else elim (get "namespace_type" i.map) [
        | none ↦ ok tt
        | some v ↦
            if is_some_text v
            then ok tt
            else err
                (new_error error "exception item field namespace_type must be a non-empty string")
      ]

-- `map.entry(key).or_default().push(item)` for each item
unfoldable pub group_from :
    List ExceptionItem
    → BTreeMap ListKey (List ExceptionItem)
    → Result (BTreeMap ListKey (List ExceptionItem))
unfolding validate_grouped_item
group_from [] m = ok m
group_from (i ∷ is) m = do
  validate_grouped_item i
  list ← item_list_id i
  let key : ListKey = record { list_id = list; namespace_type = item_namespace i }
  group_from is (insert key (unwrap_or (BTree.get key m) [] ++ i ∷ []) m)

abbrev item_sort_key : ExceptionItem → String × String
item_sort_key i = (readable_or "\u{7f}" (item_list_id i), readable_or "\u{7f}" (item_id i))

unfoldable pub sort_items : List ExceptionItem → List ExceptionItem
sort_items = sort_by (λ a b. cmp_pair (item_sort_key a) (item_sort_key b))

unfoldable pub sort_values :
    BTreeMap ListKey (List ExceptionItem) → BTreeMap ListKey (List ExceptionItem)
sort_values [] = []
sort_values ((k, is) ∷ m) = (k, sort_items is) ∷ sort_values m

unfoldable pub group_items : List ExceptionItem → Result (BTreeMap ListKey (List ExceptionItem))
group_items items = group_from items [] >>= λ m. ok (sort_values m)

-- the live lists with these keys; one that is not there is passed over
unfoldable pub fetch_remote_lists : Reads → List ListKey → Result (List ExceptionList)
fetch_remote_lists S [] = ok []
fetch_remote_lists S (k ∷ ks) =
    let rest = fetch_remote_lists S ks in
    elim (S.get_list k) [
      | ok l ↦ rest >>= λ ls. ok (l ∷ ls)
      | err e ↦ if is_not_found e.kind then rest else err e
      | panic why ↦ panic why
    ]

-- the id of each of these lists that the stack has and that has one; `resolve_ids` of exceptions.rs
unfoldable pub resolve_from :
    Reads → List ListKey → BTreeMap ListKey String → Result (BTreeMap ListKey String)
resolve_from S [] m = ok m
resolve_from S (k ∷ ks) m = elim (S.get_list k) [
  | ok l ↦
      resolve_from S ks
        (elim (and_then (get "id" l.map) as_str) [ some id ↦ insert k id m | none ↦ m ])
  | err e ↦ if is_not_found e.kind then resolve_from S ks m else err e
  | panic why ↦ panic why
]

unfoldable pub resolve_ids : Reads → List ListKey → Result (BTreeMap ListKey String)
resolve_ids S keys = resolve_from S keys []

-- the ids of the live lists, before their canonical form drops them
unfoldable pub live_ids : List ExceptionList → BTreeMap ListKey String → BTreeMap ListKey String
live_ids [] m = m
live_ids (l ∷ ls) m = live_ids ls (elim (list_key l) [
  | ok key ↦ elim (and_then (get "id" l.map) as_str) [ some id ↦ insert key id m | none ↦ m ]
  | _ ↦ m
])

-- two ids, each there or not
abbrev same_id : Option String → Option String → Bool
same_id none none = true
same_id (some a) (some b) = a =? b
same_id _ _ = false

unfoldable pub dangling_references :
    String → BTreeMap ListKey String → List ExceptionRef → List DanglingPointer
dangling_references rule_id live [] = []
dangling_references rule_id live (r ∷ rs) =
    let rest = dangling_references rule_id live rs in
    let live_id = BTree.get (ref_key r) live in
    if same_id live_id r.id
    then rest
    else record {
      rule_id = rule_id;
      list_id = r.list_id;
      stored_id = unwrap_or (map_option string r.id) null;
      live_id = live_id;
    }
      ∷ rest

unfoldable pub dangling_pointers : List Rule → BTreeMap ListKey String → List DanglingPointer
unfolding dangling_references
dangling_pointers [] live = []
dangling_pointers (r ∷ rs) live =
    let rest = dangling_pointers rs live in
    elim (rule_id r) [ ok id ↦ dangling_references id live (exception_refs r) ++ rest | _ ↦ rest ]

-- whether the list has a key that can be read and is among these
abbrev is_wanted : List ListKey → ExceptionList → Bool
is_wanted wanted l = elim (list_key l) [ ok key ↦ contains key wanted | _ ↦ false ]

unfoldable pub keep_wanted : List ListKey → List ExceptionList → List ExceptionList
keep_wanted wanted [] = []
keep_wanted wanted (l ∷ ls) =
    let rest = keep_wanted wanted ls in if is_wanted wanted l then l ∷ rest else rest

unfoldable pub keys_in {ℓ} : {A : Type ℓ} → BTreeMap ListKey A → List ListKey → List ListKey
keys_in m [] = []
keys_in m (k ∷ ks) = let rest = keys_in m ks in if is_some (BTree.get k m) then k ∷ rest else rest

unfoldable pub readable_keys : List ExceptionList → List ListKey
readable_keys [] = []
readable_keys (l ∷ ls) =
    let rest = readable_keys ls in elim (list_key l) [ ok key ↦ key ∷ rest | _ ↦ rest ]

unfoldable pub created_keys : List ListOp → Result (List ListKey)
created_keys [] = ok []
created_keys (create_list l ∷ ops) = list_key l >>= λ k. created_keys ops >>= λ ks. ok (k ∷ ks)
created_keys (update_list before after ∷ ops) = created_keys ops

unfoldable pub find_each : Reads → List ListKey → Result (BTreeMap ListKey (List ExceptionItem))
find_each S [] = ok []
find_each S (k ∷ ks) = S.find_items k >>= λ is. find_each S ks >>= λ m. ok (insert k is m)

-- the items of the lists that are created
unfoldable pub items_of_created :
    BTreeMap ListKey (List ExceptionItem) → List ListOp → Result (List ItemOp)
items_of_created m [] = ok []
items_of_created m (create_list l ∷ ops) = list_key l >>= λ k.
    items_of_created m ops >>= λ rest. ok (map create_item (unwrap_or (BTree.get k m) []) ++ rest)
items_of_created m (update_list before after ∷ ops) = items_of_created m ops

module _ (J : JsonMap) (S : Reads) where
  unfoldable pub exception_plan :
      List ExceptionList → List ExceptionItem → List Rule → List Rule → Result ExceptionPlan
  exception_plan mirror_lists mirror_items local_rules remote_rules = do
    let wanted : List ListKey =
        dedup (sort (referenced_keys local_rules ++ referenced_keys remote_rules))
    remote_lists ← fetch_remote_lists S wanted
    local_indexed ← index_lists J "local" (keep_wanted wanted mirror_lists)
    remote_indexed ← index_lists J "remote" remote_lists
    (drift, ops) ← list_drift J local_indexed remote_indexed
    let both : List ListKey = keys_in remote_indexed (BTree.keys local_indexed)
    created ← created_keys ops
    local_items ← group_items mirror_items
    remote_items ← find_each S both
    created_items ← items_of_created local_items ops
    (item_changes, reconciled) ← item_reconciliation J both local_items remote_items
    ok (record {
      drift = record {
        local = drift.local;
        remote = drift.remote;
        changes = drift.changes ++ item_changes;
        dangling = dangling_pointers remote_rules (live_ids remote_lists []);
      };
      list_ops = ops;
      item_ops = created_items ++ reconciled;
      resolvable = dedup (sort (readable_keys remote_lists ++ created));
    })
