-- ===== src/Api/Reconcile.antt =====
-- crates/elasticctl-api/src/state/diff.rs and reports.rs: the drift of exception lists and their items,
-- and the writes that a push makes of it. What the stack answers is a parameter.
pub mod Resolvable
pub mod Planning
pub mod Applied
pub mod Items
pub mod Convergence
use elasticctl.Prelude.{
  ℕ, ◌+◌, String, Bool, true, false, not, ◌&&◌, Option, none, some, List, [], ◌∷◌, ◌++◌, is_some,
  unwrap_or, if◌then◌else◌, length, and_then, map_option, all,
}
use elasticctl.Prelude.Text.{concat, show, is_empty}
use elasticctl.Prelude.Order.{◌=?◌, string_ord}
use elasticctl.Prelude.Keys.{cmp_pair, sort_by}
use elasticctl.Prelude.BTree
use elasticctl.Prelude.BTree.{BTreeMap, insert, sort, dedup, contains}
use elasticctl.Json.{Value, null, string, object, Fields, JsonMap, get, keys, as_str}
use elasticctl.Core.Error.{
  Error, ErrorKind, error, conflict, not_found, new_error, Result, ok, err, panic, ◌>>=◌, ◌>>◌,
}
use elasticctl.Api.Model.{Rule, ListKey, rule_id}
use elasticctl.Api.Model.Keys.{key_ord}
use elasticctl.Api.Drift.{FieldChange, field_changes}
use elasticctl.Api.Exceptions.{
  ExceptionList, ExceptionItem, list_name, list_key, item_id, item_list_id, item_namespace,
  canonical_list, canonical_item,
}
use elasticctl.Api.Scope.{ExceptionRef, exception_refs, referenced_keys}

pub data ListOp : Type 0 where
  create_list : ExceptionList → ListOp
  update_list : (before after : ExceptionList) → ListOp

pub data ItemOp : Type 0 where
  create_item : ExceptionItem → ItemOp
  update_item : (before after : ExceptionItem) → ItemOp
  remove_item : (before : ExceptionItem) (namespace_type : String) → ItemOp

pub data ListChange : Type 0 where
  list_added : (list_id name : String) → ListChange
  list_modified : (list_id name : String) → List FieldChange → ListChange
  list_unchanged : (list_id : String) → ListChange
  list_remote_only : (list_id name : String) → ListChange
  item_added : (list_id item_id : String) → ListChange
  item_modified : (list_id item_id : String) → List FieldChange → ListChange
  item_removed : (list_id item_id : String) → ListChange

pub record DanglingPointer : Type 0 where
  pub rule_id : String
  pub list_id : String
  pub stored_id : Value
  pub live_id : Option String

pub record ExceptionDrift : Type 0 where
  pub local : ℕ
  pub remote : ℕ
  pub changes : List ListChange
  pub dangling : List DanglingPointer

pub record ExceptionPlan : Type 0 where
  pub drift : ExceptionDrift
  pub list_ops : List ListOp
  pub item_ops : List ItemOp
  pub resolvable : List ListKey

unfoldable pub is_list_unchanged : ListChange → Bool
is_list_unchanged (list_unchanged id) = true
is_list_unchanged _ = false

abbrev pub has_no_pointer : List DanglingPointer → Bool
has_no_pointer [] = true
has_no_pointer (p ∷ ps) = false

unfoldable pub is_drift_clean : ExceptionDrift → Bool
is_drift_clean d = all is_list_unchanged d.changes && has_no_pointer d.dangling

abbrev pub add_change {ℓ} :
    {A : Type ℓ} → List ListChange × List A → List ListChange × List A → List ListChange × List A
add_change (cs, ops) (cs', ops') = (cs ++ cs', ops ++ ops')

-- the loop that classifies each key of two maps, and collects what it finds
unfoldable pub collect {ℓ κ} :
    {K : Type ℓ} {A : Type κ}
    → (K → Result (List ListChange × List A))
    → List K
    → Result (List ListChange × List A)
collect classify [] = ok ([], [])
collect classify (k ∷ ks) = do
  found ← classify k
  rest ← collect classify ks
  ok (add_change found rest)

-- the items of one side by their `item_id`; one that cannot be read is passed over
unfoldable pub index_items :
    String
    → List ExceptionItem
    → BTreeMap String ExceptionItem
    → Result (BTreeMap String ExceptionItem)
index_items side [] m = ok m
index_items side (i ∷ is) m = elim (item_id i) [
  | ok id ↦
      if is_some (BTree.get id m)
      then err (
          new_error conflict
            (concat (side ∷ " has two exception items with item_id \"" ∷ id ∷ "\"" ∷ [])))
      else index_items side is (insert id i m)
  | _ ↦ index_items side is m
]

module _ (J : JsonMap) where
  open J use {value_eq}

  -- the loop of `field_changes`, which the code writes out for each kind of map
  unfoldable pub map_field_changes : Fields → Fields → List FieldChange
  map_field_changes before after =
      field_changes J (record { map = before }) (record { map = after })

  unfoldable pub list_field_changes : ExceptionList → ExceptionList → List FieldChange
  list_field_changes before after = map_field_changes before.map after.map

  unfoldable pub index_lists_from :
      String
      → ℕ
      → List ExceptionList
      → BTreeMap ListKey ExceptionList
      → Result (BTreeMap ListKey ExceptionList)
  index_lists_from side idx [] m = ok m
  index_lists_from side idx (l ∷ ls) m = elim (list_key l) [
    | ok key ↦ canonical_list J l >>= λ c.
        if is_some (BTree.get key m)
        then err (
            new_error conflict (
              concat (
                side ∷ " has two exception lists with list_id \"" ∷ key.list_id
                ∷ "\" in namespace \"" ∷ key.namespace_type ∷ "\"" ∷ [])))
        else index_lists_from side (idx + 1) ls (insert key c m)
    | err e ↦ err (
        new_error error (
          concat
            (side ∷ " exception list at position " ∷ show idx ∷ " has an unreadable list_id" ∷ [])))
    | panic why ↦ panic why
  ]

  unfoldable pub index_lists : String → List ExceptionList → Result (BTreeMap ListKey ExceptionList)
  index_lists side lists = index_lists_from side 0 lists []

  -- one list, where each side has it or not
  unfoldable pub classify_list :
      ListKey → Option ExceptionList → Option ExceptionList → Result (List ListChange × List ListOp)
  classify_list key (some l) none =
      ok (list_added key.list_id (list_name l) ∷ [], create_list l ∷ [])
  classify_list key none (some r) = ok (list_remote_only key.list_id (list_name r) ∷ [], [])
  classify_list key (some l) (some r) =
      let fields = list_field_changes r l in
      elim fields [
        | [] ↦ ok (list_unchanged key.list_id ∷ [], [])
        | f ∷ fs ↦ ok (list_modified key.list_id (list_name l) (f ∷ fs) ∷ [], update_list r l ∷ [])
      ]
  classify_list key none none = panic "a key came from one of the two maps"

  unfoldable pub list_drift :
      BTreeMap ListKey ExceptionList
      → BTreeMap ListKey ExceptionList
      → Result (ExceptionDrift × List ListOp)
  unfolding collect
  list_drift local remote =
      collect (λ key. classify_list key (BTree.get key local) (BTree.get key remote))
        (dedup (sort (BTree.keys local ++ BTree.keys remote)))
      >>= λ found. ok (
        record { local = length local; remote = length remote; changes = found.0; dangling = [] },
        found.1,
      )

  -- one item of a list, where each side has it or not
  unfoldable pub classify_item :
      ListKey
      → String
      → Option ExceptionItem
      → Option ExceptionItem
      → Result (List ListChange × List ItemOp)
  classify_item key id (some l) none = ok (item_added key.list_id id ∷ [], create_item l ∷ [])
  classify_item key id none (some r) = do
    before ← canonical_item J r
    ok (item_removed key.list_id id ∷ [], remove_item before key.namespace_type ∷ [])
  classify_item key id (some l) (some r) = do
    local_canon ← canonical_item J l
    remote_canon ← canonical_item J r
    if value_eq (object local_canon.map) (object remote_canon.map)
        then ok ([], [])
        else ok (
          item_modified key.list_id id (map_field_changes remote_canon.map local_canon.map) ∷ [],
          update_item remote_canon l ∷ [],
        )
  classify_item key id none none = panic "an item id came from one of the two maps"

  -- the items of one list
  unfoldable pub reconcile :
      ListKey → List ExceptionItem → List ExceptionItem → Result (List ListChange × List ItemOp)
  unfolding collect index_items
  reconcile key local remote = do
    local_by_id ← index_items "local" local []
    remote_by_id ← index_items "remote" remote []
    collect (λ id. classify_item key id (BTree.get id local_by_id) (BTree.get id remote_by_id))
        (dedup (sort (BTree.keys local_by_id ++ BTree.keys remote_by_id)))

  unfoldable pub item_reconciliation :
      List ListKey
      → BTreeMap ListKey (List ExceptionItem)
      → BTreeMap ListKey (List ExceptionItem)
      → Result (List ListChange × List ItemOp)
  unfolding collect
  item_reconciliation both local remote =
      collect
        (λ key.
          reconcile key (unwrap_or (BTree.get key local) []) (unwrap_or (BTree.get key remote) []))
        both
