-- ===== src/Api/Normalize.antt =====
-- crates/elasticctl-api/src/normalize.rs: the form of a rule that `pull` writes, and the form that
-- `diff` compares.
pub mod Entries
pub mod Paths
use elasticctl.Prelude.{String, Option, none, some, List, [], ◌∷◌, is_some, if◌then◌else◌}
use elasticctl.Prelude.Order.{◌=?◌, string_ord}
use elasticctl.Prelude.BTree.{sort}
use elasticctl.Json.{
  Value, null, boolean, number, string, array, object, Items, nil, cons, Fields, empty, field,
  JsonMap, get, keys,
}
use elasticctl.Core.Error.{Result, ok, err, panic}
use elasticctl.Api.Model.{Rule, volatile_fields, server_defaults, from_value}

abbrev pub survives : String
survives = "rule_id survives normalization"

-- `Result::expect`
abbrev pub expect {ℓ} : {A : Type ℓ} → Result A → String → Result A
expect (ok a) why = ok a
expect (err e) why = panic why
expect (panic s) why = panic s

-- what is written through `Map::get_mut`: the entry changes where it stands
unfoldable pub update_entry : String → (Value → Value) → Fields → Fields
update_entry k f empty = empty
update_entry k f (field j v m) =
    let rest = update_entry k f m in if k =? j then field j (f v) m else field j v rest

module _ (J : JsonMap) where
  open J use {insert, remove}

  unfoldable pub remove_all : List String → Fields → Fields
  remove_all [] m = m
  remove_all (f ∷ fs) m = remove_all fs (remove f m)

  unfoldable pub strip_volatile : Rule → Rule
  strip_volatile r = record { map = remove_all volatile_fields r.map }

  strip_id : Value → Value
  strip_id (object m) = object (remove "id" m)
  strip_id v = v

  strip_ids : Items → Items
  strip_ids nil = nil
  strip_ids (cons v vs) = cons (strip_id v) (strip_ids vs)

  unfoldable pub strip_references : Value → Value
  unfolding strip_id strip_ids
  strip_references (array vs) = array (strip_ids vs)
  strip_references v = v

  unfoldable pub strip_exception_ids : Rule → Rule
  strip_exception_ids r = record { map = update_entry "exceptions_list" strip_references r.map }

  -- `map.entry(k).or_insert(v)` for each default
  unfoldable pub fill : List (String × Value) → Fields → Fields
  fill [] m = m
  fill ((k, v) ∷ ds) m = fill ds (if is_some (get k m) then m else insert k v m)

  unfoldable pub fill_defaults : Rule → Rule
  fill_defaults r = record { map = fill server_defaults r.map }

  -- writes the entries with these keys, one after another; a key that is not there is passed over
  unfoldable pub copy : List String → Fields → Fields → Fields
  copy [] m out = out
  copy (k ∷ ks) m out = copy ks m (elim (get k m) [ some v ↦ insert k v out | none ↦ out ])

  unfoldable mutual
    pub sort_value : Value → Value
    sort_value null = null
    sort_value (boolean b) = boolean b
    sort_value (number n) = number n
    sort_value (string s) = string s
    sort_value (array vs) = array (sort_items vs)
    sort_value (object m) = object (copy (sort (keys m)) (sort_each m) empty)

    pub sort_items : Items → Items
    sort_items nil = nil
    sort_items (cons v vs) = cons (sort_value v) (sort_items vs)

    -- the values sorted, the keys as they stand
    pub sort_each : Fields → Fields
    sort_each empty = empty
    sort_each (field k v m) = field k (sort_value v) (sort_each m)

  unfoldable pub canonical : Rule → Result Rule
  canonical r =
      let stripped = strip_exception_ids (strip_volatile r) in
      expect (from_value (sort_value (object stripped.map))) survives

  unfoldable pub comparable : Rule → Result Rule
  comparable r =
      let filled = fill_defaults (strip_exception_ids (strip_volatile r)) in
      expect (from_value (sort_value (object filled.map))) survives
