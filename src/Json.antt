-- ===== src/Json.antt =====
-- JSON values as the program sees them: the variants of `serde_json::Value` that its code matches
-- on, and the reads it makes. What `serde_json` itself computes is the parameter `JsonMap`.
pub mod Laws
pub mod Paths
use elasticctl.Prelude.{
  ℕ, String, ◌≡◌, Bool, true, false, ◌&&◌, Option, none, some, List, [], ◌∷◌, if◌then◌else◌,
}
use elasticctl.Prelude.Order.{◌=?◌, string_ord}
use elasticctl.Prelude.BTree.{contains}

-- an integer in the range of `u64`, the magnitude of a negative one in that of `i64`, or the bits of
-- an `f64`
pub data Number : Type 0 where
  unsigned : ℕ → Number
  negative : ℕ → Number
  float : ℕ → Number

mutual
  pub data Value : Type 0 where
    null : Value
    boolean : Bool → Value
    number : Number → Value
    string : String → Value
    array : Items → Value
    object : Fields → Value

  pub data Items : Type 0 where
    nil : Items
    cons : Value → Items → Items

  -- `Map<String, Value>`, in the order of iteration
  pub data Fields : Type 0 where
    empty : Fields
    field : String → Value → Fields → Fields

-- `Map::get`
unfoldable pub get : String → Fields → Option Value
get k empty = none
get k (field j v m) = if k =? j then some v else get k m

-- `Map::keys`
unfoldable pub keys : Fields → List String
keys empty = []
keys (field j v m) = j ∷ keys m

unfoldable pub to_list : Items → List Value
to_list nil = []
to_list (cons v vs) = v ∷ to_list vs

abbrev pub as_str : Value → Option String
as_str (string s) = some s
as_str _ = none

abbrev pub as_bool : Value → Option Bool
as_bool (boolean b) = some b
as_bool _ = none

abbrev pub as_object : Value → Option Fields
as_object (object m) = some m
as_object _ = none

abbrev pub as_array : Value → Option (List Value)
as_array (array vs) = some (to_list vs)
as_array _ = none

-- `Value::get` with a text: `None` on what is no object
abbrev pub get_key : String → Value → Option Value
get_key k (object m) = get k m
get_key k _ = none

-- no key occurs twice
unfoldable pub is_distinct : Fields → Bool
is_distinct empty = true
is_distinct (field k v m) = (if contains k (keys m) then false else true) && is_distinct m

-- What the program relies on of `serde_json`: a map reads back what was written and keeps every
-- other entry, a removed key is gone and the others stay, and a value equals itself.
pub record JsonMap : Type 0 where
  pub insert : String → Value → Fields → Fields
  pub remove : String → Fields → Fields
  pub value_eq : Value → Value → Bool
  pub get-insert :
      (k j : String) (v : Value) (m : Fields)
      → get k (insert j v m) ≡ (if k =? j then some v else get k m)
  pub get-remove :
      (k j : String) (m : Fields) → get k (remove j m) ≡ (if k =? j then none else get k m)
  pub value_eq_refl : (v : Value) → value_eq v v ≡ true
