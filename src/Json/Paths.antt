-- ===== src/Json/Paths.antt =====
-- What a JSON value holds at a path of keys and indices, in whatever order its maps are.
use elasticctl.Prelude.{
  ℕ, zero, suc, String, Bool, false, ◌&&◌, ◌||◌, Option, none, some, List, [], ◌∷◌, and_then,
}
use elasticctl.Prelude.Order.{◌=?◌, string_ord}
use elasticctl.Prelude.BTree.{contains}
use elasticctl.Json.{
  Number, Value, null, boolean, number, string, array, object, Items, nil, cons, get,
}

pub data Step : Type 0 where
  key : String → Step
  index : ℕ → Step

-- a value without what it contains: an array with its length
pub data Leaf : Type 0 where
  is_null : Leaf
  is_boolean : Bool → Leaf
  is_number : Number → Leaf
  is_string : String → Leaf
  is_array : ℕ → Leaf
  is_object : Leaf

unfoldable pub size : Items → ℕ
size nil = 0
size (cons v vs) = suc (size vs)

unfoldable pub item : ℕ → Items → Option Value
item i nil = none
item zero (cons v vs) = some v
item (suc i) (cons v vs) = item i vs

unfoldable pub look : List Step → Value → Option Leaf
unfolding size
look [] null = some is_null
look [] (boolean b) = some (is_boolean b)
look [] (number n) = some (is_number n)
look [] (string s) = some (is_string s)
look [] (array vs) = some (is_array (size vs))
look [] (object m) = some is_object
look (key k ∷ p) (object m) = and_then (get k m) (look p)
look (index i ∷ p) (array vs) = and_then (item i vs) (look p)
look (s ∷ p) v = none

-- a path to one of these keys, or below it
unfoldable pub is_first : List String → List Step → Bool
is_first ks (key k ∷ p) = contains k ks
is_first ks _ = false

-- a path to one of these keys of an element, or below it
unfoldable pub is_in_elements : List String → List Step → Bool
unfolding is_first
is_in_elements ks (index i ∷ p) = is_first ks p
is_in_elements ks _ = false

-- a path to one of the first keys, or to one of the others in an element of the field between them
unfoldable pub is_among : List String → String → List String → List Step → Bool
unfolding is_in_elements
is_among ks field others (key k ∷ p) = contains k ks || ((k =? field) && is_in_elements others p)
is_among ks field others _ = false
