-- ===== src/Tests/Sample.antt =====
-- Instances of what the model takes as parameters: a JSON map and a journal encoding.
use elasticctl.Prelude.{
  String, ◌≡◌, refl, Bool, true, false, ◌&&◌, none, some, arith, if◌then◌else◌, ◌==◌,
}
use elasticctl.Prelude.Order.{◌=?◌, string_ord, =?_iff, =?_refl}
use elasticctl.Json.{
  Number, unsigned, negative, float, Value, null, boolean, number, string, array, object, Items,
  nil, cons, Fields, empty, field, JsonMap, get,
}

unfoldable pub insert : String → Value → Fields → Fields
insert k v empty = field k v empty
insert k v (field j u m) = let rest = insert k v m in if k =? j then field j v m else field j u rest

unfoldable pub remove : String → Fields → Fields
remove k empty = empty
remove k (field j u m) = let rest = remove k m in if k =? j then rest else field j u rest

number_eq : Number → Number → Bool
number_eq (unsigned m) (unsigned n) = m == n
number_eq (negative m) (negative n) = m == n
number_eq (float m) (float n) = m == n
number_eq _ _ = false

bool_eq : Bool → Bool → Bool
bool_eq true b = b
bool_eq false true = false
bool_eq false false = true

unfoldable mutual
  unfolding number_eq bool_eq

  pub value_eq : Value → Value → Bool
  value_eq null null = true
  value_eq (boolean b) (boolean c) = bool_eq b c
  value_eq (number m) (number n) = number_eq m n
  value_eq (string s) (string t) = s =? t
  value_eq (array vs) (array us) = items_eq vs us
  value_eq (object m) (object n) = fields_eq m n
  value_eq _ _ = false

  pub items_eq : Items → Items → Bool
  items_eq nil nil = true
  items_eq (cons v vs) (cons u us) = value_eq v u && items_eq vs us
  items_eq _ _ = false

  pub fields_eq : Fields → Fields → Bool
  fields_eq empty empty = true
  fields_eq (field k v m) (field j u n) = (k =? j) && value_eq v u && fields_eq m n
  fields_eq _ _ = false

pub get-insert :
    (k j : String) (v : Value) (m : Fields)
    → get k (insert j v m) ≡ (if k =? j then some v else get k m)
unfolding get insert
get-insert k j v empty = refl
get-insert k j v (field i u m) =
    ground (arith, get-insert k j v m, =?_iff k j, =?_iff j i, =?_iff k i)

pub get-remove :
    (k j : String) (m : Fields) → get k (remove j m) ≡ (if k =? j then none else get k m)
unfolding get remove
get-remove k j empty = ground arith
get-remove k j (field i u m) = ground (arith, get-remove k j m, =?_iff k j, =?_iff j i, =?_iff k i)

number_eq_refl : (n : Number) → number_eq n n ≡ true
unfolding number_eq
number_eq_refl (unsigned n) = ground arith
number_eq_refl (negative n) = ground arith
number_eq_refl (float n) = ground arith

mutual
  unfolding value_eq items_eq fields_eq bool_eq

  pub value_eq_refl : (v : Value) → value_eq v v ≡ true
  value_eq_refl null = refl
  value_eq_refl (boolean true) = refl
  value_eq_refl (boolean false) = refl
  value_eq_refl (number n) = number_eq_refl n
  value_eq_refl (string s) = =?_refl s
  value_eq_refl (array vs) = items_eq_refl vs
  value_eq_refl (object m) = fields_eq_refl m

  items_eq_refl : (vs : Items) → items_eq vs vs ≡ true
  items_eq_refl nil = refl
  items_eq_refl (cons v vs) = ground (arith, value_eq_refl v, items_eq_refl vs)

  fields_eq_refl : (m : Fields) → fields_eq m m ≡ true
  fields_eq_refl empty = refl
  fields_eq_refl (field k v m) = ground (arith, =?_refl k, value_eq_refl v, fields_eq_refl m)

abbrev pub json : JsonMap
json = record {
  insert = insert;
  remove = remove;
  value_eq = value_eq;
  get-insert = get-insert;
  get-remove = get-remove;
  value_eq_refl = value_eq_refl;
}
