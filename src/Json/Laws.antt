-- ===== src/Json/Laws.antt =====
-- Reads of a JSON map: which keys have a value.
use elasticctl.Prelude.{String, ◌≡◌, refl, arith, is_some}
use elasticctl.Prelude.Order.{string_ord}
use elasticctl.Prelude.BTree.{contains}
use elasticctl.Json.{Fields, empty, field, get, keys}

-- a key is among the keys exactly when it has a value
pub contains-keys : (k : String) (m : Fields) → contains k (keys m) ≡ is_some (get k m)
unfolding contains keys get
contains-keys k empty = refl
contains-keys k (field j v m) = ground (arith, contains-keys k m)
