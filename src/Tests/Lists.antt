-- ===== src/Tests/Lists.antt =====
-- Exception lists, their items, and the references of a rule to them.
use elasticctl.Prelude.{String, ◌≡◌, refl, false, Option, none, some, if◌then◌else◌, List}
use elasticctl.Prelude.Order.{◌=?◌, string_ord}
use elasticctl.Json.{string, array, object, Items, nil, cons, empty, field, get}
use elasticctl.Core.Error.{ok, is_ok}
use elasticctl.Api.Model.{Rule, ListKey}
use elasticctl.Api.Exceptions.{ExceptionItem, item_id, required, canonical_item}
use elasticctl.Api.Exceptions.Stored.{is_owned, canonical_item-look}
use elasticctl.Json.Paths.{Step, look}
use elasticctl.Api.Pointers.{inject_list_ids, inject_references, inject_reference, reference_key}
use elasticctl.Api.Pointers.Live.{PointTo, are_live, inject_list_ids-PointTo, inject_list_ids-is_ok}
use elasticctl.Api.Normalize.{update_entry}
use elasticctl.Tests.Sample.{json, insert}

abbrev served_item : ExceptionItem
served_item = record {
  map =
      field "item_id" (string "i")
        (field "comments" (array (cons (object (field "id" (string "9") empty)) nil)) empty);
}

canonical_item-look_example :
    (c : ExceptionItem) × (canonical_item json served_item ≡ ok c)
    × (item_id c ≡ ok "i")
    × ((p : List Step)
        → look p (object c.map)
          ≡ (if is_owned json p then none else look p (object served_item.map)))
unfolding item_id required get
canonical_item-look_example = canonical_item-look json served_item "i" refl

abbrev live : ListKey → Option String
live key = if key.list_id =? "trusted" then some "17" else none

abbrev refs : Items
refs = cons (object (field "list_id" (string "trusted") empty)) nil

abbrev pointing : Rule
pointing = record { map = field "exceptions_list" (array refs) empty }

abbrev pointed : Rule
pointed = record {
  map =
      field "exceptions_list"
        (array
          (cons (object (field "list_id" (string "trusted") (field "id" (string "17") empty))) nil))
        empty;
}

inject_list_ids-PointTo_example :
    (refs' : Items) × (get "exceptions_list" pointed.map ≡ some (array refs'))
    × PointTo live refs refs'
    × ((k : String) → (k =? "exceptions_list") ≡ false → get k pointed.map ≡ get k pointing.map)
unfolding inject_list_ids inject_references inject_reference reference_key get update_entry insert
inject_list_ids-PointTo_example = inject_list_ids-PointTo json live pointing pointed refs refl refl

inject_list_ids-is_ok_example : is_ok (inject_list_ids json live pointing) ≡ are_live live refs
unfolding get
inject_list_ids-is_ok_example = inject_list_ids-is_ok json live pointing refs refl
