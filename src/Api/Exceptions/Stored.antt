-- ===== src/Api/Exceptions/Stored.antt =====
-- What the forms of a list and of an item on disk hold at each key.
use elasticctl.Prelude.{
  String, ◌≡◌, refl, ◌∙◌, ap, Bool, Option, none, some, List, [], ◌∷◌, arith, if◌then◌else◌,
  map_option, and_then,
}
use elasticctl.Prelude.Order.{◌=?◌, string_ord}
use elasticctl.Prelude.BTree.{contains}
use elasticctl.Json.{
  Value, null, boolean, number, string, array, object, Items, nil, cons, Fields, get, JsonMap,
}
use elasticctl.Json.Paths.{Step, key, index, look, is_among}
use elasticctl.Api.Normalize.Paths.{each, without, elements, look-elements, look-entry}
use elasticctl.Core.Error.{ok}
use elasticctl.Api.Normalize.{update_entry, remove_all, sort_value}
use elasticctl.Api.Normalize.Entries.{get-update_entry, get-remove_all, sorted, get-sorted}
use elasticctl.Api.Exceptions.{
  ExceptionList, ExceptionItem, list_volatile_fields, item_volatile_fields, list_from_value,
  item_from_value, required, list_id, item_id, canonical_list, canonical_item, strip_comments,
  strip_each, strip_comment, comment_volatile_fields,
}

module _ (J : JsonMap) where
  -- a list's entry on disk: none that the server owns
  unfoldable pub list_entry : String → Option Value → Option Value
  list_entry k o = map_option (sort_value J) (if contains k list_volatile_fields then none else o)

  -- an item's entry on disk: none that the server owns, in a comment neither
  unfoldable pub item_entry : String → Option Value → Option Value
  item_entry k o = map_option (sort_value J) (
      if contains k item_volatile_fields
      then none
      else if k =? "comments"
      then map_option (strip_comments J) o
      else o)

  get-list :
      (k : String) (m : Fields)
      → get k (sorted J (remove_all J list_volatile_fields m)) ≡ list_entry k (get k m)
  unfolding list_entry
  get-list k m = ground (
    arith,
    get-sorted J k (remove_all J list_volatile_fields m),
    get-remove_all J k list_volatile_fields m,
  )

  get-item :
      (k : String) (m : Fields)
      → get k (
          sorted J
            (update_entry "comments" (strip_comments J) (remove_all J item_volatile_fields m)))
        ≡ item_entry k (get k m)
  unfolding item_entry
  get-item k m =
      let stripped = remove_all J item_volatile_fields m in
      ground (
        arith,
        get-sorted J k (update_entry "comments" (strip_comments J) stripped),
        get-update_entry k "comments" (strip_comments J) stripped,
        get-remove_all J k item_volatile_fields m,
      )

  required-entry :
      (k missing s : String) (m : Fields) → required k missing m ≡ ok s → get k m ≡ some (string s)
  unfolding required
  required-entry k missing s m h = ground (arith, h)

  -- The form on disk of a list with a readable `list_id` exists, has that `list_id`, and holds at each
  -- key what the list holds there, less the server's fields.
  pub canonical_list-entries :
      (l : ExceptionList) (s : String)
      → list_id l ≡ ok s
      → (c : ExceptionList) × (canonical_list J l ≡ ok c)
        × (list_id c ≡ ok s)
        × ((k : String) → get k c.map ≡ list_entry k (get k l.map))
  unfolding canonical_list list_id required list_from_value sort_value sorted
  canonical_list-entries l s h =
      let stored = sorted J (remove_all J list_volatile_fields l.map) in
      let stays : list_entry "list_id" (some (string s)) ≡ some (string s) =
        unfold list_entry contains sort_value in refl in
      let at_id : get "list_id" stored ≡ some (string s) = cc (
        get-list "list_id" l.map,
        required-entry "list_id" "exception list is missing list_id" s l.map h,
        stays,
      ) in
      (record { map = stored }, ground (arith, at_id), ground (arith, at_id), λ k. get-list k l.map)

  -- The form on disk of an item with a readable `item_id` exists, has that `item_id`, and holds at each
  -- key what the item holds there, less the server's fields, those of its comments included.
  pub canonical_item-entries :
      (i : ExceptionItem) (s : String)
      → item_id i ≡ ok s
      → (c : ExceptionItem) × (canonical_item J i ≡ ok c)
        × (item_id c ≡ ok s)
        × ((k : String) → get k c.map ≡ item_entry k (get k i.map))
  unfolding canonical_item item_id required item_from_value sort_value sorted
  canonical_item-entries i s h =
      let stored =
        sorted J
          (update_entry "comments" (strip_comments J) (remove_all J item_volatile_fields i.map)) in
      let stays : item_entry "item_id" (some (string s)) ≡ some (string s) =
        unfold item_entry contains sort_value in refl in
      let at_id : get "item_id" stored ≡ some (string s) = cc (
        get-item "item_id" i.map,
        required-entry "item_id" "exception item is missing item_id" s i.map h,
        stays,
      ) in
      (record { map = stored }, ground (arith, at_id), ground (arith, at_id), λ k. get-item k i.map)

  strip_each-each : (vs : Items) → strip_each J vs ≡ each (without J comment_volatile_fields) vs
  unfolding strip_each strip_comment each
  strip_each-each nil = refl
  strip_each-each (cons null vs) = ap (cons null) (strip_each-each vs)
  strip_each-each (cons (boolean b) vs) = ap (cons (boolean b)) (strip_each-each vs)
  strip_each-each (cons (number n) vs) = ap (cons (number n)) (strip_each-each vs)
  strip_each-each (cons (string s) vs) = ap (cons (string s)) (strip_each-each vs)
  strip_each-each (cons (array us) vs) = ap (cons (array us)) (strip_each-each vs)
  strip_each-each (cons (object m) vs) =
      ap (cons (object (remove_all J comment_volatile_fields m))) (strip_each-each vs)

  strip_comments-elements : (v : Value) → strip_comments J v ≡ elements J comment_volatile_fields v
  unfolding strip_comments
  strip_comments-elements null = refl
  strip_comments-elements (boolean b) = refl
  strip_comments-elements (number n) = refl
  strip_comments-elements (string s) = refl
  strip_comments-elements (array vs) = ap array (strip_each-each vs)
  strip_comments-elements (object m) = refl

  -- a path to a field of the server, of the item or of one of its comments
  abbrev pub is_owned : List Step → Bool
  is_owned p = is_among item_volatile_fields "comments" comment_volatile_fields p

  look-item :
      (k : String) (q : List Step) (o : Option Value)
      → and_then
          (if contains k item_volatile_fields
            then none
            else if k =? "comments"
            then map_option (strip_comments J) o
            else o)
          (look q)
        ≡ (if is_owned (key k ∷ q) then none else and_then o (look q))
  unfolding is_among
  look-item k q none = ground arith
  look-item k q (some v) =
      ground (
        arith,
        ap (look q) (strip_comments-elements v) ∙ look-elements J comment_volatile_fields q v,
      )

  -- The form on disk of an item with a readable `item_id` exists, has that `item_id`, and holds at
  -- every path what the item holds there, save at the paths of the fields that the server owns of the
  -- item and of its comments, where it holds nothing.
  pub canonical_item-look :
      (i : ExceptionItem) (s : String)
      → item_id i ≡ ok s
      → (c : ExceptionItem) × (canonical_item J i ≡ ok c)
        × (item_id c ≡ ok s)
        × ((p : List Step)
            → look p (object c.map) ≡ (if is_owned p then none else look p (object i.map)))
  unfolding look is_among item_entry
  canonical_item-look i s h =
      let (c, made, named, entries) = canonical_item-entries i s h in
      (c, made, named, λ p. go c.map entries p)
    where
      go :
          (m : Fields)
          → ((k : String) → get k m ≡ item_entry k (get k i.map))
          → (p : List Step)
          → look p (object m) ≡ (if is_owned p then none else look p (object i.map))
      go m entries [] = refl
      go m entries (index j ∷ q) = refl
      go m entries (key k ∷ q) = look-entry J k q m _ (entries k) ∙ look-item k q (get k i.map)
