-- ===== src/Api/Pull.antt =====
-- crates/elasticctl-api/src/state/pull.rs: the files that a pull writes, and the command. What the stack
-- answers, and the text of JSON and YAML, are parameters.
pub mod Staging
pub mod Names
pub mod Command
use Prim.Native.Char.{Char, code}
use Prim.Native.String
use elasticctl.Prelude.{
  ℕ, ◌+◌, String, Bool, true, false, not, ◌&&◌, ◌||◌, Option, none, some, List, [], ◌∷◌, ◌++◌, ◌==◌,
  leb, if◌then◌else◌, length, any, unwrap_or, ◌⊎◌, inl, inr,
}
use elasticctl.Prelude.Text.{concat, join, show}
use elasticctl.Prelude.Order.{Ord, string_ord, ◌=?◌}
use elasticctl.Prelude.Keys.{sort_by}
use elasticctl.Prelude.BTree
use elasticctl.Prelude.BTree.{BTreeMap, sort, dedup}
use elasticctl.Json.{JsonMap, Value, object, array, string, Fields, Items, nil, cons, get, as_str}
use elasticctl.Core.Error.{
  Error, error, conflict, not_found, new_error, Result, ok, err, panic, ◌>>=◌,
}
use elasticctl.Api.Model.{Rule, ListKey, rule_id}
use elasticctl.Api.Model.Keys.{key_ord}
use elasticctl.Api.Normalize.{canonical}
use elasticctl.Api.Exceptions.{ExceptionList, ExceptionItem, canonical_list, canonical_item}
use elasticctl.Api.Scope.{exception_refs, ExceptionRef, referenced_keys}
use elasticctl.Api.Reconcile.Planning.{Reads}
use elasticctl.Api.Transaction.FilePath.{FilePath, normal}
use elasticctl.Api.Transaction.Phase.{StagedFile}

abbrev Bytes : Type 0
Bytes = List ℕ

-- `codec::Format`
pub data Format : Type 0 where
  ndjson yaml : Format

abbrev extension : Format → String
extension yaml = "yaml"
extension ndjson = "ndjson"

-- `serde_json` and `serde_yaml_ng`, whose errors are texts, and the bytes of a text
pub record Encoder : Type 0 where
  pub to_json : Value → String ⊎ String
  pub to_yaml : Value → String ⊎ String
  pub into_bytes : String → Bytes

-- a letter, a digit, `-` or `_`
abbrev is_safe : ℕ → Bool
is_safe c =
    (leb 48 c && leb c 57)
    || (leb 65 c && leb c 90)
    || (leb 97 c && leb c 122)
    || c == 45
    || c == 95

unfoldable pub safe : String → String
safe String.[] = String.[]
safe (String.◌∷◌ c s) =
    let rest = safe s in if is_safe (code c) then String.◌∷◌ c rest else concat ("_" ∷ rest ∷ [])

unfoldable pub safe_filename : String → String → String
safe_filename id ext = concat (safe id ∷ "." ∷ ext ∷ [])

abbrev readable : Result String → String
readable (ok s) = s
readable _ = "\u{7f}"

unfoldable pub sort_rules : List Rule → List Rule
sort_rules = sort_by (λ a b. string_ord.cmp (readable (rule_id a)) (readable (rule_id b)))

-- a list and its items, as the stack has them
abbrev pub Container : Type 0
Container = ExceptionList × List ExceptionItem

module _ (E : Reads) where
  unfoldable pub missing_list : ListKey → Error → Error
  missing_list key e = elim e.kind [
    | not_found ↦ new_error not_found (
        concat (
          "a rule references exception list \"" ∷ key.list_id ∷ "\" (" ∷ key.namespace_type
          ∷ "), which does not exist on this stack" ∷ []))
    | _ ↦ e
  ]

  abbrev found_list : ListKey → Result ExceptionList → Result ExceptionList
  found_list key (ok l) = ok l
  found_list key (err e) = err (missing_list key e)
  found_list key (panic w) = panic w

  unfoldable pub fetch : List ListKey → Result (BTreeMap ListKey Container)
  fetch [] = ok []
  fetch (key ∷ keys) = do
    list ← found_list key (E.get_list key)
    items ← E.find_items key
    rest ← fetch keys
    ok (BTree.insert key (list, items) rest)

-- `ExceptionList::list_type`
abbrev list_type : ExceptionList → String
list_type l = elim (get "type" l.map) [ some v ↦ unwrap_or (as_str v) "" | none ↦ "" ]

-- the lists of a pull: those inside a rule's file, those with a file of their own, and how many items
pub record Split : Type 0 where
  pub inlines : List (ListKey × ExceptionList)
  pub to_write : List (ListKey × ExceptionList)
  pub item_count : ℕ

module _ (J : JsonMap) where
  unfoldable pub canonical_items : List ExceptionItem → Result Items
  canonical_items [] = ok nil
  canonical_items (i ∷ is) = do
    c ← canonical_item J i
    rest ← canonical_items is
    ok (cons (object c.map) rest)

  unfoldable pub with_items : Container → Result ExceptionList
  with_items (list, items) = do
    c ← canonical_list J list
    is ← canonical_items items
    ok (record { map = J.insert "items" (array is) c.map })

  unfoldable pub split : BTreeMap ListKey Container → Result Split
  split [] = ok (record { inlines = []; to_write = []; item_count = 0 })
  split ((key, container) ∷ m) = do
    c ← with_items container
    rest ← split m
    let count : ℕ = length container.1 + rest.item_count
    ok (
        if list_type container.0 =? "rule_default"
        then record {
          inlines = (key, c) ∷ rest.inlines;
          to_write = rest.to_write;
          item_count = count;
        }
        else record {
          inlines = rest.inlines;
          to_write = (key, c) ∷ rest.to_write;
          item_count = count;
        })

-- the first rule that refers to a list and whose rule_id can be read
abbrev refers_to : ListKey → Rule → Bool
refers_to key rule =
    any
      (λ (r : ExceptionRef). (r.list_id =? key.list_id) && (r.namespace_type =? key.namespace_type))
      (exception_refs rule)

unfoldable pub owner : ListKey → List Rule → Option String
owner key [] = none
owner key (rule ∷ rules) =
    let rest = owner key rules in
    if refers_to key rule then elim (rule_id rule) [ ok id ↦ some id | _ ↦ rest ] else rest

unfoldable pub inline_by_rule :
    List (ListKey × ExceptionList)
    → List Rule
    → BTreeMap String (List ExceptionList)
    → BTreeMap String (List ExceptionList)
inline_by_rule [] rules m = m
inline_by_rule ((key, list) ∷ ls) rules m = elim (owner key rules) [
  | none ↦ inline_by_rule ls rules m
  | some id ↦
      inline_by_rule ls rules (BTree.insert id (unwrap_or (BTree.get id m) [] ++ list ∷ []) m)
]

unfoldable pub collision : String → String → String → String
collision other id filename =
    concat ("\"" ∷ other ∷ "\" and \"" ∷ id ∷ "\" both sanitise to \"" ∷ filename ∷ "\"" ∷ [])

-- the names that the rules claim, and the collisions
module _ (J : JsonMap) (ext : String) where
  unfoldable pub claim_rules :
      BTreeMap String String → List Rule → Result (List (String × Rule) × List String)
  claim_rules claimed [] = ok ([], [])
  claim_rules claimed (rule ∷ rules) = do
    c ← canonical J rule
    id ← rule_id c
    elim (BTree.get (safe_filename id ext) claimed) [
      | some other ↦ do
        rest ← claim_rules claimed rules
        ok (rest.0, collision other id (safe_filename id ext) ∷ rest.1)
      | none ↦ do
        rest ← claim_rules (BTree.insert (safe_filename id ext) id claimed) rules
        ok ((safe_filename id ext, c) ∷ rest.0, rest.1)
    ]

abbrev qualified : ListKey → String
qualified key = concat (key.list_id ∷ " (" ∷ key.namespace_type ∷ ")" ∷ [])

unfoldable pub claim_lists :
    String → BTreeMap String String → List (ListKey × ExceptionList) → List String
claim_lists ext claimed [] = []
claim_lists ext claimed ((key, list) ∷ ls) =
    elim (BTree.get (safe_filename key.list_id ext) claimed) [
      | some other ↦
          collision other (qualified key) (safe_filename key.list_id ext)
          ∷ claim_lists ext claimed ls
      | none ↦
          claim_lists ext (BTree.insert (safe_filename key.list_id ext) (qualified key) claimed) ls
    ]

unfoldable pub refuse_collisions : List String → Result (Unit {0})
refuse_collisions [] = ok tt
refuse_collisions (c ∷ cs) = err (
    new_error conflict (
      concat (
        show (length (c ∷ cs))
        ∷ " filename collision(s); rename one id in each pair: "
        ∷ join (c ∷ cs) "; "
        ∷ [])))
