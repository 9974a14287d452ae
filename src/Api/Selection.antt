-- ===== src/Api/Selection.antt =====
-- crates/elasticctl-api/src/selection.rs: from what a user names to the `rule_id`s that a command acts
-- on. What the stack answers to the requests of rules.rs is a parameter.
pub mod Found
pub mod Resolved
use elasticctl.Prelude.{
  ℕ, String, Bool, true, false, not, ◌&&◌, ◌||◌, Option, none, some, List, [], ◌∷◌, ◌++◌, is_some,
  if◌then◌else◌, any, length, ltb, ◌==◌,
}
use elasticctl.Prelude.Text.{concat, join, show, trim, is_empty}
use elasticctl.Prelude.Order.{◌=?◌, string_ord}
use elasticctl.Prelude.BTree.{contains, sort, dedup}
use elasticctl.Core.Error.{
  Error, ErrorKind, error, not_found, conflict, new_error, Result, ok, err, panic, ◌>>=◌,
}
use elasticctl.Api.Model.{Rule, rule_id, name, tags}

abbrev pub unreadable_rule_id : String
unreadable_rule_id = "<unreadable rule_id>"

-- What the stack answers: a rule by its `rule_id`; a page of the rules with a name, of at most 100, and
-- the number of all; every rule with a tag, and every rule that a text finds.
pub record Stack : Type 0 where
  pub get_rule : String → Result Rule
  pub find_named : String → Result (List Rule × ℕ)
  pub find_tagged : String → Result (List Rule)
  pub find_text : String → Result (List Rule)

-- `str::to_lowercase` and `str::contains`, by the tables of Unicode
pub record Texts : Type 0 where
  pub to_lowercase : String → String
  pub contains_text : String → String → Bool

abbrev pub keep_rules : (Rule → Bool) → List Rule → List Rule
keep_rules p [] = []
keep_rules p (r ∷ rs) = let rest = keep_rules p rs in if p r then r ∷ rest else rest

-- an identifier for each rule, also where it cannot be read
abbrev shown_ids : List Rule → List String
shown_ids [] = []
shown_ids (r ∷ rs) = (elim (rule_id r) [ ok id ↦ id | _ ↦ unreadable_rule_id ]) ∷ shown_ids rs

unfoldable pub pick_one : String → String → List Rule → Result String
pick_one noun selector [] =
    err (new_error not_found (concat ("No rule with rule_id or name '" ∷ selector ∷ "'" ∷ [])))
pick_one noun selector (r ∷ []) = rule_id r
pick_one noun selector (r ∷ s ∷ rs) = err (
    new_error conflict (
      concat (
        show (length (r ∷ s ∷ rs))
        ∷ noun
        ∷ " are named '"
        ∷ selector
        ∷ "'. Select one by rule_id: "
        ∷ join (shown_ids (r ∷ s ∷ rs)) ", "
        ∷ [])))

unfoldable pub pick_by_name : List Rule → String → Result String
pick_by_name found selector =
    pick_one " rules" selector (keep_rules (λ r. name r =? selector) found)

unfoldable pub is_not_found : ErrorKind → Bool
is_not_found not_found = true
is_not_found _ = false

unfoldable pub pick_by_name_capped : List Rule → String → ℕ → Result String
pick_by_name_capped found selector total = elim (pick_by_name found selector) [
  | ok id ↦ ok id
  | err e ↦
      if is_not_found e.kind && ltb (length found) total
      then err (
          new_error not_found (
            concat (
              "No rule with rule_id or name '"
              ∷ selector
              ∷ "' among the first "
              ∷ show (length found)
              ∷ " of "
              ∷ show total
              ∷ " candidates; narrow the name"
              ∷ [])))
      else err e
  | panic s ↦ panic s
]

unfoldable pub has_id : String → Rule → Bool
has_id id r = elim (rule_id r) [ ok s ↦ s =? id | _ ↦ false ]

-- `None` where no local rule matches
unfoldable pub local_match : List Rule → String → Option (Result String)
local_match local selector =
    if any (has_id selector) local
    then some (ok selector)
    else (let named = keep_rules (λ r. name r =? selector) local in
        elim named [ [] ↦ none | r ∷ rs ↦ some (pick_one " local rules" selector (r ∷ rs)) ])

unfoldable pub has_tag : String → Rule → Bool
has_tag tag r = contains tag (tags r)

unfoldable pub ids_of : List Rule → Result (List String)
ids_of [] = ok []
ids_of (r ∷ rs) = do id ← rule_id r; ids ← ids_of rs; ok (id ∷ ids)

unfoldable pub is_blank : Option String → Bool
is_blank none = false
is_blank (some text) = is_empty (trim text)

-- the local rules first, then those of the stack
unfoldable pub both_sides : List Rule → (Unit {0} → Result (List Rule)) → Result (List String)
both_sides local remote = do
  local_ids ← ids_of local
  found ← remote tt
  remote_ids ← ids_of found
  ok (local_ids ++ remote_ids)

-- what was asked for and found nothing
unfoldable pub unmatched : Option String → List String → Bool
unmatched none ids = false
unmatched (some text) [] = true
unmatched (some text) (id ∷ ids) = false

text_of : Option String → String
text_of none = ""
text_of (some s) = s

unfoldable pub conclude :
    List String
    → Option String
    → Option String
    → String
    → List String
    → List String
    → List String
    → Result (Option (List String))
unfolding text_of
conclude selectors tag search noun picked tagged searched =
    let ids = dedup (sort (picked ++ tagged ++ searched)) in
    if unmatched tag tagged
    then err (
        new_error not_found
          (concat ("No rules matched tag '" ∷ text_of tag ∷ "'; nothing to " ∷ noun ∷ [])))
    else if unmatched search searched
    then err (
        new_error not_found
          (concat ("No rules matched search '" ∷ text_of search ∷ "'; nothing to " ∷ noun ∷ [])))
    else elim ids [
      | [] ↦ err (
          new_error not_found (
            concat (
              "No rules matched the selector(s) '"
              ∷ join selectors "', '"
              ∷ "'; nothing to "
              ∷ noun
              ∷ [])))
      | i ∷ is ↦ ok (some (i ∷ is))
    ]

unfoldable pub is_unscoped : List String → Option String → Option String → Bool
is_unscoped [] none none = true
is_unscoped _ _ _ = false

module _ (S : Stack) where
  unfoldable pub to_rule_id : String → Result String
  to_rule_id selector = elim (S.get_rule selector) [
    | ok r ↦ rule_id r
    | panic s ↦ panic s
    | err e ↦
        if not (is_not_found e.kind)
        then err e
        else (S.find_named selector >>= λ page. pick_by_name_capped page.0 selector page.1)
  ]

  unfoldable pub resolve_selector : List Rule → String → Result String
  resolve_selector local selector = elim (local_match local selector) [
    | some found ↦ found
    | none ↦ to_rule_id selector
  ]

  unfoldable pub resolve_selectors : List Rule → List String → Result (List String)
  resolve_selectors local [] = ok []
  resolve_selectors local (s ∷ ss) = do
    id ← resolve_selector local s
    ids ← resolve_selectors local ss
    ok (id ∷ ids)

  unfoldable pub tag_ids : List Rule → Option String → Result (List String)
  tag_ids local none = ok []
  tag_ids local (some tag) = both_sides (keep_rules (has_tag tag) local) (λ _. S.find_tagged tag)

module _ (S : Stack) (T : Texts) where
  unfoldable pub search_matches : Rule → String → Bool
  search_matches r text =
      T.contains_text (T.to_lowercase (name r)) (T.to_lowercase text) || has_tag text r

  unfoldable pub search_ids : List Rule → Option String → Result (List String)
  search_ids local none = ok []
  search_ids local (some text) =
      both_sides (keep_rules (λ r. search_matches r text) local) (λ _. S.find_text text)

  unfoldable pub resolve :
      List String
      → Option String
      → Option String
      → List Rule
      → String
      → Result (Option (List String))
  resolve selectors tag search local noun =
      if is_unscoped selectors tag search
      then ok none
      else if is_blank search
      then err (new_error error "the --search text must not be empty or whitespace-only")
      else (do
        picked ← resolve_selectors S local selectors
        tagged ← tag_ids S local tag
        searched ← search_ids local search
        conclude selectors tag search noun picked tagged searched)
