-- ===== src/Api/Selection/Found/Sides.antt =====
-- What a tag and a search find on either side, described by the rules.
use elasticctl.Prelude.{
  String, ◌≡◌, Bool, true, false, ◌||◌, Option, none, some, List, [], ◌∷◌, ◌++◌, arith, ◌↔◌,
  Bool-cases, ◌⊎◌, inl, inr,
}
use elasticctl.Prelude.Order.{◌=?◌, string_ord, =?_iff, =?_refl}
use elasticctl.Prelude.BTree.{contains, contains-append}
use elasticctl.Core.Error.{Result, ok, bind-ok_inv}
use elasticctl.Api.Model.{Rule, rule_id, name, tags}
use elasticctl.Api.Selection.{
  Stack, Texts, keep_rules, has_tag, ids_of, both_sides, tag_ids, search_matches, search_ids,
  unmatched,
}
use elasticctl.Api.Selection.Found.{OneOf, keep_rules-OneOf}

ids_of-OneOf :
    (rs : List Rule) (ids : List String) (id : String)
    → ids_of rs ≡ ok ids
    → (contains id ids ≡ true) ↔ OneOf (λ r. rule_id r ≡ ok id) rs
unfolding ids_of contains
ids_of-OneOf [] ids id h = ground (arith, h)
ids_of-OneOf (r ∷ rs) ids id h =
    let (i, e, h1) = bind-ok_inv (rule_id r) _ h in
    let (is, e', h2) = bind-ok_inv (ids_of rs) _ h1 in
    let whole : i ∷ is ≡ ids = ground (arith, h2) in
    let rest = ids_of-OneOf rs is id e' in
    rw (← whole) (
      λ m. elim (Bool-cases (id =? i)) [
        | inl same ↦ inl (ground (arith, e, (=?_iff id i).0 same))
        | inr other ↦ inr (rest.0 (ground (arith, m, other)))
      ],
      λ found. elim found [
        | inl here ↦
            let same : id ≡ i = ground (arith, e, here) in ground (arith, (=?_iff id i).1 same)
        | inr there ↦ ground (arith, rest.1 there)
      ],
    )

-- the ids of the rules on either side
both_sides-OneOf :
    (p : Rule → Bool) (local : List Rule) (answer : Result (List Rule)) (ids : List String)
    → both_sides (keep_rules p local) (λ _. answer) ≡ ok ids
    → (found : List Rule) × (answer ≡ ok found)
      × ((id : String)
          → (contains id ids ≡ true) ↔ (
              OneOf (λ r. (p r ≡ true) × (rule_id r ≡ ok id)) local
              ⊎ OneOf (λ r. rule_id r ≡ ok id) found))
unfolding both_sides
both_sides-OneOf p local answer ids h =
    let (ours, e1, h1) = bind-ok_inv (ids_of (keep_rules p local)) _ h in
    let (found, e2, h2) = bind-ok_inv answer _ h1 in
    let (theirs, e3, h3) = bind-ok_inv (ids_of found) _ h2 in
    let whole : ours ++ theirs ≡ ids = ground (arith, h3) in
    (
      found,
      e2,
      λ id.
          let left = ids_of-OneOf (keep_rules p local) ours id e1 in
          let right = ids_of-OneOf found theirs id e3 in
          let kept = keep_rules-OneOf p (λ r. rule_id r ≡ ok id) local in
          rw (← whole) (
            λ m. elim (Bool-cases (contains id ours)) [
              | inl here ↦ inl (kept.0 (left.0 here))
              | inr other ↦ inr (right.0 (ground (arith, m, other, contains-append id ours theirs)))
            ],
            λ k. elim k [
              | inl here ↦ ground (arith, left.1 (kept.1 here), contains-append id ours theirs)
              | inr there ↦ ground (arith, right.1 there, contains-append id ours theirs)
            ],
          ),
    )

-- what a tag or a search found: nothing where it was not given, and otherwise exactly the ids of the
-- local rules that it matches and of the rules that the stack answered with, of which there is one
abbrev pub Finds :
    (String → Result (List Rule))
    → (String → Rule → Bool)
    → List Rule
    → Option String
    → List String
    → Type 0
Finds ask matches local none ids = ids ≡ []
Finds ask matches local (some text) ids =
    ((found : List Rule) × (ask text ≡ ok found)
      × ((id : String)
          → (contains id ids ≡ true) ↔ (
              OneOf (λ r. (matches text r ≡ true) × (rule_id r ≡ ok id)) local
              ⊎ OneOf (λ r. rule_id r ≡ ok id) found)))
    × ((id : String) × (contains id ids ≡ true))

some_found :
    (text : String) (ids : List String)
    → unmatched (some text) ids ≡ false
    → (id : String) × (contains id ids ≡ true)
unfolding unmatched contains
some_found text [] h = absurd (ground (arith, h))
some_found text (id ∷ ids) h = (id, ground (arith, =?_refl id))

pub tag_ids-Finds :
    (S : Stack) (local : List Rule) (tag : Option String) (ids : List String)
    → tag_ids S local tag ≡ ok ids
    → unmatched tag ids ≡ false
    → Finds S.find_tagged (λ t r. contains t (tags r)) local tag ids
unfolding tag_ids has_tag
tag_ids-Finds S local none ids h k = ground (arith, h)
tag_ids-Finds S local (some t) ids h k =
    (both_sides-OneOf (λ r. contains t (tags r)) local (S.find_tagged t) ids h, some_found t ids k)

pub search_ids-Finds :
    (S : Stack) (T : Texts) (local : List Rule) (search : Option String) (ids : List String)
    → search_ids S T local search ≡ ok ids
    → unmatched search ids ≡ false
    → Finds S.find_text
        (λ t r. T.contains_text (T.to_lowercase (name r)) (T.to_lowercase t) || contains t (tags r))
        local
        search
        ids
unfolding search_ids search_matches has_tag
search_ids-Finds S T local none ids h k = ground (arith, h)
search_ids-Finds S T local (some t) ids h k = (
  both_sides-OneOf
      (λ r. T.contains_text (T.to_lowercase (name r)) (T.to_lowercase t) || contains t (tags r))
      local (S.find_text t) ids h,
  some_found t ids k,
)
