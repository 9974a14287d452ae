-- ===== src/Api/Selection/Resolved.antt =====
-- What a selection that succeeds holds.
use elasticctl.Prelude.{
  String, ◌≡◌, ◌∙◌, true, false, Option, some, List, ◌∷◌, ◌++◌, ◌||◌, arith, All, Bool-cases,
  List-cases, inl, inr, subst,
}
use elasticctl.Prelude.Order.{◌=?◌, string_ord, =?_refl}
use elasticctl.Prelude.BTree.{
  contains, sort, dedup, IsAscending, contains-sort, contains-dedup, dedup-sort-IsAscending,
}
use elasticctl.Core.Error.{ok, ◌>>=◌, bind-ok_inv}
use elasticctl.Api.Model.{Rule, rule_id, name, tags}
use elasticctl.Api.Selection.Found.{pick_one-IsNamed}
use elasticctl.Api.Selection.Found.Selectors.{Each, Selects, resolve_selectors-Each}
use elasticctl.Api.Selection.Found.Sides.{Finds, tag_ids-Finds, search_ids-Finds}
use elasticctl.Api.Selection.{
  Stack, Texts, pick_by_name, resolve_selectors, tag_ids, search_ids, unmatched, conclude,
  is_unscoped, is_blank, resolve,
}

-- A name that resolves to a `rule_id` is that of one candidate only: every candidate with the name
-- has this `rule_id`.
pub pick_by_name-sole :
    (found : List Rule) (selector id : String)
    → pick_by_name found selector ≡ ok id
    → All (λ r. (name r =? selector) ≡ true → rule_id r ≡ ok id) found
unfolding pick_by_name
pick_by_name-sole found selector id h = (pick_one-IsNamed " rules" found selector id h).1

-- What was selected, and where it is from.
pub record IsResolved (S : Stack) (T : Texts) (selectors : List String) (tag search : Option String)
    (local : List Rule) (ids : List String) : Type 0 where
  pub picked : List String
  pub tagged : List String
  pub searched : List String
  pub by_selector : Each (Selects S local) selectors picked
  pub by_tag : Finds S.find_tagged (λ t r. contains t (tags r)) local tag tagged
  pub by_search :
      Finds S.find_text
        (λ t r. T.contains_text (T.to_lowercase (name r)) (T.to_lowercase t) || contains t (tags r))
        local
        search
        searched
  pub is_scoped : is_unscoped selectors tag search ≡ false
  pub is_ascending : IsAscending ids
  pub same : (id : String) → contains id ids ≡ contains id (picked ++ tagged ++ searched)
  pub some_id : (id : String) × (contains id ids ≡ true)

conclude-ok :
    (selectors : List String) (tag search : Option String) (noun : String)
    (picked tagged searched ids : List String)
    → conclude selectors tag search noun picked tagged searched ≡ ok (some ids)
    → (unmatched tag tagged ≡ false)
      × (unmatched search searched ≡ false)
      × IsAscending ids
      × ((id : String) → contains id ids ≡ contains id (picked ++ tagged ++ searched))
      × ((id : String) × (contains id ids ≡ true))
unfolding conclude contains
conclude-ok selectors tag search noun picked tagged searched ids h =
    elim (Bool-cases (unmatched tag tagged)) [
      | inl e ↦ absurd (ground (arith, e, h))
      | inr e ↦ elim (Bool-cases (unmatched search searched)) [
        | inl e' ↦ absurd (ground (arith, e, e', h))
        | inr e' ↦ elim (List-cases (dedup (sort (picked ++ tagged ++ searched)))) [
          | inl n ↦ absurd (ground (arith, e, e', n, h))
          | inr (i, is, n) ↦
              let same : i ∷ is ≡ ids = ground (arith, e, e', n, h) in
              (
                e,
                e',
                subst IsAscending (n ∙ same)
                    (dedup-sort-IsAscending (picked ++ tagged ++ searched)),
                λ id. cc (
                  n ∙ same,
                  contains-dedup id (sort (picked ++ tagged ++ searched)),
                  contains-sort id (picked ++ tagged ++ searched),
                ),
                (i, rw (← same) (ground (arith, =?_refl i))),
              )
        ]
      ]
    ]

-- A selection that gives ids was scoped, and gives in ascending order exactly the ids that its
-- selectors, its tag and its search found, of which there is one at least. Each selector found one id:
-- itself where a local rule has it, or else that of the local rules with this name, or else of the
-- stack's rule with this id, or else of the rules with this name that the stack found. The tag and the
-- search, where given, found the ids of the local rules that they match and of those that the stack
-- found, and one id at least.
pub resolve-IsResolved :
    (S : Stack) (T : Texts) (selectors : List String) (tag search : Option String)
    (local : List Rule) (noun : String) (ids : List String)
    → resolve S T selectors tag search local noun ≡ ok (some ids)
    → IsResolved S T selectors tag search local ids
unfolding resolve conclude
resolve-IsResolved S T selectors tag search local noun ids h =
    elim (Bool-cases (is_unscoped selectors tag search)) [
      | inl e ↦ absurd (ground (arith, e, h))
      | inr scoped ↦ elim (Bool-cases (is_blank search)) [
        | inl e ↦ absurd (ground (arith, scoped, e, h))
        | inr given ↦
            let rest : (resolve_selectors S local selectors >>= λ picked.
            tag_ids S local tag >>= λ tagged. search_ids S T local search >>= λ searched.
            conclude selectors tag search noun picked tagged searched)
                ≡ ok (some ids) =
              ground (arith, scoped, given, h) in
            let (picked, e1, h1) = bind-ok_inv _ _ rest in
            let (tagged, e2, h2) = bind-ok_inv _ _ h1 in
            let (searched, e3, h3) = bind-ok_inv _ _ h2 in
            let (matched, matched', ascending, same, some_id) =
              conclude-ok selectors tag search noun picked tagged searched ids h3 in
            record {
              picked = picked;
              tagged = tagged;
              searched = searched;
              by_selector = resolve_selectors-Each S local selectors picked e1;
              by_tag = tag_ids-Finds S local tag tagged e2 matched;
              by_search = search_ids-Finds S T local search searched e3 matched';
              is_scoped = scoped;
              is_ascending = ascending;
              same = same;
              some_id = some_id;
            }
      ]
    ]
