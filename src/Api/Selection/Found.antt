-- ===== src/Api/Selection/Found.antt =====
-- Rules among others, and the one rule with a name.
pub mod Selectors
pub mod Sides
use elasticctl.Prelude.{
  ℕ, String, ◌≡◌, refl, Bool, true, false, ◌||◌, Option, none, some, List, [], ◌∷◌, ◌++◌, arith,
  All, ◌↔◌, Bool-cases, List-cases, ◌⊎◌, inl, inr, All-imp, any,
}
use elasticctl.Prelude.Order.{◌=?◌, string_ord, =?_iff, =?_refl}
use elasticctl.Prelude.BTree.{contains, contains-append}
use elasticctl.Core.Error.{
  Result, ok, err, ◌>>=◌, bind-ok_inv, Result-cases, Error, ErrorKind, not_found,
}
use elasticctl.Api.Model.{Rule, rule_id, name, tags}
use elasticctl.Api.Selection.{
  Stack, Texts, keep_rules, pick_one, pick_by_name, pick_by_name_capped, is_not_found, has_id,
  local_match, has_tag, ids_of, both_sides, to_rule_id, resolve_selector, resolve_selectors,
  tag_ids, search_matches, search_ids, unmatched,
}

-- one of the rules at least
abbrev pub OneOf : (Rule → Type 0) → List Rule → Type 0
OneOf P [] = ⊥
OneOf P (r ∷ rs) = P r ⊎ OneOf P rs

-- the one `rule_id` of the rules with a name
abbrev pub IsNamed : List Rule → String → String → Type 0
IsNamed rs s id =
    OneOf (λ r. (name r ≡ s) × (rule_id r ≡ ok id)) rs
    × All (λ r. (name r =? s) ≡ true → rule_id r ≡ ok id) rs

pub keep_rules-sole :
    (p : Rule → Bool) (rs : List Rule) (r : Rule)
    → keep_rules p rs ≡ r ∷ []
    → All (λ x. p x ≡ true → x ≡ r) rs
keep_rules-sole p [] r h = tt
keep_rules-sole p (x ∷ rs) r h = elim (Bool-cases (p x)) [
  | inl e ↦
      let (same, nothing) = split e h in
      (
        λ _. same,
        All-imp (λ y none_left named. absurd (ground (arith, none_left, named))) rs
            (keep_rules-none rs nothing),
      )
  | inr e ↦
      (λ named. absurd (ground (arith, e, named)), keep_rules-sole p rs r (ground (arith, e, h)))
]
  where
    split : p x ≡ true → keep_rules p (x ∷ rs) ≡ r ∷ [] → (x ≡ r) × (keep_rules p rs ≡ [])
    split e h = ground (arith, e, h)

    keep_rules-none : (ys : List Rule) → keep_rules p ys ≡ [] → All (λ y. p y ≡ false) ys
    keep_rules-none [] h = tt
    keep_rules-none (y ∷ ys) h = elim (Bool-cases (p y)) [
      | inl e ↦ absurd (ground (arith, e, h))
      | inr e ↦ (e, keep_rules-none ys (ground (arith, e, h)))
    ]

pub OneOf-imp :
    {P Q : Rule → Type 0} (f : (r : Rule) → P r → Q r) (rs : List Rule) → OneOf P rs → OneOf Q rs
OneOf-imp f [] h = h
OneOf-imp f (r ∷ rs) h = elim h [ inl k ↦ inl (f r k) | inr k ↦ inr (OneOf-imp f rs k) ]

pub keep_rules-OneOf :
    (p : Rule → Bool) (P : Rule → Type 0) (rs : List Rule)
    → OneOf P (keep_rules p rs) ↔ OneOf (λ r. (p r ≡ true) × P r) rs
keep_rules-OneOf p P [] = (λ h. h, λ h. h)
keep_rules-OneOf p P (r ∷ rs) =
    let (there, back) = keep_rules-OneOf p P rs in
    elim (Bool-cases (p r)) [
      | inl e ↦ rw e (
        λ h. elim h [ inl k ↦ inl (refl, k) | inr k ↦ inr (there k) ],
        λ h. elim h [ inl k ↦ inl k.1 | inr k ↦ inr (back k) ],
      )
      | inr e ↦ rw e (
        λ h. inr (there h),
        λ h. elim h [ inl k ↦ absurd (ground (arith, k.0)) | inr k ↦ back k ],
      )
    ]

pub pick_one-IsNamed :
    (noun : String) (found : List Rule) (selector id : String)
    → pick_one noun selector (keep_rules (λ r. name r =? selector) found) ≡ ok id
    → IsNamed found selector id
unfolding pick_one
pick_one-IsNamed noun found selector id h = go (keep_rules (λ r. name r =? selector) found) refl h
  where
    go :
        (kept : List Rule)
        → keep_rules (λ r. name r =? selector) found ≡ kept
        → pick_one noun selector kept ≡ ok id
        → IsNamed found selector id
    go [] e k = absurd (ground (arith, k))
    go (r ∷ []) e k = (
      OneOf-imp (λ x (named, at). ((=?_iff (name x) selector).0 named, at)) found
          ((keep_rules-OneOf (λ x. name x =? selector) (λ x. rule_id x ≡ ok id) found).0
            (rw e (inl k))),
      All-imp (λ x only named. rw (only named) k) found
          (keep_rules-sole (λ x. name x =? selector) found r e),
    )
    go (r ∷ s ∷ rs) e k = absurd (ground (arith, k))
