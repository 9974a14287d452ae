-- ===== src/Api/Selection/Found/Selectors.antt =====
-- What each selector resolves to, described by the rules.
use elasticctl.Prelude.{
  ℕ, String, ◌≡◌, Bool, true, false, List, [], ◌∷◌, arith, All, ◌↔◌, Bool-cases, List-cases, ◌⊎◌,
  inl, inr, All-imp, any,
}
use elasticctl.Prelude.Order.{◌=?◌, string_ord, =?_iff}
use elasticctl.Core.Error.{ok, err, ◌>>=◌, bind-ok_inv, Result-cases, Error, ErrorKind, not_found}
use elasticctl.Api.Model.{Rule, rule_id, name}
use elasticctl.Api.Selection.{
  Stack, keep_rules, pick_by_name, pick_by_name_capped, is_not_found, has_id, local_match,
  to_rule_id, resolve_selector, resolve_selectors,
}
use elasticctl.Api.Selection.Found.{OneOf, IsNamed, OneOf-imp, pick_one-IsNamed}

-- the lists have one length, and each pair of elements is related
abbrev pub Each : (String → String → Type 0) → List String → List String → Type 0
Each R [] [] = Unit {0}
Each R (x ∷ xs) (y ∷ ys) = R x y × Each R xs ys
Each R _ _ = ⊥

has_id_iff : (id : String) (r : Rule) → (has_id id r ≡ true) ↔ (rule_id r ≡ ok id)
unfolding has_id
has_id_iff id r = elim (Result-cases (rule_id r)) [
  | inl (s, e) ↦ ground (arith, e, =?_iff s id)
  | inr (inl (w, e)) ↦ ground (arith, e)
  | inr (inr (w, e)) ↦ ground (arith, e)
]

any-OneOf : (p : Rule → Bool) (rs : List Rule) → any p rs ≡ true → OneOf (λ r. p r ≡ true) rs
any-OneOf p [] h = absurd (ground (arith, h))
any-OneOf p (r ∷ rs) h = elim (Bool-cases (p r)) [
  | inl e ↦ inl e
  | inr e ↦ inr (any-OneOf p rs (ground (arith, h, e)))
]

any-none : (p : Rule → Bool) (rs : List Rule) → any p rs ≡ false → All (λ r. p r ≡ false) rs
any-none p [] h = tt
any-none p (r ∷ rs) h = (ground (arith, h), any-none p rs (ground (arith, h)))

keep_rules-none :
    (p : Rule → Bool) (rs : List Rule) → keep_rules p rs ≡ [] → All (λ r. p r ≡ false) rs
keep_rules-none p [] h = tt
keep_rules-none p (r ∷ rs) h = elim (Bool-cases (p r)) [
  | inl e ↦ absurd (ground (arith, e, h))
  | inr e ↦ (e, keep_rules-none p rs (ground (arith, e, h)))
]

-- What a selector resolves to: a local `rule_id`, or else the one local rule with this name, or else the
-- stack's rule with this `rule_id`, or where it has none, the one rule with this name that it found.
abbrev pub Selects : Stack → List Rule → String → String → Type 0
Selects S local s id =
    (OneOf (λ r. rule_id r ≡ ok s) local × (id ≡ s))
    ⊎ ((All (λ r. ¬ (rule_id r ≡ ok s)) local × IsNamed local s id)
        ⊎ (All (λ r. ¬ (rule_id r ≡ ok s)) local
            × All (λ r. ¬ (name r ≡ s)) local
            × (((r : Rule) × (S.get_rule s ≡ ok r) × (rule_id r ≡ ok id))
                ⊎ ((e : Error) × (page : List Rule × ℕ) × (S.get_rule s ≡ err e)
                    × (e.kind ≡ not_found)
                    × (S.find_named s ≡ ok page)
                    × IsNamed page.0 s id))))

is_not_found-kind : (k : ErrorKind) → is_not_found k ≡ true → k ≡ not_found
unfolding is_not_found
is_not_found-kind k h = ground (arith, h)

pick_by_name_capped-ok :
    (found : List Rule) (s id : String) (total : ℕ)
    → pick_by_name_capped found s total ≡ ok id
    → pick_by_name found s ≡ ok id
unfolding pick_by_name_capped
pick_by_name_capped-ok found s id total h = elim (Result-cases (pick_by_name found s)) [
  | inl (i, e) ↦ ground (arith, h, e)
  | inr (inl (w, e)) ↦ absurd (ground (arith, h, e))
  | inr (inr (w, e)) ↦ absurd (ground (arith, h, e))
]

module _ (S : Stack) where
  to_rule_id-found :
      (s id : String)
      → to_rule_id S s ≡ ok id
      → ((r : Rule) × (S.get_rule s ≡ ok r) × (rule_id r ≡ ok id))
        ⊎ ((e : Error) × (page : List Rule × ℕ) × (S.get_rule s ≡ err e)
            × (e.kind ≡ not_found)
            × (S.find_named s ≡ ok page)
            × IsNamed page.0 s id)
  unfolding to_rule_id pick_by_name
  to_rule_id-found s id h = elim (Result-cases (S.get_rule s)) [
    | inl (r, e) ↦ inl (r, e, ground (arith, h, e))
    | inr (inr (w, e)) ↦ absurd (ground (arith, h, e))
    | inr (inl (w, e)) ↦ elim (Bool-cases (is_not_found w.kind)) [
      | inr other ↦ absurd (ground (arith, h, e, other))
      | inl missing ↦
          let next : (S.find_named s >>= λ page. pick_by_name_capped page.0 s page.1) ≡ ok id =
            ground (arith, h, e, missing) in
          let (page, found, picked) = bind-ok_inv (S.find_named s) _ next in
          inr (
            w,
            page,
            e,
            is_not_found-kind w.kind missing,
            found,
            pick_one-IsNamed " rules" page.0 s id
                (pick_by_name_capped-ok page.0 s id page.1 picked),
          )
    ]
  ]

  resolve_selector-Selects :
      (local : List Rule) (s id : String)
      → resolve_selector S local s ≡ ok id
      → Selects S local s id
  unfolding resolve_selector local_match
  resolve_selector-Selects local s id h = elim (Bool-cases (any (has_id s) local)) [
    | inl here ↦ inl (
      OneOf-imp (λ r k. (has_id_iff s r).0 k) local (any-OneOf (has_id s) local here),
      ground (arith, h, here),
    )
    | inr nowhere ↦
        let others : All (λ r. ¬ (rule_id r ≡ ok s)) local =
          All-imp (λ r off at. absurd (ground (arith, off, (has_id_iff s r).1 at))) local
            (any-none (has_id s) local nowhere) in
        elim (List-cases (keep_rules (λ r. name r =? s) local)) [
          | inl none_named ↦ inr (
              inr (
                others,
                All-imp (λ r off at. absurd (ground (arith, off, (=?_iff (name r) s).1 at))) local
                    (keep_rules-none (λ r. name r =? s) local none_named),
                to_rule_id-found s id (ground (arith, h, nowhere, none_named)),
              ))
          | inr (r, rs, named) ↦ inr (
              inl (
                others,
                pick_one-IsNamed " local rules" local s id (ground (arith, h, nowhere, named)),
              ))
        ]
  ]

  pub resolve_selectors-Each :
      (local : List Rule) (ss ids : List String)
      → resolve_selectors S local ss ≡ ok ids
      → Each (Selects S local) ss ids
  unfolding resolve_selectors
  resolve_selectors-Each local [] [] h = tt
  resolve_selectors-Each local [] (id ∷ ids) h = absurd (ground (arith, h))
  resolve_selectors-Each local (s ∷ ss) ids h =
      let (i, e, h1) = bind-ok_inv (resolve_selector S local s) _ h in
      let (is, e', h2) = bind-ok_inv (resolve_selectors S local ss) _ h1 in
      let whole : i ∷ is ≡ ids = ground (arith, h2) in
      rw (← whole) (resolve_selector-Selects local s i e, resolve_selectors-Each local ss is e')
