-- ===== src/Api/Drift/Outcome.antt =====
-- What `Drift::compute` returns: one change for each `rule_id`, or an error.
use elasticctl.Prelude.{
  String, ◌≡◌, refl, subst, true, false, ◌&&◌, ◌||◌, Option, none, some, List, [], ◌∷◌, ◌++◌, map,
  arith, is_some, ◌⊎◌, inl, inr, and_then, All, Option-cases, List-cases, Bool-cases, All-imp,
}
use elasticctl.Prelude.Order.{string_ord, =?_iff, =?_refl}
use elasticctl.Prelude.BTree.{
  BTreeMap, get, keys, contains, sort, dedup, contains-append, contains-sort, contains-dedup,
  contains-keys, IsAscending, dedup-sort-IsAscending,
}
use elasticctl.Json.{JsonMap}
use elasticctl.Core.Error.{Error, ok, err, Result-cases}
use elasticctl.Api.Model.{Rule, rule_id}
use elasticctl.Api.Normalize.Entries.{comparable-entries}
use elasticctl.Api.Drift.{
  Change, change_rule_id, Drift, field_changes, compare_rules, classify, classify_all, compute,
  keep_actionable, is_actionable, actionable,
}
use elasticctl.Api.Drift.Index.{rule_with, are_distinct, compared, index-cases}

abbrev pub all_ids : BTreeMap String Rule → BTreeMap String Rule → List String
all_ids l r = dedup (sort (keys l ++ keys r))

pub contains-all_ids :
    (id : String) (l r : BTreeMap String Rule)
    → contains id (all_ids l r) ≡ (is_some (get id l) || is_some (get id r))
contains-all_ids id l r = ground (
  arith,
  contains-dedup id (sort (keys l ++ keys r)),
  contains-sort id (keys l ++ keys r),
  contains-append id (keys l) (keys r),
  contains-keys id l,
  contains-keys id r,
)

pub rule_with-rule_id :
    (id : String) (rs : List Rule) (r : Rule) → rule_with id rs ≡ some r → rule_id r ≡ ok id
unfolding rule_with
rule_with-rule_id id [] r h = cc
rule_with-rule_id id (x ∷ rs) r h = elim (Result-cases (rule_id x)) [
  | inl e ↦ ground (arith, e.1, rule_with-rule_id id rs r, =?_iff id e.0)
  | inr (inl e) ↦ ground (arith, e.1, rule_with-rule_id id rs r)
  | inr (inr e) ↦ ground (arith, e.1, rule_with-rule_id id rs r)
]

module _ (J : JsonMap) where
  -- a rule that is found by its `rule_id` has a compared form
  pub compared-rule_with :
      (id : String) (rs : List Rule)
      → is_some (and_then (rule_with id rs) (compared J)) ≡ is_some (rule_with id rs)
  compared-rule_with id rs = elim (Option-cases (rule_with id rs)) [
    | inl e ↦ rw e refl
    | inr (r, e) ↦
        let (c, made, _, _) = comparable-entries J r id (rule_with-rule_id id rs r e) in
        rw (e, made) refl
  ]

  compare_rules_id : (id : String) (l r : Rule) → change_rule_id (compare_rules J id l r) ≡ id
  unfolding compare_rules change_rule_id
  compare_rules_id id l r = elim (List-cases (field_changes J r l)) [
    | inl e ↦ rw (e, compare_rules) refl
    | inr e ↦ rw (e.2, compare_rules) refl
  ]

  classify-ok :
      (id : String) (l r : Option Rule)
      → (is_some l || is_some r) ≡ true
      → (c : Change) × (classify J id l r ≡ ok c) × (change_rule_id c ≡ id)
  unfolding classify change_rule_id
  classify-ok id none none h = cc
  classify-ok id none (some r) h = (_, refl, refl)
  classify-ok id (some l) none h = (_, refl, refl)
  classify-ok id (some l) (some r) h = (compare_rules J id l r, refl, compare_rules_id id l r)

  -- each change is the class of its `rule_id`
  abbrev pub Classified :
      BTreeMap String Rule → BTreeMap String Rule → List String → List Change → Type 0
  Classified l r [] [] = Unit
  Classified l r (id ∷ ids) (c ∷ cs) =
      (classify J id (get id l) (get id r) ≡ ok c) × Classified l r ids cs
  Classified l r _ _ = ⊥

  classify_all-ok :
      (l r : BTreeMap String Rule) (ids : List String)
      → ((id : String) → contains id ids ≡ true → (is_some (get id l) || is_some (get id r)) ≡ true)
      → (cs : List Change) × (classify_all J l r ids ≡ ok cs)
        × (map change_rule_id cs ≡ ids)
        × Classified l r ids cs
  unfolding classify_all contains
  classify_all-ok l r [] h = ([], refl, refl, tt)
  classify_all-ok l r (id ∷ ids) h =
      let (c, made, same) =
        classify-ok id (get id l) (get id r) (h id (ground (arith, =?_refl id))) in
      let (cs, mades, sames, all_made) = classify_all-ok l r ids (λ j m. h j (ground arith)) in
      (c ∷ cs, ground (arith, made, mades), ground (arith, same, sames), (made, all_made))

  -- a drift with the two indices that it was computed from
  pub record Computed (local remote : List Rule) (d : Drift) : Type 0 where
    pub left : BTreeMap String Rule
    pub right : BTreeMap String Rule
    pub get_left : (id : String) → get id left ≡ and_then (rule_with id local) (compared J)
    pub get_right : (id : String) → get id right ≡ and_then (rule_with id remote) (compared J)
    pub classified : Classified left right (all_ids left right) d.changes
    pub ids : map change_rule_id d.changes ≡ all_ids left right

  pub compute-cases :
      (local remote : List Rule)
      → ((d : Drift) × (compute J local remote ≡ ok d)
          × ((are_distinct local && are_distinct remote) ≡ true)
          × Computed local remote d)
        ⊎ ((e : Error) × (compute J local remote ≡ err e)
            × ((are_distinct local && are_distinct remote) ≡ false))
  unfolding compute
  compute-cases local remote = elim (index-cases J "local" local) [
    | inr (e, failed, not_distinct) ↦ inr (e, ground (arith, failed), ground (arith, not_distinct))
    | inl (l, made, distinct, get_l) ↦ elim (index-cases J "remote" remote) [
      | inr (e, failed, not_distinct) ↦
          inr (e, ground (arith, made, failed), ground (arith, not_distinct))
      | inl (r, made', distinct', get_r) ↦
          let (cs, mades, ids, classified) =
            classify_all-ok l r (all_ids l r) (λ id m. ground (arith, contains-all_ids id l r)) in
          inl (
            record { changes = cs },
            ground (arith, made, made', mades),
            ground (arith, distinct, distinct'),
            record {
              left = l;
              right = r;
              get_left = get_l;
              get_right = get_r;
              classified = classified;
              ids = ids;
            },
          )
    ]
  ]

  -- Where each side has readable and distinct `rule_id`s, the drift exists, and its changes name, in
  -- ascending order and once each, exactly the `rule_id`s of the two sides.
  pub compute_total :
      (local remote : List Rule)
      → are_distinct local ≡ true
      → are_distinct remote ≡ true
      → (d : Drift) × (compute J local remote ≡ ok d)
        × IsAscending (map change_rule_id d.changes)
        × ((id : String)
            → contains id (map change_rule_id d.changes)
              ≡ (is_some (rule_with id local) || is_some (rule_with id remote)))
  compute_total local remote dl dr = elim (compute-cases local remote) [
    | inr (e, _, not_distinct) ↦ absurd (ground (arith, not_distinct))
    | inl (d, made, _, C) ↦ (
      d,
      made,
      rw C.ids (dedup-sort-IsAscending (keys C.left ++ keys C.right)),
      λ id. rw C.ids (
          cc (
            contains-all_ids id C.left C.right,
            C.get_left id,
            C.get_right id,
            compared-rule_with id local,
            compared-rule_with id remote,
          )),
    )
  ]

  -- Where a `rule_id` of either side cannot be read or occurs twice, the result is an error.
  pub compute_refuses :
      (local remote : List Rule)
      → (are_distinct local && are_distinct remote) ≡ false
      → (e : Error) × (compute J local remote ≡ err e)
  compute_refuses local remote h = elim (compute-cases local remote) [
    | inl (d, _, distinct, _) ↦ absurd (ground (arith, distinct))
    | inr (e, failed, _) ↦ (e, failed)
  ]

  -- the indices behind a drift that was computed
  pub Computed-of :
      (local remote : List Rule) (d : Drift)
      → compute J local remote ≡ ok d
      → Computed local remote d
  Computed-of local remote d h = elim (compute-cases local remote) [
    | inl (d', made, _, C) ↦
        let same : d' ≡ d = ground (arith, made) in subst (Computed local remote) same C
    | inr (e, failed, _) ↦ absurd (ground (arith, failed))
  ]

  classify_actionable :
      (id : String) (l r : Option Rule) (c : Change)
      → classify J id l r ≡ ok c
      → is_actionable c ≡ true
      → (change_rule_id c ≡ id) × (is_some l ≡ true)
  unfolding classify is_actionable change_rule_id
  classify_actionable id none none c h a = cc
  classify_actionable id none (some r) c h a = absurd (ground arith)
  classify_actionable id (some l) none c h a = ground arith
  classify_actionable id (some l) (some r) c h a = (ground (arith, compare_rules_id id l r), refl)

  actionable-left :
      (l r : BTreeMap String Rule) (ids : List String) (cs : List Change)
      → Classified l r ids cs
      → All (λ c. is_some (get (change_rule_id c) l) ≡ true) (keep_actionable cs)
  actionable-left l r [] [] h = tt
  actionable-left l r [] (c ∷ cs) h = absurd h
  actionable-left l r (id ∷ ids) [] h = absurd h
  actionable-left l r (id ∷ ids) (c ∷ cs) h =
      let rest = actionable-left l r ids cs h.1 in
      elim (Bool-cases (is_actionable c)) [
        | inl a ↦
            let (same, there) = classify_actionable id (get id l) (get id r) c h.0 a in
            rw a (rw same there, rest)
        | inr a ↦ rw a rest
      ]

  -- Every change that a push acts on names a rule of the local side, so a push never acts on a rule
  -- that only the stack has.
  pub actionable-local :
      (local remote : List Rule) (d : Drift)
      → compute J local remote ≡ ok d
      → All (λ c. is_some (rule_with (change_rule_id c) local) ≡ true) (actionable d)
  unfolding actionable
  actionable-local local remote d h =
      let C = Computed-of local remote d h in
      All-imp
        (λ c there.
          cc (there, C.get_left (change_rule_id c), compared-rule_with (change_rule_id c) local))
        (keep_actionable d.changes)
        (actionable-left C.left C.right (all_ids C.left C.right) d.changes C.classified)
