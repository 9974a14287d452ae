-- ===== src/Api/Drift/Clean.antt =====
-- A drift is clean exactly when both sides hold the same rules, up to what the server owns.
use elasticctl.Prelude.{
  String, ◌≡◌, refl, sym, true, false, ◌||◌, ◌↔◌, Option, none, some, List, [], ◌∷◌, arith, is_some,
  inl, inr, and_then, unwrap_or, all, Option-cases, Bool-cases, List-cases, subst, ◌∙◌,
}
use elasticctl.Prelude.Order.{◌=?◌, string_ord, =?_iff}
use elasticctl.Prelude.BTree.{BTreeMap, get as find, contains}
use elasticctl.Json.{Value, null, JsonMap, get}
use elasticctl.Core.Error.{ok}
use elasticctl.Api.Model.{Rule}
use elasticctl.Api.Normalize.Entries.{comparable_entry, comparable-entries}
use elasticctl.Api.Drift.{
  Change, Drift, field_changes, compare_rules, classify, compute, is_unchanged, is_clean,
}
use elasticctl.Api.Drift.Index.{rule_with, compared}
use elasticctl.Api.Drift.FieldChanges.{seen, field_changes-nil, eq_of_field_changes}
use elasticctl.Api.Drift.Outcome.{
  Classified, Computed-of, all_ids, contains-all_ids, rule_with-rule_id,
}

module _ (J : JsonMap) where
  open J use {value_eq}

  -- what the comparison of two rules sees at a key
  abbrev pub compared_at : String → Rule → Value
  compared_at k r = unwrap_or (comparable_entry J k (get k r.map)) null

  -- Both sides have the rule, equal at every key but for what the server owns, or neither has it.
  abbrev pub SameRule : Option Rule → Option Rule → Type 0
  SameRule none none = Unit
  SameRule (some l) (some r) = (k : String) → value_eq (compared_at k r) (compared_at k l) ≡ true
  SameRule _ _ = ⊥

  abbrev SameCompared : Option Rule → Option Rule → Type 0
  SameCompared none none = Unit
  SameCompared (some l) (some r) = (k : String) → value_eq (seen r k) (seen l k) ≡ true
  SameCompared _ _ = ⊥

  compare_rules-unchanged :
      (id : String) (l r : Rule)
      → is_unchanged (compare_rules J id l r) ≡ true
      → field_changes J r l ≡ []
  unfolding is_unchanged
  compare_rules-unchanged id l r h = elim (List-cases (field_changes J r l)) [
    | inl e ↦ e
    | inr (f, fs, e) ↦ absurd (unfold compare_rules in ground (arith, e, h))
  ]

  same_of_unchanged :
      (id : String) (l r : Option Rule) (c : Change)
      → classify J id l r ≡ ok c
      → is_unchanged c ≡ true
      → SameCompared l r
  unfolding classify is_unchanged
  same_of_unchanged id none none c h u = tt
  same_of_unchanged id none (some r) c h u = absurd (ground arith)
  same_of_unchanged id (some l) none c h u = absurd (ground arith)
  same_of_unchanged id (some l) (some r) c h u =
      λ k. eq_of_field_changes J r l k (compare_rules-unchanged id l r (ground arith))

  unchanged_of_same :
      (id : String) (l r : Option Rule) (c : Change)
      → classify J id l r ≡ ok c
      → SameCompared l r
      → is_unchanged c ≡ true
  unfolding classify is_unchanged compare_rules
  unchanged_of_same id none none c h s = absurd (ground arith)
  unchanged_of_same id none (some r) c h s = absurd s
  unchanged_of_same id (some l) none c h s = absurd s
  unchanged_of_same id (some l) (some r) c h s = ground (arith, field_changes-nil J r l s)

  all_unchanged→ :
      (l r : BTreeMap String Rule) (ids : List String) (cs : List Change) (id : String)
      → Classified J l r ids cs
      → all is_unchanged cs ≡ true
      → contains id ids ≡ true
      → SameCompared (find id l) (find id r)
  unfolding contains
  all_unchanged→ l r [] cs id h u m = absurd (ground arith)
  all_unchanged→ l r (j ∷ ids) [] id h u m = absurd h
  all_unchanged→ l r (j ∷ ids) (c ∷ cs) id h u m = elim (Bool-cases (id =? j)) [
    | inl e ↦
        subst (λ (i : String). SameCompared (find i l) (find i r)) (sym ((=?_iff id j).0 e))
          (same_of_unchanged j (find j l) (find j r) c h.0 (ground arith))
    | inr e ↦ all_unchanged→ l r ids cs id h.1 (ground arith) (ground arith)
  ]

  →all_unchanged :
      (l r : BTreeMap String Rule) (ids : List String) (cs : List Change)
      → Classified J l r ids cs
      → ((id : String) → SameCompared (find id l) (find id r))
      → all is_unchanged cs ≡ true
  →all_unchanged l r [] [] h s = refl
  →all_unchanged l r [] (c ∷ cs) h s = absurd h
  →all_unchanged l r (id ∷ ids) [] h s = absurd h
  →all_unchanged l r (id ∷ ids) (c ∷ cs) h s = ground (
    arith,
    unchanged_of_same id (find id l) (find id r) c h.0 (s id),
    →all_unchanged l r ids cs h.1 s,
  )

  SameCompared-none : (a b : Option Rule) → (is_some a || is_some b) ≡ false → SameCompared a b
  SameCompared-none none none h = tt
  SameCompared-none none (some b) h = absurd (ground arith)
  SameCompared-none (some a) b h = absurd (ground arith)

  same_at :
      (l r : BTreeMap String Rule) (cs : List Change) (id : String)
      → Classified J l r (all_ids l r) cs
      → all is_unchanged cs ≡ true
      → SameCompared (find id l) (find id r)
  same_at l r cs id h u = elim (Bool-cases (contains id (all_ids l r))) [
    | inl m ↦ all_unchanged→ l r (all_ids l r) cs id h u m
    | inr m ↦ SameCompared-none (find id l) (find id r) (sym (contains-all_ids id l r) ∙ m)
  ]

  -- the comparison of the compared forms is that of the rules
  SameCompared-iff :
      (id : String) (local remote : List Rule)
      → SameCompared
          (and_then (rule_with id local) (compared J))
          (and_then (rule_with id remote) (compared J))
        ↔ SameRule (rule_with id local) (rule_with id remote)
  SameCompared-iff id local remote = elim (Option-cases (rule_with id local)) [
    | inl e ↦ elim (Option-cases (rule_with id remote)) [
      | inl e' ↦ rw (e, e') (λ h. h, λ h. h)
      | inr (r, e') ↦
          let (c, made, _, _) = comparable-entries J r id (rule_with-rule_id id remote r e') in
          rw (e, e', made) (λ h. h, λ h. h)
    ]
    | inr (l, e) ↦
        let (b, made, _, at_b) = comparable-entries J l id (rule_with-rule_id id local l e) in
        elim (Option-cases (rule_with id remote)) [
          | inl e' ↦ rw (e, e', made) (λ h. h, λ h. h)
          | inr (r, e') ↦
              let (c, made', _, at_c) =
                comparable-entries J r id (rule_with-rule_id id remote r e') in
              rw (e, e', made, made')
                (λ h k. cc (h k, at_b k, at_c k), λ h k. cc (h k, at_b k, at_c k))
        ]
  ]

  -- A drift that was computed is clean exactly when, for every `rule_id`, either neither side has
  -- the rule, or both have it and their values are equal at every key, where the fields that the
  -- server owns and the pointers of the exception references are left out and its defaults filled
  -- in.
  pub is_clean_iff :
      (local remote : List Rule) (d : Drift)
      → compute J local remote ≡ ok d
      → (is_clean d ≡ true) ↔ ((id : String) → SameRule (rule_with id local) (rule_with id remote))
  unfolding is_clean
  is_clean_iff local remote d h =
      let C = Computed-of J local remote d h in
      (
        λ u id. (SameCompared-iff id local remote).0 (
            rw (C.get_left id, C.get_right id) at
              (same_at C.left C.right d.changes id C.classified u)),
        λ s. →all_unchanged C.left C.right (all_ids C.left C.right) d.changes C.classified (λ id.
            rw (C.get_left id, C.get_right id) ((SameCompared-iff id local remote).1 (s id))),
      )

  -- Two sides that differ only in fields that the server owns, in the pointers of the exception
  -- references and in defaults that one side spells out: their drift is clean.
  pub server_fields_clean :
      (local remote : List Rule) (d : Drift)
      → compute J local remote ≡ ok d
      → ((id : String) → is_some (rule_with id local) ≡ is_some (rule_with id remote))
      → ((id : String) (l r : Rule)
          → rule_with id local ≡ some l
          → rule_with id remote ≡ some r
          → (k : String) → comparable_entry J k (get k l.map) ≡ comparable_entry J k (get k r.map))
      → is_clean d ≡ true
  server_fields_clean local remote d h both same =
      (is_clean_iff local remote d h).1
        (λ id. go id (rule_with id local) (rule_with id remote) refl refl)
    where
      go :
          (id : String) (l r : Option Rule)
          → rule_with id local ≡ l
          → rule_with id remote ≡ r
          → SameRule l r
      go id none none e e' = tt
      go id none (some r) e e' = absurd (ground (arith, both id))
      go id (some l) none e e' = absurd (ground (arith, both id))
      go id (some l) (some r) e e' =
          λ k. rw (same id l r e e' k) (J.value_eq_refl (compared_at k r))
