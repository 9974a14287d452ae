-- ===== src/Api/Push/Planned.antt =====
-- What holds of the plan of a push.
use elasticctl.Prelude.{
  String, ◌≡◌, refl, ◌∙◌, true, false, none, some, List, [], ◌∷◌, is_some, arith, All, All-append,
  All-imp, inl, inr, Option-cases, Bool-cases,
}
use elasticctl.Prelude.Order.{◌=?◌, string_ord, =?_iff}
use elasticctl.Prelude.BTree
use elasticctl.Prelude.BTree.{BTreeMap, insert, get-insert, contains}
use elasticctl.Json.{JsonMap}
use elasticctl.Core.Error.Outcomes.{OnOk, bind-OnOk, always-OnOk}
use elasticctl.Api.Model.{Rule, name}
use elasticctl.Api.Model.Keys.{key_ord}
use elasticctl.Api.Drift.{Change, added, modified, unchanged, remote_only}
use elasticctl.Api.Report.{ReportEntry, is_write}
use elasticctl.Api.Reconcile.{DanglingPointer}
use elasticctl.Api.Push.Planning.{
  by_id, canonical_value, skipped_entries, Planned, plan_write, plan_change, plan_changes,
  plan_repairs, planned_entry,
}

-- The entry of something that is only planned.
abbrev pub IsProposed : ReportEntry → Type 0
IsProposed e = (e.applied ≡ false) × (e.error ≡ none)

-- The entry of a write has a rule to write.
abbrev pub HasRule : BTreeMap String Rule → ReportEntry → Type 0
HasRule desired e = is_write e ≡ true → is_some (BTree.get e.rule_id desired) ≡ true

-- Every rule to write is the mirror's under its `rule_id`.
abbrev pub AreLocal : List Rule → BTreeMap String Rule → Type 0
AreLocal local desired =
    (id : String) (r : Rule) → BTree.get id desired ≡ some r → by_id id local ≡ some r

abbrev pub IsSound : List Rule → Planned → Type 0
IsSound local p = All (λ e. IsProposed e × HasRule p.1 e) p.0 × AreLocal local p.1

get-insert_self :
    (id : String) (r : Rule) (m : BTreeMap String Rule) → BTree.get id (insert id r m) ≡ some r
get-insert_self id r m = ground (arith, get-insert id id r m, =?_iff id id)

HasRule-insert :
    (id : String) (r : Rule) (m : BTreeMap String Rule) (e : ReportEntry)
    → HasRule m e
    → HasRule (insert id r m) e
HasRule-insert id r m e h w = ground (arith, h w, get-insert e.rule_id id r m)

AreLocal-insert :
    (local : List Rule) (id : String) (r : Rule) (m : BTreeMap String Rule)
    → by_id id local ≡ some r
    → AreLocal local m
    → AreLocal local (insert id r m)
AreLocal-insert local id r m there h k s e = elim (Bool-cases (k =? id)) [
  | inl here ↦
      let same : k ≡ id = (=?_iff k id).0 here in
      rw same (there ∙ ground (arith, get-insert k id r m, here, e))
  | inr other ↦ h k s (ground (arith, get-insert k id r m, other, e))
]

module _ (J : JsonMap) (local live : List Rule) where
  pub skipped_entries-IsSound :
      (cs : List Change) → OnOk (λ es. IsSound local (es, [])) (skipped_entries J live cs)
  unfolding skipped_entries is_write planned_entry BTree.get
  skipped_entries-IsSound [] = (tt, λ id r h. absurd (ground (arith, h)))
  skipped_entries-IsSound (added id n ∷ cs) = skipped_entries-IsSound cs
  skipped_entries-IsSound (modified id n fs ∷ cs) = skipped_entries-IsSound cs
  skipped_entries-IsSound (unchanged id ∷ cs) = skipped_entries-IsSound cs
  skipped_entries-IsSound (remote_only id n ∷ cs) =
      bind-OnOk (λ _. Unit) (λ es. IsSound local (es, [])) (canonical_value J (by_id id live)) _
        (always-OnOk (canonical_value J (by_id id live)))
        (λ before u.
          bind-OnOk (λ es. IsSound local (es, [])) (λ es. IsSound local (es, []))
            (skipped_entries J live cs) _ (skipped_entries-IsSound cs)
            (λ es h. ((((refl, refl), λ w. absurd (ground (arith, w))), h.0), h.1)))

  plan_write-IsSound :
      (id n action : String) (r : Rule) (p : Planned)
      → by_id id local ≡ some r
      → IsSound local p
      → OnOk (IsSound local) (plan_write J live id n action r p)
  unfolding plan_write planned_entry
  plan_write-IsSound id n action r (es, desired) there h =
      bind-OnOk (λ _. Unit) (IsSound local) (canonical_value J (by_id id live)) _
        (always-OnOk (canonical_value J (by_id id live)))
        (λ before u.
          bind-OnOk (λ _. Unit) (IsSound local) (canonical_value J (some r)) _
            (always-OnOk (canonical_value J (some r)))
            (λ after u'. (
              All-append (λ e. IsProposed e × HasRule (insert id r desired) e) es (_ ∷ [])
                  (All-imp (λ e k. (k.0, HasRule-insert id r desired e k.1)) es h.0)
                  (((refl, refl), λ w. rw (get-insert_self id r desired) refl), tt),
              AreLocal-insert local id r desired there h.1,
            )))

  plan_change-IsSound :
      (c : Change) (p : Planned)
      → IsSound local p
      → OnOk (IsSound local) (plan_change J local live c p)
  unfolding plan_change
  plan_change-IsSound (added id n) p h = elim (Option-cases (by_id id local)) [
    | inl e ↦ rw (e, OnOk) h
    | inr (r, e) ↦ rw (e, OnOk) (plan_write-IsSound id n "create" r p e h)
  ]
  plan_change-IsSound (modified id n fs) p h = elim (Option-cases (by_id id local)) [
    | inl e ↦ rw (e, OnOk) h
    | inr (r, e) ↦ rw (e, OnOk) (plan_write-IsSound id n "update" r p e h)
  ]
  plan_change-IsSound (unchanged id) p h = h
  plan_change-IsSound (remote_only id n) p h = h

  pub plan_changes-IsSound :
      (cs : List Change) (p : Planned)
      → IsSound local p
      → OnOk (IsSound local) (plan_changes J local live cs p)
  unfolding plan_changes
  plan_changes-IsSound [] p h = h
  plan_changes-IsSound (c ∷ cs) p h =
      bind-OnOk (IsSound local) (IsSound local) (plan_change J local live c p) _
        (plan_change-IsSound c p h) (λ q k. plan_changes-IsSound cs q k)

  pub plan_repairs-IsSound :
      (ds : List DanglingPointer) (p : Planned)
      → IsSound local p
      → OnOk (IsSound local) (plan_repairs J local live ds p)
  unfolding plan_repairs
  plan_repairs-IsSound [] p h = h
  plan_repairs-IsSound (d ∷ ds) p h = elim (Option-cases (by_id d.rule_id local)) [
    | inl e ↦ rw (e, OnOk) tt
    | inr (r, e) ↦
        rw (e, OnOk)
          (bind-OnOk (IsSound local) (IsSound local)
            (plan_write J live d.rule_id (name r) "update" r p) _
            (plan_write-IsSound d.rule_id (name r) "update" r p e h)
            (λ q k. plan_repairs-IsSound ds q k))
  ]
