-- ===== src/Api/Reconcile/Resolvable.antt =====
-- The lists that a plan counts on: each is on the stack, or the plan creates it.
use elasticctl.Prelude.{◌≡◌, refl, true, List, [], ◌∷◌, ◌++◌, arith, ◌⊎◌, inl, inr, Bool-cases}
use elasticctl.Prelude.BTree.{contains, sort, contains-append, contains-sort, contains-dedup}
use elasticctl.Prelude.Order.{◌=?◌, =?_iff}
use elasticctl.Json.{JsonMap}
use elasticctl.Core.Error.{ok, Result-cases}
use elasticctl.Core.Error.Outcomes.{OnOk, bind-OnOk, always-OnOk, OnOk-intro, OnOk-elim}
use elasticctl.Api.Model.{Rule, ListKey}
use elasticctl.Api.Model.Keys.{key_ord}
use elasticctl.Api.Exceptions.{ExceptionList, ExceptionItem, list_key}
use elasticctl.Api.Selection.{is_not_found}
use elasticctl.Api.Reconcile.{
  ListOp, create_list, update_list, ExceptionPlan, index_lists, list_drift, item_reconciliation,
}
use elasticctl.Api.Reconcile.Planning.{
  Reads, fetch_remote_lists, readable_keys, created_keys, exception_plan, group_items, find_each,
  items_of_created,
}

-- the stack answers with a list of this key
abbrev pub IsOnStack : Reads → ListKey → Type 0
IsOnStack E k =
    (asked : ListKey) × (l : ExceptionList) × (E.get_list asked ≡ ok l) × (list_key l ≡ ok k)

-- one of the writes creates a list of this key
abbrev pub Creates : ListKey → List ListOp → Type 0
Creates k [] = ⊥
Creates k (op ∷ ops) =
    ((l : ExceptionList) × (op ≡ create_list l) × (list_key l ≡ ok k)) ⊎ Creates k ops

abbrev AreOnStack : Reads → List ExceptionList → Type 0
AreOnStack E ls = (k : ListKey) → contains k (readable_keys ls) ≡ true → IsOnStack E k

module _ (E : Reads) where
  AreOnStack-cons :
      (asked : ListKey) (l : ExceptionList) (ls : List ExceptionList)
      → E.get_list asked ≡ ok l
      → AreOnStack E ls
      → AreOnStack E (l ∷ ls)
  unfolding readable_keys contains
  AreOnStack-cons asked l ls there rest k h = elim (Result-cases (list_key l)) [
    | inr (inl (e, bad)) ↦ rest k (ground (arith, h, bad))
    | inr (inr (e, bad)) ↦ rest k (ground (arith, h, bad))
    | inl (j, good) ↦ elim (Bool-cases (k =? j)) [
      | inr other ↦ rest k (ground (arith, h, good, other))
      | inl same ↦ (asked, l, there, ground (arith, good, (=?_iff k j).0 same))
    ]
  ]

  fetch_remote_lists-AreOnStack :
      (ks : List ListKey) → OnOk (AreOnStack E) (fetch_remote_lists E ks)
  unfolding fetch_remote_lists readable_keys contains
  fetch_remote_lists-AreOnStack [] = λ k h. absurd (ground (arith, h))
  fetch_remote_lists-AreOnStack (k ∷ ks) =
      let rest = fetch_remote_lists-AreOnStack ks in
      elim (Result-cases (E.get_list k)) [
        | inl (l, e) ↦
            rw (e, OnOk)
              (bind-OnOk (AreOnStack E) (AreOnStack E) (fetch_remote_lists E ks) _ rest
                (λ ls h. AreOnStack-cons k l ls e h))
        | inr (inl (w, e)) ↦ elim (Bool-cases (is_not_found w.kind)) [
          | inl passed ↦ rw (e, passed, OnOk) rest
          | inr stops ↦ rw (e, stops, OnOk) tt
        ]
        | inr (inr (w, e)) ↦ rw (e, OnOk) tt
      ]

created_keys-Creates :
    (ops : List ListOp)
    → OnOk (λ ks. (k : ListKey) → contains k ks ≡ true → Creates k ops) (created_keys ops)
unfolding created_keys contains
created_keys-Creates [] = λ k h. absurd (ground (arith, h))
created_keys-Creates (update_list before l ∷ ops) = OnOk-intro _ (created_keys ops) (λ ks e k m.
    inr (
      OnOk-elim (λ js. (k : ListKey) → contains k js ≡ true → Creates k ops) (created_keys ops) ks
        (created_keys-Creates ops) e k m))
created_keys-Creates (create_list l ∷ ops) =
    let Q : List ListKey → Type 0 =
      λ ks. (k : ListKey) → contains k ks ≡ true → Creates k (create_list l ∷ ops) in
    bind-OnOk (λ j. list_key l ≡ ok j) Q (list_key l) _ (OnOk-intro _ (list_key l) (λ j e. e))
      λ j e.
        bind-OnOk (λ ks. (k : ListKey) → contains k ks ≡ true → Creates k ops) Q (created_keys ops)
          _ (created_keys-Creates ops)
          λ ks h k m. elim (Bool-cases (k =? j)) [
            | inl same ↦ inl (l, refl, ground (arith, e, (=?_iff k j).0 same))
            | inr other ↦ inr (h k (ground (arith, m, other)))
          ]

module _ (J : JsonMap) (E : Reads) where
  -- each list that a plan counts on is on the stack, or the plan creates it
  abbrev pub Counts : ExceptionPlan → Type 0
  Counts p = (k : ListKey) → contains k p.resolvable ≡ true → IsOnStack E k ⊎ Creates k p.list_ops

  pub exception_plan-Counts :
      (lists : List ExceptionList) (items : List ExceptionItem) (local live : List Rule)
      → OnOk Counts (exception_plan J E lists items local live)
  unfolding exception_plan
  exception_plan-Counts lists items local live =
      bind-OnOk (AreOnStack E) Counts (fetch_remote_lists E _) _ (fetch_remote_lists-AreOnStack E _)
        λ fetched there.
          bind-OnOk (λ _. Unit) Counts (index_lists J "local" _) _ (always-OnOk _)
            λ indexed _.
              bind-OnOk (λ _. Unit) Counts (index_lists J "remote" fetched) _ (always-OnOk _)
                λ remote _.
                  bind-OnOk (λ _. Unit) Counts (list_drift J indexed remote) _ (always-OnOk _)
                    λ drift _.
                      bind-OnOk (λ ks. (k : ListKey) → contains k ks ≡ true → Creates k drift.1)
                        Counts (created_keys drift.1) _ (created_keys-Creates drift.1)
                        λ created made.
                          bind-OnOk (λ _. Unit) Counts (group_items items) _ (always-OnOk _)
                            λ grouped _.
                              bind-OnOk (λ _. Unit) Counts (find_each E _) _ (always-OnOk _)
                                λ found _.
                                  bind-OnOk (λ _. Unit) Counts (items_of_created grouped drift.1) _
                                    (always-OnOk _)
                                    λ new _.
                                      bind-OnOk (λ _. Unit) Counts
                                        (item_reconciliation J _ grouped found) _ (always-OnOk _)
                                        λ changes _ k m.
                                          elim (Bool-cases (contains k (readable_keys fetched))) [
                                            | inl here ↦ inl (there k here)
                                            | inr other ↦ inr (
                                                made k (
                                                  ground (
                                                    arith,
                                                    m,
                                                    other,
                                                    contains-dedup k
                                                        (sort (readable_keys fetched ++ created)),
                                                    contains-sort k
                                                        (readable_keys fetched ++ created),
                                                    contains-append k (readable_keys fetched)
                                                        created,
                                                  )))
                                          ]
