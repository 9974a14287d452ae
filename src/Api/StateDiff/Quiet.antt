-- ===== src/Api/StateDiff/Quiet.antt =====
-- Where `diff` finds nothing, `push` does nothing.
use elasticctl.Prelude.{
  String, ◌≡◌, refl, sym, ◌∙◌, Bool, true, ◌&&◌, Option, none, some, List, [], ◌∷◌, ◌++◌, arith,
  all, inl, inr, List-cases, Bool-cases,
}
use elasticctl.Prelude.Order.{string_ord}
use elasticctl.Prelude.BTree
use elasticctl.Prelude.BTree.{BTreeMap, sort, dedup, keys}
use elasticctl.Json.{object, JsonMap}
use elasticctl.Core.Error.{Result}
use elasticctl.Core.Error.Outcomes.{OnOk, bind-OnOk, always-OnOk}
use elasticctl.Api.Model.{ListKey}
use elasticctl.Api.Model.Keys.{key_ord}
use elasticctl.Api.Exceptions.{ExceptionList, ExceptionItem, canonical_item}
use elasticctl.Api.Reconcile.{
  ListChange, is_list_unchanged, collect, add_change, list_field_changes, classify_list, list_drift,
  index_items, classify_item, reconcile, item_reconciliation,
}

-- Changes that are all of lists that are the same come with no write.
abbrev pub IsQuiet {ℓ} : {A : Type ℓ} → List ListChange × List A → Type ℓ
IsQuiet found = all is_list_unchanged found.0 ≡ true → found.1 ≡ []

pub all-append :
    {A : Type 0} (p : A → Bool) (xs ys : List A) → all p (xs ++ ys) ≡ (all p xs && all p ys)
all-append p [] ys = refl
all-append p (x ∷ xs) ys = ground (arith, all-append p xs ys)

module _ {A : Type 0} where
  add_change-IsQuiet :
      (f g : List ListChange × List A) → IsQuiet f → IsQuiet g → IsQuiet (add_change f g)
  add_change-IsQuiet (cs, ops) (ds, more) hf hg u =
      let parts : (all is_list_unchanged cs && all is_list_unchanged ds) ≡ true =
        sym (all-append is_list_unchanged cs ds) ∙ u in
      let left : ops ≡ [] = hf (ground (arith, parts)) in
      let right : more ≡ [] = hg (ground (arith, parts)) in rw (left, right) refl

  collect-IsQuiet :
      {K : Type 0} (classify : K → Result (List ListChange × List A))
      → ((k : K) → OnOk IsQuiet (classify k))
      → (ks : List K) → OnOk IsQuiet (collect classify ks)
  unfolding collect
  collect-IsQuiet classify each [] = λ u. refl
  collect-IsQuiet classify each (k ∷ ks) =
      bind-OnOk IsQuiet IsQuiet (classify k) _ (each k) (λ found quiet.
        bind-OnOk IsQuiet IsQuiet (collect classify ks) _ (collect-IsQuiet classify each ks)
          (λ rest more. add_change-IsQuiet found rest quiet more))

module _ (J : JsonMap) where
  classify_list-IsQuiet :
      (key : ListKey) (l r : Option ExceptionList) → OnOk IsQuiet (classify_list J key l r)
  unfolding classify_list is_list_unchanged
  classify_list-IsQuiet key (some l) none = λ u. absurd (ground (arith, u))
  classify_list-IsQuiet key none (some r) = λ u. refl
  classify_list-IsQuiet key (some l) (some r) = elim (List-cases (list_field_changes J r l)) [
    | inl e ↦ rw (e, OnOk) (λ u. refl)
    | inr (f, fs, e) ↦ rw (e, OnOk) (λ u. absurd (ground (arith, u)))
  ]
  classify_list-IsQuiet key none none = tt

  classify_item-IsQuiet :
      (key : ListKey) (id : String) (l r : Option ExceptionItem)
      → OnOk IsQuiet (classify_item J key id l r)
  unfolding classify_item is_list_unchanged
  classify_item-IsQuiet key id (some l) none = λ u. absurd (ground (arith, u))
  classify_item-IsQuiet key id none (some r) =
      bind-OnOk (λ _. Unit) IsQuiet (canonical_item J r) _ (always-OnOk (canonical_item J r))
        (λ c _ u. absurd (ground (arith, u)))
  classify_item-IsQuiet key id (some l) (some r) =
      bind-OnOk (λ _. Unit) IsQuiet (canonical_item J l) _ (always-OnOk (canonical_item J l))
        (λ c _.
          bind-OnOk (λ _. Unit) IsQuiet (canonical_item J r) _ (always-OnOk (canonical_item J r))
            (λ d _. elim (Bool-cases (J.value_eq (object c.map) (object d.map))) [
              | inl e ↦ rw (e, OnOk) (λ u. refl)
              | inr e ↦ rw (e, OnOk) (λ u. absurd (ground (arith, u)))
            ]))
  classify_item-IsQuiet key id none none = tt

  reconcile-IsQuiet :
      (key : ListKey) (local remote : List ExceptionItem)
      → OnOk IsQuiet (reconcile J key local remote)
  unfolding reconcile
  reconcile-IsQuiet key local remote =
      bind-OnOk (λ _. Unit) IsQuiet (index_items "local" local []) _
        (always-OnOk (index_items "local" local []))
        (λ l _.
          bind-OnOk (λ _. Unit) IsQuiet (index_items "remote" remote []) _
            (always-OnOk (index_items "remote" remote []))
            (λ r _.
              collect-IsQuiet (λ id. classify_item J key id (BTree.get id l) (BTree.get id r))
                (λ id. classify_item-IsQuiet key id (BTree.get id l) (BTree.get id r))
                (dedup (sort (keys l ++ keys r)))))

  pub item_reconciliation-IsQuiet :
      (both : List ListKey) (local remote : BTreeMap ListKey (List ExceptionItem))
      → OnOk IsQuiet (item_reconciliation J both local remote)
  unfolding item_reconciliation
  item_reconciliation-IsQuiet both local remote =
      collect-IsQuiet _ (λ key. reconcile-IsQuiet key _ _) both

  pub list_drift-IsQuiet :
      (local remote : BTreeMap ListKey ExceptionList)
      → OnOk
          (λ found. all is_list_unchanged found.0.changes ≡ true → found.1 ≡ [])
          (list_drift J local remote)
  unfolding list_drift
  list_drift-IsQuiet local remote =
      bind-OnOk IsQuiet (λ found. all is_list_unchanged found.0.changes ≡ true → found.1 ≡ [])
        (collect (λ key. classify_list J key (BTree.get key local) (BTree.get key remote))
          (dedup (sort (keys local ++ keys remote))))
        _
        (collect-IsQuiet (λ key. classify_list J key (BTree.get key local) (BTree.get key remote))
          (λ key. classify_list-IsQuiet key (BTree.get key local) (BTree.get key remote))
          (dedup (sort (keys local ++ keys remote))))
        (λ found quiet. quiet)
