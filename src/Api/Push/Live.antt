-- ===== src/Api/Push/Live.antt =====
-- The ids of lists that a push writes into its rules: where each is from.
use elasticctl.Prelude.{
  String, ◌≡◌, refl, true, Option, none, some, List, [], ◌∷◌, arith, ◌⊎◌, inl, inr, and_then,
  Option-cases, Bool-cases,
}
use elasticctl.Prelude.BTree
use elasticctl.Prelude.BTree.{BTreeMap}
use elasticctl.Prelude.Order.{◌=?◌, =?_iff}
use elasticctl.Json.{Value, null, boolean, number, string, array, object, JsonMap, get, as_str}
use elasticctl.Core.Error.{Result, ok, err, panic, Result-cases}
use elasticctl.Core.Error.Outcomes.{OnOk, bind-OnOk, always-OnOk, OnOk-intro}
use elasticctl.Api.Model.{ListKey}
use elasticctl.Api.Model.Keys.{key_ord}
use elasticctl.Api.Exceptions.{
  ExceptionList, list_key, canonical_list, canonical_item, item_id, item_list_id,
}
use elasticctl.Api.Selection.{is_not_found}
use elasticctl.Api.Reconcile.{
  ListOp, create_list, update_list, ItemOp, create_item, update_item, remove_item,
}
use elasticctl.Api.Reconcile.Planning.{Reads, resolve_from, resolve_ids}
use elasticctl.Api.Report.{ReportEntry}
use elasticctl.Api.Push.{
  Call, post_list, put_list, post_item, put_item, Server, failed_entry, readable,
}
use elasticctl.Api.Push.Calls.{list_call, item_call, delete_call}
use elasticctl.Api.Push.Writes.{
  Progress, Outcome, settle, same_key, resolve_created, continue, run, removed, list_op, item_op,
}

text_id : (o : Option Value) (s : String) → and_then o as_str ≡ some s → o ≡ some (string s)
text_id none s h = absurd (ground (arith, h))
text_id (some null) s h = absurd (ground (arith, h))
text_id (some (boolean b)) s h = absurd (ground (arith, h))
text_id (some (number n)) s h = absurd (ground (arith, h))
text_id (some (string t)) s h = ground (arith, h)
text_id (some (array vs)) s h = absurd (ground (arith, h))
text_id (some (object m)) s h = absurd (ground (arith, h))

module _ (J : JsonMap) (V : Server) (E : Reads) where
  -- the stack has the list, with this id
  abbrev pub HasId : ListKey → String → Type 0
  HasId k id = (l : ExceptionList) × (E.get_list k ≡ ok l) × (get "id" l.map ≡ some (string id))

  -- the stack answered the creation of the list with this id
  abbrev pub IsAnswered : ListKey → String → Type 0
  IsAnswered k id =
      (log : List Call) × (l created : ExceptionList) × (key : ListKey) × ((list_call J V post_list
          l log).0
        ≡ ok created)
      × (list_key l ≡ ok key)
      × (same_key k key ≡ true)
      × (get "id" created.map ≡ some (string id))

  -- every id is one that the stack has or answered with
  abbrev pub AreLive : (ListKey → Option String) → Type 0
  AreLive live = (k : ListKey) (id : String) → live k ≡ some id → HasId k id ⊎ IsAnswered k id

  resolve_from-AreLive :
      (ks : List ListKey) (m : BTreeMap ListKey String)
      → AreLive (λ k. BTree.get k m)
      → OnOk (λ n. AreLive (λ k. BTree.get k n)) (resolve_from E ks m)
  unfolding resolve_from
  resolve_from-AreLive [] m h = h
  resolve_from-AreLive (k ∷ ks) m h = elim (Result-cases (E.get_list k)) [
    | inl (l, e) ↦ elim (Option-cases (and_then (get "id" l.map) as_str)) [
      | inl gone ↦ rw (e, gone, OnOk) (resolve_from-AreLive ks m h)
      | inr (s, there) ↦
          rw (e, there, OnOk)
            (resolve_from-AreLive ks (BTree.insert k s m) (λ j id found.
              elim (Bool-cases (j =? k)) [
                | inr other ↦ h j id (ground (arith, found, other, BTree.get-insert j k s m))
                | inl same ↦
                    let at : k ≡ j = ground (arith, (=?_iff j k).0 same) in
                    let named : s ≡ id = ground (arith, found, same, BTree.get-insert j k s m) in
                    rw (← at, ← named) (inl (l, e, text_id (get "id" l.map) s there))
              ]))
    ]
    | inr (inl (w, e)) ↦ elim (Bool-cases (is_not_found w.kind)) [
      | inl passed ↦ rw (e, passed, OnOk) (resolve_from-AreLive ks m h)
      | inr stops ↦ rw (e, stops, OnOk) tt
    ]
    | inr (inr (w, e)) ↦ rw (e, OnOk) tt
  ]

  -- the ids that the stack has are live
  pub resolve_ids-AreLive :
      (ks : List ListKey) → OnOk (λ n. AreLive (λ k. BTree.get k n)) (resolve_ids E ks)
  unfolding resolve_ids BTree.get
  resolve_ids-AreLive ks = resolve_from-AreLive ks [] (λ k id h. absurd (ground (arith, h)))

  abbrev pub LiveOutcome : Outcome → Type 0
  LiveOutcome o = AreLive o.0.resolved

  settle-Live {ℓ} :
      {A : Type ℓ} (p : Progress) (f : A → Result Progress) (g : String → ReportEntry)
      (r : Result A × List Call)
      → AreLive p.resolved
      → ((a : A) → r.0 ≡ ok a → OnOk (λ q. AreLive q.resolved) (f a))
      → OnOk LiveOutcome (settle p f g r).0
  settle-Live p f g (ok a, l) h hf =
      bind-OnOk (λ q. AreLive q.resolved) LiveOutcome (f a) _ (hf a refl) (λ q k. k)
  settle-Live p f g (err e, l) h hf = h
  settle-Live p f g (panic w, l) h hf = tt

  continue-Live :
      (r : Result Outcome × List Call) (next : Progress → List Call → Result Outcome × List Call)
      → OnOk LiveOutcome r.0
      → ((q : Progress) (l : List Call) → AreLive q.resolved → OnOk LiveOutcome (next q l).0)
      → OnOk LiveOutcome (continue r next).0
  continue-Live (ok (q, none), l) next h more = more q l h
  continue-Live (ok (q, some e), l) next h more = h
  continue-Live (err e, l) next h more = tt
  continue-Live (panic w, l) next h more = tt

  pub run-Live {ℓ} :
      {A : Type ℓ} (step : Progress → A → List Call → Result Outcome × List Call)
      → ((p : Progress) (op : A) (log : List Call)
          → AreLive p.resolved
          → OnOk LiveOutcome (step p op log).0)
      → (p : Progress) (ops : List A) (log : List Call) → AreLive p.resolved
      → OnOk LiveOutcome (run step p ops log).0
  unfolding run
  run-Live step each p [] log h = h
  run-Live step each p (op ∷ ops) log h =
      continue-Live (step p op log) (λ q l. run step q ops l) (each p op log h)
        (λ q l k. run-Live step each q ops l k)

  resolve_created-Live :
      (log : List Call) (l created : ExceptionList) (p : Progress)
      → (list_call J V post_list l log).0 ≡ ok created
      → AreLive p.resolved
      → OnOk (λ q. AreLive q.resolved) (resolve_created l created p)
  unfolding resolve_created
  resolve_created-Live log l created p answered h =
      elim (Option-cases (and_then (get "id" created.map) as_str)) [
        | inl gone ↦ rw gone h
        | inr (s, there) ↦ rw there (
            bind-OnOk (λ key. list_key l ≡ ok key) (λ q. AreLive q.resolved) (list_key l) _
              (OnOk-intro _ (list_key l) (λ key e. e))
              (λ key keyed k id found. elim (Bool-cases (same_key k key)) [
                | inr other ↦ h k id (ground (arith, found, other))
                | inl same ↦
                    let named : s ≡ id = ground (arith, found, same) in
                    rw (← named) (
                      inr (
                        log,
                        l,
                        created,
                        key,
                        answered,
                        keyed,
                        same,
                        text_id (get "id" created.map) s there,
                      ))
              ]))
      ]

  pub list_op-Live :
      (p : Progress) (op : ListOp) (log : List Call)
      → AreLive p.resolved
      → OnOk LiveOutcome (list_op J V p op log).0
  unfolding list_op
  list_op-Live p (create_list l) log h =
      settle-Live p _ _ (list_call J V post_list l log) h (λ c answered.
        bind-OnOk (λ q. AreLive q.resolved) (λ q. AreLive q.resolved) (resolve_created l c p) _
          (resolve_created-Live log l c p answered h)
          (λ q k.
            bind-OnOk (λ _. Unit) (λ q. AreLive q.resolved) (canonical_list J c) _
              (always-OnOk (canonical_list J c)) (λ d u. k)))
  list_op-Live p (update_list before l) log h =
      settle-Live p _ _ (list_call J V put_list l log) h (λ c answered.
        bind-OnOk (λ _. Unit) (λ q. AreLive q.resolved) (canonical_list J c) _
          (always-OnOk (canonical_list J c)) (λ d u. h))

  pub item_op-Live :
      (p : Progress) (op : ItemOp) (log : List Call)
      → AreLive p.resolved
      → OnOk LiveOutcome (item_op J V p op log).0
  unfolding item_op
  item_op-Live p (create_item i) log h =
      settle-Live p _ _ (item_call J V post_item i log) h (λ c answered.
        bind-OnOk (λ _. Unit) (λ q. AreLive q.resolved) (canonical_item J c) _
          (always-OnOk (canonical_item J c)) (λ d u. h))
  item_op-Live p (update_item before i) log h =
      settle-Live p _ _ (item_call J V put_item i log) h (λ c answered.
        bind-OnOk (λ _. Unit) (λ q. AreLive q.resolved) (canonical_item J c) _
          (always-OnOk (canonical_item J c)) (λ d u. h))
  item_op-Live p (remove_item before namespace) log h =
      settle-Live p (removed p before)
        (failed_entry (readable (item_id before)) (readable (item_list_id before)) "delete_item"
          (some (object before.map)))
        (delete_call J V before namespace log) h (λ c answered. h)
