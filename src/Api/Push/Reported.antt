-- ===== src/Api/Push/Reported.antt =====
-- What a push leaves in its report.
use elasticctl.Prelude.{
  ℕ, suc, ◌+◌, ◌++◌, length, length-append, is_some, true, subst, String, ◌≡◌, refl, false, Option,
  none, some, List, [], ◌∷◌, All, All-append, arith, if◌then◌else◌, inl, inr, Option-cases,
  Bool-cases, and_then,
}
use elasticctl.Prelude.Order.{◌=?◌, string_ord}
use elasticctl.Prelude.BTree
use elasticctl.Prelude.BTree.{BTreeMap}
use elasticctl.Json.{object, JsonMap, get, as_str}
use elasticctl.Core.Error.{Result, ok, err, panic, Result-cases}
use elasticctl.Core.Error.Outcomes.{OnOk, bind-OnOk, always-OnOk}
use elasticctl.Api.Model.{Rule, ListKey}
use elasticctl.Api.Normalize.{canonical}
use elasticctl.Api.Exceptions.{
  ExceptionList, canonical_list, canonical_item, list_key, item_id, item_list_id,
}
use elasticctl.Api.Pointers.{inject_list_ids}
use elasticctl.Api.Report.{ReportEntry, is_write, is_pending}
use elasticctl.Api.Push.{
  Call, post_list, put_list, post_item, put_item, post_rule, put_rule, Server, readable,
  failed_entry,
}
use elasticctl.Api.Reconcile.{
  ListOp, create_list, update_list, ItemOp, create_item, update_item, remove_item,
}
use elasticctl.Api.Push.Calls.{list_call, item_call, rule_call, delete_call}
use elasticctl.Api.Push.Writes.{
  Progress, Outcome, settle, resolve_id, resolve_created, continue, run, removed, list_op, item_op,
  sent_entry, rule_entry, after_entry, rule_entries,
}

-- An entry of a write that was done: not pending, and without an error.
abbrev pub IsDone : ReportEntry → Type 0
IsDone e = (is_pending e ≡ false) × (e.error ≡ none)

-- So many exception writes were done, and none is pending or has failed.
abbrev pub Quiet : ℕ → Progress → Type 0
Quiet n p = All IsDone p.entries × (length p.entries ≡ n)

-- After another write: it was done too, or the phase stops at its error.
abbrev pub QuietOutcome : ℕ → Outcome → Type 0
QuietOutcome n o = elim o.1 [
  | none ↦ Quiet n o.0
  | some e ↦ All IsDone o.0.entries × (is_pending e ≡ false) × (is_some e.error ≡ true)
]

push-Quiet :
    (n : ℕ) (es : List ReportEntry) (e : ReportEntry)
    → All IsDone es
    → length es ≡ n
    → IsDone e
    → All IsDone (es ++ e ∷ []) × (length (es ++ e ∷ []) ≡ n + 1)
push-Quiet n es e done count one =
    (All-append IsDone es (e ∷ []) done (one, tt), ground (arith, length-append es (e ∷ []), count))

settle-Quiet {ℓ} :
    {A : Type ℓ} (n : ℕ) (p : Progress) (f : A → Result Progress) (g : String → ReportEntry)
    (r : Result A × List Call)
    → Quiet n p
    → ((a : A) → OnOk (Quiet (n + 1)) (f a))
    → ((why : String) → (is_pending (g why) ≡ false) × (is_some (g why).error ≡ true))
    → OnOk (QuietOutcome (n + 1)) (settle p f g r).0
settle-Quiet n p f g (ok a, l) h hf hg =
    bind-OnOk (Quiet (n + 1)) (QuietOutcome (n + 1)) (f a) (λ q. ok (q, none)) (hf a) (λ q k. k)
settle-Quiet n p f g (err e, l) h hf hg =
    let (settled, failed) = hg e.message in (h.0, settled, failed)
settle-Quiet n p f g (panic w, l) h hf hg = tt

continue-Quiet :
    (n m : ℕ) (r : Result Outcome × List Call)
    (next : Progress → List Call → Result Outcome × List Call)
    → OnOk (QuietOutcome n) r.0
    → ((q : Progress) (l : List Call) → Quiet n q → OnOk (QuietOutcome m) (next q l).0)
    → OnOk (QuietOutcome m) (continue r next).0
continue-Quiet n m (ok (q, none), l) next h more = more q l h
continue-Quiet n m (ok (q, some e), l) next h more = h
continue-Quiet n m (err e, l) next h more = tt
continue-Quiet n m (panic w, l) next h more = tt

pub run-Quiet {ℓ} :
    {A : Type ℓ} (step : Progress → A → List Call → Result Outcome × List Call)
    → ((n : ℕ) (p : Progress) (op : A) (log : List Call)
        → Quiet n p
        → OnOk (QuietOutcome (n + 1)) (step p op log).0)
    → (n : ℕ) (p : Progress) (ops : List A) (log : List Call) → Quiet n p
    → OnOk (QuietOutcome (n + length ops)) (run step p ops log).0
unfolding run
run-Quiet step each n p [] log h = (h.0, ground (arith, h.1))
run-Quiet step each n p (op ∷ ops) log h =
    let same : n + 1 + length ops ≡ n + suc (length ops) = ground arith in
    subst (λ (m : ℕ). OnOk (QuietOutcome m) (run step p (op ∷ ops) log).0) same
      (continue-Quiet (n + 1) (n + 1 + length ops) (step p op log) (λ q l. run step q ops l)
        (each n p op log h) (λ q l k. run-Quiet step each (n + 1) q ops l k))

resolve_id-Quiet :
    (n : ℕ) (l : ExceptionList) (p : Progress) (id : Option String)
    → Quiet n p
    → OnOk (Quiet n) (resolve_id l p id)
resolve_id-Quiet n l p none h = h
resolve_id-Quiet n l p (some id) h =
    bind-OnOk (λ _. Unit) (Quiet n) (list_key l) _ (always-OnOk (list_key l)) (λ k u. h)

resolve_created-Quiet :
    (n : ℕ) (l c : ExceptionList) (p : Progress)
    → Quiet n p
    → OnOk (Quiet n) (resolve_created l c p)
unfolding resolve_created
resolve_created-Quiet n l c p h = resolve_id-Quiet n l p (and_then (get "id" c.map) as_str) h

module _ (J : JsonMap) (S : Server) where
  pub list_op-Quiet :
      (n : ℕ) (p : Progress) (op : ListOp) (log : List Call)
      → Quiet n p
      → OnOk (QuietOutcome (n + 1)) (list_op J S p op log).0
  unfolding list_op is_pending
  list_op-Quiet n p (create_list l) log h =
      settle-Quiet n p _ _ (list_call J S post_list l log) h
        (λ c.
          bind-OnOk (Quiet n) (Quiet (n + 1)) (resolve_created l c p) _
            (resolve_created-Quiet n l c p h)
            (λ q k.
              bind-OnOk (λ _. Unit) (Quiet (n + 1)) (canonical_list J c) _
                (always-OnOk (canonical_list J c))
                (λ d u. push-Quiet n q.entries _ k.0 k.1 (ground arith, refl))))
        (λ why. (ground arith, refl))
  list_op-Quiet n p (update_list before l) log h =
      settle-Quiet n p _ _ (list_call J S put_list l log) h
        (λ c.
          bind-OnOk (λ _. Unit) (Quiet (n + 1)) (canonical_list J c) _
            (always-OnOk (canonical_list J c))
            (λ d u. push-Quiet n p.entries _ h.0 h.1 (ground arith, refl)))
        (λ why. (ground arith, refl))

  pub item_op-Quiet :
      (n : ℕ) (p : Progress) (op : ItemOp) (log : List Call)
      → Quiet n p
      → OnOk (QuietOutcome (n + 1)) (item_op J S p op log).0
  unfolding item_op is_pending
  item_op-Quiet n p (create_item i) log h =
      settle-Quiet n p _ _ (item_call J S post_item i log) h
        (λ c.
          bind-OnOk (λ _. Unit) (Quiet (n + 1)) (canonical_item J c) _
            (always-OnOk (canonical_item J c))
            (λ d u. push-Quiet n p.entries _ h.0 h.1 (ground arith, refl)))
        (λ why. (ground arith, refl))
  item_op-Quiet n p (update_item before i) log h =
      settle-Quiet n p _ _ (item_call J S put_item i log) h
        (λ c.
          bind-OnOk (λ _. Unit) (Quiet (n + 1)) (canonical_item J c) _
            (always-OnOk (canonical_item J c))
            (λ d u. push-Quiet n p.entries _ h.0 h.1 (ground arith, refl)))
        (λ why. (ground arith, refl))
  item_op-Quiet n p (remove_item before namespace) log h =
      settle-Quiet n p (removed p before)
        (failed_entry (readable (item_id before)) (readable (item_list_id before)) "delete_item"
          (some (object before.map)))
        (delete_call J S before namespace log) h
        (λ c. push-Quiet n p.entries _ h.0 h.1 (ground arith, refl)) (λ why. (ground arith, refl))

-- The planned entries, each with what it is about, in their order.
abbrev pub AreKept : List ReportEntry → List ReportEntry → Type 0
AreKept [] [] = Unit {0}
AreKept (e ∷ es) (d ∷ ds) =
    ((d.rule_id ≡ e.rule_id) × (d.name ≡ e.name) × (d.action ≡ e.action) × (d.before ≡ e.before))
    × AreKept es ds
AreKept _ _ = ⊥

-- The entry of a rule after the push: not pending, and about what was planned.
abbrev pub IsSettled : ReportEntry → ReportEntry → Type 0
IsSettled e d =
    (is_pending d ≡ false)
    × ((d.rule_id ≡ e.rule_id) × (d.name ≡ e.name) × (d.action ≡ e.action) × (d.before ≡ e.before))

abbrev pub AreSettled : List ReportEntry → List ReportEntry → Type 0
AreSettled es ds = All (λ d. is_pending d ≡ false) ds × AreKept es ds

same :
    (e : ReportEntry)
    → (e.rule_id ≡ e.rule_id) × (e.name ≡ e.name) × (e.action ≡ e.action) × (e.before ≡ e.before)
same e = (refl, refl, refl, refl)

pub AreKept-refl : (es : List ReportEntry) → AreKept es es
AreKept-refl [] = tt
AreKept-refl (e ∷ es) = (same e, AreKept-refl es)

module _ (J : JsonMap) (S : Server) where
  sent_entry-IsSettled :
      (e : ReportEntry) (r : Result Rule × List Call) → OnOk (IsSettled e) (sent_entry J S e r).0
  unfolding sent_entry is_pending
  sent_entry-IsSettled e (ok r, l) =
      bind-OnOk (λ _. Unit) (IsSettled e) (canonical J r) _ (always-OnOk (canonical J r))
        (λ c u. (ground arith, same e))
  sent_entry-IsSettled e (err w, l) = (ground arith, same e)
  sent_entry-IsSettled e (panic w, l) = tt

  module _ (live : ListKey → Option String) (desired : BTreeMap String Rule) where
    rule_entry-IsSettled :
        (e : ReportEntry) (log : List Call)
        → OnOk (IsSettled e) (rule_entry J S live desired e log).0
    unfolding rule_entry is_pending
    rule_entry-IsSettled e log = elim (Bool-cases (is_write e)) [
      | inr off ↦ rw (off, OnOk) (ground (arith, off), same e)
      | inl on ↦ elim (Option-cases (BTree.get e.rule_id desired)) [
        | inl none_there ↦ rw (on, none_there, OnOk) (ground arith, same e)
        | inr (r, there) ↦ elim (Result-cases (inject_list_ids J live r)) [
          | inl (r', fine) ↦
              rw (on, there, fine, OnOk)
                (sent_entry-IsSettled e
                  (rule_call J S (if e.action =? "create" then post_rule else put_rule) r' log))
          | inr (inl (w, bad)) ↦ rw (on, there, bad, OnOk) (ground arith, same e)
          | inr (inr (w, bad)) ↦ rw (on, there, bad, OnOk) tt
        ]
      ]
    ]

    after_entry-AreSettled :
        (e : ReportEntry) (es : List ReportEntry) (r : Result ReportEntry × List Call)
        (next : List Call → Result (List ReportEntry) × List Call)
        → OnOk (IsSettled e) r.0
        → ((l : List Call) → OnOk (AreSettled es) (next l).0)
        → OnOk (AreSettled (e ∷ es)) (after_entry J S r next).0
    after_entry-AreSettled e es (ok d, l) next h more =
        bind-OnOk (AreSettled es) (AreSettled (e ∷ es)) (next l).0 (λ ds. ok (d ∷ ds)) (more l)
          (λ ds k. ((h.0, k.0), (h.1, k.1)))
    after_entry-AreSettled e es (err w, l) next h more = tt
    after_entry-AreSettled e es (panic w, l) next h more = tt

    pub rule_entries-AreSettled :
        (es : List ReportEntry) (log : List Call)
        → OnOk (AreSettled es) (rule_entries J S live desired es log).0
    unfolding rule_entries
    rule_entries-AreSettled [] log = (tt, tt)
    rule_entries-AreSettled (e ∷ es) log =
        after_entry-AreSettled e es (rule_entry J S live desired e log)
          (rule_entries J S live desired es) (rule_entry-IsSettled e log)
          (rule_entries-AreSettled es)
