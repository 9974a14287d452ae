-- ===== src/Api/Push/Requests.antt =====
-- The requests that the writes of a list, an item and a rule add to those before.
use elasticctl.Prelude.{
  ℕ, String, ◌≡◌, refl, subst, none, some, List, [], ◌∷◌, ◌++◌, All, All-append, arith,
}
use elasticctl.Prelude.Order.{string_ord}
use elasticctl.Json.{Value, object, JsonMap}
use elasticctl.Core.Error.{Result, ok, err, panic, ◌>>=◌, bind-ok_inv}
use elasticctl.Api.Model.{Rule, into_value}
use elasticctl.Api.Normalize.{strip_volatile}
use elasticctl.Api.Exceptions.{
  ExceptionList, ExceptionItem, canonical_list, canonical_item, item_id, list_from_value,
  item_from_value,
}
use elasticctl.Api.Report.{ReportEntry}
use elasticctl.Api.Push.{
  Call, post_list, put_list, post_item, put_item, delete_item, post_rule, put_rule, Server,
  readable,
}
use elasticctl.Api.Push.Calls.{send, exception_call, list_call, item_call, rule_call, delete_call}
use elasticctl.Api.Push.Writes.{Progress, Outcome, settle, continue, run, sent_entry, after_entry}

-- the phase of a request: 0 for lists, 1 for items and 2 for rules
unfoldable pub phase : Call → ℕ
phase (post_list v) = 0
phase (put_list v) = 0
phase (post_item v) = 1
phase (put_item v) = 1
phase (delete_item id namespace) = 1
phase (post_rule v) = 2
phase (put_rule v) = 2

-- The requests after `log` satisfy `K`, and those of `log` stay.
abbrev pub Extends : (Call → Type 0) → List Call → List Call → Type 0
Extends K log log' = (new : List Call) × (log' ≡ new ++ log) × All K new

module _ {K : Call → Type 0} where
  pub Extends-refl : (log : List Call) → Extends K log log
  Extends-refl log = ([], refl, tt)

  pub Extends-trans : (a b c : List Call) → Extends K a b → Extends K b c → Extends K a c
  Extends-trans a b c (n, e, h) (m, e', h') =
      (m ++ n, grind (arith, e, e', append_assoc m n a), All-append K m n h' h)
    where
      append_assoc : (x y z : List Call) → (x ++ y) ++ z ≡ x ++ (y ++ z)
      append_assoc [] y z = refl
      append_assoc (w ∷ x) y z = cc (append_assoc x y z)

  pub settle-Extends {ℓ} :
      {A : Type ℓ} (p : Progress) (f : A → Result Progress) (g : String → ReportEntry)
      (log : List Call) (r : Result A × List Call)
      → Extends K log r.1
      → Extends K log (settle p f g r).1
  settle-Extends p f g log (ok a, l) h = h
  settle-Extends p f g log (err e, l) h = h
  settle-Extends p f g log (panic w, l) h = h

  pub continue-Extends :
      (log : List Call) (r : Result Outcome × List Call)
      (next : Progress → List Call → Result Outcome × List Call)
      → Extends K log r.1
      → ((q : Progress) (l : List Call) → Extends K l (next q l).1)
      → Extends K log (continue r next).1
  continue-Extends log (ok (q, none), l) next h more = Extends-trans log l (next q l).1 h (more q l)
  continue-Extends log (ok (q, some e), l) next h more = h
  continue-Extends log (err e, l) next h more = h
  continue-Extends log (panic w, l) next h more = h

  pub run-Extends {ℓ} :
      {A : Type ℓ} (step : Progress → A → List Call → Result Outcome × List Call)
      → ((p : Progress) (op : A) (log : List Call) → Extends K log (step p op log).1)
      → (p : Progress) (ops : List A) (log : List Call) → Extends K log (run step p ops log).1
  unfolding run
  run-Extends step each p [] log = Extends-refl log
  run-Extends step each p (op ∷ ops) log =
      continue-Extends log (step p op log) (λ q l. run step q ops l) (each p op log)
        (λ q l. run-Extends step each q ops l)

  module _ (J : JsonMap) (S : Server) where
    pub send-Extends :
        (log : List Call) (call : Result Call)
        → ((c : Call) → call ≡ ok c → K c)
        → Extends K log (send J S log call).1
    unfolding send
    send-Extends log (ok c) h = (c ∷ [], refl, (h c refl, tt))
    send-Extends log (err e) h = Extends-refl log
    send-Extends log (panic w) h = Extends-refl log

    pub exception_call-Extends {ℓ} :
        {A : Type ℓ} (read : Value → Result A) (log : List Call) (call : Result Call)
        → ((c : Call) → call ≡ ok c → K c)
        → Extends K log (exception_call J S read log call).1
    unfolding exception_call
    exception_call-Extends read log call h =
        send-Extends log (S.require_exception_lists log >>= λ _. call) (λ c e.
          let (u, one, two) = bind-ok_inv (S.require_exception_lists log) (λ _. call) e in h c two)

    pub list_call-Extends :
        (call : Value → Call) (l : ExceptionList) (log : List Call)
        → ((v : Value) → K (call v))
        → Extends K log (list_call J S call l log).1
    unfolding list_call
    list_call-Extends call l log h =
        exception_call-Extends list_from_value log
          (canonical_list J l >>= λ p. ok (call (object p.map)))
          (λ c e.
            let (p, one, two) =
              bind-ok_inv (canonical_list J l) (λ p. ok (call (object p.map))) e in
            let same : call (object p.map) ≡ c = ground (arith, two) in
            subst K same (h (object p.map)))

    pub item_call-Extends :
        (call : Value → Call) (i : ExceptionItem) (log : List Call)
        → ((v : Value) → K (call v))
        → Extends K log (item_call J S call i log).1
    unfolding item_call
    item_call-Extends call i log h =
        exception_call-Extends item_from_value log
          (canonical_item J i >>= λ p. ok (call (object p.map)))
          (λ c e.
            let (p, one, two) =
              bind-ok_inv (canonical_item J i) (λ p. ok (call (object p.map))) e in
            let same : call (object p.map) ≡ c = ground (arith, two) in
            subst K same (h (object p.map)))

    pub delete_call-Extends :
        (before : ExceptionItem) (namespace : String) (log : List Call)
        → ((id : String) → K (delete_item id namespace))
        → Extends K log (delete_call J S before namespace log).1
    unfolding delete_call
    delete_call-Extends before namespace log h =
        exception_call-Extends item_from_value log
          (ok (delete_item (readable (item_id before)) namespace))
          (λ c e.
            let same : delete_item (readable (item_id before)) namespace ≡ c = ground (arith, e) in
            subst K same (h (readable (item_id before))))

    pub rule_call-Extends :
        (call : Value → Call) (r : Rule) (log : List Call)
        → ((v : Value) → K (call v))
        → Extends K log (rule_call J S call r log).1
    unfolding rule_call
    rule_call-Extends call r log h =
        send-Extends log (ok (call (into_value (strip_volatile J r)))) (λ c e.
          let same : call (into_value (strip_volatile J r)) ≡ c = ground (arith, e) in
          subst K same (h (into_value (strip_volatile J r))))

    pub sent_entry-Extends :
        (e : ReportEntry) (log : List Call) (r : Result Rule × List Call)
        → Extends K log r.1
        → Extends K log (sent_entry J S e r).1
    unfolding sent_entry
    sent_entry-Extends e log (ok r, l) h = h
    sent_entry-Extends e log (err w, l) h = h
    sent_entry-Extends e log (panic w, l) h = h

    pub after_entry-Extends :
        (log : List Call) (r : Result ReportEntry × List Call)
        (next : List Call → Result (List ReportEntry) × List Call)
        → Extends K log r.1
        → ((l : List Call) → Extends K l (next l).1)
        → Extends K log (after_entry J S r next).1
    after_entry-Extends log (ok e, l) next h more = Extends-trans log l (next l).1 h (more l)
    after_entry-Extends log (err w, l) next h more = h
    after_entry-Extends log (panic w, l) next h more = h
