-- ===== src/Tests/Drift.antt =====
-- Rules on disk and on the stack, and their drift.
use elasticctl.Prelude.{
  if◌then◌else◌, none, String, ◌≡◌, ◌↔◌, refl, true, ◌||◌, some, List, [], ◌∷◌, map, arith, is_some,
  All, Bool-cases, inl, inr, false,
}
use elasticctl.Prelude.Order.{◌=?◌, string_ord, =?_iff}
use elasticctl.Prelude.BTree.{contains, IsAscending}
use elasticctl.Json.{string, number, unsigned, Fields, empty, field, get, object}
use elasticctl.Core.Error.{Error, error, ok, err, to_envelope}
use elasticctl.Core.Error.Laws.{read_envelope, read_envelope-to_envelope}
use elasticctl.Api.Model.{Rule, rule_id, volatile_fields}
use elasticctl.Api.Normalize.{canonical, comparable}
use elasticctl.Api.Normalize.Entries.{default}
use elasticctl.Api.Drift.{Drift, change_rule_id, compute, is_clean, actionable}
use elasticctl.Api.Drift.Index.{rule_with, are_distinct}
use elasticctl.Api.Drift.Outcome.{compute_total, compute_refuses, actionable-local}
use elasticctl.Api.Drift.Clean.{SameRule, is_clean_iff}
use elasticctl.Api.Drift.ServerFields.{IsServed, is_clean-IsServed}
use elasticctl.Api.Normalize.Paths.{compared_look, comparable-look, canonical-look}
use elasticctl.Json.Paths.{Step, look, is_among}
use elasticctl.Tests.Sample.{json}

abbrev rule : String → String → Fields → Rule
rule id name more = record { map = field "rule_id" (string id) (field "name" (string name) more) }

-- the same rule, with what the server owns and with a default spelled out
abbrev served : Rule
served = rule "a" "ssh" (field "revision" (number (unsigned 3)) (field "setup" (string "") empty))

abbrev local_rules : List Rule
local_rules = rule "b" "dns" empty ∷ rule "a" "ssh" empty ∷ []

abbrev remote_rules : List Rule
remote_rules = served ∷ rule "c" "ftp" empty ∷ []

-- the drift of the two, which exists since every `rule_id` is readable and distinct
abbrev found :
    (d : Drift) × (compute json local_rules remote_rules ≡ ok d)
    × IsAscending (map change_rule_id d.changes)
    × ((id : String)
        → contains id (map change_rule_id d.changes)
          ≡ (is_some (rule_with id local_rules) || is_some (rule_with id remote_rules)))
unfolding are_distinct rule_id get rule_with
found = compute_total json local_rules remote_rules refl refl

read_envelope_example :
    read_envelope (to_envelope (record { kind = error; http_status = some 500; message = "boom" }))
    ≡ some (record { kind = error; http_status = some 500; message = "boom" })
read_envelope_example =
    read_envelope-to_envelope (record { kind = error; http_status = some 500; message = "boom" })

comparable-look_example :
    (c : Rule) × (comparable json served ≡ ok c)
    × (rule_id c ≡ ok "a")
    × ((p : List Step) → look p (object c.map) ≡ compared_look json served p)
unfolding rule_id get
comparable-look_example = comparable-look json served "a" refl

canonical-look_example :
    (c : Rule) × (canonical json served ≡ ok c)
    × (rule_id c ≡ ok "a")
    × ((p : List Step)
        → look p (object c.map) ≡ (
            if is_among volatile_fields "exceptions_list" ("id" ∷ []) p
            then none
            else look p (object served.map)))
unfolding rule_id get
canonical-look_example = canonical-look json served "a" refl

compute_total_example :
    (d : Drift) × (compute json local_rules remote_rules ≡ ok d)
    × IsAscending (map change_rule_id d.changes)
    × ((id : String)
        → contains id (map change_rule_id d.changes)
          ≡ (is_some (rule_with id local_rules) || is_some (rule_with id remote_rules)))
unfolding are_distinct rule_id get rule_with
compute_total_example = compute_total json local_rules remote_rules refl refl

compute_refuses_example : (e : Error) × (compute json (served ∷ local_rules) remote_rules ≡ err e)
unfolding are_distinct rule_id get rule_with
compute_refuses_example = compute_refuses json (served ∷ local_rules) remote_rules refl

actionable-local_example :
    All (λ c. is_some (rule_with (change_rule_id c) local_rules) ≡ true) (actionable found.0)
actionable-local_example = actionable-local json local_rules remote_rules found.0 found.1

is_clean_iff_example :
    (is_clean found.0 ≡ true)
    ↔ ((id : String) → SameRule json (rule_with id local_rules) (rule_with id remote_rules))
is_clean_iff_example = is_clean_iff json local_rules remote_rules found.0 found.1

-- one rule on disk, and the same rule as the stack serves it
abbrev own_rule : Rule
own_rule = rule "a" "ssh" empty

abbrev found_same :
    (d : Drift) × (compute json (own_rule ∷ []) (served ∷ []) ≡ ok d)
    × IsAscending (map change_rule_id d.changes)
    × ((id : String)
        → contains id (map change_rule_id d.changes)
          ≡ (is_some (rule_with id (own_rule ∷ [])) || is_some (rule_with id (served ∷ []))))
unfolding are_distinct rule_id get rule_with
found_same = compute_total json (own_rule ∷ []) (served ∷ []) refl refl

same_presence :
    (id : String) → is_some (rule_with id (own_rule ∷ [])) ≡ is_some (rule_with id (served ∷ []))
unfolding rule_with rule_id get
same_presence id = ground arith

same_entries :
    (k : String)
    → contains k volatile_fields ≡ false
    → IsServed json k (get k own_rule.map) (get k served.map)
unfolding get contains default
same_entries k kept = elim (Bool-cases (k =? "setup")) [
  | inl e ↦ rw ((=?_iff k "setup").0 e) (inr (inl (refl, refl)))
  | inr e ↦ elim (Bool-cases (k =? "revision")) [
    | inl e' ↦ absurd (ground (arith, kept, e'))
    | inr e' ↦ inl (let same : get k own_rule.map ≡ get k served.map = rw (e, e') refl in same)
  ]
]

same_everywhere :
    (id : String) (l r : Rule)
    → rule_with id (own_rule ∷ []) ≡ some l
    → rule_with id (served ∷ []) ≡ some r
    → (k : String) → contains k volatile_fields ≡ false
    → IsServed json k (get k l.map) (get k r.map)
unfolding rule_with rule_id get
same_everywhere id l r h h' k kept =
    let own : own_rule ≡ l = ground (arith, h) in
    let theirs : served ≡ r = ground (arith, h') in rw (← own, ← theirs) (same_entries k kept)

is_clean-IsServed_example : is_clean found_same.0 ≡ true
is_clean-IsServed_example =
    is_clean-IsServed json (own_rule ∷ []) (served ∷ []) found_same.0 found_same.1 same_presence
      same_everywhere
