-- ===== src/Api/Drift/Index.antt =====
-- The index of one side: what it holds, and when it is refused.
use elasticctl.Prelude.{
  ℕ, ◌+◌, String, ◌≡◌, refl, Bool, true, false, not, ◌&&◌, Option, none, some, List, [], ◌∷◌, arith,
  is_some, if◌then◌else◌, or_else, and_then, inl, inr, ◌⊎◌, ◌≢◌,
}
use elasticctl.Prelude.Order.{◌=?◌, string_ord, =?_iff}
use elasticctl.Prelude.BTree.{BTreeMap, get, insert, get-insert}
use elasticctl.Json.{JsonMap}
use elasticctl.Core.Error.{Error, Result, ok, err, panic, to_option, is_ok, Result-cases}
use elasticctl.Api.Model.{Rule, rule_id}
use elasticctl.Api.Normalize.{comparable}
use elasticctl.Api.Normalize.Entries.{comparable-entries}
use elasticctl.Api.Drift.{index_from, index}

-- the first rule with a `rule_id`
unfoldable pub rule_with : String → List Rule → Option Rule
rule_with id [] = none
rule_with id (r ∷ rs) = elim (rule_id r) [
  | ok s ↦ if id =? s then some r else rule_with id rs
  | _ ↦ rule_with id rs
]

-- Every `rule_id` can be read, and none occurs twice.
unfoldable pub are_distinct : List Rule → Bool
are_distinct [] = true
are_distinct (r ∷ rs) =
    let rest = are_distinct rs in
    elim (rule_id r) [ ok s ↦ not (is_some (rule_with s rs)) && rest | _ ↦ false ]

-- none of the rules is in the map
disjoint : BTreeMap String Rule → List Rule → Bool
disjoint m [] = true
disjoint m (r ∷ rs) =
    let rest = disjoint m rs in
    elim (rule_id r) [ ok s ↦ not (is_some (get s m)) && rest | _ ↦ rest ]

disjoint-nil : (rs : List Rule) → disjoint [] rs ≡ true
unfolding disjoint get
disjoint-nil [] = refl
disjoint-nil (r ∷ rs) = ground (arith, disjoint-nil rs)

disjoint-insert :
    (id : String) (c : Rule) (m : BTreeMap String Rule) (rs : List Rule)
    → disjoint (insert id c m) rs ≡ (not (is_some (rule_with id rs)) && disjoint m rs)
unfolding disjoint rule_with
disjoint-insert id c m [] = refl
disjoint-insert id c m (r ∷ rs) = elim (Result-cases (rule_id r)) [
  | inl e ↦
      rw (e.1, disjoint, rule_with)
        (ground
          (arith, disjoint-insert id c m rs, get-insert e.0 id c m, =?_iff e.0 id, =?_iff id e.0))
  | inr (inl e) ↦ rw (e.1, disjoint, rule_with) (disjoint-insert id c m rs)
  | inr (inr e) ↦ rw (e.1, disjoint, rule_with) (disjoint-insert id c m rs)
]

rule_id-ne-panic : (r : Rule) (why : String) → rule_id r ≢ panic why
unfolding rule_id
rule_id-ne-panic r why h = ground arith

module _ (J : JsonMap) where
  -- the compared form of a rule, where there is one
  abbrev pub compared : Rule → Option Rule
  compared r = to_option (comparable J r)

  is_ok-index_from :
      (side : String) (n : ℕ) (rs : List Rule) (m : BTreeMap String Rule)
      → is_ok (index_from J side n rs m) ≡ (are_distinct rs && disjoint m rs)
  unfolding index_from are_distinct disjoint
  is_ok-index_from side n [] m = refl
  is_ok-index_from side n (r ∷ rs) m = elim (Result-cases (rule_id r)) [
    | inl e ↦
        let (c, made, _, _) = comparable-entries J r e.0 e.1 in
        rw (e.1, made, index_from, are_distinct, disjoint)
          (ground
            (arith, is_ok-index_from side (n + 1) rs (insert e.0 c m), disjoint-insert e.0 c m rs))
    | inr (inl e) ↦ rw (e.1, index_from, are_distinct, disjoint)
    | inr (inr e) ↦ rw (e.1, index_from, are_distinct, disjoint)
  ]

  get-index_from :
      (side : String) (n : ℕ) (rs : List Rule) (m out : BTreeMap String Rule) (id : String)
      → index_from J side n rs m ≡ ok out
      → get id out ≡ or_else (get id m) (and_then (rule_with id rs) compared)
  unfolding index_from rule_with
  get-index_from side n [] m out id h = ground arith
  get-index_from side n (r ∷ rs) m out id h = elim (Result-cases (rule_id r)) [
    | inl e ↦
        let (c, made, _, _) = comparable-entries J r e.0 e.1 in
        ground (
          arith,
          e.1,
          made,
          get-index_from side (n + 1) rs (insert e.0 c m) out id,
          get-insert id e.0 c m,
          =?_iff id e.0,
        )
    | inr (inl e) ↦ ground (arith, e.1)
    | inr (inr e) ↦ ground (arith, e.1)
  ]

  index_from-ne-panic :
      (side : String) (n : ℕ) (rs : List Rule) (m : BTreeMap String Rule) (why : String)
      → index_from J side n rs m ≢ panic why
  unfolding index_from
  index_from-ne-panic side n [] m why h = cc
  index_from-ne-panic side n (r ∷ rs) m why h = elim (Result-cases (rule_id r)) [
    | inl e ↦
        let (c, made, _, _) = comparable-entries J r e.0 e.1 in
        ground (arith, e.1, made, index_from-ne-panic side (n + 1) rs (insert e.0 c m) why)
    | inr (inl e) ↦ ground (arith, e.1)
    | inr (inr e) ↦ absurd (rule_id-ne-panic r e.0 e.1)
  ]

  -- The index exists exactly when every `rule_id` can be read and none occurs twice; otherwise
  -- there is an error.
  pub index-cases :
      (side : String) (rs : List Rule)
      → ((m : BTreeMap String Rule) × (index J side rs ≡ ok m)
          × (are_distinct rs ≡ true)
          × ((id : String) → get id m ≡ and_then (rule_with id rs) compared))
        ⊎ ((e : Error) × (index J side rs ≡ err e) × (are_distinct rs ≡ false))
  unfolding index get
  index-cases side rs = go (index_from J side 0 rs []) refl
    where
      go :
          (x : Result (BTreeMap String Rule))
          → index_from J side 0 rs [] ≡ x
          → ((m : BTreeMap String Rule) × (index J side rs ≡ ok m)
              × (are_distinct rs ≡ true)
              × ((id : String) → get id m ≡ and_then (rule_with id rs) compared))
            ⊎ ((e : Error) × (index J side rs ≡ err e) × (are_distinct rs ≡ false))
      go (ok m) h = inl (
        m,
        h,
        ground (arith, is_ok-index_from side 0 rs [], disjoint-nil rs),
        λ id. get-index_from side 0 rs [] m id h,
      )
      go (err e) h = inr (e, h, ground (arith, is_ok-index_from side 0 rs [], disjoint-nil rs))
      go (panic s) h = absurd (index_from-ne-panic side 0 rs [] s h)
