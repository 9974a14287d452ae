-- ===== src/Api/Pointers/Live.antt =====
-- The references of a rule that is sent name the ids of the stack.
use elasticctl.Prelude.{
  String, ◌≡◌, refl, Bool, true, false, ◌&&◌, Option, none, some, arith, is_some, if◌then◌else◌,
  Option-cases, inl, inr, map_option,
}
use elasticctl.Prelude.Order.{◌=?◌, string_ord}
use elasticctl.Json.{
  Value, null, boolean, number, string, array, object, Items, nil, cons, Fields, get, JsonMap,
}
use elasticctl.Core.Error.{ok, ◌>>=◌, bind-ok_inv, is_ok, Result-cases}
use elasticctl.Api.Model.{Rule, ListKey}
use elasticctl.Api.Normalize.{update_entry}
use elasticctl.Api.Normalize.Entries.{get-update_entry}
use elasticctl.Api.Pointers.{reference_key, inject_reference, inject_references, inject_list_ids}

module _ (live : ListKey → Option String) where
  -- whether a reference names no list, or one that the stack has
  unfoldable pub is_live : Value → Bool
  is_live (object m) = elim (reference_key m) [ none ↦ true | some key ↦ is_some (live key) ]
  is_live v = true

  unfoldable pub are_live : Items → Bool
  are_live nil = true
  are_live (cons v vs) = is_live v && are_live vs

  -- A reference to a list has the id of the stack and the rest of its entries; all else is as it was.
  abbrev pub PointsTo : Value → Value → Type 0
  PointsTo (object m) v' = elim (reference_key m) [
    | none ↦ v' ≡ object m
    | some key ↦
        (m' : Fields) × (v' ≡ object m')
        × ((k : String) → get k m' ≡ (if k =? "id" then map_option string (live key) else get k m))
  ]
  PointsTo v v' = v' ≡ v

  abbrev pub PointTo : Items → Items → Type 0
  PointTo nil nil = Unit {0}
  PointTo (cons v vs) (cons v' vs') = PointsTo v v' × PointTo vs vs'
  PointTo _ _ = ⊥

module _ (J : JsonMap) (live : ListKey → Option String) where
  inject_reference-PointsTo :
      (v v' : Value) → inject_reference J live v ≡ ok v' → PointsTo live v v'
  unfolding inject_reference
  inject_reference-PointsTo (object m) v' h = elim (Option-cases (reference_key m)) [
    | inl e ↦ rw (e, PointsTo) (let same : v' ≡ object m = ground (arith, e, h) in same)
    | inr (key, e) ↦ elim (Option-cases (live key)) [
      | inl l ↦ absurd (ground (arith, e, l, h))
      | inr (id, l) ↦
          rw (e, PointsTo)
            (
              J.insert "id" (string id) m,
              ground (arith, e, l, h),
              λ k. rw l (J.get-insert k "id" (string id) m),
            )
    ]
  ]
  inject_reference-PointsTo null v' h = ground (arith, h)
  inject_reference-PointsTo (boolean b) v' h = ground (arith, h)
  inject_reference-PointsTo (number n) v' h = ground (arith, h)
  inject_reference-PointsTo (string s) v' h = ground (arith, h)
  inject_reference-PointsTo (array vs) v' h = ground (arith, h)

  inject_references-PointTo :
      (vs vs' : Items) → inject_references J live vs ≡ ok vs' → PointTo live vs vs'
  unfolding inject_references
  inject_references-PointTo nil nil h = tt
  inject_references-PointTo nil (cons v' vs') h = absurd (ground (arith, h))
  inject_references-PointTo (cons v vs) vs' h =
      let (w, one, h1) = bind-ok_inv _ _ h in
      let (ws, more, h2) = bind-ok_inv _ _ h1 in
      let whole : cons w ws ≡ vs' = ground (arith, h2) in
      rw (← whole) (inject_reference-PointsTo v w one, inject_references-PointTo vs ws more)

  inject_reference-is_ok : (v : Value) → is_ok (inject_reference J live v) ≡ is_live live v
  unfolding inject_reference is_live
  inject_reference-is_ok (object m) = ground arith
  inject_reference-is_ok null = refl
  inject_reference-is_ok (boolean b) = refl
  inject_reference-is_ok (number n) = refl
  inject_reference-is_ok (string s) = refl
  inject_reference-is_ok (array vs) = refl

  inject_references-is_ok : (vs : Items) → is_ok (inject_references J live vs) ≡ are_live live vs
  unfolding inject_references are_live
  inject_references-is_ok nil = refl
  inject_references-is_ok (cons v vs) = elim (Result-cases (inject_reference J live v)) [
    | inl one ↦ elim (Result-cases (inject_references J live vs)) [
      | inl more ↦
          ground (arith, one.1, more.1, inject_reference-is_ok v, inject_references-is_ok vs)
      | inr (inl more) ↦
          ground (arith, one.1, more.1, inject_reference-is_ok v, inject_references-is_ok vs)
      | inr (inr more) ↦
          ground (arith, one.1, more.1, inject_reference-is_ok v, inject_references-is_ok vs)
    ]
    | inr (inl one) ↦ ground (arith, one.1, inject_reference-is_ok v)
    | inr (inr one) ↦ ground (arith, one.1, inject_reference-is_ok v)
  ]

  -- A rule that is sent has, in each reference that names a list, the id that the stack has for this
  -- list, and is otherwise as it was.
  pub inject_list_ids-PointTo :
      (r r' : Rule) (refs : Items)
      → get "exceptions_list" r.map ≡ some (array refs)
      → inject_list_ids J live r ≡ ok r'
      → (refs' : Items) × (get "exceptions_list" r'.map ≡ some (array refs'))
        × PointTo live refs refs'
        × ((k : String) → (k =? "exceptions_list") ≡ false → get k r'.map ≡ get k r.map)
  unfolding inject_list_ids
  inject_list_ids-PointTo r r' refs there h =
      let done : (inject_references J live refs >>= λ refs'.
      ok (record { map = update_entry "exceptions_list" (λ _. array refs') r.map }))
          ≡ ok r' =
        ground (arith, there, h) in
      let (refs', injected, last) = bind-ok_inv _ _ done in
      let same : update_entry "exceptions_list" (λ (_ : Value). array refs') r.map ≡ r'.map =
        ground (arith, last) in
      (
        refs',
        cc (
          same,
          get-update_entry "exceptions_list" "exceptions_list" (λ _. array refs') r.map,
          there,
        ),
        inject_references-PointTo refs refs' injected,
        λ k other.
            ground
              (arith, same, other, get-update_entry k "exceptions_list" (λ _. array refs') r.map),
      )

  -- The ids can be written exactly where the stack has every list that a reference names.
  pub inject_list_ids-is_ok :
      (r : Rule) (refs : Items)
      → get "exceptions_list" r.map ≡ some (array refs)
      → is_ok (inject_list_ids J live r) ≡ are_live live refs
  unfolding inject_list_ids
  inject_list_ids-is_ok r refs there = elim (Result-cases (inject_references J live refs)) [
    | inl e ↦ ground (arith, there, e.1, inject_references-is_ok refs)
    | inr (inl e) ↦ ground (arith, there, e.1, inject_references-is_ok refs)
    | inr (inr e) ↦ ground (arith, there, e.1, inject_references-is_ok refs)
  ]
