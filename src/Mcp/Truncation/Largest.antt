-- ===== src/Mcp/Truncation/Largest.antt =====
-- The search finds the longest prefix of the rows that fits.
use elasticctl.Prelude.{
  ℕ, zero, suc, ◌+◌, ◌-◌, ◌/◌, ◌<◌, ◌≤◌, String, ◌≡◌, refl, Bool, true, false, Option, none, some,
  List, leb, arith, is_some, Option-cases, Bool-cases, inl, inr, ◌⊎◌, length, ◌==◌, subst,
}
use elasticctl.Json.{Value, null, boolean, number, string, object, array, Items, to_list, get_key}
use elasticctl.Mcp.Truncation.{
  CallToolResult, search_rows, Wire, TargetContext, PageInfo, candidate, cut_page, truncate_rows,
  success_with_truncated_rows, result, success, within, max_structured_content_bytes,
  max_output_frame_bytes,
}

abbrev pub at_length : (ℕ → Option CallToolResult) → ℕ → Option CallToolResult
at_length attempt zero = none
at_length attempt (suc k) = attempt (suc k)

-- a result is that of a length, and no longer one up to a bound fits
pub record IsLargest (attempt : ℕ → Option CallToolResult) (n : ℕ) (r : Option CallToolResult)
    : Type 0 where
  pub kept : ℕ
  pub is_bounded : kept ≤ n
  pub same : r ≡ at_length attempt kept
  pub fits : (kept ≡ 0) ⊎ (is_some (attempt kept) ≡ true)
  pub longer : (j : ℕ) → kept < j → j ≤ n → attempt j ≡ none

module _ (attempt : ℕ → Option CallToolResult) (n : ℕ) where
  -- a length that fits has only fitting ones below it
  abbrev pub IsMonotone : Type 0
  IsMonotone = (j k : ℕ) → 1 ≤ j → j ≤ k → k ≤ n → attempt j ≡ none → attempt k ≡ none

  at_length-positive : (k : ℕ) → 1 ≤ k → at_length attempt k ≡ attempt k
  at_length-positive zero h = absurd (ground arith)
  at_length-positive (suc k) h = refl

  stop :
      (low high : ℕ) (fitting : Option CallToolResult)
      → high ≤ low
      → low ≤ n
      → fitting ≡ at_length attempt low
      → (low ≡ 0) ⊎ (is_some (attempt low) ≡ true)
      → ((j : ℕ) → high < j → j ≤ n → attempt j ≡ none)
      → IsLargest attempt n fitting
  stop low high fitting done bound same fit fails = record {
    kept = low;
    is_bounded = bound;
    same = same;
    fits = fit;
    longer = λ j h k. fails j (ground arith) k;
  }

  search_rows-IsLargest :
      (fuel low high : ℕ) (fitting : Option CallToolResult)
      → IsMonotone
      → high ≤ low + fuel
      → low ≤ high
      → high ≤ n
      → fitting ≡ at_length attempt low
      → (low ≡ 0) ⊎ (is_some (attempt low) ≡ true)
      → ((j : ℕ) → high < j → j ≤ n → attempt j ≡ none)
      → IsLargest attempt n (search_rows attempt fuel (low + 1) high fitting)
  unfolding search_rows
  search_rows-IsLargest zero low high fitting mono enough order bound same fit fails =
      stop low high fitting (ground arith) (ground arith) same fit fails
  search_rows-IsLargest (suc fuel) low high fitting mono enough order bound same fit fails =
      let middle = low + 1 + (high - (low + 1)) / 2 in
      elim (Bool-cases (leb (low + 1) high)) [
        | inr e ↦ rw e (stop low high fitting (ground arith) (ground arith) same fit fails)
        | inl e ↦ elim (Option-cases (attempt middle)) [
          | inl missed ↦
              rw (e, missed)
                (search_rows-IsLargest fuel low (middle - 1) fitting mono (ground arith)
                  (ground arith) (ground arith) same fit
                  (λ j h k. mono middle j (ground arith) (ground arith) k missed))
          | inr (r, found) ↦
              rw (e, found)
                (search_rows-IsLargest fuel middle high (some r) mono (ground arith) (ground arith)
                  bound (cc (found, at_length-positive middle (ground arith)))
                  (inr (ground (arith, found))) fails)
        ]
      ]

-- Where a prefix of the rows that does not fit has only such prefixes above it, the rows that are
-- kept are the longest prefix that fits, and the error means that no prefix of one row or more does.
pub success_with_truncated_rows-IsLargest :
    (W : Wire) (target : TargetContext) (payload : Value) (row_key : String) (rows : Items)
    (page : PageInfo)
    → get_key row_key payload ≡ some (array rows)
    → 1 ≤ length (to_list rows)
    → IsMonotone
        (candidate W target payload row_key (to_list rows) (cut_page page))
        (length (to_list rows))
    → IsLargest
        (candidate W target payload row_key (to_list rows) (cut_page page))
        (length (to_list rows))
        (success_with_truncated_rows W target payload row_key page)
unfolding success_with_truncated_rows truncate_rows
success_with_truncated_rows-IsLargest W target payload row_key rows page there some_rows mono =
    let some_row : (length (to_list rows) == 0) ≡ false = ground arith in
    rw (there, success_with_truncated_rows, some_row)
      (search_rows-IsLargest (candidate W target payload row_key (to_list rows) (cut_page page))
        (length (to_list rows)) (length (to_list rows)) 0 (length (to_list rows)) none mono
        (ground arith) (ground arith) (ground arith) refl (inl refl)
        (λ j h k. absurd (ground arith)))

-- the bytes of a result and of its frame are within their bounds
abbrev pub FitsWire : Wire → Option CallToolResult → Type 0
FitsWire W none = Unit {0}
FitsWire W (some r) =
    (within (W.text_bytes r.structured) max_structured_content_bytes ≡ true)
    × (within (W.frame_bytes r) max_output_frame_bytes ≡ true)

module _ (W : Wire) where
  result-FitsWire : (value : Value) (is_error : Bool) → FitsWire W (result W value is_error)
  unfolding result
  result-FitsWire value is_error =
      let made : CallToolResult = record { structured = value; is_error = is_error } in
      elim (Bool-cases (within (W.text_bytes value) max_structured_content_bytes)) [
        | inr e ↦ rw (e, result) tt
        | inl e ↦ elim (Bool-cases (within (W.frame_bytes made) max_output_frame_bytes)) [
          | inr e' ↦ rw (e, e', result) tt
          | inl e' ↦ rw (e, e', result) (e, e')
        ]
      ]

  search_rows-FitsWire :
      (attempt : ℕ → Option CallToolResult) (fuel low high : ℕ) (fitting : Option CallToolResult)
      → ((k : ℕ) → FitsWire W (attempt k))
      → FitsWire W fitting
      → FitsWire W (search_rows attempt fuel low high fitting)
  unfolding search_rows
  search_rows-FitsWire attempt zero low high fitting each fit = fit
  search_rows-FitsWire attempt (suc fuel) low high fitting each fit =
      let middle = low + (high - low) / 2 in
      elim (Bool-cases (leb low high)) [
        | inr e ↦ rw e fit
        | inl e ↦ elim (Option-cases (attempt middle)) [
          | inl missed ↦
              rw (e, missed) (search_rows-FitsWire attempt fuel low (middle - 1) fitting each fit)
          | inr (r, found) ↦
              rw (e, found)
                (search_rows-FitsWire attempt fuel (middle + 1) high (some r) each
                  (subst (FitsWire W) found (each middle)))
        ]
      ]

  truncate_rows-FitsWire :
      (target : TargetContext) (payload : Value) (row_key : String) (rows : List Value)
      (page : PageInfo)
      → FitsWire W (truncate_rows W target payload row_key rows page)
  unfolding truncate_rows success candidate
  truncate_rows-FitsWire target payload row_key rows page = elim (Bool-cases (length rows == 0)) [
    | inl e ↦ rw e (result-FitsWire _ false)
    | inr e ↦ rw e (
        search_rows-FitsWire (candidate W target payload row_key rows (cut_page page)) (length rows)
          1 (length rows) none (λ k. result-FitsWire _ false) tt)
  ]

  -- Every list of rows that the server sends, cut or not, has a text and a frame within their bounds.
  pub success_with_truncated_rows-FitsWire :
      (target : TargetContext) (payload : Value) (row_key : String) (page : PageInfo)
      → FitsWire W (success_with_truncated_rows W target payload row_key page)
  unfolding success_with_truncated_rows
  success_with_truncated_rows-FitsWire target payload row_key page =
      go (get_key row_key payload) refl
    where
      go :
          (o : Option Value)
          → get_key row_key payload ≡ o
          → FitsWire W (success_with_truncated_rows W target payload row_key page)
      go none e = rw (e, success_with_truncated_rows) tt
      go (some (array rows)) e =
          rw (e, success_with_truncated_rows)
            (truncate_rows-FitsWire target payload row_key (to_list rows) page)
      go (some null) e = rw (e, success_with_truncated_rows) tt
      go (some (boolean b)) e = rw (e, success_with_truncated_rows) tt
      go (some (number m)) e = rw (e, success_with_truncated_rows) tt
      go (some (string s)) e = rw (e, success_with_truncated_rows) tt
      go (some (object m)) e = rw (e, success_with_truncated_rows) tt
