-- ===== src/Mcp/Truncation.antt =====
-- crates/elasticctl-mcp/src/result.rs: a result of a tool, and a list of rows cut to what fits.
pub mod Largest
use elasticctl.Prelude.{
  ℕ, zero, suc, ◌+◌, ◌-◌, ◌/◌, String, Bool, true, false, Option, none, some, List, [], ◌∷◌, leb,
  ltb, ◌==◌, if◌then◌else◌, length, take,
}
use elasticctl.Json.{
  Value, null, boolean, number, string, array, object, unsigned, Items, nil, cons, Fields, empty,
  field, get_key, to_list,
}
use elasticctl.Api.Normalize.{update_entry}

abbrev pub max_structured_content_bytes : ℕ
max_structured_content_bytes = 262144

abbrev pub max_output_frame_bytes : ℕ
max_output_frame_bytes = 1048576

pub record TargetContext : Type 0 where
  pub profile : String
  pub host : String
  pub space : String

pub record PageInfo : Type 0 where
  pub limit : ℕ
  pub returned : ℕ
  pub total : Option ℕ
  pub has_more : Option Bool
  pub truncated : Bool

pub record CallToolResult : Type 0 where
  pub structured : Value
  pub is_error : Bool

optional : {A : Type 0} → (A → Value) → Option A → Value
optional f none = null
optional f (some a) = f a

count : ℕ → Value
count n = number (unsigned n)

-- derived `Serialize`
unfoldable pub target_value : TargetContext → Value
target_value t = object (
    field "profile" (string t.profile)
      (field "host" (string t.host) (field "space" (string t.space) empty)))

unfoldable pub page_value : PageInfo → Value
unfolding optional count
page_value p = object (
    field "limit" (count p.limit) (
      field "returned" (count p.returned) (
        field "total" (optional count p.total) (
          field "has_more" (optional boolean p.has_more)
            (field "truncated" (boolean p.truncated) empty)))))

unfoldable pub to_items : List Value → Items
to_items [] = nil
to_items (v ∷ vs) = cons v (to_items vs)

-- What is measured of a result, by `serde_json` and the codec of `rmcp`: the bytes of the text, and
-- those of the whole frame.
pub record Wire : Type 0 where
  pub text_bytes : Value → Option ℕ
  pub frame_bytes : CallToolResult → Option ℕ

-- the loop between `low` and `high`, which keeps the last candidate that fits
unfoldable pub search_rows :
    (ℕ → Option CallToolResult) → ℕ → ℕ → ℕ → Option CallToolResult → Option CallToolResult
search_rows attempt zero low high fitting = fitting
search_rows attempt (suc fuel) low high fitting =
    if leb low high
    then (let middle = low + (high - low) / 2 in
        elim (attempt middle) [
          | some r ↦ search_rows attempt fuel (middle + 1) high (some r)
          | none ↦ search_rows attempt fuel low (middle - 1) fitting
        ])
    else fitting

-- a measured number of bytes and its bound
unfoldable pub within : Option ℕ → ℕ → Bool
within none bound = false
within (some n) bound = leb n bound

-- a page that was cut before has more rows
unfoldable pub cut_page : PageInfo → PageInfo
cut_page page = if page.truncated then record page { has_more = some true } else page

unfoldable pub candidate_page : PageInfo → ℕ → ℕ → PageInfo
candidate_page page row_count middle =
    if ltb middle row_count
    then record page { returned = middle; truncated = true; has_more = some true }
    else record page { returned = middle }

-- the rows under a key replaced
unfoldable pub with_rows : String → List Value → Value → Value
with_rows row_key rows (object m) = object (update_entry row_key (λ _. array (to_items rows)) m)
with_rows row_key rows v = v

module _ (W : Wire) where
  open W use {text_bytes, frame_bytes}

  -- `None` is the error that the result is too large
  unfoldable pub result : Value → Bool → Option CallToolResult
  result value is_error =
      let made : CallToolResult = record { structured = value; is_error = is_error } in
      if within (text_bytes value) max_structured_content_bytes
      then (if within (frame_bytes made) max_output_frame_bytes then some made else none)
      else none

  unfoldable pub success : TargetContext → Value → Option PageInfo → Option CallToolResult
  unfolding optional
  success target payload page =
      result
        (object (
          field "target" (target_value target)
            (field "data" payload (field "page" (optional page_value page) empty))))
        false

  unfoldable pub candidate :
      TargetContext → Value → String → List Value → PageInfo → ℕ → Option CallToolResult
  candidate target payload row_key rows page middle =
      success target (with_rows row_key (take middle rows) payload)
        (some (candidate_page page (length rows) middle))

  unfoldable pub truncate_rows :
      TargetContext → Value → String → List Value → PageInfo → Option CallToolResult
  truncate_rows target payload row_key rows page =
      if length rows == 0
      then success target (with_rows row_key [] payload)
          (some (cut_page (record page { returned = 0 })))
      else search_rows (candidate target payload row_key rows (cut_page page)) (length rows) 1
          (length rows) none

  unfoldable pub success_with_truncated_rows :
      TargetContext → Value → String → PageInfo → Option CallToolResult
  success_with_truncated_rows target payload row_key page = elim (get_key row_key payload) [
    | some (array rows) ↦ truncate_rows target payload row_key (to_list rows) page
    | _ ↦ none
  ]
