-- ===== src/Tests/Remote.antt =====
-- Requests, selections and the results of the server.
use elasticctl.Prelude.{
  ℕ, zero, suc, String, ◌≡◌, ◌↔◌, refl, true, false, Option, none, some, List, [], ◌∷◌, arith, ◌*◌,
  ◌^◌, ◌≤◌, ◌<◌, length, if◌then◌else◌, ◌==◌, is_some, All,
}
use elasticctl.Prelude.Order.{◌=?◌, string_ord}
use elasticctl.Prelude.BTree.{sort, dedup, contains}
use elasticctl.Prelude.Text.{trim}
use elasticctl.Json.{
  Value, null, string, array, object, Items, nil, cons, empty, field, get, get_key, to_list,
}
use elasticctl.Core.Error.{not_found, new_error, Result, ok, err}
use elasticctl.Core.Transport.{
  chunk, Exchange, answered, Decoder, send_retrying, read_limited, read_all, urlencode,
}
use elasticctl.Core.Transport.Retries.{IsSent, send_retrying-IsSent, read_limited_iff}
use elasticctl.Core.Transport.Encoding.{percent_decode, percent_decode-urlencode}
use elasticctl.Api.Model.{Rule, rule_id, name, tags}
use elasticctl.Api.Normalize.{update_entry}
use elasticctl.Api.Selection.{
  Stack, Texts, pick_by_name, resolve, pick_one, is_unscoped, is_blank, resolve_selectors,
  resolve_selector, local_match, has_id, tag_ids, search_ids, search_matches, both_sides, ids_of,
  has_tag, conclude, unmatched,
}
use elasticctl.Api.Selection.Resolved.{IsResolved, pick_by_name-sole, resolve-IsResolved}
use elasticctl.Mcp.Truncation.{
  Wire, TargetContext, PageInfo, CallToolResult, candidate, cut_page, success, result, within,
  with_rows, to_items, success_with_truncated_rows,
}
use elasticctl.Mcp.Truncation.Largest.{
  IsLargest, IsMonotone, FitsWire, success_with_truncated_rows-IsLargest,
  success_with_truncated_rows-FitsWire,
}

abbrev parse : String → Option Value
parse s = none

abbrev decoder : Decoder
decoder = record { lossy = λ b. "text"; by_charset = λ b. "text" }

abbrev reply : ℕ → Exchange
reply status = answered (record { status = status; content_length = none; body = [] })

-- the first attempt meets an overloaded stack
abbrev exchange : ℕ → Result Exchange
exchange n = if n == 1 then ok (reply 503) else ok (reply 200)

send_retrying-IsSent_example :
    IsSent parse decoder (some 10) exchange 3 0 (send_retrying parse decoder (some 10) 3 exchange)
send_retrying-IsSent_example = send_retrying-IsSent parse decoder (some 10) exchange 3

read_limited_iff_example :
    (read_limited 4 [] (chunk (1 ∷ 2 ∷ []) ∷ chunk (3 ∷ []) ∷ []) ≡ ok (1 ∷ 2 ∷ 3 ∷ [])) ↔ (
      (read_all [] (chunk (1 ∷ 2 ∷ []) ∷ chunk (3 ∷ []) ∷ []) ≡ ok (1 ∷ 2 ∷ 3 ∷ []))
      × (length {A = ℕ} (1 ∷ 2 ∷ 3 ∷ []) ≤ 4))
read_limited_iff_example =
    read_limited_iff 4 [] (chunk (1 ∷ 2 ∷ []) ∷ chunk (3 ∷ []) ∷ []) (1 ∷ 2 ∷ 3 ∷ []) small_limit
      (ground arith)
  where
    small_limit : 4 < 2 ^ 64
    small_limit = ground arith

percent_decode-urlencode_example :
    percent_decode (urlencode (97 ∷ 32 ∷ 255 ∷ [])) ≡ 97 ∷ 32 ∷ 255 ∷ []
percent_decode-urlencode_example =
    percent_decode-urlencode (97 ∷ 32 ∷ 255 ∷ []) (ground arith, (ground arith, (ground arith, tt)))

abbrev rule : String → String → Rule
rule id label = record { map = field "rule_id" (string id) (field "name" (string label) empty) }

abbrev rules : List Rule
rules = rule "a" "ssh" ∷ rule "b" "dns" ∷ []

pick_by_name-sole_example : All (λ r. (name r =? "dns") ≡ true → rule_id r ≡ ok "b") rules
unfolding pick_by_name pick_one name rule_id get
pick_by_name-sole_example = pick_by_name-sole rules "dns" "b" refl

-- a stack without rules
abbrev stack : Stack
stack = record {
  get_rule = λ s. err (new_error not_found "no such rule");
  find_named = λ s. ok ([], 0);
  find_tagged = λ s. ok [];
  find_text = λ s. ok [];
}

abbrev texts : Texts
texts = record { to_lowercase = λ s. s; contains_text = λ s t. s =? t }

resolve-IsResolved_example :
    IsResolved stack texts ("dns" ∷ "a" ∷ []) none (some "ssh") rules ("a" ∷ "b" ∷ [])
unfolding resolve is_unscoped is_blank trim resolve_selectors resolve_selector local_match has_id
    rule_id get name pick_one tag_ids search_ids search_matches both_sides ids_of has_tag tags
    conclude unmatched sort dedup contains
resolve-IsResolved_example =
    resolve-IsResolved stack texts ("dns" ∷ "a" ∷ []) none (some "ssh") rules "export"
      ("a" ∷ "b" ∷ []) refl

-- the rows of an envelope
abbrev rows_of : Value → Items
rows_of v = elim (get_key "data" v) [
  | none ↦ nil
  | some d ↦ elim (get_key "rows" d) [ some (array rows) ↦ rows | _ ↦ nil ]
]

-- a wire that gives each row 200,000 bytes
abbrev wire : Wire
wire = record {
  text_bytes = λ v. some (200000 * length (to_list (rows_of v)));
  frame_bytes = λ r. some (400000 * length (to_list (rows_of r.structured)));
}

abbrev target : TargetContext
target = record { profile = "test"; host = "example.test"; space = "default" }

abbrev page : PageInfo
page = record { limit = 10; returned = 2; total = none; has_more = none; truncated = false }

abbrev two_rows : Items
two_rows = cons null (cons null nil)

abbrev payload : Value
payload = object (field "rows" (array two_rows) empty)

abbrev attempt : ℕ → Option CallToolResult
attempt = candidate wire target payload "rows" (to_list two_rows) (cut_page page)

one_fits : is_some (attempt 1) ≡ true
unfolding candidate success result within to_list get with_rows update_entry to_items
one_fits = refl

two_rows-IsMonotone : IsMonotone attempt 2
two_rows-IsMonotone zero k h h' h'' missed = absurd (ground arith)
two_rows-IsMonotone (suc zero) k h h' h'' missed = absurd (ground (arith, one_fits, missed))
two_rows-IsMonotone (suc (suc j)) k h h' h'' missed =
    let same : suc (suc j) ≡ k = ground arith in rw (← same) missed

success_with_truncated_rows-IsLargest_example :
    IsLargest attempt 2 (success_with_truncated_rows wire target payload "rows" page)
unfolding get to_list
success_with_truncated_rows-IsLargest_example =
    success_with_truncated_rows-IsLargest wire target payload "rows" two_rows page refl
      (ground arith) two_rows-IsMonotone

success_with_truncated_rows-FitsWire_example :
    FitsWire wire (success_with_truncated_rows wire target payload "rows" page)
success_with_truncated_rows-FitsWire_example =
    success_with_truncated_rows-FitsWire wire target payload "rows" page
