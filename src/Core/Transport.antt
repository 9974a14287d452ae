-- ===== src/Core/Transport.antt =====
-- crates/elasticctl-core/src/transport.rs: one request with its repeats, the bound on the body of a
-- response, and the percent encoding. What `reqwest` does is a parameter: what each attempt meets.
pub mod Retries
pub mod Encoding
use elasticctl.Prelude.{
  ℕ, zero, suc, ◌+◌, ◌-◌, ◌*◌, ◌/◌, ◌%◌, ◌^◌, String, Bool, true, false, ◌&&◌, ◌||◌, Option, none,
  some, List, [], ◌∷◌, ◌++◌, leb, ltb, ◌==◌, if◌then◌else◌, length,
}
use elasticctl.Prelude.Text.{concat}
use elasticctl.Prelude.Order.{◌=?◌, string_ord}
use elasticctl.Json.{Value}
use elasticctl.Core.Error.{
  Error, timeout, connection, unsupported, new_error, Result, ok, err, panic, from_response_body,
}

abbrev pub Bytes : Type 0
Bytes = List ℕ

pub data Chunk : Type 0 where
  chunk : Bytes → Chunk
  chunk_timeout : String → Chunk
  chunk_broken : String → Chunk

-- the head of a response, and what its body meets as it is read
pub record Response : Type 0 where
  pub status : ℕ
  pub content_length : Option ℕ
  pub body : List Chunk

pub data Exchange : Type 0 where
  answered : Response → Exchange
  timed_out : String → Exchange
  refused : String → Exchange

-- how bytes become text, by `from_utf8_lossy` and by the charset of the response
pub record Decoder : Type 0 where
  pub lossy : Bytes → String
  pub by_charset : Bytes → String

unfoldable pub response_limit_error : Error
response_limit_error = new_error unsupported "response body exceeds configured byte limit"

body_timeout : String → Error
body_timeout e =
    new_error timeout (concat ("request timed out while reading response body: " ∷ e ∷ []))

body_broken : String → Error
body_broken e =
    new_error connection (concat ("request failed while reading response body: " ∷ e ∷ []))

abbrev usize_values : ℕ
usize_values = 2 ^ 64

-- the chunks of a body under a limit
unfoldable pub read_limited : ℕ → Bytes → List Chunk → Result Bytes
unfolding body_timeout body_broken
read_limited limit bytes [] = ok bytes
read_limited limit bytes (chunk c ∷ cs) =
    let total = length bytes + length c in
    let rest = read_limited limit (bytes ++ c) cs in
    if leb usize_values total || ltb limit total then err response_limit_error else rest
read_limited limit bytes (chunk_timeout e ∷ cs) = err (body_timeout e)
read_limited limit bytes (chunk_broken e ∷ cs) = err (body_broken e)

unfoldable pub read_all : Bytes → List Chunk → Result Bytes
unfolding body_timeout body_broken
read_all bytes [] = ok bytes
read_all bytes (chunk c ∷ cs) = read_all (bytes ++ c) cs
read_all bytes (chunk_timeout e ∷ cs) = err (body_timeout e)
read_all bytes (chunk_broken e ∷ cs) = err (body_broken e)

decoded : (Bytes → String) → Result Bytes → Result String
decoded f (ok b) = ok (f b)
decoded f (err e) = err e
decoded f (panic s) = panic s

-- whether the announced length is beyond the limit
unfoldable pub announces_more : Option ℕ → ℕ → Bool
announces_more none limit = false
announces_more (some n) limit = leb usize_values n || ltb limit n

unfoldable pub response_text : Decoder → Option ℕ → Response → Result String
unfolding decoded
response_text D none r = decoded D.by_charset (read_all [] r.body)
response_text D (some limit) r =
    if announces_more r.content_length limit
    then err response_limit_error
    else decoded D.lossy (read_limited limit [] r.body)

unfoldable pub is_success : ℕ → Bool
is_success status = leb 200 status && ltb status 300

-- `TOO_MANY_REQUESTS`, or a server error
unfoldable pub is_transient : ℕ → Bool
is_transient status = (status == 429) || (leb 500 status && ltb status 600)

-- milliseconds before the next attempt
unfoldable pub backoff : ℕ → ℕ
backoff attempt = 200 * 2 ^ (attempt - 1)

pub record Sent : Type 0 where
  pub result : Result Response
  pub attempts : ℕ
  pub waits : List ℕ

-- what one attempt comes to: an end, or another attempt
pub data Outcome : Type 0 where
  finished : Result Response → Outcome
  again : Outcome

module _ (parse : String → Option Value) (D : Decoder) (limit : Option ℕ) where
  refusal : Response → Result Response
  refusal r = elim (response_text D limit r) [
    | ok text ↦ err (from_response_body parse r.status text)
    | err e ↦ err e
    | panic s ↦ panic s
  ]

  -- the body of a response that is not kept: read where there is a limit
  drained : Response → Outcome
  drained r = elim limit [
    | none ↦ again
    | some n ↦ elim (response_text D (some n) r) [
      | ok text ↦ again
      | err e ↦ finished (err e)
      | panic s ↦ finished (panic s)
    ]
  ]

  unfoldable pub outcome : ℕ → ℕ → Result Exchange → Outcome
  unfolding refusal drained
  outcome attempt_limit attempt (err e) = finished (err e)
  outcome attempt_limit attempt (panic s) = finished (panic s)
  outcome attempt_limit attempt (ok (timed_out e)) =
      finished (err (new_error timeout (concat ("request timed out: " ∷ e ∷ []))))
  outcome attempt_limit attempt (ok (refused e)) =
      finished (err (new_error connection (concat ("request failed: " ∷ e ∷ []))))
  outcome attempt_limit attempt (ok (answered r)) =
      if is_success r.status
      then finished (ok r)
      else if is_transient r.status && ltb attempt attempt_limit
      then drained r
      else finished (refusal r)

  -- `exchange n` is what the build and the sending of attempt n come to
  unfoldable pub attempt_from : (ℕ → Result Exchange) → ℕ → ℕ → ℕ → Sent
  attempt_from exchange attempt_limit zero attempt = record {
    result = panic "out of fuel";
    attempts = attempt;
    waits = [];
  }
  attempt_from exchange attempt_limit (suc fuel) attempt =
      elim (outcome attempt_limit (attempt + 1) (exchange (attempt + 1))) [
        | finished r ↦ record { result = r; attempts = attempt + 1; waits = [] }
        | again ↦
            let rest = attempt_from exchange attempt_limit fuel (attempt + 1) in
            record {
              result = rest.result;
              attempts = rest.attempts;
              waits = backoff (attempt + 1) ∷ rest.waits;
            }
      ]

  unfoldable pub send_retrying : ℕ → (ℕ → Result Exchange) → Sent
  send_retrying attempt_limit exchange = attempt_from exchange attempt_limit (attempt_limit + 1) 0

-- a byte that stands for itself in a URL
unfoldable pub is_unreserved : ℕ → Bool
is_unreserved b =
    (leb 65 b && leb b 90)
    || (leb 97 b && leb b 122)
    || (leb 48 b && leb b 57)
    || (b == 45)
    || (b == 95)
    || (b == 46)
    || (b == 126)

-- `{:02X}`, one digit
unfoldable pub hex_digit : ℕ → ℕ
hex_digit d = if ltb d 10 then 48 + d else 55 + d

unfoldable pub urlencode : Bytes → Bytes
urlencode [] = []
urlencode (b ∷ bs) =
    let rest = urlencode bs in
    if is_unreserved b then b ∷ rest else 37 ∷ hex_digit (b / 16) ∷ hex_digit (b % 16) ∷ rest

unfoldable pub space_path : String → String → String
space_path space path =
    if (space =? "") || (space =? "default") then path else concat ("/s/" ∷ space ∷ path ∷ [])
