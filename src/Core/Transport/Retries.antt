-- ===== src/Core/Transport/Retries.antt =====
-- How often a request is sent, and what becomes of a body.
use elasticctl.Prelude.{
  ℕ, zero, suc, ◌+◌, ◌-◌, ◌*◌, ap, sym, ◌∙◌, some, Option-cases, ◌≤◌, ◌<◌, String, ◌≡◌, refl, true,
  false, Option, List, [], ◌∷◌, ◌++◌, arith, ◌⊎◌, inl, inr, length, length-append, ◌↔◌, ◌^◌,
  Bool-cases, leb, ltb,
}
use native.Mathlib.Omega.{pow_step}
use elasticctl.Json.{Value}
use elasticctl.Core.Error.{Result, ok, err, panic, Result-cases}
use elasticctl.Core.Transport.{
  Bytes, Chunk, chunk, chunk_timeout, chunk_broken, Response, Exchange, answered, timed_out,
  refused, Decoder, response_text, drained, is_success, is_transient, backoff, Sent, Outcome,
  finished, again, outcome, attempt_from, send_retrying, read_limited, read_all,
}

-- waits of which each is twice the one before
abbrev pub doublings : ℕ → ℕ → List ℕ
doublings wait zero = []
doublings wait (suc n) = wait ∷ doublings (2 * wait) n

first_wait :
    (before more : ℕ) {ws : List ℕ}
    → ws ≡ doublings (200 * 2 ^ (before + 1)) more
    → backoff (before + 1) ∷ ws ≡ doublings (200 * 2 ^ before) (suc more)
unfolding backoff
first_wait before more {ws} h =
    let power : 2 ^ (before + 1) ≡ 2 * 2 ^ before =
      ap (λ n. 2 ^ n) (let next : before + 1 ≡ suc before = ground arith in next)
      ∙ pow_step 2 before in
    let twice : 200 * 2 ^ (before + 1) ≡ 2 * (200 * 2 ^ before) = ground (arith, power) in
    let now : 200 * 2 ^ (before + 1 - 1) ≡ 200 * 2 ^ before =
      ap (λ n. 200 * 2 ^ n) (let same : before + 1 - 1 ≡ before = ground arith in same) in
    ap (λ n. n ∷ ws) now
    ∙ ap (λ l. 200 * 2 ^ before ∷ l) (h ∙ ap (λ wait. doublings wait more) twice)

-- a throttled request, or an error of the server
abbrev pub IsTransient : ℕ → Type 0
IsTransient status = (status ≡ 429) ⊎ ((500 ≤ status) × (status < 600))

is_transient_iff : (status : ℕ) → (is_transient status ≡ true) ↔ IsTransient status
unfolding is_transient
is_transient_iff status = ground arith

module _ (parse : String → Option Value) (D : Decoder) (limit : Option ℕ) where
  -- the body that is drained before a repeat cannot be read
  abbrev pub Unreadable : Response → Type 0
  Unreadable r =
      (n : ℕ) × (limit ≡ some n) × ((text : String) → ¬ (response_text D limit r ≡ ok text))

  -- an attempt with a transient status that is not repeated was the last, or its body unreadable
  outcome-finished :
      (attempt_limit attempt : ℕ) (r : Response) (result : Result Response)
      → outcome parse D limit attempt_limit attempt (ok (answered r)) ≡ finished result
      → IsTransient r.status
      → (attempt_limit ≤ attempt) ⊎ Unreadable r
  unfolding outcome drained is_success
  outcome-finished attempt_limit attempt r result h transient =
      let repeats : is_transient r.status ≡ true = (is_transient_iff r.status).1 transient in
      elim (Bool-cases (ltb attempt attempt_limit)) [
        | inr e ↦ inl (ground (arith, e))
        | inl e ↦ elim (Option-cases limit) [
          | inl none_there ↦ absurd (ground (arith, h, e, repeats, transient, none_there))
          | inr (n, there) ↦ elim (Result-cases (response_text D limit r)) [
            | inl (text, read) ↦
                let read' : response_text D (some n) r ≡ ok text = rw (← there) read in
                absurd (ground (arith, h, e, repeats, transient, there, read'))
            | inr (inl (w, bad)) ↦ inr (n, there, λ text k. absurd (ground (arith, k, bad)))
            | inr (inr (w, bad)) ↦ inr (n, there, λ text k. absurd (ground (arith, k, bad)))
          ]
        ]
      ]

  -- an attempt that is repeated met a transient status, and was not the last
  pub outcome-again :
      (attempt_limit attempt : ℕ) (x : Result Exchange)
      → outcome parse D limit attempt_limit attempt x ≡ again
      → (r : Response) × (x ≡ ok (answered r))
        × (is_transient r.status ≡ true)
        × (attempt < attempt_limit)
  unfolding outcome
  outcome-again attempt_limit attempt (err e) h = absurd (ground arith)
  outcome-again attempt_limit attempt (panic s) h = absurd (ground arith)
  outcome-again attempt_limit attempt (ok (timed_out e)) h = absurd (ground arith)
  outcome-again attempt_limit attempt (ok (refused e)) h = absurd (ground arith)
  outcome-again attempt_limit attempt (ok (answered r)) h =
      (r, refl, ground (arith, h), ground (arith, h))

  -- a request from its first attempt to its last
  pub record IsSent (exchange : ℕ → Result Exchange) (attempt_limit before : ℕ) (s : Sent)
      : Type 0 where
    pub more : ℕ
    pub count : s.attempts ≡ before + 1 + more
    pub is_bounded : (s.attempts ≤ attempt_limit) ⊎ (more ≡ 0)
    pub last :
        outcome parse D limit attempt_limit s.attempts (exchange s.attempts) ≡ finished s.result
    pub repeated :
        (j : ℕ)
        → before < j
        → j < s.attempts
        → (r : Response) × (exchange j ≡ ok (answered r)) × IsTransient r.status
    pub waited : s.waits ≡ doublings (200 * 2 ^ before) more
    pub given_up :
        (r : Response)
        → exchange s.attempts ≡ ok (answered r)
        → IsTransient r.status
        → (attempt_limit ≤ s.attempts) ⊎ Unreadable r

  given_up_of :
      (exchange : ℕ → Result Exchange) (attempt_limit attempt : ℕ) (result : Result Response)
      → outcome parse D limit attempt_limit attempt (exchange attempt) ≡ finished result
      → (r : Response) → exchange attempt ≡ ok (answered r)
      → IsTransient r.status
      → (attempt_limit ≤ attempt) ⊎ Unreadable r
  given_up_of exchange attempt_limit attempt result h r e transient =
      outcome-finished attempt_limit attempt r result
        (ap (outcome parse D limit attempt_limit attempt) (sym e) ∙ h) transient

  attempt_from-IsSent :
      (exchange : ℕ → Result Exchange) (attempt_limit fuel before : ℕ)
      → attempt_limit ≤ before + fuel
      → 1 ≤ fuel
      → IsSent exchange attempt_limit before
          (attempt_from parse D limit exchange attempt_limit fuel before)
  unfolding attempt_from
  attempt_from-IsSent exchange attempt_limit zero before enough some_fuel = absurd (ground arith)
  attempt_from-IsSent exchange attempt_limit (suc fuel) before enough some_fuel =
      go (outcome parse D limit attempt_limit (before + 1) (exchange (before + 1))) refl
        (attempt_from-IsSent exchange attempt_limit fuel (before + 1))
    where
      go :
          (o : Outcome)
          → outcome parse D limit attempt_limit (before + 1) (exchange (before + 1)) ≡ o
          → (attempt_limit ≤ before + 1 + fuel
              → 1 ≤ fuel
              → IsSent exchange attempt_limit
                  (before + 1)
                  (attempt_from parse D limit exchange attempt_limit fuel (before + 1)))
          → IsSent exchange attempt_limit before
              (attempt_from parse D limit exchange attempt_limit (suc fuel) before)
      go (finished r) e next =
          rw (e, attempt_from)
            (record {
              more = 0;
              count = ground arith;
              is_bounded = inr refl;
              last = e;
              repeated = λ j h k. absurd (ground arith);
              waited = refl;
              given_up = given_up_of exchange attempt_limit (before + 1) r e;
            })
      go again e next =
          let (r, met, transient, early) =
            outcome-again attempt_limit (before + 1) (exchange (before + 1)) e in
          let rest = next (ground arith) (ground arith) in
          rw (e, attempt_from)
            (record {
              more = suc rest.more;
              count = ground (arith, rest.count);
              is_bounded = ground (arith, rest.is_bounded, rest.count);
              last = rest.last;
              repeated = λ j h k. elim (Bool-cases (ltb (before + 1) j)) [
                | inl later ↦ rest.repeated j (ground arith) k
                | inr now ↦
                    let same : before + 1 ≡ j = ground arith in
                    rw (← same) (r, met, (is_transient_iff r.status).0 transient)
              ];
              waited = first_wait before rest.more rest.waited;
              given_up = rest.given_up;
            })

  -- A request is sent at most as often as the limit allows, and once at least. Every attempt before
  -- the last met the status 429 or one from 500 to 599, and waits after it twice as long as after
  -- the one before, at first 200 milliseconds. The last attempt decides the result; where it has
  -- such a status too, the limit is reached, or the body cannot be read.
  pub send_retrying-IsSent :
      (exchange : ℕ → Result Exchange) (attempt_limit : ℕ)
      → IsSent exchange attempt_limit 0 (send_retrying parse D limit attempt_limit exchange)
  unfolding send_retrying
  send_retrying-IsSent exchange attempt_limit =
      attempt_from-IsSent exchange attempt_limit (attempt_limit + 1) 0 (ground arith) (ground arith)

-- what was read grows
read_all-grows :
    (bytes : Bytes) (cs : List Chunk) (b : Bytes)
    → read_all bytes cs ≡ ok b
    → length bytes ≤ length b
unfolding read_all
read_all-grows bytes [] b h = ground (arith, h)
read_all-grows bytes (chunk c ∷ cs) b h =
    ground (arith, read_all-grows (bytes ++ c) cs b h, length-append bytes c)
read_all-grows bytes (chunk_timeout e ∷ cs) b h = absurd (ground (arith, h))
read_all-grows bytes (chunk_broken e ∷ cs) b h = absurd (ground (arith, h))

-- Under a limit, a body is read exactly where the whole of it can be read and is within the limit,
-- however it is cut into chunks.
pub read_limited_iff :
    (limit : ℕ) (bytes : Bytes) (cs : List Chunk) (b : Bytes)
    → limit < 2 ^ 64
    → length bytes ≤ limit
    → (read_limited limit bytes cs ≡ ok b) ↔ ((read_all bytes cs ≡ ok b) × (length b ≤ limit))
unfolding read_limited read_all
read_limited_iff limit bytes [] b small start = ground arith
read_limited_iff limit bytes (chunk c ∷ cs) b small start =
    elim (Bool-cases (ltb limit (length bytes + length c))) [
      | inl e ↦ (
        λ h. absurd (ground (arith, e, h)),
        λ h.
            absurd (ground (arith, e, read_all-grows (bytes ++ c) cs b h.0, length-append bytes c)),
      )
      | inr e ↦
          let below : leb (2 ^ 64) (length bytes + length c) ≡ false = ground (arith, e) in
          rw (below, e)
            (read_limited_iff limit (bytes ++ c) cs b small
              (ground (arith, e, length-append bytes c)))
    ]
read_limited_iff limit bytes (chunk_timeout e ∷ cs) b small start = ground arith
read_limited_iff limit bytes (chunk_broken e ∷ cs) b small start = ground arith
