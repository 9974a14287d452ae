-- ===== src/Mcp/Frames/Chunks.antt =====
-- A line is framed by its bytes alone, however they arrive.
use elasticctl.Prelude.{
  ℕ, zero, suc, ◌+◌, ◌-◌, ◌≡◌, ◌≤◌, ◌<◌, refl, true, false, none, some, List, [], ◌∷◌, ◌++◌, arith,
  leb, ltb, if◌then◌else◌, length, length-append, map_option, get_elem?, Option-cases, Bool-cases,
  inl, inr, ◌⊎◌, ap, ◌∙◌,
}
use mathlib.Core.List.{append_assoc, append-nil}
use elasticctl.Mcp.Frames.{
  Bytes, max_input_line_bytes, position, is_carriage_return, last, count, trailing_return, is_over,
  Framing, frame, ended, too_long, read_frame,
}

-- the bytes of a line before its newline and a carriage return there
unfoldable pub payload : Bytes → ℕ → ℕ
payload bytes zero = 0
payload bytes (suc i) = suc i - count (is_carriage_return (get_elem? bytes i))

-- what a stream starts with, by its bytes
unfoldable pub framing_of : Bytes → Framing
framing_of bytes = elim (position bytes) [
  | some i ↦ if leb (payload bytes i) max_input_line_bytes then frame else too_long
  | none ↦ if leb (length bytes) max_input_line_bytes then ended else too_long
]

-- the pieces up to the end of the input
abbrev pub pieces : List Bytes → Bytes
pieces [] = []
pieces ([] ∷ input) = []
pieces ((b ∷ bs) ∷ input) = (b ∷ bs) ++ pieces input

-- a line so far has no newline, and is beyond the bound by a carriage return at most
abbrev pub IsPartial : Bytes → Type 0
IsPartial line =
    (position line ≡ none)
    × ((length line ≤ max_input_line_bytes)
        ⊎ ((length line ≡ max_input_line_bytes + 1) × (is_carriage_return (last line) ≡ true)))

position-append_none :
    (a b : Bytes)
    → position a ≡ none
    → position (a ++ b) ≡ map_option (λ i. length a + i) (position b)
unfolding position
position-append_none [] b h = ground arith
position-append_none (x ∷ a) b h = ground (arith, h, position-append_none a b)

position-append_some : (a b : Bytes) (i : ℕ) → position a ≡ some i → position (a ++ b) ≡ some i
unfolding position
position-append_some [] b i h = absurd (ground (arith, h))
position-append_some (x ∷ a) b zero h = ground (arith, h)
position-append_some (x ∷ a) b (suc i) h = ground (arith, h, position-append_some a b i)

position-below : (a : Bytes) (i : ℕ) → position a ≡ some i → i < length a
unfolding position
position-below [] i h = absurd (ground (arith, h))
position-below (x ∷ a) zero h = ground arith
position-below (x ∷ a) (suc i) h = ground (arith, h, position-below a i)

last-get_elem : (a : Bytes) → last a ≡ get_elem? a (length a - 1)
unfolding last
last-get_elem [] = refl
last-get_elem (x ∷ []) = refl
last-get_elem (x ∷ y ∷ a) = ground (arith, last-get_elem (y ∷ a))

get_elem-append_left : (a b : Bytes) (i : ℕ) → i < length a → get_elem? (a ++ b) i ≡ get_elem? a i
get_elem-append_left [] b i h = absurd (ground arith)
get_elem-append_left (x ∷ a) b zero h = refl
get_elem-append_left (x ∷ a) b (suc i) h = get_elem-append_left a b i (ground arith)

get_elem-append_right :
    (a b : Bytes) (i j : ℕ) → j ≡ length a + i → get_elem? (a ++ b) j ≡ get_elem? b i
get_elem-append_right [] b i j h = ap (get_elem? b) (ground (arith, h))
get_elem-append_right (x ∷ a) b i zero h = absurd (ground (arith, h))
get_elem-append_right (x ∷ a) b i (suc j) h = get_elem-append_right a b i j (ground (arith, h))

last-append : (a : Bytes) (b : ℕ) (bs : Bytes) → last (a ++ b ∷ bs) ≡ last (b ∷ bs)
unfolding last
last-append [] b bs = refl
last-append (x ∷ []) b bs = refl
last-append (x ∷ y ∷ a) b bs = last-append (y ∷ a) b bs

payload-positive :
    (bytes : Bytes) (i j : ℕ)
    → i ≡ j + 1
    → payload bytes i ≡ i - count (is_carriage_return (get_elem? bytes j))
unfolding payload
payload-positive bytes zero j h = absurd (ground arith)
payload-positive bytes (suc i) j h =
    let same : i ≡ j = ground arith in
    ap (λ (n : ℕ). suc i - count (is_carriage_return (get_elem? bytes n))) same

-- the byte before the newline stands in the line before, or in the piece
return-split :
    (line a rest : Bytes) (i j : ℕ)
    → i < length a
    → length line + i ≡ j + 1
    → trailing_return line a (some i) ≡ is_carriage_return (get_elem? (line ++ (a ++ rest)) j)
unfolding trailing_return
return-split line a rest zero j h k =
    let same : length line - 1 ≡ j = ground arith in
    cc (
      last-get_elem line,
      ap (get_elem? line) same,
      get_elem-append_left line (a ++ rest) j (ground arith),
    )
return-split line a rest (suc i) j h k = cc (
  get_elem-append_right line (a ++ rest) i j (ground arith),
  get_elem-append_left a rest i (ground arith),
)

-- what is counted of the line before and of a piece with the newline is the payload of the whole
payload-split :
    (line a rest : Bytes) (i : ℕ)
    → position a ≡ some i
    → is_over line a (some i)
      ≡ ltb max_input_line_bytes (payload (line ++ (a ++ rest)) (length line + i))
unfolding is_over trailing_return payload last is_carriage_return
payload-split [] a rest zero h = ground arith
payload-split (x ∷ line) a rest zero h = ground (
  arith,
  return-split (x ∷ line) a rest zero (length line) (position-below a zero h) (ground arith),
  payload-positive ((x ∷ line) ++ (a ++ rest)) (length (x ∷ line) + 0) (length line) (ground arith),
)
payload-split line a rest (suc i) h = ground (
  arith,
  return-split line a rest (suc i) (length line + i) (position-below a (suc i) h) (ground arith),
  payload-positive (line ++ (a ++ rest)) (length line + suc i) (length line + i) (ground arith),
)

-- a piece without a newline that is too much makes the whole too long
over-long :
    (line : Bytes) (b : ℕ) (bs rest : Bytes)
    → position (line ++ b ∷ bs) ≡ none
    → is_over line (b ∷ bs) none ≡ true
    → framing_of ((line ++ b ∷ bs) ++ rest) ≡ too_long
unfolding framing_of is_over trailing_return
over-long line b bs rest p over =
    let whole = (line ++ b ∷ bs) ++ rest in
    let total = length-append line (b ∷ bs) in
    let found = position-append_none (line ++ b ∷ bs) rest p in
    elim (Option-cases (position rest)) [
      | inl e ↦ ground (arith, over, found, e, total, length-append (line ++ b ∷ bs) rest)
      | inr (zero, e) ↦
          let end = length line + length bs in
          ground (
            arith,
            over,
            found,
            e,
            total,
            payload-positive whole (length (line ++ b ∷ bs) + 0) end (ground (arith, total)),
            get_elem-append_left (line ++ b ∷ bs) rest end (ground (arith, total)),
            last-get_elem (line ++ b ∷ bs),
            ap (get_elem? (line ++ b ∷ bs))
                (let same : length (line ++ b ∷ bs) - 1 ≡ end = ground (arith, total) in same),
            last-append line b bs,
          )
      | inr (suc i, e) ↦ ground (
        arith,
        over,
        found,
        e,
        total,
        payload-positive whole (length (line ++ b ∷ bs) + suc i) (length (line ++ b ∷ bs) + i)
            (ground arith),
      )
    ]

-- one that is not leaves a partial line
under-IsPartial :
    (line : Bytes) (b : ℕ) (bs : Bytes)
    → position (line ++ b ∷ bs) ≡ none
    → is_over line (b ∷ bs) none ≡ false
    → IsPartial (line ++ b ∷ bs)
unfolding is_over trailing_return
under-IsPartial line b bs p under =
    (p, ground (arith, under, length-append line (b ∷ bs), last-append line b bs))

framing_of-ended :
    (line : Bytes)
    → position line ≡ none
    → framing_of (line ++ []) ≡ (if ltb max_input_line_bytes (length line) then too_long else ended)
unfolding framing_of
framing_of-ended line h = ground (arith, h, append-nil line)

framing_of-here :
    (line a rest : Bytes) (i : ℕ)
    → position line ≡ none
    → position a ≡ some i
    → framing_of (line ++ (a ++ rest)) ≡ (if is_over line a (some i) then too_long else frame)
unfolding framing_of
framing_of-here line a rest i h e = ground (
  arith,
  payload-split line a rest i e,
  position-append_none line (a ++ rest) h,
  position-append_some a rest i e,
)

-- Whether a line is framed, is beyond the bound or is cut off by the end of the input depends on its
-- bytes alone, and not on the pieces in which they arrive: it is framed where its newline comes
-- first and the payload before it, less one carriage return, is within the bound.
pub read_frame-framing_of :
    (line : Bytes) (input : List Bytes)
    → IsPartial line
    → (read_frame line input).framing ≡ framing_of (line ++ pieces input)
unfolding read_frame
read_frame-framing_of line [] h = ground (arith, framing_of-ended line h.0)
read_frame-framing_of line ([] ∷ input) h = ground (arith, framing_of-ended line h.0)
read_frame-framing_of line ((b ∷ bs) ∷ input) h = elim (Option-cases (position (b ∷ bs))) [
  | inl e ↦
      let unbroken : position (line ++ b ∷ bs) ≡ none =
        ground (arith, position-append_none line (b ∷ bs) h.0, e) in
      let whole = append_assoc line (b ∷ bs) (pieces input) in
      elim (Bool-cases (is_over line (b ∷ bs) none)) [
        | inl over ↦
            rw (e, over)
              (cc (over-long line b bs (pieces input) unbroken over, ap framing_of whole))
        | inr under ↦
            rw (e, under)
              (read_frame-framing_of (line ++ b ∷ bs) input
                  (under-IsPartial line b bs unbroken under)
                ∙ ap framing_of whole)
      ]
  | inr (i, e) ↦ rw e (ground (arith, framing_of-here line (b ∷ bs) (pieces input) i h.0 e))
]
