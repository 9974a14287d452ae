-- ===== src/Mcp/Frames.antt =====
-- crates/elasticctl-mcp/src/bounded_io.rs: the lines of the input under a bound, and the errors that
-- the server shows.
pub mod Chunks
use elasticctl.Prelude.{
  ℕ, zero, suc, ◌+◌, ◌-◌, String, Bool, true, false, not, ◌&&◌, ◌||◌, Option, none, some, List, [],
  ◌∷◌, ◌++◌, leb, ltb, ◌==◌, if◌then◌else◌, length, take, drop, is_some, map_option, get_elem?,
  unwrap_or,
}

abbrev pub Bytes : Type 0
Bytes = List ℕ

abbrev pub max_input_line_bytes : ℕ
max_input_line_bytes = 262144

-- where the first newline of the bytes is
unfoldable pub position : Bytes → Option ℕ
position [] = none
position (b ∷ bs) = let rest = position bs in if b == 10 then some 0 else map_option suc rest

unfoldable pub is_carriage_return : Option ℕ → Bool
is_carriage_return none = false
is_carriage_return (some b) = b == 13

unfoldable pub last : Bytes → Option ℕ
last [] = none
last (b ∷ []) = some b
last (b ∷ c ∷ bs) = last (c ∷ bs)

abbrev pub count : Bool → ℕ
count true = 1
count false = 0

-- whether a carriage return stands before the newline, in this piece or at the end of the line before
unfoldable pub trailing_return : Bytes → Bytes → Option ℕ → Bool
trailing_return line available none = false
trailing_return line available (some zero) = is_carriage_return (last line)
trailing_return line available (some (suc index)) = is_carriage_return (get_elem? available index)

unfoldable pub is_over : Bytes → Bytes → Option ℕ → Bool
is_over line available newline =
    let returned = trailing_return line available newline in
    let payload_bytes = unwrap_or newline (length available) in
    let new_payload = payload_bytes - count (returned && ltb 0 payload_bytes) in
    let existing_payload = length line - count (returned && (payload_bytes == 0)) in
    let unterminated =
      not (is_some newline)
      && (length line + length available == max_input_line_bytes + 1)
      && is_carriage_return (last available) in
    ltb max_input_line_bytes (existing_payload + new_payload) && not unterminated

-- a frame, the end of the input, or a line beyond the bound
pub data Framing : Type 0 where
  frame : Framing
  ended : Framing
  too_long : Framing

pub record Reading : Type 0 where
  pub framing : Framing
  pub line : Bytes
  pub input : List Bytes

-- One call of `fill_buf` for each piece; an empty piece, or none, is the end of the input.
unfoldable pub read_frame : Bytes → List Bytes → Reading
read_frame line [] =
    if ltb max_input_line_bytes (length line)
    then record { framing = too_long; line = line; input = [] }
    else record { framing = ended; line = line; input = [] }
read_frame line ([] ∷ input) =
    if ltb max_input_line_bytes (length line)
    then record { framing = too_long; line = line; input = [] ∷ input }
    else record { framing = ended; line = line; input = [] ∷ input }
read_frame line ((b ∷ bs) ∷ input) =
    let newline = position (b ∷ bs) in
    let more = read_frame (line ++ b ∷ bs) input in
    if is_over line (b ∷ bs) newline
    then record { framing = too_long; line = line; input = (b ∷ bs) ∷ input }
    else elim newline [
      | none ↦ more
      | some index ↦ record {
        framing = frame;
        line = line ++ take (index + 1) (b ∷ bs);
        input = drop (index + 1) (b ∷ bs) ∷ input;
      }
    ]
