-- ===== src/Tests/SampleJournal.antt =====
-- A journal encoding for the rules file of the tests, one byte to an entry and two to a phase.
use elasticctl.Prelude.{
  ℕ, String, ◌≡◌, Bool, true, ◌&&◌, Option, none, some, List, [], ◌∷◌, ◌++◌, arith, if◌then◌else◌,
  ◌==◌, ◌⊎◌, inl, inr, ◌+◌,
}
use elasticctl.Api.Transaction.FilePath.{FilePath, normal, path_eq, path_eq_iff}
use elasticctl.Api.Transaction.Disk.{Bytes}
use elasticctl.Api.Transaction.Phase.{
  Phase, prepared, backing_up, backed_up, installing, installed, JournalEntry, PhaseRecord, rank,
}
use elasticctl.Api.Transaction.Journal.{JournalCodec, is_prepared, is_line, newline}

abbrev pub rules_file : FilePath
rules_file = normal "rules" ∷ normal "a.ndjson" ∷ []

abbrev pub entry_of : Bool → JournalEntry
entry_of existed = record { relative = rules_file; existed_before = existed; phase = prepared }

abbrev phase_name : Phase → ℕ
phase_name p = rank p + 11

abbrev phase_of : ℕ → Option Phase
phase_of b =
    if b == 11
    then some prepared
    else if b == 12
    then some backing_up
    else if b == 13
    then some backed_up
    else if b == 14
    then some installing
    else if b == 15
    then some installed
    else none

unfoldable pub encode_phase : PhaseRecord → String ⊎ Bytes
encode_phase r = if r.entry == 0 then inr (phase_name r.phase ∷ []) else inl "no such entry"

unfoldable pub decode_phase : Bytes → String ⊎ PhaseRecord
decode_phase [] = inl "empty"
decode_phase (b ∷ bs) = elim (phase_of b) [
  | some p ↦ inr (record { entry = 0; phase = p })
  | none ↦ inl "no such phase"
]

unfoldable pub encode_prepared : List JournalEntry → String ⊎ Bytes
encode_prepared (e ∷ []) =
    if path_eq e.relative rules_file && is_prepared e
    then inr ((if e.existed_before then 11 else 12) ∷ [])
    else inl "no such entry"
encode_prepared _ = inl "not one prepared entry"

unfoldable pub decode_prepared : Bytes → String ⊎ List JournalEntry
decode_prepared [] = inl "empty"
decode_prepared (b ∷ bs) = inr (entry_of (b == 11) ∷ [])

pub prepared_is_line :
    (es : List JournalEntry) (b : Bytes) → encode_prepared es ≡ inr b → is_line b ≡ true
unfolding encode_prepared is_line is_prepared
prepared_is_line [] b h = absurd (ground arith)
prepared_is_line (e ∷ []) b h = ground (arith, h)
prepared_is_line (e ∷ f ∷ es) b h = absurd (ground arith)

pub phase_is_line : (r : PhaseRecord) (b : Bytes) → encode_phase r ≡ inr b → is_line b ≡ true
unfolding encode_phase is_line
phase_is_line r b h = ground (arith, h)

pub decode-encode_prepared :
    (es : List JournalEntry) (b : Bytes)
    → encode_prepared es ≡ inr b
    → decode_prepared (b ++ newline ∷ []) ≡ inr es
unfolding encode_prepared decode_prepared is_prepared
decode-encode_prepared [] b h = absurd (ground arith)
decode-encode_prepared (e ∷ []) b h = ground (arith, h, path_eq_iff e.relative rules_file)
decode-encode_prepared (e ∷ f ∷ es) b h = absurd (ground arith)

pub decode-encode_phase :
    (r : PhaseRecord) (b : Bytes)
    → encode_phase r ≡ inr b
    → decode_phase (b ++ newline ∷ []) ≡ inr r
unfolding encode_phase decode_phase
decode-encode_phase r b h = ground (arith, h)

abbrev pub codec : JournalCodec
codec = record {
  encode_prepared = encode_prepared;
  decode_prepared = decode_prepared;
  encode_phase = encode_phase;
  decode_phase = decode_phase;
  prepared_is_line = prepared_is_line;
  phase_is_line = phase_is_line;
  decode-encode_prepared = decode-encode_prepared;
  decode-encode_phase = decode-encode_phase;
}
