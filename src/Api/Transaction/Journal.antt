-- ===== src/Api/Transaction/Journal.antt =====
-- The journal of a pull: one JSON record to a line, the prepared entries first and then each change
-- of a phase. The encoding is that of `serde_json`, a parameter.
pub mod Reading
use elasticctl.Prelude.{
  ℕ, String, ◌≡◌, Bool, true, false, not, ◌&&◌, ◌||◌, Option, none, some, List, [], ◌∷◌, ◌++◌, ◌==◌,
  if◌then◌else◌, get_elem?, set, any, ◌⊎◌, inl, inr,
}
use elasticctl.Prelude.Text.{concat, show}
use elasticctl.Core.Error.{Error, Result, ok, err, panic}
use elasticctl.Api.Transaction.FilePath.{FilePath, Component, normal, join, display}
use elasticctl.Api.Transaction.Disk.{Bytes}
use elasticctl.Api.Transaction.Ops.{
  Tx, ◌>>=◌, ◌>>◌, pure, raise, lift, io_error, map_io, fs_read, write, sync_file, sync_dir,
}
use elasticctl.Api.Transaction.Phase.{
  Phase, prepared, backing_up, backed_up, installing, installed, can_advance_to, JournalEntry,
  PhaseRecord, PullLock,
}

abbrev pub newline : ℕ
newline = 10

-- no byte is a newline
unfoldable pub is_line : Bytes → Bool
is_line [] = true
is_line (b ∷ bs) = not (b == newline) && is_line bs

-- What the program relies on of `serde_json`: a record that was encoded is one line and reads back.
-- A failure carries its text.
pub record JournalCodec : Type 0 where
  pub encode_prepared : List JournalEntry → String ⊎ Bytes
  pub decode_prepared : Bytes → String ⊎ List JournalEntry
  pub encode_phase : PhaseRecord → String ⊎ Bytes
  pub decode_phase : Bytes → String ⊎ PhaseRecord
  pub prepared_is_line :
      (es : List JournalEntry) (b : Bytes) → encode_prepared es ≡ inr b → is_line b ≡ true
  pub phase_is_line : (r : PhaseRecord) (b : Bytes) → encode_phase r ≡ inr b → is_line b ≡ true
  pub decode-encode_prepared :
      (es : List JournalEntry) (b : Bytes)
      → encode_prepared es ≡ inr b
      → decode_prepared (b ++ newline ∷ []) ≡ inr es
  pub decode-encode_phase :
      (r : PhaseRecord) (b : Bytes)
      → encode_phase r ≡ inr b
      → decode_phase (b ++ newline ∷ []) ≡ inr r

abbrev pub transaction_name : String
transaction_name = ".elasticctl-pull-txn"

abbrev pub journal_name : String
journal_name = "journal.ndjson"

abbrev pub child : FilePath → String → FilePath
child p name = join p (normal name ∷ [])

unfoldable pub transaction_dir : PullLock → FilePath
transaction_dir lock = child lock.root transaction_name

unfoldable pub journal_path : FilePath → FilePath
journal_path transaction = child transaction journal_name

unfoldable pub staged_path : FilePath → ℕ → FilePath
staged_path transaction index = child (child transaction "staged") (show index)

unfoldable pub backup_path : FilePath → ℕ → FilePath
backup_path transaction index = child (child transaction "backups") (show index)

abbrev pub with_newline : Bytes → Bytes
with_newline record_bytes = record_bytes ++ newline ∷ []

-- `split_inclusive` at newlines
unfoldable pub lines : Bytes → List Bytes
lines [] = []
lines (b ∷ bs) =
    let rest = lines bs in
    if b == newline
    then (b ∷ []) ∷ rest
    else elim rest [ [] ↦ (b ∷ []) ∷ [] | l ∷ ls ↦ (b ∷ l) ∷ ls ]

unfoldable pub ends_with_newline : Bytes → Bool
ends_with_newline [] = false
ends_with_newline (b ∷ []) = b == newline
ends_with_newline (b ∷ c ∷ bs) = ends_with_newline (c ∷ bs)

unfoldable pub phase_debug : Phase → String
phase_debug prepared = "Prepared"
phase_debug backing_up = "BackingUp"
phase_debug backed_up = "BackedUp"
phase_debug installing = "Installing"
phase_debug installed = "Installed"

unfoldable pub is_prepared : JournalEntry → Bool
is_prepared e = elim e.phase [ prepared ↦ true | _ ↦ false ]

-- one record of a phase, applied to the entries
unfoldable pub advance : FilePath → PhaseRecord → List JournalEntry → Result (List JournalEntry)
unfolding phase_debug
advance journal update entries = elim (get_elem? entries update.entry) [
  | none ↦
      err (io_error (concat ("pull journal " ∷ display journal ∷ " names an unknown entry" ∷ [])))
  | some entry ↦
      if can_advance_to entry.phase update.phase
      then ok (set entries update.entry (record entry { phase = update.phase }))
      else err (
          io_error (
            concat (
              "pull journal "
              ∷ display journal
              ∷ " entry "
              ∷ show update.entry
              ∷ " has an illegal phase transition "
              ∷ phase_debug entry.phase
              ∷ " -> "
              ∷ phase_debug update.phase
              ∷ [])))
]

module _ (codec : JournalCodec) where
  open codec use {decode_prepared, decode_phase, encode_phase}

  -- the loop over the records behind the first; an incomplete record ends it
  unfoldable pub read_records :
      FilePath → List Bytes → List JournalEntry → Result (List JournalEntry)
  read_records journal [] entries = ok entries
  read_records journal (l ∷ ls) entries = elim (ends_with_newline l) [
    | false ↦ ok entries
    | true ↦ elim (decode_phase l) [
      | inl e ↦ err (io_error (concat ("reading pull journal " ∷ display journal ∷ ": " ∷ e ∷ [])))
      | inr update ↦ elim (advance journal update entries) [
        | ok entries' ↦ read_records journal ls entries'
        | err e ↦ err e
        | panic s ↦ panic s
      ]
    ]
  ]

  -- what `read_journal` makes of the bytes
  unfoldable pub parse_journal : FilePath → Bytes → Result (Option (List JournalEntry))
  parse_journal journal bytes = elim (lines bytes) [
    | [] ↦ ok none
    | first ∷ records ↦
        if not (ends_with_newline first) then ok none else elim (decode_prepared first) [
          | inl e ↦ err (
              io_error
                (concat ("reading prepared pull journal " ∷ display journal ∷ ": " ∷ e ∷ [])))
          | inr entries ↦
              if any (λ entry. not (is_prepared entry)) entries
              then err (
                  io_error (
                    concat (
                      "pull journal "
                      ∷ display journal
                      ∷ " has a non-prepared manifest entry"
                      ∷ [])))
              else elim (read_records journal records entries) [
                | ok entries' ↦ ok (some entries')
                | err e ↦ err e
                | panic s ↦ panic s
              ]
        ]
  ]

  unfoldable pub read_journal : FilePath → Tx (Option (List JournalEntry))
  read_journal transaction = do
    let journal = journal_path transaction
    bytes ← map_io "reading pull journal" journal (fs_read journal)
    lift (parse_journal journal bytes)

  unfoldable pub append_phase : FilePath → ℕ → Phase → Tx (Unit {0})
  append_phase transaction entry phase =
      elim (encode_phase (record { entry = entry; phase = phase })) [
        | inl e ↦ raise (io_error (concat ("encoding pull journal: " ∷ e ∷ [])))
        | inr bytes ↦ do
          let journal = journal_path transaction
          write journal (with_newline bytes) true transaction "appending pull journal"
          sync_file journal transaction "syncing pull journal"
          sync_dir transaction "syncing pull transaction directory"
      ]
