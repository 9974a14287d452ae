-- ===== src/Api/Transaction/Journal/Reading.antt =====
-- What is read of a journal whose last record may be incomplete.
use elasticctl.Prelude.{
  ℕ, String, ◌≡◌, refl, true, false, not, Option, none, some, List, [], ◌∷◌, ◌++◌, arith, ◌⊎◌, inl,
  inr, any, map_option, ap,
}
use mathlib.Core.Path.{fun_ext}
use mathlib.Core.List.{append_assoc}
use elasticctl.Core.Error.{Result, ok, err, panic, ◌>>=◌}
use elasticctl.Api.Transaction.FilePath.{FilePath}
use elasticctl.Api.Transaction.Disk.{Bytes}
use elasticctl.Api.Transaction.Phase.{JournalEntry, PhaseRecord}
use elasticctl.Api.Transaction.Journal.{
  is_line, JournalCodec, with_newline, lines, ends_with_newline, advance, read_records,
  parse_journal, is_prepared,
}

-- a line in front of other bytes is split off
lines-with_newline :
    (l rest : Bytes)
    → is_line l ≡ true
    → lines (with_newline l ++ rest) ≡ with_newline l ∷ lines rest
unfolding lines is_line
lines-with_newline [] rest h = refl
lines-with_newline (b ∷ l) rest h = ground (arith, lines-with_newline l rest)

ends-with_newline : (l : Bytes) → ends_with_newline (with_newline l) ≡ true
unfolding ends_with_newline
ends-with_newline [] = refl
ends-with_newline (b ∷ []) = refl
ends-with_newline (b ∷ c ∷ l) = ends-with_newline (c ∷ l)

-- bytes with no newline are at most one record, and that is incomplete
lines_of_line :
    (l : Bytes)
    → is_line l ≡ true
    → (lines l ≡ []) ⊎ ((b : ℕ) × (t : Bytes) × (lines l ≡ (b ∷ t) ∷ []) × (is_line (b ∷ t) ≡ true))
unfolding lines is_line
lines_of_line [] h = inl refl
lines_of_line (b ∷ l) h = elim (lines_of_line l (ground arith)) [
  | inl e ↦ inr (b, [], ground (arith, e), ground arith)
  | inr (c, t, e, k) ↦ inr (b, c ∷ t, ground (arith, e), ground (arith, k))
]

not-ends_of_line : (l : Bytes) → is_line l ≡ true → ends_with_newline l ≡ false
unfolding ends_with_newline is_line
not-ends_of_line [] h = refl
not-ends_of_line (b ∷ []) h = ground arith
not-ends_of_line (b ∷ c ∷ l) h = not-ends_of_line (c ∷ l) (ground arith)

-- the records of a journal applied in turn
unfoldable pub replay : FilePath → List PhaseRecord → List JournalEntry → Result (List JournalEntry)
replay journal [] entries = ok entries
replay journal (r ∷ rs) entries = advance journal r entries >>= replay journal rs

elim_bind :
    {A B : Type 0} (m : Result A) (f : A → Result B)
    → ◌≡◌ {A = Result B} (elim m [ ok a ↦ f a | err e ↦ err e | panic s ↦ panic s ]) (m >>= f)
elim_bind (ok a) f = refl
elim_bind (err e) f = refl
elim_bind (panic s) f = refl

module _ (codec : JournalCodec) where
  open codec use {encode_prepared, encode_phase}

  -- the lines of the records, where each can be encoded
  unfoldable pub phase_bytes : List PhaseRecord → Option Bytes
  phase_bytes [] = some []
  phase_bytes (r ∷ rs) =
      let rest = phase_bytes rs in
      elim (encode_phase r) [ inl e ↦ none | inr b ↦ map_option (λ bs. with_newline b ++ bs) rest ]

  unfoldable pub journal_bytes : List JournalEntry → List PhaseRecord → Option Bytes
  journal_bytes es rs = elim (encode_prepared es) [
    | inl e ↦ none
    | inr b ↦ map_option (λ bs. with_newline b ++ bs) (phase_bytes rs)
  ]

  phase_bytes-cons :
      (r : PhaseRecord) (rs : List PhaseRecord) (b : Bytes)
      → phase_bytes (r ∷ rs) ≡ some b
      → (x : Bytes) × (bs : Bytes) × (encode_phase r ≡ inr x)
        × (phase_bytes rs ≡ some bs)
        × (b ≡ with_newline x ++ bs)
  unfolding phase_bytes
  phase_bytes-cons r rs b h = go (encode_phase r) (phase_bytes rs) refl refl
    where
      go :
          (e : String ⊎ Bytes) (o : Option Bytes)
          → encode_phase r ≡ e
          → phase_bytes rs ≡ o
          → (x : Bytes) × (bs : Bytes) × (encode_phase r ≡ inr x)
            × (phase_bytes rs ≡ some bs)
            × (b ≡ with_newline x ++ bs)
      go (inl t) o p q = absurd (ground (arith, p))
      go (inr x) none p q = absurd (ground (arith, p, q))
      go (inr x) (some bs) p q = (x, bs, p, q, ground (arith, p, q))

  nil_bytes : (b : Bytes) → phase_bytes [] ≡ some b → [] ≡ b
  unfolding phase_bytes
  nil_bytes b h = ground arith

  -- an incomplete record ends the reading
  read_torn :
      (journal : FilePath) (torn : Bytes) (entries : List JournalEntry)
      → is_line torn ≡ true
      → read_records codec journal (lines torn) entries ≡ ok entries
  unfolding read_records
  read_torn journal torn entries k = elim (lines_of_line torn k) [
    | inl e ↦ rw (e, read_records) refl
    | inr (c, t, e, l) ↦ rw (e, read_records, not-ends_of_line (c ∷ t) l) refl
  ]

  -- a complete record is applied
  read_records-line :
      (journal : FilePath) (r : PhaseRecord) (x : Bytes) (ls : List Bytes)
      (entries : List JournalEntry)
      → encode_phase r ≡ inr x
      → read_records codec journal (with_newline x ∷ ls) entries
        ≡ (advance journal r entries >>= read_records codec journal ls)
  unfolding read_records
  read_records-line journal r x ls entries h =
      rw (read_records, ends-with_newline x, codec.decode-encode_phase r x h)
        (elim_bind (advance journal r entries) (read_records codec journal ls))

  read_records_torn :
      (journal : FilePath) (rs : List PhaseRecord) (b torn : Bytes) (entries : List JournalEntry)
      → phase_bytes rs ≡ some b
      → is_line torn ≡ true
      → read_records codec journal (lines (b ++ torn)) entries ≡ replay journal rs entries
  unfolding replay
  read_records_torn journal [] b torn entries h k =
      rw (← nil_bytes b h) (read_torn journal torn entries k)
  read_records_torn journal (r ∷ rs) b torn entries h k =
      let (x, bs, encoded, more, same) = phase_bytes-cons r rs b h in
      rw
        (
          same,
          append_assoc (with_newline x) bs torn,
          lines-with_newline x (bs ++ torn) (codec.phase_is_line r x encoded),
          read_records-line journal r x (lines (bs ++ torn)) entries encoded,
        )
        (ap
          (λ (f : List JournalEntry → Result (List JournalEntry)). advance journal r entries >>= f)
          (fun_ext (λ es. read_records_torn journal rs bs torn es more k)))

  journal_bytes-cons :
      (es : List JournalEntry) (rs : List PhaseRecord) (b : Bytes)
      → journal_bytes es rs ≡ some b
      → (x : Bytes) × (bs : Bytes) × (encode_prepared es ≡ inr x)
        × (phase_bytes rs ≡ some bs)
        × (b ≡ with_newline x ++ bs)
  unfolding journal_bytes
  journal_bytes-cons es rs b h = go (encode_prepared es) (phase_bytes rs) refl refl
    where
      go :
          (e : String ⊎ Bytes) (o : Option Bytes)
          → encode_prepared es ≡ e
          → phase_bytes rs ≡ o
          → (x : Bytes) × (bs : Bytes) × (encode_prepared es ≡ inr x)
            × (phase_bytes rs ≡ some bs)
            × (b ≡ with_newline x ++ bs)
      go (inl t) o p q = absurd (ground (arith, p))
      go (inr x) none p q = absurd (ground (arith, p, q))
      go (inr x) (some bs) p q = (x, bs, p, q, ground (arith, p, q))

  -- A journal that was written up to some record, and of the next one at most a part without its
  -- newline, reads as its complete records applied in turn.
  pub parse_journal_torn :
      (journal : FilePath) (es : List JournalEntry) (rs : List PhaseRecord) (b torn : Bytes)
      → journal_bytes es rs ≡ some b
      → is_line torn ≡ true
      → any (λ entry. not (is_prepared entry)) es ≡ false
      → parse_journal codec journal (b ++ torn)
        ≡ (replay journal rs es >>= λ entries. ok (some entries))
  unfolding parse_journal
  parse_journal_torn journal es rs b torn h k p =
      let (x, bs, encoded, more, same) = journal_bytes-cons es rs b h in
      rw
        (
          same,
          append_assoc (with_newline x) bs torn,
          parse_journal,
          lines-with_newline x (bs ++ torn) (codec.prepared_is_line es x encoded),
          ends-with_newline x,
          codec.decode-encode_prepared es x encoded,
          p,
          read_records_torn journal rs bs torn es more k,
        )
        (elim_bind (replay journal rs es) (λ entries. ok (some entries)))

  -- A journal whose first record is incomplete reads as no transaction.
  pub parse_journal_unprepared :
      (journal : FilePath) (torn : Bytes)
      → is_line torn ≡ true
      → parse_journal codec journal torn ≡ ok none
  unfolding parse_journal
  parse_journal_unprepared journal torn h = elim (lines_of_line torn h) [
    | inl e ↦ ground (arith, e)
    | inr (c, t, e, k) ↦ ground (arith, e, not-ends_of_line (c ∷ t) k)
  ]
