-- ===== src/Api/Transaction/Replace/Prepared.antt =====
-- What a preparation that returned has written, and read back.
use elasticctl.Prelude.{
  ℕ, String, ◌≡◌, refl, ◌∙◌, ap, sym, subst, Bool, false, not, ◌⊎◌, inl, inr, Option, none, some,
  List, [], ◌∷◌, arith, any, ◌+◌,
}
use mathlib.Core.List.{append-nil}
use elasticctl.Core.Error.{ok}
use elasticctl.Api.Transaction.FilePath.{FilePath}
use elasticctl.Api.Transaction.Disk.{Bytes, FileSystem, file, other, World, perform, read_op}
use elasticctl.Api.Transaction.Ops
use elasticctl.Api.Transaction.Ops.{write, map_io, fs_read}
use elasticctl.Api.Transaction.Ops.Inversion.{
  bind-ok, Ensures, Ensures-bind, write-ok, sync_file-keeps, sync_dir-keeps, read-ok, read-ok_other,
}
use elasticctl.Api.Transaction.Phase.{prepared, JournalEntry, StagedFile}
use elasticctl.Api.Transaction.Journal.{
  JournalCodec, journal_path, with_newline, parse_journal, read_journal, is_prepared, is_line,
}
use elasticctl.Api.Transaction.Journal.Reading.{
  journal_bytes, phase_bytes, replay, parse_journal_torn, parse_journal_unprepared,
}
use elasticctl.Api.Transaction.Replace.{
  stage_files, write_prepared, read_prepared, publish, prepare,
}

-- a prepared entry for each file
unfoldable pub planned_entries : List StagedFile → List Bool → List JournalEntry
planned_entries (f ∷ files) (existed ∷ flags) =
    record { relative = f.relative; existed_before = existed; phase = prepared }
    ∷ planned_entries files flags
planned_entries _ _ = []

stage_files-ok :
    (transaction : FilePath) (index : ℕ) (files : List StagedFile) (flags : List Bool) (w : World)
    {entries : List JournalEntry}
    → (stage_files transaction index files flags w).0 ≡ ok entries
    → planned_entries files flags ≡ entries
unfolding stage_files planned_entries
stage_files-ok transaction index [] flags w h = ground (arith, h)
stage_files-ok transaction index (f ∷ files) [] w h =
    let (_, _, h1) = bind-ok _ _ h in let (_, _, h2) = bind-ok _ _ h1 in absurd (ground (arith, h2))
stage_files-ok transaction index (f ∷ files) (existed ∷ flags) w h =
    let (_, _, h1) = bind-ok _ _ h in
    let (_, _, h2) = bind-ok _ _ h1 in
    let (rest, made, h3) = bind-ok _ _ h2 in
    ground (arith, h3, stage_files-ok transaction (index + 1) files flags _ made)

all_prepared :
    (files : List StagedFile) (flags : List Bool)
    → any (λ entry. not (is_prepared entry)) (planned_entries files flags) ≡ false
unfolding planned_entries is_prepared
all_prepared [] flags = refl
all_prepared (f ∷ files) [] = refl
all_prepared (f ∷ files) (existed ∷ flags) = all_prepared files flags

module _ (codec : JournalCodec) where
  open codec use {encode_prepared}

  -- a manifest of prepared entries reads back
  parse_manifest :
      (journal : FilePath) (es : List JournalEntry) (b : Bytes)
      → encode_prepared es ≡ inr b
      → any (λ entry. not (is_prepared entry)) es ≡ false
      → parse_journal codec journal (with_newline b) ≡ ok (some es)
  unfolding journal_bytes phase_bytes replay is_line
  parse_manifest journal es b h p =
      let whole : journal_bytes codec es [] ≡ some (with_newline b) =
        ground (arith, h, append-nil (with_newline b)) in
      rw (← append-nil (with_newline b))
        (parse_journal_torn codec journal es [] (with_newline b) [] whole refl p)

  -- the bytes that a manifest was written as
  write_prepared-ok :
      (transaction : FilePath) (es : List JournalEntry) (w : World) {u : Unit {0}}
      → (write_prepared codec transaction es w).0 ≡ ok u
      → (b : Bytes) × (encode_prepared es ≡ inr b)
        × (((write_prepared codec transaction es w).1.fs (journal_path transaction)
              ≡ some (file (with_newline b)))
            ⊎ ((write_prepared codec transaction es w).1.fs (journal_path transaction)
                ≡ some other))
  unfolding write_prepared
  write_prepared-ok transaction es w h = go (encode_prepared es) refl
    where
      go :
          (e : String ⊎ Bytes)
          → encode_prepared es ≡ e
          → (b : Bytes) × (encode_prepared es ≡ inr b)
            × (((write_prepared codec transaction es w).1.fs (journal_path transaction)
                  ≡ some (file (with_newline b)))
                ⊎ ((write_prepared codec transaction es w).1.fs (journal_path transaction)
                    ≡ some other))
      go (inl e) same = absurd (ground (arith, h, same))
      go (inr b) same = (
        b,
        same,
        let wrote : (write (journal_path transaction) (with_newline b) false transaction
                  "writing pull journal" w).0
                ≡ ok tt =
              ground (arith, h, same) in
            rw (same, write_prepared)
              (write-ok (journal_path transaction) (with_newline b) transaction
                "writing pull journal" w tt wrote),
      )

  -- a journal that is read as entries is not empty
  not_empty :
      (transaction : FilePath) (found : Option (List JournalEntry)) (bytes : Bytes) (w : World)
      (entries : List JournalEntry)
      → parse_journal codec (journal_path transaction) bytes ≡ ok found
      → (read_prepared codec transaction found w).0 ≡ ok entries
      → ¬ ([] ≡ bytes)
  unfolding read_prepared is_line
  not_empty transaction none bytes w entries parses h e = absurd (ground (arith, h))
  not_empty transaction (some found) bytes w entries parses h e =
      absurd (
        ground
          (arith, parses, e, parse_journal_unprepared codec (journal_path transaction) [] refl))

  read_back :
      (transaction : FilePath) (es : List JournalEntry) (b : Bytes)
      (found : Option (List JournalEntry)) (bytes : Bytes) (w : World) (entries : List JournalEntry)
      → any (λ entry. not (is_prepared entry)) es ≡ false
      → encode_prepared es ≡ inr b
      → parse_journal codec (journal_path transaction) bytes ≡ ok found
      → (read_prepared codec transaction found w).0 ≡ ok entries
      → bytes ≡ with_newline b
      → es ≡ entries
  unfolding read_prepared is_line
  read_back transaction es b none bytes w entries p encoded parses h e = absurd (ground (arith, h))
  read_back transaction es b (some found) bytes w entries p encoded parses h e =
      ground (arith, h, parses, e, parse_manifest (journal_path transaction) es b encoded p)

  read_prepared-keeps :
      (transaction : FilePath) (found : Option (List JournalEntry)) (w : World)
      → (read_prepared codec transaction found w).1.fs ≡ w.fs
  unfolding read_prepared
  read_prepared-keeps transaction none w = refl
  read_prepared-keeps transaction (some found) w = refl

  read_journal-keeps :
      (transaction : FilePath) (w : World) → (read_journal codec transaction w).1.fs ≡ w.fs
  unfolding read_journal Ops.◌>>=◌ map_io fs_read perform read_op
  read_journal-keeps transaction w = ground arith

  -- the journal holds these entries, as one record of the codec
  abbrev pub IsWritten : FilePath → List JournalEntry → FileSystem → Type 0
  IsWritten transaction es fs =
      (b : Bytes) × (encode_prepared es ≡ inr b)
      × (fs (journal_path transaction) ≡ some (file (with_newline b)))
      × (parse_journal codec (journal_path transaction) (with_newline b) ≡ ok (some es))

  renamed :
      (transaction : FilePath) (fs : FileSystem) {es es' : List JournalEntry}
      → es ≡ es'
      → IsWritten transaction es fs
      → IsWritten transaction es' fs
  renamed transaction fs same h =
      subst (λ (l : List JournalEntry). IsWritten transaction l fs) same h

  -- a manifest that was published is in the journal, and what is read back is what was written
  publish-IsWritten :
      (transaction : FilePath) (es : List JournalEntry) (w : World) (entries : List JournalEntry)
      → any (λ entry. not (is_prepared entry)) es ≡ false
      → (publish codec transaction es w).0 ≡ ok entries
      → (es ≡ entries) × IsWritten transaction es (publish codec transaction es w).1.fs
  unfolding publish read_journal
  publish-IsWritten transaction es w entries p h =
      let (u, wrote, h1) = bind-ok _ _ h in
      let (u', _, h2) = bind-ok _ _ h1 in
      let (u'', _, h3) = bind-ok _ _ h2 in
      let (found, reading, h4) = bind-ok _ _ h3 in
      let (bytes, reads, parses) = bind-ok _ _ reading in
      let (b, encoded, stored) = write_prepared-ok transaction es w wrote in
      let kept =
        sync_dir-keeps transaction "syncing pull transaction directory" _
        ∙ sync_file-keeps (journal_path transaction) transaction "syncing pull journal"
            (write_prepared codec transaction es w).1 in
      let here : (write_prepared codec transaction es w).1.fs (journal_path transaction)
          ≡ some (file (with_newline b)) =
        elim stored [
          | inl e ↦ e
          | inr e ↦ absurd (
              not_empty transaction found bytes _ entries parses h4 (
                read-ok_other (journal_path transaction) "reading pull journal"
                  (journal_path transaction) _ bytes reads
                  (ap (λ (fs : FileSystem). fs (journal_path transaction)) kept ∙ e)))
        ] in
      let back : bytes ≡ with_newline b =
        read-ok (journal_path transaction) "reading pull journal" (journal_path transaction) _
          (with_newline b) bytes reads
          (ap (λ (fs : FileSystem). fs (journal_path transaction)) kept ∙ here) in
      let whole : Ensures (IsWritten transaction es) (publish codec transaction es) w =
        Ensures-bind _ _ _ w λ _ _. Ensures-bind _ _ _ _ λ _ _. Ensures-bind _ _ _ _ λ _ _.
          Ensures-bind _ _ _ _ λ found' _. record {
            returned = λ _ _. (
              b,
              encoded,
              ap (λ (fs : FileSystem). fs (journal_path transaction))
                    (read_prepared-keeps transaction found' _
                      ∙ read_journal-keeps transaction _
                      ∙ kept)
                  ∙ here,
              parse_manifest (journal_path transaction) es b encoded p,
            );
          } in
      (
        read_back transaction es b found bytes _ entries p encoded parses h4 back,
        whole.returned entries h,
      )

  -- A preparation that returned gives one prepared entry for each file, with what existed before, and
  -- the journal that it leaves is the encoding of these entries, which reads as them.
  pub prepare-IsWritten :
      (transaction : FilePath) (files : List StagedFile) (flags : List Bool) (w : World)
      (entries : List JournalEntry)
      → (prepare codec transaction files flags w).0 ≡ ok entries
      → (planned_entries files flags ≡ entries)
        × IsWritten transaction
            (planned_entries files flags)
            (prepare codec transaction files flags w).1.fs
  unfolding prepare
  prepare-IsWritten transaction files flags w entries h =
      let (_, _, h1) = bind-ok _ _ h in
      let (_, _, h2) = bind-ok _ _ h1 in
      let (_, _, h3) = bind-ok _ _ h2 in
      let (es, staged, h4) = bind-ok _ _ h3 in
      let (_, _, h5) = bind-ok _ _ h4 in
      let same = stage_files-ok transaction 0 files flags _ staged in
      let prepared_only : any (λ entry. not (is_prepared entry)) es ≡ false =
        rw (← same) (all_prepared files flags) in
      let whole : Ensures (IsWritten transaction (planned_entries files flags))
          (prepare codec transaction files flags) w =
        Ensures-bind _ _ _ w λ _ _. Ensures-bind _ _ _ _ λ _ _. Ensures-bind _ _ _ _ λ _ _.
          Ensures-bind _ _ _ _ λ es' staged'. Ensures-bind _ _ _ _ λ _ _. record {
            returned = λ entries' done.
                let same' = stage_files-ok transaction 0 files flags _ staged' in
                renamed transaction (publish codec transaction es' _).1.fs (sym same')
                  (publish-IsWritten transaction es' _ entries'
                    (subst
                      (λ (l : List JournalEntry). any (λ entry. not (is_prepared entry)) l ≡ false)
                      same' (all_prepared files flags))
                    done).1;
          } in
      (
        same ∙ (publish-IsWritten transaction es _ entries prepared_only h5).0,
        whole.returned entries h,
      )

  pub prepare-ok :
      (transaction : FilePath) (files : List StagedFile) (flags : List Bool) (w : World)
      (entries : List JournalEntry)
      → (prepare codec transaction files flags w).0 ≡ ok entries
      → planned_entries files flags ≡ entries
  prepare-ok transaction files flags w entries h =
      (prepare-IsWritten transaction files flags w entries h).0
