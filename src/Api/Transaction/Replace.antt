-- ===== src/Api/Transaction/Replace.antt =====
-- Replacing the staged files as one transaction.
pub mod Prepared
use elasticctl.Prelude.{
  ℕ, String, Bool, true, false, not, ◌&&◌, Option, none, some, List, [], ◌∷◌, ◌+◌, ◌⊎◌, inl, inr,
  if◌then◌else◌,
}
use elasticctl.Prelude.Text.{concat}
use elasticctl.Core.Error.{Error, ErrorKind, error, conflict, new_error, Result, ok, err, panic}
use elasticctl.Api.Transaction.FilePath.{FilePath, normal, join, display}
use elasticctl.Api.Transaction.Disk.{World}
use elasticctl.Api.Transaction.Ops.{
  Tx, continue, ◌>>=◌, ◌>>◌, pure, raise, lift, io_error, write, sync_file, sync_dir, rename,
}
use elasticctl.Api.Transaction.Phase.{
  Phase, prepared, backing_up, backed_up, installing, installed, JournalEntry, StagedFile, PullLock,
  CleanupOutcome,
}
use elasticctl.Api.Transaction.Journal.{
  JournalCodec, child, transaction_dir, journal_path, staged_path, backup_path, with_newline,
  read_journal, append_phase,
}
use elasticctl.Api.Transaction.Checks.{
  path_exists, ensure_directory, validate_replacement, ensure_mirror_root, target_is_regular_file,
  ensure_target_parent,
}
use elasticctl.Api.Transaction.Recover.{remove_transaction, recover_pull_with}

-- the loop that stages the files; a file beyond the flags is an index out of bounds
unfoldable pub stage_files : FilePath → ℕ → List StagedFile → List Bool → Tx (List JournalEntry)
stage_files transaction index (f ∷ files) (existed ∷ existed_before) = do
  let staged = staged_path transaction index
  write staged f.bytes false f.relative "staging"
  sync_file staged f.relative "syncing staged file"
  rest ← stage_files transaction (index + 1) files existed_before
  pure (record { relative = f.relative; existed_before = existed; phase = prepared } ∷ rest)
stage_files transaction index (f ∷ files) [] = do
  let staged = staged_path transaction index
  write staged f.bytes false f.relative "staging"
  sync_file staged f.relative "syncing staged file"
  lift (panic "index out of bounds")
stage_files transaction index [] existed_before = pure []

module _ (codec : JournalCodec) where
  unfoldable pub write_prepared : FilePath → List JournalEntry → Tx (Unit {0})
  write_prepared transaction entries = elim (codec.encode_prepared entries) [
    | inl e ↦ raise (io_error (concat ("encoding pull journal: " ∷ e ∷ [])))
    | inr bytes ↦
        write (journal_path transaction) (with_newline bytes) false transaction
          "writing pull journal"
  ]

  unfoldable pub read_prepared : FilePath → Option (List JournalEntry) → Tx (List JournalEntry)
  read_prepared transaction (some entries) = pure entries
  read_prepared transaction none = raise (
      io_error (
        concat (
          "pull journal "
          ∷ display (journal_path transaction)
          ∷ " lost its prepared record before commit"
          ∷ [])))

  -- the end of the closure `prepare`: the journal is written and read back
  unfoldable pub publish : FilePath → List JournalEntry → Tx (List JournalEntry)
  publish transaction entries = do
    write_prepared transaction entries
    sync_file (journal_path transaction) transaction "syncing pull journal"
    sync_dir transaction "syncing pull transaction directory"
    found ← read_journal codec transaction
    read_prepared transaction found

  -- the closure `prepare`
  unfoldable pub prepare : FilePath → List StagedFile → List Bool → Tx (List JournalEntry)
  unfolding stage_files
  prepare transaction files existed_before = do
    ensure_directory transaction "creating pull transaction directory"
    ensure_directory (child transaction "staged") "creating pull staging directory"
    ensure_directory (child transaction "backups") "creating pull backup directory"
    entries ← stage_files transaction 0 files existed_before
    sync_dir (child transaction "staged") "syncing pull staging directory"
    publish transaction entries

  unfoldable pub back_up : PullLock → FilePath → ℕ → JournalEntry → Tx (Unit {0})
  back_up lock transaction index entry =
      if entry.existed_before
      then (do
        target_parent ← ensure_target_parent lock entry.relative
        there ← target_is_regular_file lock entry.relative
        if not there
            then raise (
                io_error (
                  concat (
                    "backing up "
                    ∷ display entry.relative
                    ∷ ": expected an existing regular file"
                    ∷ [])))
            else do
              rename (join lock.root entry.relative) (backup_path transaction index) entry.relative
                  "backing up"
              sync_dir target_parent "syncing target directory"
              sync_dir (child transaction "backups") "syncing pull backup directory")
      else pure tt

  unfoldable pub install : PullLock → FilePath → ℕ → JournalEntry → Tx (Unit {0})
  install lock transaction index entry = do
    target_parent ← ensure_target_parent lock entry.relative
    there ← target_is_regular_file lock entry.relative
    if there
        then raise (
            io_error (
              concat (
                "installing "
                ∷ display entry.relative
                ∷ ": target appeared during pull transaction"
                ∷ [])))
        else do
          rename (staged_path transaction index) (join lock.root entry.relative) entry.relative
              "installing"
          sync_dir target_parent "syncing target directory"
          sync_dir (child transaction "staged") "syncing pull staging directory"

  unfoldable pub replace_one : PullLock → FilePath → ℕ → JournalEntry → Tx (Unit {0})
  unfolding back_up install
  replace_one lock transaction index entry = do
    append_phase codec transaction index backing_up
    back_up lock transaction index entry
    append_phase codec transaction index backed_up
    append_phase codec transaction index installing
    install lock transaction index entry
    append_phase codec transaction index installed

  unfoldable pub rolled_back : Error → Result (Unit {0}) → Result (Unit {0})
  rolled_back original (ok _) = err original
  rolled_back original (err recovery) =
      err (io_error (concat (original.message ∷ "; rollback failed: " ∷ recovery.message ∷ [])))
  rolled_back original (panic s) = panic s

  unfoldable pub finish_failed_replacement : PullLock → Error → Tx (Unit {0})
  unfolding rolled_back
  finish_failed_replacement lock original w =
      let (r, w') = recover_pull_with codec lock w in (rolled_back original r, w')

  unfoldable pub replace_entries : PullLock → FilePath → ℕ → List JournalEntry → Tx (Unit {0})
  replace_entries lock transaction index [] = pure tt
  replace_entries lock transaction index (entry ∷ entries) = do
    replace_one lock transaction index entry
    replace_entries lock transaction (index + 1) entries

  -- what follows the preparation: a failure of any step is rolled back
  unfoldable pub commit : PullLock → FilePath → List JournalEntry → Tx (Unit {0})
  commit lock transaction entries = do
    replace_entries lock transaction 0 entries
    remove_transaction lock
    pure tt

  unfoldable pub or_roll_back : PullLock → Result (Unit {0}) → Tx (Unit {0})
  or_roll_back lock (ok _) = pure tt
  or_roll_back lock (err e) = finish_failed_replacement lock e
  or_roll_back lock (panic s) = lift (panic s)

  unfoldable pub transact : PullLock → FilePath → List StagedFile → List Bool → Tx (Unit {0})
  unfolding replace_entries commit or_roll_back
  transact lock transaction files existed_before w =
      let (r, w') =
        (do entries ← prepare transaction files existed_before; commit lock transaction entries)
          w in
      or_roll_back lock r w'

  -- refuses where a transaction is there already
  unfoldable pub unless_present :
      PullLock → FilePath → List StagedFile → List Bool → Bool → Tx (Unit {0})
  unfolding transact
  unless_present lock transaction files existed_before there =
      if there
      then raise (
          new_error conflict (
            concat (
              "a pull transaction is already present at "
              ∷ display transaction
              ∷ "; recover it before replacing files"
              ∷ [])))
      else transact lock transaction files existed_before

  unfoldable pub replace_staged_files_with : PullLock → List StagedFile → Tx (Unit {0})
  replace_staged_files_with lock files = do
    existed_before ← validate_replacement lock files
    ensure_mirror_root lock
    let transaction = transaction_dir lock
    there ← path_exists transaction
    unless_present lock transaction files existed_before there
