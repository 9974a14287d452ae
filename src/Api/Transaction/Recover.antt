-- ===== src/Api/Transaction/Recover.antt =====
-- Rolling back an interrupted pull from its journal.
use elasticctl.Prelude.{
  ℕ, Bool, true, false, not, Option, none, some, List, [], ◌∷◌, ◌+◌, or_else, if◌then◌else◌,
}
use elasticctl.Core.Error.{Error, Result, ok, err, panic}
use elasticctl.Api.Transaction.FilePath.{FilePath, join}
use elasticctl.Api.Transaction.Disk.{World}
use elasticctl.Api.Transaction.Ops.{
  Tx, ◌>>=◌, ◌>>◌, pure, raise, lift, map_io, fs_remove_dir_all, sync_dir, rename, remove_file,
  exists,
}
use elasticctl.Api.Transaction.Phase.{
  Phase, installing, installed, JournalEntry, PullLock, CleanupOutcome, synced,
  committed_after_sync_failure,
}
use elasticctl.Api.Transaction.Journal.{
  JournalCodec, child, transaction_dir, journal_path, staged_path, backup_path, read_journal,
}
use elasticctl.Api.Transaction.Checks.{
  path_exists, require_directory, mirror_parent, validate_relative, target_is_regular_file,
  ensure_target_parent,
}

-- after a failed sync: committed if the transaction is gone
unfoldable pub after_sync : FilePath → Result (Unit {0}) → Tx CleanupOutcome
after_sync transaction (ok _) = pure synced
after_sync transaction (panic s) = lift (panic s)
after_sync transaction (err e) = do
  there ← path_exists transaction
  if there then raise e else pure committed_after_sync_failure

unfoldable pub sync_removed : PullLock → FilePath → Tx CleanupOutcome
sync_removed lock transaction w =
    let (r, w') = sync_dir lock.root "syncing mirror directory after transaction removal" w in
    after_sync transaction r w'

unfoldable pub remove_transaction : PullLock → Tx CleanupOutcome
unfolding after_sync sync_removed
remove_transaction lock = do
  let transaction = transaction_dir lock
  there ← path_exists transaction
  if not there then pure synced else do
    require_directory transaction "removing pull transaction"
    map_io "removing pull transaction" transaction (fs_remove_dir_all transaction)
    sync_removed lock transaction

unfoldable pub restore_backup : PullLock → FilePath → FilePath → FilePath → FilePath → Tx (Unit {0})
restore_backup lock transaction backup target relative = do
  target_parent ← ensure_target_parent lock relative
  replaced ← target_is_regular_file lock relative
  (if replaced
      then (do
        remove_file target relative "removing replacement during rollback"
        sync_dir target_parent "syncing target directory")
      else pure tt)
  rename backup target relative "restoring backup"
  sync_dir target_parent "syncing target directory"
  sync_dir (child transaction "backups") "syncing pull backup directory"

unfoldable pub remove_created : PullLock → FilePath → FilePath → Tx (Unit {0})
remove_created lock target relative = do
  target_parent ← ensure_target_parent lock relative
  there ← target_is_regular_file lock relative
  if there
      then (do
        remove_file target relative "removing newly created replacement during rollback"
        sync_dir target_parent "syncing target directory")
      else pure tt

unfoldable pub is_installing : Phase → Bool
is_installing installing = true
is_installing installed = true
is_installing _ = false

unfoldable pub recover_one : PullLock → FilePath → ℕ → JournalEntry → Tx (Unit {0})
unfolding restore_backup remove_created
recover_one lock transaction index entry = do
  let target = join lock.root entry.relative
  let staged = staged_path transaction index
  if entry.existed_before
      then (do
        let backup = backup_path transaction index
        saved ← exists backup
        if saved then restore_backup lock transaction backup target entry.relative else pure tt)
      else if is_installing entry.phase
      then (do
        waiting ← exists staged
        if waiting then pure tt else remove_created lock target entry.relative)
      else pure tt

unfoldable pub validate_entries : List JournalEntry → Result (Unit {0})
validate_entries [] = ok tt
validate_entries (e ∷ es) = elim (validate_relative e.relative) [
  | ok _ ↦ validate_entries es
  | err x ↦ err x
  | panic s ↦ panic s
]

-- every entry is tried; the first error is kept
unfoldable pub recover_entries :
    PullLock → FilePath → ℕ → List JournalEntry → Option Error → World → Result (Unit {0}) × World
recover_entries lock transaction index [] none w = (ok tt, w)
recover_entries lock transaction index [] (some e) w = (err e, w)
recover_entries lock transaction index (entry ∷ entries) first_error w =
    let (r, w') = recover_one lock transaction index entry w in
    elim r [
      | ok _ ↦ recover_entries lock transaction (index + 1) entries first_error w'
      | err e ↦
          recover_entries lock transaction (index + 1) entries (or_else first_error (some e)) w'
      | panic s ↦ (panic s, w')
    ]

unfoldable pub discard : PullLock → Tx (Unit {0})
discard lock = do remove_transaction lock; pure tt

unfoldable pub recover_from : PullLock → FilePath → Option (List JournalEntry) → Tx (Unit {0})
recover_from lock transaction none = discard lock
recover_from lock transaction (some entries) = do
  lift (validate_entries entries)
  recover_entries lock transaction 0 entries none
  discard lock

unfoldable pub recover_pull_with : JournalCodec → PullLock → Tx (Unit {0})
unfolding validate_entries recover_entries discard recover_from
recover_pull_with codec lock = do
  mirror_parent lock.root
  let transaction = transaction_dir lock
  there ← path_exists transaction
  if not there then pure tt else do
    require_directory transaction "reading pull transaction directory"
    written ← exists (journal_path transaction)
    if not written
        then discard lock
        else do entries ← read_journal codec transaction; recover_from lock transaction entries
