-- ===== src/Api/Transaction/Installed/Replacement.antt =====
-- A replacement of staged files that returned has put each at its path.
use elasticctl.Prelude.{ℕ, ◌≡◌, false, some}
use elasticctl.Core.Error.{ok}
use elasticctl.Api.Transaction.FilePath.{FilePath, path_eq, join}
use elasticctl.Api.Transaction.Disk.{Bytes, FileSystem, file, World}
use elasticctl.Api.Transaction.Ops.{Tx, sync_dir}
use elasticctl.Api.Transaction.Ops.Inversion.{Ensures, Ensures-bind, Ensures-unless, rename-ok}
use elasticctl.Api.Transaction.Phase.{Phase, JournalEntry, PullLock}
use elasticctl.Api.Transaction.Journal.{
  JournalCodec, child, transaction_dir, journal_path, backup_path, append_phase,
}
use elasticctl.Api.Transaction.Checks.{
  validate_relative, ensure_target_parent, target_is_regular_file,
}
use elasticctl.Api.Transaction.Replace.{back_up, install, replace_one}
use elasticctl.Api.Transaction.Frame.{Frame}
use elasticctl.Api.Transaction.Frame.Operations.{sync_dir-Frame}
use elasticctl.Api.Transaction.Frame.Checking.{
  target_is_regular_file-Frame, ensure_target_parent-Frame,
}
use elasticctl.Api.Transaction.Frame.Steps.{append_phase-Frame, back_up-Frame, replace_one-Frame}
use elasticctl.Api.Transaction.Installed.{holds, Frame-holds, Free-holds, Creatable-file}
use elasticctl.Api.Transaction.Installed.Paths.{staged_path-journal_path, staged_path-backup_path}
use elasticctl.Api.Transaction.Installed.Targets.{staged_path-target, target-journal_path}
use elasticctl.Api.Transaction.Installed.Staging.{staged}

-- the path of a file in the mirror
abbrev pub target : PullLock → FilePath → FilePath
target lock relative = join lock.root relative

abbrev pub IsFile : FilePath → Bytes → FileSystem → Type 0
IsFile p b fs = fs p ≡ some (file b)

pub keeps-file :
    {A : Type 0} (p : FilePath) (b : Bytes) (m : Tx A) (w : World)
    → Frame (holds p (some (file b))) m
    → IsFile p b w.fs
    → IsFile p b (m w).1.fs
keeps-file p b m w h k = Frame-holds p (some (file b)) m h w k

module _ (codec : JournalCodec) (lock : PullLock) where
  install-IsFile :
      (index : ℕ) (entry : JournalEntry) (b : Bytes) (w : World)
      → IsFile (staged lock index) b w.fs
      → Ensures
          (IsFile (target lock entry.relative) b)
          (install codec lock (transaction_dir lock) index entry)
          w
  unfolding install
  install-IsFile index entry b w waits =
      let from = staged lock index in
      let to = target lock entry.relative in
      let dirs = Creatable-file from b in
      let waits1 =
        keeps-file from b (ensure_target_parent lock entry.relative) w
          (ensure_target_parent-Frame _ lock entry.relative (λ rest. dirs _)) waits in
      let waits2 =
        keeps-file from b (target_is_regular_file lock entry.relative) _
          (target_is_regular_file-Frame _ lock entry.relative) waits1 in
      Ensures-bind _ _ _ w λ above _. Ensures-bind _ _ _ _ λ there _. Ensures-unless _ there _ _ _ (
        Ensures-bind _ _ _ _ λ u moved. Ensures-bind _ _ _ _ λ _ _. record {
          returned = λ a h.
              keeps-file to b
                (sync_dir (child (transaction_dir lock) "staged") "syncing pull staging directory")
                _ (sync_dir-Frame _ _ _)
                (keeps-file to b (sync_dir above "syncing target directory") _
                  (sync_dir-Frame _ _ _)
                  (rename-ok from to entry.relative "installing" _ u b moved waits2));
        })

  -- a step on one entry keeps a file that is at none of its paths
  pub replace_one-keeps :
      (p : FilePath) (b : Bytes) (index : ℕ) (entry : JournalEntry)
      → path_eq p (journal_path (transaction_dir lock)) ≡ false
      → path_eq p (target lock entry.relative) ≡ false
      → path_eq p (backup_path (transaction_dir lock) index) ≡ false
      → path_eq p (staged lock index) ≡ false
      → Frame (holds p (some (file b))) (replace_one codec lock (transaction_dir lock) index entry)
  replace_one-keeps p b index entry journal there backup waits =
      replace_one-Frame _ codec lock index entry (Free-holds p _ _ journal)
        (λ rest. Creatable-file p b _) (Free-holds p _ _ there) (Free-holds p _ _ backup)
        (Free-holds p _ _ waits)

  module _ (index : ℕ) (entry : JournalEntry) (b : Bytes)
      (valid : validate_relative entry.relative ≡ ok tt) where
    staged-append :
        (phase : Phase) (w : World)
        → IsFile (staged lock index) b w.fs
        → IsFile
            (staged lock index)
            b
            (append_phase codec (transaction_dir lock) index phase w).1.fs
    staged-append phase w =
        keeps-file (staged lock index) b (append_phase codec (transaction_dir lock) index phase) w (
          append_phase-Frame _ codec lock index phase
            (Free-holds _ _ _ (staged_path-journal_path lock index)))

    staged-back_up :
        (w : World)
        → IsFile (staged lock index) b w.fs
        → IsFile
            (staged lock index)
            b
            (back_up codec lock (transaction_dir lock) index entry w).1.fs
    staged-back_up w =
        keeps-file (staged lock index) b (back_up codec lock (transaction_dir lock) index entry) w (
          back_up-Frame _ codec lock index entry (λ rest. Creatable-file _ b _)
            (Free-holds _ _ _ (staged_path-target lock entry.relative valid index))
            (Free-holds _ _ _ (staged_path-backup_path lock index index)))

    pub replace_one-IsFile :
        (w : World)
        → IsFile (staged lock index) b w.fs
        → Ensures
            (IsFile (target lock entry.relative) b)
            (replace_one codec lock (transaction_dir lock) index entry)
            w
    unfolding replace_one
    replace_one-IsFile w waits = Ensures-bind _ _ _ w λ _ _. Ensures-bind _ _ _ _ λ _ _.
        Ensures-bind _ _ _ _ λ _ _. Ensures-bind _ _ _ _ λ _ _. Ensures-bind _ _ _ _ λ u done.
          record {
            returned = λ a h.
                keeps-file (target lock entry.relative) b _ _
                  (append_phase-Frame _ codec lock index _
                    (Free-holds _ _ _ (target-journal_path lock entry.relative valid)))
                  ((install-IsFile index entry b _ (
                      staged-append _ _
                        (staged-append _ _ (staged-back_up _ (staged-append _ w waits))))).returned
                    u done);
          }
