-- ===== src/Api/Transaction/Installed/Kept.antt =====
-- A replacement that is cut off at any of its operations has lost no file.
use elasticctl.Prelude.{ℕ, String, ◌≡◌, ◌⊎◌, true, not, some, inl, inr}
use elasticctl.Core.Error.{ok}
use elasticctl.Api.Transaction.FilePath.{FilePath}
use elasticctl.Api.Transaction.Disk.{Bytes, FileSystem, file, World}
use elasticctl.Api.Transaction.Ops.{Tx, sync_dir}
use elasticctl.Api.Transaction.Ops.Inversion.{
  after-bind, after-unless, rename-either, rename-ok, Ensures, Ensures-bind, Ensures-unless,
}
use elasticctl.Api.Transaction.Phase.{
  Phase, JournalEntry, PullLock, prepared, backing_up, backed_up, installing, installed,
}
use elasticctl.Api.Transaction.Journal.{JournalCodec, transaction_dir, backup_path, append_phase}
use elasticctl.Api.Transaction.Checks.{
  validate_relative, ensure_target_parent, target_is_regular_file,
}
use elasticctl.Api.Transaction.Replace.{back_up, install, replace_one}
use elasticctl.Api.Transaction.Frame.{Frame, Creatable}
use elasticctl.Api.Transaction.Frame.Operations.{sync_dir-Frame}
use elasticctl.Api.Transaction.Frame.Checking.{
  target_is_regular_file-Frame, ensure_target_parent-Frame,
}
use elasticctl.Api.Transaction.Frame.Steps.{append_phase-Frame, install-Frame}
use elasticctl.Api.Transaction.Installed.{holds, Free-holds, Creatable-file}
use elasticctl.Api.Transaction.Installed.Paths.{backup_path-journal_path, backup_path-staged_path}
use elasticctl.Api.Transaction.Installed.Targets.{backup_path-target, target-journal_path}
use elasticctl.Api.Transaction.Installed.Replacement.{target, IsFile, keeps-file}

module _ (lock : PullLock) where
  abbrev pub backup : ℕ → FilePath
  backup index = backup_path (transaction_dir lock) index

  -- a file is at its path or in its backup
  abbrev pub Saved : FilePath → ℕ → Bytes → FileSystem → Type 0
  Saved r index b fs = IsFile (target lock r) b fs ⊎ IsFile (backup index) b fs

  -- a step that keeps both places
  pub Saved-keeps :
      {A : Type 0} (r : FilePath) (index : ℕ) (b : Bytes) (m : Tx A) (w : World)
      → Frame (holds (target lock r) (some (file b))) m
      → Frame (holds (backup index) (some (file b))) m
      → Saved r index b w.fs
      → Saved r index b (m w).1.fs
  Saved-keeps r index b m w there saved (inl h) = inl (keeps-file (target lock r) b m w there h)
  Saved-keeps r index b m w there saved (inr h) = inr (keeps-file (backup index) b m w saved h)

module _ (codec : JournalCodec) (lock : PullLock) where
  module _ (r : FilePath) (index : ℕ) (b : Bytes) (valid : validate_relative r ≡ ok tt) where
    abbrev entry : JournalEntry
    entry = record { relative = r; existed_before = true; phase = prepared }

    dirs : (p : FilePath) (q : FilePath) → Creatable (holds p (some (file b))) q
    dirs p q = Creatable-file p b q

    found :
        (w : World)
        → IsFile (target lock r) b w.fs
        → IsFile (target lock r) b (ensure_target_parent lock r w).1.fs
          × IsFile
              (target lock r)
              b
              (target_is_regular_file lock r (ensure_target_parent lock r w).1).1.fs
    found w h =
        let above =
          keeps-file (target lock r) b (ensure_target_parent lock r) w
            (ensure_target_parent-Frame _ lock r (λ rest. dirs _ _)) h in
        (
          above,
          keeps-file (target lock r) b (target_is_regular_file lock r) _
              (target_is_regular_file-Frame _ lock r) above,
        )

    Saved-sync_dir :
        (p : FilePath) (action : String) (w : World)
        → Saved lock r index b w.fs
        → Saved lock r index b (sync_dir p action w).1.fs
    Saved-sync_dir p action w =
        Saved-keeps lock r index b (sync_dir p action) w (sync_dir-Frame _ p action)
          (sync_dir-Frame _ p action)

    back_up-Saved :
        (w : World)
        → IsFile (target lock r) b w.fs
        → Saved lock r index b (back_up codec lock (transaction_dir lock) index entry w).1.fs
    unfolding back_up
    back_up-Saved w h =
        let Q = Saved lock r index b in
        let (above, there) = found w h in
        let renamed = rename-either (target lock r) (backup lock index) r "backing up" _ b there in
        after-bind Q _ _ w (inl above) λ parent _. after-bind Q _ _ _ (inl there) λ regular _.
          after-unless Q (not regular) _ _ _ (inl there) (
            after-bind Q _ _ _ renamed λ _ _.
              after-bind Q _ _ _ (Saved-sync_dir parent "syncing target directory" _ renamed) λ _ _.
                Saved-sync_dir _ _ _ (Saved-sync_dir parent "syncing target directory" _ renamed))

    back_up-IsFile :
        (w : World)
        → IsFile (target lock r) b w.fs
        → Ensures
            (IsFile (backup lock index) b)
            (back_up codec lock (transaction_dir lock) index entry)
            w
    unfolding back_up
    back_up-IsFile w h = Ensures-bind _ _ _ w λ parent _. Ensures-bind _ _ _ _ λ regular _.
        Ensures-unless _ (not regular) _ _ _ (
          Ensures-bind _ _ _ _ λ u moved. Ensures-bind _ _ _ _ λ _ _. record {
            returned = λ a k.
                keeps-file (backup lock index) b (sync_dir _ _) _ (sync_dir-Frame _ _ _) (
                  keeps-file (backup lock index) b (sync_dir parent "syncing target directory") _
                    (sync_dir-Frame _ _ _)
                    (rename-ok (target lock r) (backup lock index) r "backing up" _ u b moved
                      (found w h).1));
          })

    append-IsFile :
        (phase : Phase) (w : World)
        → IsFile (backup lock index) b w.fs
        → IsFile
            (backup lock index)
            b
            (append_phase codec (transaction_dir lock) index phase w).1.fs
    append-IsFile phase w =
        keeps-file (backup lock index) b (append_phase codec (transaction_dir lock) index phase) w (
          append_phase-Frame _ codec lock index phase
            (Free-holds _ _ _ (backup_path-journal_path lock index)))

    pub replace_one-Saved :
        (w : World)
        → IsFile (target lock r) b w.fs
        → Saved lock r index b (replace_one codec lock (transaction_dir lock) index entry w).1.fs
    unfolding replace_one
    replace_one-Saved w h =
        let Q = Saved lock r index b in
        let start =
          keeps-file (target lock r) b (append_phase codec (transaction_dir lock) index backing_up)
            w
            (append_phase-Frame _ codec lock index backing_up
              (Free-holds _ _ _ (target-journal_path lock r valid)))
            h in
        after-bind Q _ _ w (inl start) λ _ _. after-bind Q _ _ _ (back_up-Saved _ start) λ u done.
          let kept = (back_up-IsFile _ start).returned u done in
          let kept1 = append-IsFile backed_up _ kept in
          let kept2 = append-IsFile installing _ kept1 in
          let kept3 =
            keeps-file (backup lock index) b (install codec lock (transaction_dir lock) index entry)
              _
              (install-Frame _ codec lock index entry (λ rest. dirs _ _)
                (Free-holds _ _ _ (backup_path-target lock r valid index))
                (Free-holds _ _ _ (backup_path-staged_path lock index index)))
              kept2 in
          after-bind Q _ _ _ (inr kept1) λ _ _.
            after-bind Q _ _ _ (inr kept2)
              λ _ _. after-bind Q _ _ _ (inr kept3) λ _ _. inr (append-IsFile installed _ kept3)
