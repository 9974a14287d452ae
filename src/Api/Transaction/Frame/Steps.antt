-- ===== src/Api/Transaction/Frame/Steps.antt =====
-- The steps of a replacement keep what a guard holds of, where it is free of the paths that they change.
use elasticctl.Prelude.{
  ℕ, String, ◌≡◌, refl, ◌∙◌, sym, subst, Bool, false, ◌⊎◌, inl, inr, Option, none, some, List, [],
  ◌∷◌, ◌+◌, any, ◌≤◌, arith,
}
use elasticctl.Core.Error.{Result, ok, err, panic}
use elasticctl.Api.Transaction.FilePath.{FilePath, join, path_eq}
use elasticctl.Api.Transaction.Disk.{Bytes}
use elasticctl.Api.Transaction.Phase.{Phase, PullLock, JournalEntry, StagedFile}
use elasticctl.Api.Transaction.Journal.{
  JournalCodec, child, transaction_dir, append_phase, journal_path, staged_path, backup_path,
  read_journal,
}
use elasticctl.Api.Transaction.Checks.{
  planned, validate_files, validate_replacement, ensure_mirror_root,
}
use elasticctl.Api.Transaction.Recover.{after_sync, sync_removed, remove_transaction}
use elasticctl.Api.Transaction.Replace.{
  stage_files, write_prepared, read_prepared, publish, back_up, install, replace_one, prepare,
}
use elasticctl.Api.Transaction.Frame.{
  Guard, Frame, Free, FreeBelow, Creatable, frame_rules, Frame-bind, Frame-if,
}
use elasticctl.Api.Transaction.Frame.Operations.{
  write-Frame, sync_file-Frame, sync_dir-Frame, rename-Frame, read-Frame, remove_dir_all-Frame,
}
use elasticctl.Api.Transaction.Frame.Checking.{
  CreatableBelow, mirror_parent-Frame, ensure_directory-Frame, validate_target_ancestors-Frame,
  path_exists-Frame, require_directory-Frame, target_is_regular_file-Frame,
  ensure_target_parent-Frame,
}

module _ (G : Guard) where
  validate_files-Frame :
      (lock : PullLock) (files : List StagedFile) (seen : List FilePath)
      → Frame G (validate_files lock files seen)
  unfolding validate_files planned
  validate_files-Frame lock [] seen = search frame_rules
  validate_files-Frame lock (f ∷ files) seen = Frame-bind _ _ _ (search frame_rules) (λ _.
      Frame-bind _ _ _ (validate_target_ancestors-Frame G lock.root f.relative) (λ _.
        Frame-if _ (any (λ q. path_eq f.relative q) seen) _ _ (record { at = λ w q k. refl })
          (Frame-bind _ _ _ (target_is_regular_file-Frame G lock f.relative) (λ existed.
            Frame-bind _ _ _ (validate_files-Frame lock files (f.relative ∷ seen))
              (λ rest. record { at = λ w q k. refl })))))

  pub validate_replacement-Frame :
      (lock : PullLock) (files : List StagedFile) → Frame G (validate_replacement lock files)
  unfolding validate_replacement
  validate_replacement-Frame lock files =
      search (frame_rules, mirror_parent-Frame, validate_files-Frame)

  pub ensure_mirror_root-Frame :
      (lock : PullLock) → Creatable G lock.root → Frame G (ensure_mirror_root lock)
  unfolding ensure_mirror_root
  ensure_mirror_root-Frame lock h =
      search (frame_rules, mirror_parent-Frame, ensure_directory-Frame, h)

  pub read_journal-Frame :
      (codec : JournalCodec) (transaction : FilePath) → Frame G (read_journal codec transaction)
  unfolding read_journal
  read_journal-Frame codec transaction = search (frame_rules, read-Frame)

  module _ (lock : PullLock) where
    after_sync-Frame : (r : Result (Unit {0})) → Frame G (after_sync (transaction_dir lock) r)
    unfolding after_sync
    after_sync-Frame (ok _) = search frame_rules
    after_sync-Frame (panic s) = search frame_rules
    after_sync-Frame (err e) = search (frame_rules, path_exists-Frame)

    sync_removed-Frame : Frame G (sync_removed lock (transaction_dir lock))
    unfolding sync_removed
    sync_removed-Frame = record {
      at = λ w q k.
          let synced =
            (sync_dir-Frame G lock.root "syncing mirror directory after transaction removal").at w q
              k in
          (after_sync-Frame _).at _ q (subst (G q) (sym synced) k) ∙ synced;
    }

    pub remove_transaction-Frame :
        FreeBelow G (transaction_dir lock) → Frame G (remove_transaction lock)
    unfolding remove_transaction
    remove_transaction-Frame h =
        search
          (
            frame_rules, path_exists-Frame, require_directory-Frame, remove_dir_all-Frame, h,
            sync_removed-Frame,
          )
          depth 10

    pub stage_files-Frame :
        (index : ℕ) (files : List StagedFile) (flags : List Bool)
        → ((i : ℕ) → index ≤ i → Free G (staged_path (transaction_dir lock) i))
        → Frame G (stage_files (transaction_dir lock) index files flags)
    unfolding stage_files
    stage_files-Frame index [] flags free = search frame_rules
    stage_files-Frame index (f ∷ files) [] free =
        let here = free index (omega arith) in
        search (frame_rules, write-Frame, sync_file-Frame, here) depth 12
    stage_files-Frame index (f ∷ files) (existed ∷ flags) free =
        let staged = staged_path (transaction_dir lock) index in
        Frame-bind G _ _
          (write-Frame G staged f.bytes false f.relative "staging" (free index (omega arith)))
          (λ _. Frame-bind G _ _ (sync_file-Frame G staged f.relative "syncing staged file") (λ _.
            Frame-bind G _ _
              (stage_files-Frame (index + 1) files flags (λ i h. free i (omega (arith, h))))
              (λ rest. search frame_rules)))

  module _ (codec : JournalCodec) (lock : PullLock) where
    open codec use {encode_phase, encode_prepared}

    pub append_phase-Frame :
        (index : ℕ) (phase : Phase)
        → Free G (journal_path (transaction_dir lock))
        → Frame G (append_phase codec (transaction_dir lock) index phase)
    unfolding append_phase
    append_phase-Frame index phase h =
        go (encode_phase (record { entry = index; phase = phase })) refl
      where
        go :
            (e : String ⊎ Bytes)
            → encode_phase (record { entry = index; phase = phase }) ≡ e
            → Frame G (append_phase codec (transaction_dir lock) index phase)
        go (inl e) same = rw (same, append_phase) (search frame_rules)
        go (inr b) same =
            rw (same, append_phase)
              (search (frame_rules, write-Frame, h, sync_file-Frame, sync_dir-Frame) depth 10)

    pub back_up-Frame :
        (index : ℕ) (entry : JournalEntry)
        → CreatableBelow G lock.root
        → Free G (join lock.root entry.relative)
        → Free G (backup_path (transaction_dir lock) index)
        → Frame G (back_up codec lock (transaction_dir lock) index entry)
    unfolding back_up
    back_up-Frame index entry dirs target backup =
        search
          (
            frame_rules, ensure_target_parent-Frame, target_is_regular_file-Frame, rename-Frame,
            dirs, target, backup, sync_dir-Frame,
          )
          depth 14

    pub install-Frame :
        (index : ℕ) (entry : JournalEntry)
        → CreatableBelow G lock.root
        → Free G (join lock.root entry.relative)
        → Free G (staged_path (transaction_dir lock) index)
        → Frame G (install codec lock (transaction_dir lock) index entry)
    unfolding install
    install-Frame index entry dirs target staged =
        search
          (
            frame_rules, ensure_target_parent-Frame, target_is_regular_file-Frame, rename-Frame,
            dirs, target, staged, sync_dir-Frame,
          )
          depth 14

    pub replace_one-Frame :
        (index : ℕ) (entry : JournalEntry)
        → Free G (journal_path (transaction_dir lock))
        → CreatableBelow G lock.root
        → Free G (join lock.root entry.relative)
        → Free G (backup_path (transaction_dir lock) index)
        → Free G (staged_path (transaction_dir lock) index)
        → Frame G (replace_one codec lock (transaction_dir lock) index entry)
    unfolding replace_one
    replace_one-Frame index entry journal dirs target backup staged =
        search
          (
            frame_rules, append_phase-Frame, back_up-Frame, install-Frame, journal, dirs, target,
            backup, staged,
          )
          depth 14

    write_prepared-Frame :
        (entries : List JournalEntry)
        → Free G (journal_path (transaction_dir lock))
        → Frame G (write_prepared codec (transaction_dir lock) entries)
    unfolding write_prepared
    write_prepared-Frame entries h = go (encode_prepared entries) refl
      where
        go :
            (e : String ⊎ Bytes)
            → encode_prepared entries ≡ e
            → Frame G (write_prepared codec (transaction_dir lock) entries)
        go (inl e) same = rw (same, write_prepared) (search frame_rules)
        go (inr b) same = rw (same, write_prepared) (search (frame_rules, write-Frame, h))

    read_prepared-Frame :
        (found : Option (List JournalEntry))
        → Frame G (read_prepared codec (transaction_dir lock) found)
    unfolding read_prepared
    read_prepared-Frame none = search frame_rules
    read_prepared-Frame (some entries) = search frame_rules

    pub publish-Frame :
        (entries : List JournalEntry)
        → Free G (journal_path (transaction_dir lock))
        → Frame G (publish codec (transaction_dir lock) entries)
    unfolding publish
    publish-Frame entries h =
        search
          (
            frame_rules, write_prepared-Frame, sync_file-Frame, sync_dir-Frame, read_journal-Frame,
            read_prepared-Frame, h,
          )
          depth 12

    pub prepare-Frame :
        (files : List StagedFile) (flags : List Bool)
        → Free G (journal_path (transaction_dir lock))
        → ((i : ℕ) → Free G (staged_path (transaction_dir lock) i))
        → Creatable G (transaction_dir lock)
        → ((name : String) → Creatable G (child (transaction_dir lock) name))
        → Frame G (prepare codec (transaction_dir lock) files flags)
    unfolding prepare
    prepare-Frame files flags journal staged dir children =
        Frame-bind G _ _ (ensure_directory-Frame G (transaction_dir lock) _ dir) λ _.
          Frame-bind G _ _ (ensure_directory-Frame G _ _ (children "staged")) λ _.
            Frame-bind G _ _ (ensure_directory-Frame G _ _ (children "backups")) λ _.
              Frame-bind G _ _ (stage_files-Frame lock 0 files flags (λ i le. staged i)) λ entries.
                Frame-bind G _ _ (sync_dir-Frame G _ _) λ _. publish-Frame entries journal
