-- ===== src/Api/Transaction/Within/Recovery.antt =====
-- Recovery stays within the mirror, whatever the journal holds and whichever operations fail.
use elasticctl.Prelude.{
  ℕ, ◌≡◌, refl, Option, none, some, List, [], ◌∷◌, arith, ◌+◌, or_else, inl, inr,
}
use elasticctl.Prelude.Text.{show}
use elasticctl.Core.Error.{Error, ok, Result-cases}
use elasticctl.Api.Transaction.FilePath.{FilePath, normal, join}
use elasticctl.Api.Transaction.Disk.{World}
use elasticctl.Api.Transaction.Ops.{◌>>=◌}
use elasticctl.Api.Transaction.Phase.{PullLock, JournalEntry}
use elasticctl.Api.Transaction.Journal.{
  JournalCodec, transaction_name, child, transaction_dir, backup_path,
}
use elasticctl.Api.Transaction.Checks.{validate_relative}
use elasticctl.Api.Transaction.Recover.{
  restore_backup, remove_created, recover_one, validate_entries, recover_entries, discard,
  recover_from, recover_pull_with,
}
use elasticctl.Api.Transaction.Frame.{Frame-bind, Frame-bind_lift}
use elasticctl.Api.Transaction.Frame.Operations.{
  sync_dir-Frame, rename-Frame, remove_file-Frame, exists-Frame,
}
use elasticctl.Api.Transaction.Frame.Checking.{
  path_exists-Frame, require_directory-Frame, mirror_parent-Frame, target_is_regular_file-Frame,
  ensure_target_parent-Frame,
}
use elasticctl.Api.Transaction.Frame.Steps.{remove_transaction-Frame, read_journal-Frame}
use elasticctl.Api.Transaction.Within.{
  IsWithin, SameOutside, outside, Within, within_rules, starts_with-append, IsWithin-self,
  join-IsWithin,
}

pub transaction_dir-IsWithin : (lock : PullLock) → IsWithin lock.root (transaction_dir lock)
unfolding transaction_dir join
transaction_dir-IsWithin lock = IsWithin-self lock.root (normal transaction_name ∷ [])

pub backup_path-IsWithin :
    (lock : PullLock) (index : ℕ) → IsWithin lock.root (backup_path (transaction_dir lock) index)
unfolding backup_path join transaction_dir
backup_path-IsWithin lock index =
    let below =
      starts_with-append (transaction_dir lock) (normal "backups" ∷ []) lock.root
        (transaction_dir-IsWithin lock) in
    starts_with-append (child (transaction_dir lock) "backups") (normal (show index) ∷ []) lock.root
      below

discard-Within : (lock : PullLock) → Within lock.root (discard lock)
unfolding discard
discard-Within lock =
    let inside = transaction_dir-IsWithin lock in
    search (within_rules, remove_transaction-Frame, inside)

restore_backup-Within :
    (lock : PullLock) (transaction backup target relative : FilePath)
    → IsWithin lock.root backup
    → IsWithin lock.root target
    → Within lock.root (restore_backup lock transaction backup target relative)
unfolding restore_backup
restore_backup-Within lock transaction backup target relative h h' =
    search
      (
        within_rules, ensure_target_parent-Frame, target_is_regular_file-Frame, remove_file-Frame,
        sync_dir-Frame, rename-Frame,
      )
      depth 12

remove_created-Within :
    (lock : PullLock) (target relative : FilePath)
    → IsWithin lock.root target
    → Within lock.root (remove_created lock target relative)
unfolding remove_created
remove_created-Within lock target relative h = search (
  within_rules, ensure_target_parent-Frame, target_is_regular_file-Frame, remove_file-Frame,
  sync_dir-Frame,
)

recover_one-Within :
    (lock : PullLock) (index : ℕ) (entry : JournalEntry)
    → validate_relative entry.relative ≡ ok tt
    → Within lock.root (recover_one lock (transaction_dir lock) index entry)
unfolding recover_one
recover_one-Within lock index entry h =
    let inside = join-IsWithin lock.root entry.relative h in
    let saved = backup_path-IsWithin lock index in
    search (within_rules, inside, saved, exists-Frame, restore_backup-Within, remove_created-Within)

recover_entries-Within :
    (lock : PullLock) (index : ℕ) (entries : List JournalEntry) (e : Option Error)
    → validate_entries entries ≡ ok tt
    → (w : World)
    → SameOutside lock.root w.fs
        (recover_entries lock (transaction_dir lock) index entries e w).1.fs
unfolding recover_entries validate_entries
recover_entries-Within lock index [] none h w q k = refl
recover_entries-Within lock index [] (some e) h w q k = refl
recover_entries-Within lock index (entry ∷ entries) e h w q k =
    let step = (recover_one-Within lock index entry (ground (arith, h))).at w q k in
    let after = (recover_one lock (transaction_dir lock) index entry w).1 in
    let valid : validate_entries entries ≡ ok tt = ground (arith, h) in
    elim (Result-cases (recover_one lock (transaction_dir lock) index entry w).0) [
      | inl r ↦
          ground
            (arith, r.1, step, recover_entries-Within lock (index + 1) entries e valid after q k)
      | inr (inl r) ↦ ground (
        arith,
        r.1,
        step,
        recover_entries-Within lock (index + 1) entries (or_else e (some r.0)) valid after q k,
      )
      | inr (inr r) ↦ ground (arith, r.1, step)
    ]

recover_from-Within :
    (lock : PullLock) (entries : Option (List JournalEntry))
    → Within lock.root (recover_from lock (transaction_dir lock) entries)
unfolding recover_from
recover_from-Within lock none = discard-Within lock
recover_from-Within lock (some entries) =
    Frame-bind_lift (outside lock.root) (validate_entries entries)
      (λ _. recover_entries lock (transaction_dir lock) 0 entries none >>= (λ _. discard lock))
      (λ u h.
        Frame-bind (outside lock.root) (recover_entries lock (transaction_dir lock) 0 entries none)
          (λ _. discard lock) (record { at = recover_entries-Within lock 0 entries none h })
          (λ _. discard-Within lock))

-- Recovery changes no path outside the mirror root: for every journal, readable or not, and for
-- every fault that an operation meets.
pub recover_pull-Within :
    (codec : JournalCodec) (lock : PullLock) (w : World)
    → SameOutside lock.root w.fs (recover_pull_with codec lock w).1.fs
unfolding recover_pull_with
recover_pull-Within codec lock = (recovery lock).at
  where
    recovery : (lock : PullLock) → Within lock.root (recover_pull_with codec lock)
    recovery lock =
        search
          (
            within_rules, mirror_parent-Frame, path_exists-Frame, require_directory-Frame,
            exists-Frame, discard-Within, read_journal-Frame, recover_from-Within,
          )
          depth 12
