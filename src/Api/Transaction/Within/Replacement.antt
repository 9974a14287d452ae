-- ===== src/Api/Transaction/Within/Replacement.antt =====
-- A replacement stays within the mirror, whichever operations fail.
use elasticctl.Prelude.{ℕ, ◌≡◌, ◌∙◌, Bool, true, false, List, [], ◌∷◌, ◌+◌, All, subst}
use elasticctl.Core.Error.{Result, ok, err, panic}
use elasticctl.Api.Transaction.FilePath.{FilePath}
use elasticctl.Api.Transaction.Disk.{World}
use elasticctl.Api.Transaction.Ops.{◌>>=◌, ◌>>◌}
use elasticctl.Api.Transaction.Phase.{PullLock, JournalEntry, StagedFile}
use elasticctl.Api.Transaction.Journal.{JournalCodec, transaction_dir}
use elasticctl.Api.Transaction.Checks.{
  path_exists, validate_relative, validate_replacement, ensure_mirror_root,
}
use elasticctl.Api.Transaction.Checks.Plan.{IsPlan, validate_replacement-IsPlan}
use elasticctl.Api.Transaction.Replace.{
  prepare, replace_one, finish_failed_replacement, replace_entries, commit, or_roll_back, transact,
  unless_present, replace_staged_files_with,
}
use elasticctl.Api.Transaction.Replace.Prepared.{planned_entries, prepare-ok}
use elasticctl.Api.Transaction.Frame.{Frame-bind, Frame-bind_ok}
use elasticctl.Api.Transaction.Frame.Checking.{path_exists-Frame}
use elasticctl.Api.Transaction.Frame.Steps.{
  replace_one-Frame, remove_transaction-Frame, validate_replacement-Frame, ensure_mirror_root-Frame,
}
use elasticctl.Api.Transaction.Within.{
  SameOutside, outside, Within, within_rules, join-IsWithin, Creatable-IsWithin, IsWithin-refl,
}
use elasticctl.Api.Transaction.Within.Recovery.{
  transaction_dir-IsWithin, backup_path-IsWithin, recover_pull-Within,
}
use elasticctl.Api.Transaction.Within.Preparation.{
  journal_path-IsWithin, staged_path-IsWithin, prepare-Within,
}

-- every entry is of a path that the check accepts
abbrev AllValid : List JournalEntry → Type 0
AllValid entries = All (λ e. validate_relative e.relative ≡ ok tt) entries

planned_entries-AllValid :
    (files : List StagedFile) (seen : List FilePath) (flags : List Bool)
    → IsPlan files seen
    → AllValid (planned_entries files flags)
unfolding planned_entries
planned_entries-AllValid [] seen flags h = tt
planned_entries-AllValid (f ∷ files) seen [] h = tt
planned_entries-AllValid (f ∷ files) seen (existed ∷ flags) h =
    (h.0, planned_entries-AllValid files (f.relative ∷ seen) flags h.2)

module _ (codec : JournalCodec) (lock : PullLock) where
  replace_one-Within :
      (index : ℕ) (entry : JournalEntry)
      → validate_relative entry.relative ≡ ok tt
      → Within lock.root (replace_one codec lock (transaction_dir lock) index entry)
  replace_one-Within index entry h =
      let inside = join-IsWithin lock.root entry.relative h in
      search (
        within_rules, replace_one-Frame, inside, journal_path-IsWithin, backup_path-IsWithin,
        staged_path-IsWithin,
      )

  replace_entries-Within :
      (index : ℕ) (entries : List JournalEntry)
      → AllValid entries
      → Within lock.root (replace_entries codec lock (transaction_dir lock) index entries)
  unfolding replace_entries
  replace_entries-Within index [] h = search within_rules
  replace_entries-Within index (entry ∷ entries) h =
      Frame-bind (outside lock.root) (replace_one codec lock (transaction_dir lock) index entry)
        (λ _. replace_entries codec lock (transaction_dir lock) (index + 1) entries)
        (replace_one-Within index entry h.0) (λ _. replace_entries-Within (index + 1) entries h.1)

  commit-Within :
      (entries : List JournalEntry)
      → AllValid entries
      → Within lock.root (commit codec lock (transaction_dir lock) entries)
  unfolding commit
  commit-Within entries h =
      let inside = transaction_dir-IsWithin lock in
      search (within_rules, replace_entries-Within, remove_transaction-Frame, inside)

  or_roll_back-Within : (r : Result (Unit {0})) → Within lock.root (or_roll_back codec lock r)
  unfolding or_roll_back finish_failed_replacement
  or_roll_back-Within (ok _) = search within_rules
  or_roll_back-Within (panic s) = search within_rules
  or_roll_back-Within (err e) = record { at = recover_pull-Within codec lock }

  attempt-Within :
      (files : List StagedFile) (flags : List Bool)
      → IsPlan files []
      → Within lock.root (
          prepare codec (transaction_dir lock) files flags
          >>= commit codec lock (transaction_dir lock))
  attempt-Within files flags h =
      Frame-bind_ok (outside lock.root) (prepare codec (transaction_dir lock) files flags)
        (commit codec lock (transaction_dir lock)) (prepare-Within codec lock files flags)
        (λ entries w made.
          let planned = prepare-ok codec (transaction_dir lock) files flags w entries made in
          let valid : AllValid entries =
            subst AllValid planned (planned_entries-AllValid files [] flags h) in
          (commit-Within entries valid).at (prepare codec (transaction_dir lock) files flags w).1)

  transact-Within :
      (files : List StagedFile) (flags : List Bool)
      → IsPlan files []
      → Within lock.root (transact codec lock (transaction_dir lock) files flags)
  unfolding transact
  transact-Within files flags h = record {
    at = λ w q k.
        let tried =
          (prepare codec (transaction_dir lock) files flags
              >>= commit codec lock (transaction_dir lock))
            w in
        (or_roll_back-Within tried.0).at tried.1 q k ∙ (attempt-Within files flags h).at w q k;
  }

  unless_present-Within :
      (files : List StagedFile) (flags : List Bool) (there : Bool)
      → IsPlan files []
      → Within lock.root (unless_present codec lock (transaction_dir lock) files flags there)
  unfolding unless_present
  unless_present-Within files flags true plan = search within_rules
  unless_present-Within files flags false plan = transact-Within files flags plan

  -- A replacement changes no path outside the mirror root, for every fault that an operation meets:
  -- not where it succeeds, not where it is refused, and not where it is rolled back.
  pub replace_staged_files-Within :
      (files : List StagedFile) (w : World)
      → SameOutside lock.root w.fs (replace_staged_files_with codec lock files w).1.fs
  unfolding replace_staged_files_with
  replace_staged_files-Within files =
      (Frame-bind_ok (outside lock.root) (validate_replacement lock files) _
        (validate_replacement-Frame (outside lock.root) lock files)
        (λ flags w made.
          let plan = validate_replacement-IsPlan lock files w flags made in
          (after flags plan.0).at (validate_replacement lock files w).1)).at
    where
      after :
          (flags : List Bool)
          → IsPlan files []
          → Within lock.root (
              ensure_mirror_root lock
              >> (path_exists (transaction_dir lock)
                  >>= unless_present codec lock (transaction_dir lock) files flags))
      after flags plan =
          Frame-bind _ _ _
            (ensure_mirror_root-Frame (outside lock.root) lock
              (Creatable-IsWithin lock.root lock.root (IsWithin-refl lock.root)))
            (λ _.
              Frame-bind _ _ _ (path_exists-Frame (outside lock.root) (transaction_dir lock))
                (λ there. unless_present-Within files flags there plan))
