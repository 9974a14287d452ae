-- ===== src/Api/Transaction/Installed/Outcome.antt =====
-- A pull that is reported as done has installed every file.
use elasticctl.Prelude.{
  ℕ, ◌≡◌, ◌≢◌, subst, Bool, none, some, List, [], arith, All, length, inl, inr,
}
use elasticctl.Core.Error.{Error, Result, ok, err, panic, Result-cases}
use elasticctl.Api.Transaction.FilePath.{join}
use elasticctl.Api.Transaction.Disk.{file, World}
use elasticctl.Api.Transaction.Ops.{◌>>=◌}
use elasticctl.Api.Transaction.Ops.Inversion.{Ensures, Ensures-bind, Ensures-unless}
use elasticctl.Api.Transaction.Phase.{StagedFile, PullLock}
use elasticctl.Api.Transaction.Journal.{JournalCodec, transaction_dir, staged_path}
use elasticctl.Api.Transaction.Checks.{validate_replacement, ensure_mirror_root, path_exists}
use elasticctl.Api.Transaction.Checks.Plan.{IsPlan, validate_replacement-IsPlan}
use elasticctl.Api.Transaction.Recover.{remove_transaction, recover_pull_with}
use elasticctl.Api.Transaction.Replace.{
  prepare, commit, or_roll_back, finish_failed_replacement, rolled_back, transact, unless_present,
  replace_staged_files_with,
}
use elasticctl.Api.Transaction.Replace.Prepared.{planned_entries, prepare-ok}
use elasticctl.Api.Transaction.Frame.Checking.{path_exists-Frame}
use elasticctl.Api.Transaction.Frame.Steps.{
  remove_transaction-Frame, validate_replacement-Frame, ensure_mirror_root-Frame,
}
use elasticctl.Api.Transaction.Installed.{FreeBelow-holds, Creatable-holds}
use elasticctl.Api.Transaction.Installed.Paths.{staged_path-root}
use elasticctl.Api.Transaction.Installed.Targets.{target-transaction_dir}
use elasticctl.Api.Transaction.Installed.Staging.{
  staged, Staged, Vacant, step-Vacant, prepare-Staged,
}
use elasticctl.Api.Transaction.Installed.Entries.{
  Installed, replace_entries-Installed, Installed-keeps,
}

module _ (codec : JournalCodec) (lock : PullLock) where
  commit-Installed :
      (files : List StagedFile) (flags : List Bool) (w : World)
      → IsPlan files []
      → length flags ≡ length files
      → Staged lock w.fs 0 files
      → Ensures
          (Installed lock files)
          (commit codec lock (transaction_dir lock) (planned_entries files flags))
          w
  unfolding commit
  commit-Installed files flags w plan same waits = Ensures-bind _ _ _ w λ u done.
      Ensures-bind _ _ _ _ λ _ _. record {
        returned = λ b h.
            Installed-keeps codec lock (remove_transaction lock) _ files [] plan
              (λ r bytes valid.
                remove_transaction-Frame _ lock
                  (FreeBelow-holds _ _ _ (target-transaction_dir lock r valid)))
              ((replace_entries-Installed codec lock 0 files flags [] w plan same waits).returned u
                done);
      }

  attempt-Installed :
      (files : List StagedFile) (flags : List Bool) (w : World)
      → IsPlan files []
      → length flags ≡ length files
      → Vacant lock w.fs 0
      → Ensures
          (Installed lock files)
          (prepare codec (transaction_dir lock) files flags
            >>= commit codec lock (transaction_dir lock))
          w
  attempt-Installed files flags w plan same empty = Ensures-bind _ _ _ w λ entries made.
      subst
        (λ es.
          Ensures (Installed lock files) (commit codec lock (transaction_dir lock) es)
            (prepare codec (transaction_dir lock) files flags w).1)
        (prepare-ok codec (transaction_dir lock) files flags w entries made)
        (commit-Installed files flags _ plan same
          ((prepare-Staged lock codec files flags w empty).returned entries made))

  rolled_back-fails :
      (e : Error) (r : Result (Unit {0})) {u : Unit {0}} → rolled_back codec e r ≢ ok u
  unfolding rolled_back
  rolled_back-fails e (ok _) = λ h. ground (arith, h)
  rolled_back-fails e (err x) = λ h. ground (arith, h)
  rolled_back-fails e (panic s) = λ h. ground (arith, h)

  transact-Installed :
      (files : List StagedFile) (flags : List Bool) (w : World)
      → IsPlan files []
      → length flags ≡ length files
      → Vacant lock w.fs 0
      → Ensures (Installed lock files) (transact codec lock (transaction_dir lock) files flags) w
  unfolding transact or_roll_back finish_failed_replacement
  transact-Installed files flags w plan same empty =
      let attempt =
        prepare codec (transaction_dir lock) files flags
        >>= commit codec lock (transaction_dir lock) in
      record {
        returned = λ u h. elim (Result-cases (attempt w).0) [
          | inl r ↦ rw r.1 ((attempt-Installed files flags w plan same empty).returned r.0 r.1)
          | inr (inl r) ↦ absurd (
              rolled_back-fails r.0 (recover_pull_with codec lock (attempt w).1).0
                (ground (arith, h, r.1)))
          | inr (inr r) ↦ absurd (ground (arith, h, r.1))
        ];
      }

  unless_present-Installed :
      (files : List StagedFile) (flags : List Bool) (there : Bool) (w : World)
      → IsPlan files []
      → length flags ≡ length files
      → Vacant lock w.fs 0
      → Ensures
          (Installed lock files)
          (unless_present codec lock (transaction_dir lock) files flags there)
          w
  unfolding unless_present
  unless_present-Installed files flags there w plan same empty =
      Ensures-unless _ there _ _ w (transact-Installed files flags w plan same empty)

  -- A replacement that returns has installed every file of the plan with its bytes, whatever faults its
  -- operations met, where at its start nothing was at the paths of staged files.
  pub replace_staged_files-Installed :
      (files : List StagedFile) (w : World) (u : Unit {0})
      → ((i : ℕ) → w.fs (staged_path (transaction_dir lock) i) ≡ none)
      → (replace_staged_files_with codec lock files w).0 ≡ ok u
      → All
          (λ f.
            (replace_staged_files_with codec lock files w).1.fs (join lock.root f.relative)
            ≡ some (file f.bytes))
          files
  unfolding replace_staged_files_with
  replace_staged_files-Installed files w u empty h =
      let checked =
        step-Vacant lock (validate_replacement lock files) w
          (λ i. validate_replacement-Frame _ lock files) (λ i le. empty i) in
      let rooted =
        step-Vacant lock (ensure_mirror_root lock) _
          (λ i.
            ensure_mirror_root-Frame _ lock
              (Creatable-holds (staged lock i) none lock.root (staged_path-root lock i)))
          checked in
      let looked =
        step-Vacant lock (path_exists (transaction_dir lock)) _
          (λ i. path_exists-Frame _ (transaction_dir lock)) rooted in
      let whole : Ensures (Installed lock files) (replace_staged_files_with codec lock files) w =
        Ensures-bind _ _ _ w λ flags made.
          let plan = validate_replacement-IsPlan lock files w flags made in
          Ensures-bind _ _ _ _ λ _ _.
            Ensures-bind _ _ _ _
              λ there _. unless_present-Installed files flags there _ plan.0 plan.1 looked in
      whole.returned u h
