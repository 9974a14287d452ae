-- ===== src/Api/Transaction/Installed/Entries.antt =====
-- The loop over the entries of a plan: each file is installed, and the later ones leave it there.
use elasticctl.Prelude.{
  ℕ, ◌+◌, ◌≡◌, sym, Bool, false, some, List, [], ◌∷◌, arith, All, any, length, inl, inr, Bool-cases,
}
use elasticctl.Core.Error.{ok}
use elasticctl.Api.Transaction.FilePath.{FilePath, path_eq, path_eq_iff, join}
use elasticctl.Api.Transaction.Disk.{Bytes, FileSystem, file, World}
use elasticctl.Api.Transaction.Ops.{Tx}
use elasticctl.Api.Transaction.Ops.Inversion.{Ensures, Ensures-bind}
use elasticctl.Api.Transaction.Phase.{JournalEntry, StagedFile, PullLock, prepared}
use elasticctl.Api.Transaction.Journal.{JournalCodec, transaction_dir}
use elasticctl.Api.Transaction.Checks.{validate_relative}
use elasticctl.Api.Transaction.Checks.Plan.{IsPlan}
use elasticctl.Api.Transaction.Replace.{replace_one, replace_entries}
use elasticctl.Api.Transaction.Replace.Prepared.{planned_entries}
use elasticctl.Api.Transaction.Frame.{Frame, frame_rules, Frame-bind}
use elasticctl.Api.Transaction.Installed.{holds}
use elasticctl.Api.Transaction.Installed.Paths.{
  staged_path-apart, staged_path-journal_path, staged_path-backup_path,
}
use elasticctl.Api.Transaction.Installed.Targets.{
  staged_path-target, target-apart, target-journal_path, target-backup_path, target-staged_path,
}
use elasticctl.Api.Transaction.Installed.Staging.{staged, Staged, Staged-keeps}
use elasticctl.Api.Transaction.Installed.Replacement.{
  target, keeps-file, replace_one-keeps, replace_one-IsFile,
}

-- each file of the plan is another one than a given path
abbrev pub Others : FilePath → List StagedFile → Type 0
Others r files =
    All (λ f. (validate_relative f.relative ≡ ok tt) × (path_eq r f.relative ≡ false)) files

pub path_eq-sym : (p q : FilePath) → path_eq p q ≡ false → path_eq q p ≡ false
path_eq-sym p q h = elim (Bool-cases (path_eq q p)) [
  | inr apart ↦ apart
  | inl same ↦ absurd (ground (arith, h, (path_eq_iff p q).1 (sym ((path_eq_iff q p).0 same))))
]

-- a path among those seen is no path of the plan
pub IsPlan-Others :
    (r : FilePath) (files : List StagedFile) (seen : List FilePath)
    → ((p : FilePath) → any (λ q. path_eq p q) seen ≡ false → path_eq p r ≡ false)
    → IsPlan files seen
    → Others r files
IsPlan-Others r [] seen within plan = tt
IsPlan-Others r (f ∷ files) seen within plan = (
  (plan.0, path_eq-sym f.relative r (within f.relative plan.1)),
  IsPlan-Others r files (f.relative ∷ seen) (λ p h. within p (ground (arith, h))) plan.2,
)

-- every file of the plan is at its path
abbrev pub Installed : PullLock → List StagedFile → FileSystem → Type 0
Installed lock files fs = All (λ f. fs (join lock.root f.relative) ≡ some (file f.bytes)) files

module _ (codec : JournalCodec) (lock : PullLock) where
  pub replace_entries-keeps :
      (r : FilePath) (b : Bytes) (index : ℕ) (files : List StagedFile) (flags : List Bool)
      → validate_relative r ≡ ok tt
      → Others r files
      → Frame
          (holds (target lock r) (some (file b)))
          (replace_entries codec lock (transaction_dir lock) index (planned_entries files flags))
  unfolding replace_entries planned_entries
  replace_entries-keeps r b index [] flags valid others = search frame_rules
  replace_entries-keeps r b index (f ∷ files) [] valid others = search frame_rules
  replace_entries-keeps r b index (f ∷ files) (existed ∷ flags) valid others =
      Frame-bind _ _ _
        (replace_one-keeps codec lock (target lock r) b index _ (target-journal_path lock r valid)
          (target-apart lock r f.relative valid others.0.0 others.0.1)
          (target-backup_path lock r valid index) (target-staged_path lock r valid index))
        (λ _. replace_entries-keeps r b (index + 1) files flags valid others.1)

  pub replace_entries-Installed :
      (index : ℕ) (files : List StagedFile) (flags : List Bool) (seen : List FilePath) (w : World)
      → IsPlan files seen
      → length flags ≡ length files
      → Staged lock w.fs index files
      → Ensures
          (Installed lock files)
          (replace_entries codec lock (transaction_dir lock) index (planned_entries files flags))
          w
  unfolding replace_entries planned_entries
  replace_entries-Installed index [] flags seen w plan same waits = record { returned = λ b h. tt }
  replace_entries-Installed index (f ∷ files) [] seen w plan same waits =
      absurd (omega (arith, same))
  replace_entries-Installed index (f ∷ files) (existed ∷ flags) seen w plan same waits =
      let entry : JournalEntry = record {
        relative = f.relative;
        existed_before = existed;
        phase = prepared;
      } in
      let rest =
        Staged-keeps lock (replace_one codec lock (transaction_dir lock) index entry) w (index + 1)
          files
          (λ i b le.
            replace_one-keeps codec lock (staged lock i) b index entry
              (staged_path-journal_path lock i) (staged_path-target lock f.relative plan.0 i)
              (staged_path-backup_path lock i index)
              (staged_path-apart lock i index (λ e. absurd (omega (arith, le, e)))))
          waits.1 in
      Ensures-bind _ _ _ w λ u done. record {
        returned = λ b h. (
          keeps-file (target lock f.relative) f.bytes _ _
              (replace_entries-keeps f.relative f.bytes (index + 1) files flags plan.0 (
                IsPlan-Others f.relative files (f.relative ∷ seen) (λ p k. ground (arith, k))
                  plan.2))
              ((replace_one-IsFile codec lock index entry f.bytes plan.0 w waits.0).returned u
                done),
          (replace_entries-Installed (index + 1) files flags (f.relative ∷ seen) _ plan.2
                (omega (arith, same)) rest).returned
              b h,
        );
      }

  pub Installed-keeps :
      {A : Type 0} (m : Tx A) (w : World) (files : List StagedFile) (seen : List FilePath)
      → IsPlan files seen
      → ((r : FilePath) (b : Bytes)
          → validate_relative r ≡ ok tt
          → Frame (holds (target lock r) (some (file b))) m)
      → Installed lock files w.fs
      → Installed lock files (m w).1.fs
  Installed-keeps m w [] seen plan keeps h = tt
  Installed-keeps m w (f ∷ files) seen plan keeps h = (
    keeps-file (target lock f.relative) f.bytes m w (keeps f.relative f.bytes plan.0) h.0,
    Installed-keeps m w files (f.relative ∷ seen) plan.2 keeps h.1,
  )
