-- ===== src/Tests/Interrupted.antt =====
-- A replacement of one rules file whose tenth operation fails.
use elasticctl.Prelude.{◌≡◌, ◌⊎◌, refl, true, some, [], ◌∷◌}
use elasticctl.Api.Transaction.Ops.{◌>>=◌}
use elasticctl.Api.Transaction.FilePath.{join, path_eq, component_eq}
use elasticctl.Api.Transaction.Disk.{works, fails, not_a_directory, file, World}
use elasticctl.Api.Transaction.Journal.{staged_path, transaction_dir, backup_path}
use elasticctl.Api.Transaction.Checks.{validate_relative}
use elasticctl.Api.Transaction.Phase.{StagedFile}
use elasticctl.Api.Transaction.Replace.{prepare, commit}
use elasticctl.Api.Transaction.Installed.Interrupted.{commit-Kept}
use elasticctl.Tests.SampleJournal.{codec, rules_file}
use elasticctl.Tests.Pull.{lock, mirror, files}

abbrev cut : World
cut = record {
  fs = mirror;
  script =
      works
      ∷ works
      ∷ works
      ∷ works
      ∷ works
      ∷ works
      ∷ works
      ∷ works
      ∷ works
      ∷ fails not_a_directory
      ∷ [];
}

abbrev replaced : StagedFile
replaced = record { relative = rules_file; bytes = 7 ∷ [] }

commit-Kept_example :
    (let after =
        (prepare codec (transaction_dir lock) files (true ∷ [])
            >>= commit codec lock (transaction_dir lock))
          cut in
      (after.1.fs (join lock.root replaced.relative) ≡ some (file (1 ∷ 2 ∷ [])))
      ⊎ (after.1.fs (join lock.root replaced.relative) ≡ some (file (7 ∷ [])))
      ⊎ (after.1.fs (backup_path (transaction_dir lock) 0) ≡ some (file (1 ∷ 2 ∷ []))))
unfolding staged_path transaction_dir join path_eq component_eq validate_relative
commit-Kept_example =
    commit-Kept codec lock files (true ∷ []) 0 replaced (1 ∷ 2 ∷ []) cut (refl, refl, tt) refl
      (λ i. refl) refl refl refl
