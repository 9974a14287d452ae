-- ===== src/Api/Transaction/Installed/Interrupted.antt =====
-- A pull that is cut off between any of its operations has lost no file.
use elasticctl.Prelude.{
  ℕ, zero, suc, ◌+◌, ◌<◌, ◌≡◌, ◌⊎◌, subst, Bool, true, false, none, some, List, [], ◌∷◌, arith,
  length, get_elem?, inl, inr,
}
use elasticctl.Core.Error.{ok}
use elasticctl.Api.Transaction.FilePath.{FilePath, path_eq, join}
use elasticctl.Api.Transaction.Disk.{Bytes, FileSystem, file, World}
use elasticctl.Api.Transaction.Ops.{Tx, ◌>>=◌}
use elasticctl.Api.Transaction.Ops.Inversion.{after-bind}
use elasticctl.Api.Transaction.Phase.{JournalEntry, StagedFile, PullLock, prepared}
use elasticctl.Api.Transaction.Journal.{JournalCodec, transaction_dir, staged_path, backup_path}
use elasticctl.Api.Transaction.Checks.{validate_relative}
use elasticctl.Api.Transaction.Checks.Plan.{IsPlan}
use elasticctl.Api.Transaction.Recover.{remove_transaction}
use elasticctl.Api.Transaction.Replace.{prepare, replace_one, replace_entries, commit}
use elasticctl.Api.Transaction.Replace.Prepared.{planned_entries, prepare-ok}
use elasticctl.Api.Transaction.Frame.{Frame, frame_rules, Frame-bind}
use elasticctl.Api.Transaction.Frame.Steps.{prepare-Frame, remove_transaction-Frame}
use elasticctl.Api.Transaction.Installed.{holds, Free-holds, FreeBelow-holds, Creatable-file}
use elasticctl.Api.Transaction.Installed.Paths.{
  backup_path-apart, backup_path-journal_path, backup_path-staged_path,
}
use elasticctl.Api.Transaction.Installed.Targets.{
  backup_path-target, target-apart, target-journal_path, target-backup_path, target-staged_path,
  target-transaction_dir,
}
use elasticctl.Api.Transaction.Installed.Staging.{Staged, prepare-Staged}
use elasticctl.Api.Transaction.Installed.Replacement.{target, IsFile, keeps-file, replace_one-keeps}
use elasticctl.Api.Transaction.Installed.Entries.{
  Others, path_eq-sym, IsPlan-Others, Installed, replace_entries-keeps, replace_entries-Installed,
}
use elasticctl.Api.Transaction.Installed.Kept.{backup, Saved, Saved-keeps, replace_one-Saved}

Others-at :
    (r : FilePath) (files : List StagedFile) (k : ℕ) (f : StagedFile)
    → Others r files
    → get_elem? files k ≡ some f
    → (validate_relative f.relative ≡ ok tt) × (path_eq r f.relative ≡ false)
Others-at r [] k f others h = absurd (ground (arith, h))
Others-at r (g ∷ files) zero f others h =
    let same : g ≡ f = ground (arith, h) in
    subst
      (λ (s : StagedFile). (validate_relative s.relative ≡ ok tt) × (path_eq r s.relative ≡ false))
      same others.0
Others-at r (g ∷ files) (suc k) f others h = Others-at r files k f others.1 h

IsPlan-at :
    (files : List StagedFile) (seen : List FilePath) (k : ℕ) (f : StagedFile)
    → IsPlan files seen
    → get_elem? files k ≡ some f
    → validate_relative f.relative ≡ ok tt
IsPlan-at [] seen k f plan h = absurd (ground (arith, h))
IsPlan-at (g ∷ files) seen zero f plan h =
    let same : g ≡ f = ground (arith, h) in
    subst (λ (s : StagedFile). validate_relative s.relative ≡ ok tt) same plan.0
IsPlan-at (g ∷ files) seen (suc k) f plan h = IsPlan-at files (g.relative ∷ seen) k f plan.2 h

Installed-at :
    (lock : PullLock) (fs : FileSystem) (files : List StagedFile) (k : ℕ) (f : StagedFile)
    → Installed lock files fs
    → get_elem? files k ≡ some f
    → IsFile (target lock f.relative) f.bytes fs
Installed-at lock fs [] k f all h = absurd (ground (arith, h))
Installed-at lock fs (g ∷ files) zero f all h =
    subst (λ (s : StagedFile). IsFile (target lock s.relative) s.bytes fs) (ground (arith, h)) all.0
Installed-at lock fs (g ∷ files) (suc k) f all h = Installed-at lock fs files k f all.1 h

module _ (codec : JournalCodec) (lock : PullLock) where
  abbrev loop : ℕ → List StagedFile → List Bool → Tx (Unit {0})
  loop index files flags =
      replace_entries codec lock (transaction_dir lock) index (planned_entries files flags)

  loop-keeps_backup :
      (j : ℕ) (b : Bytes) (index : ℕ) (files : List StagedFile) (flags : List Bool)
      (seen : List FilePath)
      → j < index
      → IsPlan files seen
      → Frame (holds (backup lock j) (some (file b))) (loop index files flags)
  unfolding replace_entries planned_entries
  loop-keeps_backup j b index [] flags seen lt plan = search frame_rules
  loop-keeps_backup j b index (f ∷ files) [] seen lt plan = search frame_rules
  loop-keeps_backup j b index (f ∷ files) (existed ∷ flags) seen lt plan =
      Frame-bind _ _ _
        (replace_one-keeps codec lock (backup lock j) b index _ (backup_path-journal_path lock j)
          (backup_path-target lock f.relative plan.0 j)
          (backup_path-apart lock j index (λ e. absurd (omega (arith, lt, e))))
          (backup_path-staged_path lock j index))
        (λ _.
          loop-keeps_backup j b (index + 1) files flags (f.relative ∷ seen) (omega (arith, lt))
            plan.2)

  first-Saved :
      (index : ℕ) (f : StagedFile) (files : List StagedFile) (flags : List Bool)
      (seen : List FilePath) (b : Bytes) (w : World)
      → IsPlan (f ∷ files) seen
      → IsFile (target lock f.relative) b w.fs
      → Saved lock f.relative index b (loop index (f ∷ files) (true ∷ flags) w).1.fs
  unfolding replace_entries planned_entries
  first-Saved index f files flags seen b w plan h =
      let step = replace_one-Saved codec lock f.relative index b plan.0 w h in
      after-bind (Saved lock f.relative index b) _ _ w step λ _ _.
        Saved-keeps lock f.relative index b (loop (index + 1) files flags) _
          (replace_entries-keeps codec lock f.relative b (index + 1) files flags plan.0
            (IsPlan-Others f.relative files (f.relative ∷ seen) (λ p e. ground (arith, e)) plan.2))
          (loop-keeps_backup index b (index + 1) files flags (f.relative ∷ seen) (omega arith)
            plan.2)
          step

  loop-Saved :
      (index : ℕ) (files : List StagedFile) (flags : List Bool) (seen : List FilePath) (k j : ℕ)
      (f : StagedFile) (b : Bytes) (w : World)
      → IsPlan files seen
      → get_elem? files k ≡ some f
      → get_elem? flags k ≡ some true
      → j ≡ index + k
      → IsFile (target lock f.relative) b w.fs
      → Saved lock f.relative j b (loop index files flags w).1.fs
  unfolding replace_entries planned_entries
  loop-Saved index [] flags seen k j f b w plan at flag same h = absurd (ground (arith, at))
  loop-Saved index (g ∷ files) [] seen k j f b w plan at flag same h = absurd (ground (arith, flag))
  loop-Saved index (g ∷ files) (existed ∷ flags) seen zero j f b w plan at flag same h =
      let first : g ≡ f = ground (arith, at) in
      let flagged : true ≡ existed = ground (arith, flag) in
      subst
        (λ (s : StagedFile).
          IsFile (target lock s.relative) b w.fs
          → Saved lock s.relative j b (loop index (g ∷ files) (existed ∷ flags) w).1.fs)
        first
        (λ h'.
          subst
            (λ (i : ℕ). Saved lock g.relative i b (loop index (g ∷ files) (existed ∷ flags) w).1.fs)
            (omega (arith, same))
            (subst
              (λ (e : Bool).
                Saved lock g.relative index b (loop index (g ∷ files) (e ∷ flags) w).1.fs)
              flagged (first-Saved index g files flags seen b w plan h')))
        h
  loop-Saved index (g ∷ files) (existed ∷ flags) seen (suc k) j f b w plan at flag same h =
      let entry : JournalEntry = record {
        relative = g.relative;
        existed_before = existed;
        phase = prepared;
      } in
      let (valid, apart) =
        Others-at g.relative files k f
          (IsPlan-Others g.relative files (g.relative ∷ seen) (λ p e. ground (arith, e)) plan.2)
          at in
      let still =
        keeps-file (target lock f.relative) b
          (replace_one codec lock (transaction_dir lock) index entry) w
          (replace_one-keeps codec lock (target lock f.relative) b index entry
            (target-journal_path lock f.relative valid)
            (target-apart lock f.relative g.relative valid plan.0
              (path_eq-sym g.relative f.relative apart))
            (target-backup_path lock f.relative valid index)
            (target-staged_path lock f.relative valid index))
          h in
      after-bind (Saved lock f.relative j b) _ _ w (inl still) λ _ _.
        loop-Saved (index + 1) files flags (g.relative ∷ seen) k j f b _ plan.2 at flag
          (omega (arith, same)) still

  -- a file of the mirror: it is as it was, or replaced, or in its backup
  abbrev Kept : StagedFile → ℕ → Bytes → FileSystem → Type 0
  Kept f k b fs =
      (fs (join lock.root f.relative) ≡ some (file b))
      ⊎ (fs (join lock.root f.relative) ≡ some (file f.bytes))
      ⊎ (fs (backup_path (transaction_dir lock) k) ≡ some (file b))

  Saved-Kept :
      (f : StagedFile) (k : ℕ) (b : Bytes) (fs : FileSystem)
      → Saved lock f.relative k b fs
      → Kept f k b fs
  Saved-Kept f k b fs (inl h) = inl h
  Saved-Kept f k b fs (inr h) = inr (inr h)

  module _ (files : List StagedFile) (flags : List Bool) (k : ℕ) (f : StagedFile) (b : Bytes) where
    commit_loop-Kept :
        (w : World)
        → IsPlan files []
        → length flags ≡ length files
        → Staged lock w.fs 0 files
        → get_elem? files k ≡ some f
        → get_elem? flags k ≡ some true
        → IsFile (target lock f.relative) b w.fs
        → Kept f k b (commit codec lock (transaction_dir lock) (planned_entries files flags) w).1.fs
    unfolding commit
    commit_loop-Kept w plan same waits at flag h =
        let saved = loop-Saved 0 files flags [] k k f b w plan at flag (omega arith) h in
        after-bind (Kept f k b) _ _ w (Saved-Kept f k b (loop 0 files flags w).1.fs saved) λ u done.
          let there =
            Installed-at lock (loop 0 files flags w).1.fs files k f
              ((replace_entries-Installed codec lock 0 files flags [] w plan same waits).returned u
                done)
              at in
          let removed =
            keeps-file (target lock f.relative) f.bytes (remove_transaction lock) _
              (remove_transaction-Frame _ lock (
                FreeBelow-holds _ _ _
                  (target-transaction_dir lock f.relative (IsPlan-at files [] k f plan at))))
              there in
          after-bind (Kept f k b) _ _ _ (inr (inl removed)) λ _ _. inr (inl removed)

    -- After the preparation and the commit of a pull, wherever they were cut off and whatever their
    -- operations met, a file that the pull replaces is at its path with its old bytes or its new ones, or
    -- its old ones are in its backup. The plan is one that the check accepts, the file is among those
    -- that existed, and nothing was at the paths of staged files at the start.
    pub commit-Kept :
        (w : World)
        → IsPlan files []
        → length flags ≡ length files
        → ((i : ℕ) → w.fs (staged_path (transaction_dir lock) i) ≡ none)
        → get_elem? files k ≡ some f
        → get_elem? flags k ≡ some true
        → w.fs (join lock.root f.relative) ≡ some (file b)
        → (let after =
              (prepare codec (transaction_dir lock) files flags
                  >>= commit codec lock (transaction_dir lock))
                w in
            (after.1.fs (join lock.root f.relative) ≡ some (file b))
            ⊎ (after.1.fs (join lock.root f.relative) ≡ some (file f.bytes))
            ⊎ (after.1.fs (backup_path (transaction_dir lock) k) ≡ some (file b)))
    commit-Kept w plan same empty at flag h =
        let valid = IsPlan-at files [] k f plan at in
        let prepared_still =
          keeps-file (target lock f.relative) b (prepare codec (transaction_dir lock) files flags) w
            (prepare-Frame _ codec lock files flags
              (Free-holds _ _ _ (target-journal_path lock f.relative valid))
              (λ i. Free-holds _ _ _ (target-staged_path lock f.relative valid i))
              (Creatable-file _ b _) (λ name. Creatable-file _ b _))
            h in
        after-bind (Kept f k b) _ _ w (inl prepared_still) λ entries made.
          subst
            (λ (es : List JournalEntry).
              Kept f k b
                (commit codec lock (transaction_dir lock) es
                  (prepare codec (transaction_dir lock) files flags w).1).1.fs)
            (prepare-ok codec (transaction_dir lock) files flags w entries made)
            (commit_loop-Kept _ plan same
              ((prepare-Staged lock codec files flags w (λ i le. empty i)).returned entries made) at
              flag prepared_still)
