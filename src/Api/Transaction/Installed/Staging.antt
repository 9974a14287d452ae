-- ===== src/Api/Transaction/Installed/Staging.antt =====
-- A preparation that returned has staged every file.
use elasticctl.Prelude.{
  ℕ, String, false, ◌+◌, ◌≤◌, ◌≡◌, ◌≢◌, ap, ◌∙◌, Bool, none, some, List, [], ◌∷◌, arith,
}
use elasticctl.Api.Transaction.FilePath.{FilePath, path_eq}
use elasticctl.Api.Transaction.Disk.{Bytes, FileSystem, file, World}
use elasticctl.Api.Transaction.Ops.{Tx, write, sync_file, sync_dir}
use elasticctl.Api.Transaction.Ops.Inversion.{Ensures, Ensures-bind, write-new, sync_file-keeps}
use elasticctl.Api.Transaction.Phase.{StagedFile, PullLock}
use elasticctl.Api.Transaction.Journal.{JournalCodec, child, transaction_dir, staged_path}
use elasticctl.Api.Transaction.Checks.{ensure_directory}
use elasticctl.Api.Transaction.Replace.{stage_files, publish, prepare}
use elasticctl.Api.Transaction.Frame.{Frame, Free}
use elasticctl.Api.Transaction.Frame.Operations.{write-Frame, sync_dir-Frame}
use elasticctl.Api.Transaction.Frame.Checking.{ensure_directory-Frame}
use elasticctl.Api.Transaction.Frame.Steps.{stage_files-Frame, publish-Frame}
use elasticctl.Api.Transaction.Installed.{holds, Frame-holds, Free-holds, Creatable-holds}
use elasticctl.Api.Transaction.Installed.Paths.{
  staged_path-apart, staged_path-journal_path, staged_path-transaction_dir, staged_path-child,
}

module _ (lock : PullLock) where
  abbrev pub staged : ℕ → FilePath
  staged index = staged_path (transaction_dir lock) index

  -- each file waits at its path, from an index on
  abbrev pub Staged : FileSystem → ℕ → List StagedFile → Type 0
  Staged fs index [] = Unit {0}
  Staged fs index (f ∷ files) =
      (fs (staged index) ≡ some (file f.bytes)) × Staged fs (index + 1) files

  abbrev KeepsStaged : {A : Type 0} → ℕ → Tx A → Type 0
  KeepsStaged index m = (i : ℕ) (b : Bytes) → index ≤ i → Frame (holds (staged i) (some (file b))) m

  pub Staged-keeps :
      {A : Type 0} (m : Tx A) (w : World) (index : ℕ) (files : List StagedFile)
      → KeepsStaged index m
      → Staged w.fs index files
      → Staged (m w).1.fs index files
  Staged-keeps m w index [] keeps h = tt
  Staged-keeps m w index (f ∷ files) keeps h = (
    Frame-holds (staged index) (some (file f.bytes)) m (keeps index f.bytes (omega arith)) w h.0,
    Staged-keeps m w (index + 1) files (λ i b le. keeps i b (omega (arith, le))) h.1,
  )

  -- nothing waits, from an index on
  abbrev pub Vacant : FileSystem → ℕ → Type 0
  Vacant fs index = (i : ℕ) → index ≤ i → fs (staged i) ≡ none

  staged-apart : (i j : ℕ) → i ≢ j → Free (holds (staged i) none) (staged j)
  staged-apart i j h = Free-holds (staged i) none (staged j) (staged_path-apart lock i j h)

  write-Vacant :
      (index : ℕ) (b : Bytes) (about : FilePath) (action : String) (w : World)
      → Vacant w.fs index
      → Vacant (write (staged index) b false about action w).1.fs (index + 1)
  write-Vacant index b about action w empty i le =
      Frame-holds (staged i) none (write (staged index) b false about action)
        (write-Frame (holds (staged i) none) (staged index) b false about action
          (staged-apart i index (λ same. absurd (omega (arith, le, same)))))
        w (empty i (omega (arith, le)))

  stage_files-Staged :
      (index : ℕ) (files : List StagedFile) (flags : List Bool) (w : World)
      → Vacant w.fs index
      → Ensures
          (λ fs. Staged fs index files)
          (stage_files (transaction_dir lock) index files flags)
          w
  unfolding stage_files
  stage_files-Staged index [] flags w empty = record { returned = λ b h. tt }
  stage_files-Staged index (f ∷ files) [] w empty =
      Ensures-bind _ _ _ w
        λ _ _. Ensures-bind _ _ _ _ λ _ _. record { returned = λ b h. absurd (ground (arith, h)) }
  stage_files-Staged index (f ∷ files) (existed ∷ flags) w empty =
      let write_it = write (staged index) f.bytes false f.relative "staging" in
      let sync_it = sync_file (staged index) f.relative "syncing staged file" in
      let after : World = (sync_it (write_it w).1).1 in
      let same : after.fs ≡ (write_it w).1.fs =
        sync_file-keeps (staged index) f.relative "syncing staged file" (write_it w).1 in
      Ensures-bind _ _ _ w λ u wrote. Ensures-bind _ _ _ _ λ _ _. Ensures-bind _ _ _ _ λ rest made.
        record {
          returned = λ b h. (
            Frame-holds (staged index) (some (file f.bytes))
                (stage_files (transaction_dir lock) (index + 1) files flags)
                (stage_files-Frame _ lock (index + 1) files flags (λ i le.
                  Free-holds (staged index) (some (file f.bytes)) (staged i)
                    (staged_path-apart lock index i (λ e. absurd (omega (arith, le, e))))))
                after
                (ap (λ (fs : FileSystem). fs (staged index)) same
                  ∙ write-new (staged index) f.bytes f.relative "staging" w u wrote
                      (empty index (omega arith))),
            (stage_files-Staged (index + 1) files flags after (λ i le.
                  ap (λ (fs : FileSystem). fs (staged i)) same
                  ∙ write-Vacant index f.bytes f.relative "staging" w empty i le)).returned
                rest made,
          );
        }

  -- what keeps every path of a staged file empty
  pub step-Vacant :
      {A : Type 0} (m : Tx A) (w : World)
      → ((i : ℕ) → Frame (holds (staged i) none) m)
      → Vacant w.fs 0
      → Vacant (m w).1.fs 0
  step-Vacant m w keeps empty i le = Frame-holds (staged i) none m (keeps i) w (empty i le)

  directory-Vacant :
      (p : FilePath) (action : String) (w : World)
      → ((i : ℕ) → path_eq (staged i) p ≡ false)
      → Vacant w.fs 0
      → Vacant (ensure_directory p action w).1.fs 0
  directory-Vacant p action w apart =
      step-Vacant (ensure_directory p action) w
        (λ i. ensure_directory-Frame _ p action (Creatable-holds (staged i) none p (apart i)))

  module _ (codec : JournalCodec) where
    pub prepare-Staged :
        (files : List StagedFile) (flags : List Bool) (w : World)
        → Vacant w.fs 0
        → Ensures (λ fs. Staged fs 0 files) (prepare codec (transaction_dir lock) files flags) w
    unfolding prepare
    prepare-Staged files flags w empty =
        let empty1 =
          directory-Vacant (transaction_dir lock) "creating pull transaction directory" w
            (staged_path-transaction_dir lock) empty in
        let empty2 =
          directory-Vacant (child (transaction_dir lock) "staged") "creating pull staging directory"
            _ (λ i. staged_path-child lock i "staged") empty1 in
        let empty3 =
          directory-Vacant (child (transaction_dir lock) "backups") "creating pull backup directory"
            _ (λ i. staged_path-child lock i "backups") empty2 in
        Ensures-bind _ _ _ w λ _ _. Ensures-bind _ _ _ _ λ _ _. Ensures-bind _ _ _ _ λ _ _.
          Ensures-bind _ _ _ _ λ entries made. Ensures-bind _ _ _ _ λ _ _. record {
            returned = λ b h.
                Staged-keeps (publish codec (transaction_dir lock) entries) _ 0 files
                  (λ i b le.
                    publish-Frame _ codec lock entries
                      (Free-holds (staged i) (some (file b)) _ (staged_path-journal_path lock i)))
                  (Staged-keeps
                    (sync_dir (child (transaction_dir lock) "staged")
                      "syncing pull staging directory")
                    _ 0 files (λ i b le. sync_dir-Frame _ _ _)
                    ((stage_files-Staged 0 files flags _ empty3).returned entries made));
          }
