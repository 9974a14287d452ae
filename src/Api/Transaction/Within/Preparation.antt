-- ===== src/Api/Transaction/Within/Preparation.antt =====
-- The check and the preparation of a replacement stay within the mirror.
use elasticctl.Prelude.{ℕ, String, Bool, List, [], ◌∷◌}
use elasticctl.Prelude.Text.{show}
use elasticctl.Api.Transaction.FilePath.{normal, join}
use elasticctl.Api.Transaction.Phase.{PullLock, StagedFile}
use elasticctl.Api.Transaction.Journal.{
  JournalCodec, child, transaction_dir, journal_path, staged_path,
}
use elasticctl.Api.Transaction.Replace.{prepare}
use elasticctl.Api.Transaction.Frame.Operations.{sync_dir-Frame}
use elasticctl.Api.Transaction.Frame.Checking.{ensure_directory-Frame}
use elasticctl.Api.Transaction.Frame.Steps.{stage_files-Frame, publish-Frame}
use elasticctl.Api.Transaction.Within.{IsWithin, Within, within_rules, starts_with-append}
use elasticctl.Api.Transaction.Within.Recovery.{transaction_dir-IsWithin}

module _ (lock : PullLock) where
  child_dir-IsWithin : (name : String) → IsWithin lock.root (child (transaction_dir lock) name)
  unfolding transaction_dir join
  child_dir-IsWithin name =
      starts_with-append (transaction_dir lock) (normal name ∷ []) lock.root
        (transaction_dir-IsWithin lock)

  pub journal_path-IsWithin : IsWithin lock.root (journal_path (transaction_dir lock))
  unfolding journal_path
  journal_path-IsWithin = child_dir-IsWithin "journal.ndjson"

  pub staged_path-IsWithin :
      (index : ℕ) → IsWithin lock.root (staged_path (transaction_dir lock) index)
  unfolding staged_path join transaction_dir
  staged_path-IsWithin index =
      starts_with-append (child (transaction_dir lock) "staged") (normal (show index) ∷ [])
        lock.root (child_dir-IsWithin "staged")

module _ (codec : JournalCodec) (lock : PullLock) where
  pub prepare-Within :
      (files : List StagedFile) (flags : List Bool)
      → Within lock.root (prepare codec (transaction_dir lock) files flags)
  unfolding prepare
  prepare-Within files flags =
      search
        (
          within_rules, ensure_directory-Frame, transaction_dir-IsWithin, child_dir-IsWithin,
          stage_files-Frame, staged_path-IsWithin, journal_path-IsWithin, sync_dir-Frame,
          publish-Frame,
        )
        depth 14
