-- ===== src/Api/Transaction/Phase.antt =====
-- The records of the journal, and the order of the phases.
use elasticctl.Prelude.{ℕ, ◌≡◌, Bool, true, false, ◌+◌, arith, ◌↔◌}
use elasticctl.Api.Transaction.FilePath.{FilePath}
use elasticctl.Api.Transaction.Disk.{Bytes}

pub data Phase : Type 0 where
  prepared backing_up backed_up installing installed : Phase

unfoldable pub can_advance_to : Phase → Phase → Bool
can_advance_to prepared backing_up = true
can_advance_to backing_up backed_up = true
can_advance_to backed_up installing = true
can_advance_to installing installed = true
can_advance_to _ _ = false

pub record JournalEntry : Type 0 where
  pub relative : FilePath
  pub existed_before : Bool
  pub phase : Phase

pub record PhaseRecord : Type 0 where
  pub entry : ℕ
  pub phase : Phase

pub record StagedFile : Type 0 where
  pub relative : FilePath
  pub bytes : Bytes

pub record PullLock : Type 0 where
  pub root : FilePath

pub data CleanupOutcome : Type 0 where
  synced committed_after_sync_failure : CleanupOutcome

-- how many steps a phase is from the first
abbrev pub rank : Phase → ℕ
rank prepared = 0
rank backing_up = 1
rank backed_up = 2
rank installing = 3
rank installed = 4

-- A phase advances exactly to the one that comes next.
pub can_advance_to_iff : (p q : Phase) → (can_advance_to p q ≡ true) ↔ (rank q ≡ rank p + 1)
unfolding can_advance_to
can_advance_to_iff p q = ground arith
