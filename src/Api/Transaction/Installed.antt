-- ===== src/Api/Transaction/Installed.antt =====
-- A replacement that returns has installed every file: the paths that it uses are apart, each staged
-- file keeps its bytes until it is installed, and each installed file keeps them after that.
pub mod Paths
pub mod Targets
pub mod Staging
pub mod Replacement
pub mod Entries
pub mod Outcome
pub mod Kept
pub mod Interrupted
use elasticctl.Prelude.{◌≡◌, refl, ◌∙◌, sym, Bool, true, false, Option, none, some, arith}
use elasticctl.Api.Transaction.FilePath.{FilePath, path_eq, path_eq_iff, starts_with}
use elasticctl.Api.Transaction.Disk.{Bytes, Node, file, World}
use elasticctl.Api.Transaction.Ops.{Tx}
use elasticctl.Api.Transaction.Frame.{Guard, Frame, Free, FreeBelow, Creatable}

-- one path, and what is there
abbrev pub holds : FilePath → Option Node → Guard
holds p there q n = (q ≡ p) × (n ≡ there)

-- a step leaves what is at a path
pub Frame-holds :
    {A : Type 0} (p : FilePath) (there : Option Node) (m : Tx A)
    → Frame (holds p there) m
    → (w : World) → w.fs p ≡ there
    → (m w).1.fs p ≡ there
Frame-holds p there m h w k = h.at w p (refl, k) ∙ k

module _ (p : FilePath) (there : Option Node) where
  pub Free-holds : (q : FilePath) → path_eq p q ≡ false → Free (holds p there) q
  Free-holds q h = record { ne = λ r n k. rw (k.0) h }

  pub FreeBelow-holds : (q : FilePath) → starts_with p q ≡ false → FreeBelow (holds p there) q
  FreeBelow-holds q h = record { apart = λ r n k. rw (k.0) h }

  pub Creatable-holds : (q : FilePath) → path_eq p q ≡ false → Creatable (holds p there) q
  Creatable-holds q h = record { missing = λ r k. rw (k.0) h }

-- a directory is not created where a file is
pub Creatable-file :
    (p : FilePath) (b : Bytes) (q : FilePath) → Creatable (holds p (some (file b))) q
Creatable-file p b q = record { missing = λ r k. absurd (ground (arith, k.1)) }
