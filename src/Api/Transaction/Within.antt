-- ===== src/Api/Transaction/Within.antt =====
-- A step that changes nothing outside a directory, whatever faults it meets: the guard is of the paths
-- outside.
pub mod Recovery
pub mod Preparation
pub mod Replacement
use elasticctl.Prelude.{
  String, ◌≡◌, refl, ap, ◌∙◌, sym, Bool, true, false, ◌&&◌, Option, none, some, List, [], ◌∷◌, ◌++◌,
  arith, if◌then◌else◌, inl, inr, Bool-cases,
}
use elasticctl.Core.Error.{ok}
use elasticctl.Api.Transaction.Checks.{validate_relative}
use elasticctl.Api.Transaction.FilePath.{
  FilePath, Component, normal, component_eq, starts_with, path_eq, path_eq_iff, component_eq_iff,
  join, cur_dir, parent_dir, root_dir, prefix,
}
use elasticctl.Api.Transaction.Disk.{World, FileSystem, Node}
use elasticctl.Api.Transaction.Ops.{Tx}
use elasticctl.Api.Transaction.Frame.{Guard, Frame, Free, FreeBelow, Creatable, frame_rules}

abbrev pub IsWithin : FilePath → FilePath → Type 0
IsWithin root p = starts_with p root ≡ true

-- the entries outside a directory are the same
abbrev pub SameOutside : FilePath → FileSystem → FileSystem → Type 0
SameOutside root before after = (q : FilePath) → starts_with q root ≡ false → after q ≡ before q

-- everything outside a directory
abbrev pub outside : FilePath → Guard
outside root q n = starts_with q root ≡ false

abbrev pub Within : {A : Type 0} → FilePath → Tx A → Type 0
Within root m = Frame (outside root) m

starts_with_self : (p q : FilePath) → starts_with (p ++ q) p ≡ true
unfolding starts_with
starts_with_self [] q = starts_with_nil q
  where
    starts_with_nil : (q : FilePath) → starts_with q [] ≡ true
    starts_with_nil [] = refl
    starts_with_nil (c ∷ q) = refl
starts_with_self (c ∷ p) q = ground (arith, component_eq_iff c c, starts_with_self p q)

pub starts_with-append : (p q root : FilePath) → IsWithin root p → IsWithin root (p ++ q)
unfolding starts_with
starts_with-append [] q [] h = starts_with_self [] q
starts_with-append [] q (d ∷ r) h = absurd (ground arith)
starts_with-append (c ∷ p) q [] h = refl
starts_with-append (c ∷ p) q (d ∷ r) h = ground (arith, starts_with-append p q r)

pub IsWithin-self : (root q : FilePath) → IsWithin root (root ++ q)
IsWithin-self root q = starts_with_self root q

pub IsWithin-refl : (root : FilePath) → IsWithin root root
unfolding starts_with
IsWithin-refl [] = refl
IsWithin-refl (c ∷ p) = ground (arith, component_eq_iff c c, IsWithin-refl p)

pub starts_with_trans :
    (p q r : FilePath) → starts_with p q ≡ true → starts_with q r ≡ true → starts_with p r ≡ true
unfolding starts_with
starts_with_trans p q [] h k = starts_with_self [] p
starts_with_trans p [] (d ∷ r) h k = absurd (ground arith)
starts_with_trans [] (c ∷ q) (d ∷ r) h k = absurd (ground arith)
starts_with_trans (b ∷ p) (c ∷ q) (d ∷ r) h k = ground (
  arith,
  starts_with_trans p q r,
  component_eq_iff b c,
  component_eq_iff c d,
  component_eq_iff b d,
)

-- a path outside is no path inside
pub outside-ne :
    (root p q : FilePath) → IsWithin root p → starts_with q root ≡ false → path_eq q p ≡ false
outside-ne root p q h k = elim (Bool-cases (path_eq q p)) [
  | inl e ↦ absurd (cc ((path_eq_iff q p).0 e))
  | inr e ↦ e
]

module _ (root : FilePath) where
  pub Free-IsWithin : (p : FilePath) → IsWithin root p → Free (outside root) p
  Free-IsWithin p h = record { ne = λ q n k. outside-ne root p q h k }

  pub FreeBelow-IsWithin : (p : FilePath) → IsWithin root p → FreeBelow (outside root) p
  FreeBelow-IsWithin p h = record {
    apart = λ q n k. elim (Bool-cases (starts_with q p)) [
      | inl below ↦ absurd (ground (arith, starts_with_trans q p root below h, k))
      | inr apart ↦ apart
    ];
  }

  pub Creatable-IsWithin : (p : FilePath) → IsWithin root p → Creatable (outside root) p
  Creatable-IsWithin p h = record { missing = λ q k. outside-ne root p q h k }

  pub CreatableBelow-root : (rest : FilePath) → Creatable (outside root) (root ++ rest)
  CreatableBelow-root rest = Creatable-IsWithin (root ++ rest) (starts_with_self root rest)

pub ruleset within_rules =
    (frame_rules, Free-IsWithin, FreeBelow-IsWithin, Creatable-IsWithin, CreatableBelow-root)

-- a path that the check accepts is below the directory that it is joined to
pub join-IsWithin :
    (root relative : FilePath)
    → validate_relative relative ≡ ok tt
    → IsWithin root (join root relative)
unfolding validate_relative join
join-IsWithin root (normal s ∷ rest) h = IsWithin-self root (normal s ∷ rest)
join-IsWithin root [] h = absurd (ground arith)
join-IsWithin root (cur_dir ∷ rest) h = absurd (ground arith)
join-IsWithin root (parent_dir ∷ rest) h = absurd (ground arith)
join-IsWithin root (root_dir ∷ rest) h = absurd (ground arith)
join-IsWithin root (prefix t ∷ rest) h = absurd (ground arith)
