-- ===== src/Api/Transaction/Installed/Targets.antt =====
-- The paths that the check of a plan accepts are apart from those of the transaction.
use elasticctl.Prelude.{ℕ, String, ◌≡◌, refl, false, ◌⊎◌, inl, inr, [], ◌∷◌, arith, Bool-cases}
use elasticctl.Prelude.Order.{◌=?◌, string_ord, =?_iff}
use elasticctl.Core.Error.{ok}
use elasticctl.Api.Transaction.FilePath.{
  FilePath, normal, cur_dir, parent_dir, root_dir, prefix, component_eq, path_eq, starts_with, join,
}
use elasticctl.Api.Transaction.Phase.{PullLock}
use elasticctl.Api.Transaction.Journal.{
  transaction_name, transaction_dir, journal_path, staged_path, backup_path,
}
use elasticctl.Api.Transaction.Checks.{validate_relative}
use elasticctl.Api.Transaction.Installed.Paths.{
  path_eq-append, starts_with-append, inside, in_transaction, transaction_dir-inside,
  staged_path-inside, backup_path-inside, journal_path-inside,
}

first_name :
    (s : String) (rest : FilePath)
    → validate_relative (normal s ∷ rest) ≡ ok tt
    → (s ≡ "rules") ⊎ (s ≡ "exceptions")
unfolding validate_relative
first_name s rest h = elim (Bool-cases (s =? "rules")) [
  | inl rules ↦ inl ((=?_iff s "rules").0 rules)
  | inr no_rules ↦ elim (Bool-cases (s =? "exceptions")) [
    | inl exceptions ↦ inr ((=?_iff s "exceptions").0 exceptions)
    | inr neither ↦ absurd (ground (arith, h, no_rules, neither))
  ]
]

first-apart :
    (s : String) (rest : FilePath)
    → validate_relative (normal s ∷ rest) ≡ ok tt
    → ((transaction_name =? s) ≡ false) × ((s =? transaction_name) ≡ false)
first-apart s rest h = elim (first_name s rest h) [
  | inl rules ↦ rw rules (refl, refl)
  | inr exceptions ↦ rw exceptions (refl, refl)
]

module _ (lock : PullLock) where
  -- the paths that the check accepts are not of the transaction
  relative-apart :
      (relative x : FilePath)
      → validate_relative relative ≡ ok tt
      → (join lock.root relative ≡ inside lock relative)
        × (path_eq (normal transaction_name ∷ x) relative ≡ false)
        × (path_eq relative (normal transaction_name ∷ x) ≡ false)
        × (starts_with relative (normal transaction_name ∷ x) ≡ false)
  unfolding validate_relative join path_eq component_eq starts_with
  relative-apart (normal s ∷ rest) x h =
      let (other, same) = first-apart s rest h in
      (refl, ground (arith, other), ground (arith, same), ground (arith, same))
  relative-apart [] x h = absurd (ground arith)
  relative-apart (cur_dir ∷ rest) x h = absurd (ground arith)
  relative-apart (parent_dir ∷ rest) x h = absurd (ground arith)
  relative-apart (root_dir ∷ rest) x h = absurd (ground arith)
  relative-apart (prefix t ∷ rest) x h = absurd (ground arith)

  module _ (relative : FilePath) (valid : validate_relative relative ≡ ok tt) where
    target-inside : join lock.root relative ≡ inside lock relative
    target-inside = (relative-apart relative [] valid).0

    pub target-transaction_dir :
        starts_with (join lock.root relative) (transaction_dir lock) ≡ false
    target-transaction_dir =
        rw (target-inside, transaction_dir-inside lock, starts_with-append lock.root)
          (relative-apart relative [] valid).3

    in_transaction-target :
        (x : FilePath) → path_eq (in_transaction lock x) (join lock.root relative) ≡ false
    in_transaction-target x =
        rw (target-inside, path_eq-append lock.root) (relative-apart relative x valid).1

    target-in_transaction :
        (x : FilePath) → path_eq (join lock.root relative) (in_transaction lock x) ≡ false
    target-in_transaction x =
        rw (target-inside, path_eq-append lock.root) (relative-apart relative x valid).2

    pub staged_path-target :
        (i : ℕ) → path_eq (staged_path (transaction_dir lock) i) (join lock.root relative) ≡ false
    staged_path-target i = rw (staged_path-inside lock i) (in_transaction-target _)

    pub backup_path-target :
        (i : ℕ) → path_eq (backup_path (transaction_dir lock) i) (join lock.root relative) ≡ false
    backup_path-target i = rw (backup_path-inside lock i) (in_transaction-target _)

    pub target-staged_path :
        (i : ℕ) → path_eq (join lock.root relative) (staged_path (transaction_dir lock) i) ≡ false
    target-staged_path i = rw (staged_path-inside lock i) (target-in_transaction _)

    pub target-backup_path :
        (i : ℕ) → path_eq (join lock.root relative) (backup_path (transaction_dir lock) i) ≡ false
    target-backup_path i = rw (backup_path-inside lock i) (target-in_transaction _)

    pub target-journal_path :
        path_eq (join lock.root relative) (journal_path (transaction_dir lock)) ≡ false
    target-journal_path = rw (journal_path-inside lock) (target-in_transaction _)

  pub target-apart :
      (r s : FilePath)
      → validate_relative r ≡ ok tt
      → validate_relative s ≡ ok tt
      → path_eq r s ≡ false
      → path_eq (join lock.root r) (join lock.root s) ≡ false
  target-apart r s valid valid' h =
      rw (target-inside r valid, target-inside s valid', path_eq-append lock.root) h
