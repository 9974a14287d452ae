-- ===== src/Api/Transaction/Installed/Paths.antt =====
-- The paths of a replacement are apart from each other.
use elasticctl.Prelude.{
  ℕ, String, ◌≡◌, ◌≢◌, refl, ap, ◌∙◌, true, false, inl, inr, [], ◌∷◌, ◌++◌, arith, Bool-cases,
}
use mathlib.Core.List.{append_assoc}
use elasticctl.Prelude.Order.{◌=?◌, string_ord, =?_iff}
use elasticctl.Prelude.Text.{show}
use elasticctl.Prelude.Text.Decimal.{show-injective}
use elasticctl.Api.Transaction.FilePath.{
  FilePath, Component, normal, component_eq, component_eq_iff, path_eq, starts_with, join,
}
use elasticctl.Api.Transaction.Phase.{PullLock}
use elasticctl.Api.Transaction.Journal.{
  transaction_name, journal_name, child, transaction_dir, journal_path, staged_path, backup_path,
}

pub path_eq-append : (p x y : FilePath) → path_eq (p ++ x) (p ++ y) ≡ path_eq x y
unfolding path_eq
path_eq-append [] x y = refl
path_eq-append (c ∷ p) x y =
    let same : component_eq c c ≡ true = (component_eq_iff c c).1 refl in
    rw same (path_eq-append p x y)

pub starts_with-append : (p x y : FilePath) → starts_with (p ++ x) (p ++ y) ≡ starts_with x y
unfolding starts_with
starts_with-append [] x y = refl
starts_with-append (c ∷ p) x y =
    let same : component_eq c c ≡ true = (component_eq_iff c c).1 refl in
    rw same (starts_with-append p x y)

path_eq-below : (p x : FilePath) (c : Component) → path_eq (p ++ c ∷ x) p ≡ false
unfolding path_eq
path_eq-below [] x c = refl
path_eq-below (d ∷ p) x c = ground (arith, path_eq-below p x c)

module _ (lock : PullLock) where
  -- a path below the mirror
  abbrev pub inside : FilePath → FilePath
  inside x = lock.root ++ x

  abbrev pub in_transaction : FilePath → FilePath
  in_transaction x = inside (normal transaction_name ∷ x)

  pub transaction_dir-inside : transaction_dir lock ≡ in_transaction []
  unfolding transaction_dir join
  transaction_dir-inside = refl

  child-inside :
      (name : String) → child (transaction_dir lock) name ≡ in_transaction (normal name ∷ [])
  unfolding transaction_dir join
  child-inside name = append_assoc lock.root (normal transaction_name ∷ []) (normal name ∷ [])

  grandchild-inside :
      (name index : String)
      → child (child (transaction_dir lock) name) index
        ≡ in_transaction (normal name ∷ normal index ∷ [])
  unfolding join
  grandchild-inside name index =
      ap (λ (p : FilePath). p ++ normal index ∷ []) (child-inside name)
      ∙ append_assoc lock.root (normal transaction_name ∷ normal name ∷ []) (normal index ∷ [])

  pub staged_path-inside :
      (i : ℕ)
      → staged_path (transaction_dir lock) i
        ≡ in_transaction (normal "staged" ∷ normal (show i) ∷ [])
  unfolding staged_path
  staged_path-inside i = grandchild-inside "staged" (show i)

  pub backup_path-inside :
      (i : ℕ)
      → backup_path (transaction_dir lock) i
        ≡ in_transaction (normal "backups" ∷ normal (show i) ∷ [])
  unfolding backup_path
  backup_path-inside i = grandchild-inside "backups" (show i)

  pub journal_path-inside :
      journal_path (transaction_dir lock) ≡ in_transaction (normal journal_name ∷ [])
  unfolding journal_path
  journal_path-inside = child-inside journal_name

  pub staged_path-apart :
      (i j : ℕ)
      → i ≢ j
      → path_eq (staged_path (transaction_dir lock) i) (staged_path (transaction_dir lock) j)
        ≡ false
  unfolding path_eq component_eq
  staged_path-apart i j h =
      rw (staged_path-inside i, staged_path-inside j, path_eq-append lock.root)
        (elim (Bool-cases (show i =? show j)) [
          | inl same ↦ absurd (h (show-injective i j ((=?_iff (show i) (show j)).0 same)))
          | inr apart ↦ ground (arith, apart)
        ])

  pub staged_path-journal_path :
      (i : ℕ)
      → path_eq (staged_path (transaction_dir lock) i) (journal_path (transaction_dir lock)) ≡ false
  unfolding path_eq component_eq
  staged_path-journal_path i =
      rw (staged_path-inside i, journal_path-inside, path_eq-append lock.root) refl

  pub staged_path-backup_path :
      (i j : ℕ)
      → path_eq (staged_path (transaction_dir lock) i) (backup_path (transaction_dir lock) j)
        ≡ false
  unfolding path_eq component_eq
  staged_path-backup_path i j =
      rw (staged_path-inside i, backup_path-inside j, path_eq-append lock.root) refl

  pub backup_path-apart :
      (i j : ℕ)
      → i ≢ j
      → path_eq (backup_path (transaction_dir lock) i) (backup_path (transaction_dir lock) j)
        ≡ false
  unfolding path_eq component_eq
  backup_path-apart i j h =
      rw (backup_path-inside i, backup_path-inside j, path_eq-append lock.root)
        (elim (Bool-cases (show i =? show j)) [
          | inl same ↦ absurd (h (show-injective i j ((=?_iff (show i) (show j)).0 same)))
          | inr apart ↦ ground (arith, apart)
        ])

  pub backup_path-journal_path :
      (i : ℕ)
      → path_eq (backup_path (transaction_dir lock) i) (journal_path (transaction_dir lock)) ≡ false
  unfolding path_eq component_eq
  backup_path-journal_path i =
      rw (backup_path-inside i, journal_path-inside, path_eq-append lock.root) refl

  pub backup_path-staged_path :
      (i j : ℕ)
      → path_eq (backup_path (transaction_dir lock) i) (staged_path (transaction_dir lock) j)
        ≡ false
  unfolding path_eq component_eq
  backup_path-staged_path i j =
      rw (backup_path-inside i, staged_path-inside j, path_eq-append lock.root) refl

  -- a staged file is below the directories that are made before it
  pub staged_path-transaction_dir :
      (i : ℕ) → path_eq (staged_path (transaction_dir lock) i) (transaction_dir lock) ≡ false
  unfolding path_eq component_eq
  staged_path-transaction_dir i =
      rw (staged_path-inside i, transaction_dir-inside, path_eq-append lock.root) refl

  pub staged_path-child :
      (i : ℕ) (name : String)
      → path_eq (staged_path (transaction_dir lock) i) (child (transaction_dir lock) name) ≡ false
  unfolding path_eq component_eq
  staged_path-child i name =
      rw (staged_path-inside i, child-inside name, path_eq-append lock.root) (ground arith)

  pub staged_path-root : (i : ℕ) → path_eq (staged_path (transaction_dir lock) i) lock.root ≡ false
  staged_path-root i = rw (staged_path-inside i) (path_eq-below lock.root _ _)
