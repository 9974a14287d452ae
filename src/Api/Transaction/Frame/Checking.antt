-- ===== src/Api/Transaction/Frame/Checking.antt =====
-- The checks of the disk keep what a guard holds of; they create directories where nothing is.
use elasticctl.Prelude.{String, refl, sym, subst, Option, none, some, [], ◌∷◌, ◌++◌, arith}
use mathlib.Core.List.{append_assoc}
use elasticctl.Api.Transaction.FilePath.{FilePath, normal}
use elasticctl.Api.Transaction.Disk.{Node, file, directory, other}
use elasticctl.Api.Transaction.Ops.{fs_create_dir}
use elasticctl.Api.Transaction.Phase.{PullLock}
use elasticctl.Api.Transaction.Checks.{
  path_metadata, path_exists, directory_or, require_directory, expect_some, create_missing,
  ensure_as, ensure_directory, mirror_parent_of, mirror_parent, ancestors_below, ancestors_of,
  validate_target_ancestors, regular, target_is_regular_file, create_below, ensure_target_parent,
}
use elasticctl.Api.Transaction.Frame.{Guard, Frame, Creatable, frame_rules, Frame-bind}
use elasticctl.Api.Transaction.Frame.Operations.{
  sync_dir-Frame, create_dir-IoFrame, metadata-IoFrame,
}

module _ (G : Guard) where
  pub path_metadata-Frame : (p : FilePath) (action : String) → Frame G (path_metadata p action)
  unfolding path_metadata
  path_metadata-Frame p action = record { at = λ w q h. ground (arith, metadata-IoFrame G p w q h) }

  pub path_exists-Frame : (p : FilePath) → Frame G (path_exists p)
  unfolding path_exists
  path_exists-Frame p = search (frame_rules, path_metadata-Frame)

  directory_or-Frame :
      (p : FilePath) (action : String) (n : Option Node) → Frame G (directory_or p action n)
  unfolding directory_or
  directory_or-Frame p action none = search frame_rules
  directory_or-Frame p action (some directory) = search frame_rules
  directory_or-Frame p action (some n) = search frame_rules

  pub require_directory-Frame :
      (p : FilePath) (action : String) → Frame G (require_directory p action)
  unfolding require_directory
  require_directory-Frame p action = search (frame_rules, path_metadata-Frame, directory_or-Frame)

  expect_some-Frame : {A : Type 0} (o : Option A) (why : String) → Frame G (expect_some o why)
  expect_some-Frame none why = record { at = λ w q h. refl }
  expect_some-Frame (some a) why = record { at = λ w q h. refl }

  create_missing-Frame :
      (above p : FilePath) (action : String)
      → Creatable G p
      → Frame G (create_missing above p action)
  unfolding create_missing
  create_missing-Frame above p action h = record {
    at = λ w q k.
        let made = create_dir-IoFrame G p h w q k in
        let still : G q ((fs_create_dir p w).1.fs q) = subst (G q) (sym made) k in
        ground (
          arith,
          made,
          (sync_dir-Frame G above "syncing parent after directory creation").at
              (fs_create_dir p w).1 q still,
          (require_directory-Frame p action).at (fs_create_dir p w).1 q still,
        );
  }

  ensure_as-Frame :
      (above p : FilePath) (action : String) (n : Option Node)
      → Creatable G p
      → Frame G (ensure_as above p action n)
  unfolding ensure_as
  ensure_as-Frame above p action none h = create_missing-Frame above p action h
  ensure_as-Frame above p action (some directory) h = search frame_rules
  ensure_as-Frame above p action (some (file b)) h = search frame_rules
  ensure_as-Frame above p action (some other) h = search frame_rules

  pub ensure_directory-Frame :
      (p : FilePath) (action : String) → Creatable G p → Frame G (ensure_directory p action)
  unfolding ensure_directory
  ensure_directory-Frame p action h = search (
    frame_rules, expect_some-Frame, require_directory-Frame, path_metadata-Frame, ensure_as-Frame,
  )

  mirror_parent_of-Frame : (above : FilePath) (n : Option Node) → Frame G (mirror_parent_of above n)
  unfolding mirror_parent_of
  mirror_parent_of-Frame above none = search frame_rules
  mirror_parent_of-Frame above (some directory) = search frame_rules
  mirror_parent_of-Frame above (some (file b)) = search frame_rules
  mirror_parent_of-Frame above (some other) = search frame_rules

  pub mirror_parent-Frame : (p : FilePath) → Frame G (mirror_parent p)
  unfolding mirror_parent
  mirror_parent-Frame p = search (frame_rules, path_metadata-Frame, mirror_parent_of-Frame)

  ancestors_below-Frame : (current rest : FilePath) → Frame G (ancestors_below current rest)
  unfolding ancestors_below
  ancestors_below-Frame current [] = record { at = λ w q k. refl }
  ancestors_below-Frame current (normal s ∷ rest) = record {
    at = λ w q k.
        let next : FilePath = current ++ normal s ∷ [] in
        let looked = (path_metadata-Frame next "reading pull target directory").at w q k in
        let still : G q ((path_metadata next "reading pull target directory" w).1.fs q) =
          subst (G q) (sym looked) k in
        ground (
          arith,
          looked,
          (ancestors_below-Frame next rest).at
              (path_metadata next "reading pull target directory" w).1 q still,
        );
  }
  ancestors_below-Frame current (c ∷ rest) = record { at = λ w q k. refl }

  ancestors_of-Frame :
      (above relative : FilePath) (n : Option Node) → Frame G (ancestors_of above relative n)
  unfolding ancestors_of
  ancestors_of-Frame above relative none = search frame_rules
  ancestors_of-Frame above relative (some directory) =
      search (frame_rules, expect_some-Frame, ancestors_below-Frame)
  ancestors_of-Frame above relative (some (file b)) = search frame_rules
  ancestors_of-Frame above relative (some other) = search frame_rules

  pub validate_target_ancestors-Frame :
      (above relative : FilePath) → Frame G (validate_target_ancestors above relative)
  unfolding validate_target_ancestors
  validate_target_ancestors-Frame above relative =
      search (frame_rules, path_metadata-Frame, ancestors_of-Frame)

  regular-Frame : (relative : FilePath) (n : Option Node) → Frame G (regular relative n)
  unfolding regular
  regular-Frame relative none = search frame_rules
  regular-Frame relative (some directory) = search frame_rules
  regular-Frame relative (some (file b)) = search frame_rules
  regular-Frame relative (some other) = search frame_rules

  pub target_is_regular_file-Frame :
      (lock : PullLock) (relative : FilePath) → Frame G (target_is_regular_file lock relative)
  unfolding target_is_regular_file
  target_is_regular_file-Frame lock relative =
      search (frame_rules, validate_target_ancestors-Frame, path_metadata-Frame, regular-Frame)

  -- the guard does not hold of a path below a directory, where nothing is
  abbrev pub CreatableBelow : FilePath → Type 0
  CreatableBelow current = (rest : FilePath) → Creatable G (current ++ rest)

  create_below-Frame :
      (current rest : FilePath) → CreatableBelow current → Frame G (create_below current rest)
  unfolding create_below
  create_below-Frame current [] h = search frame_rules
  create_below-Frame current (normal s ∷ rest) h =
      Frame-bind G (ensure_directory (current ++ normal s ∷ []) "creating pull target directory")
        (λ _. create_below (current ++ normal s ∷ []) rest)
        (ensure_directory-Frame (current ++ normal s ∷ []) "creating pull target directory"
          (h (normal s ∷ [])))
        (λ _. create_below-Frame (current ++ normal s ∷ []) rest (λ more.
          subst (Creatable G) (sym (append_assoc current (normal s ∷ []) more))
            (h (normal s ∷ more))))
  create_below-Frame current (c ∷ rest) h = record { at = λ w q k. refl }

  pub ensure_target_parent-Frame :
      (lock : PullLock) (relative : FilePath)
      → CreatableBelow lock.root
      → Frame G (ensure_target_parent lock relative)
  unfolding ensure_target_parent
  ensure_target_parent-Frame lock relative h =
      search (frame_rules, expect_some-Frame, require_directory-Frame, create_below-Frame, h)
