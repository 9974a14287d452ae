-- ===== src/Api/Transaction/Checks.antt =====
-- What the transaction asks of the disk before it touches a path, and of the paths themselves.
pub mod Plan
use elasticctl.Prelude.{
  ℕ, String, Bool, true, false, not, ◌&&◌, ◌||◌, Option, none, some, List, [], ◌∷◌, ◌++◌, any,
  if◌then◌else◌, is_some,
}
use elasticctl.Prelude.Text.{concat}
use elasticctl.Prelude.Order.{◌=?◌, string_ord}
use elasticctl.Core.Error.{Error, Result, ok, err, panic}
use elasticctl.Api.Transaction.FilePath.{
  FilePath, Component, normal, cur_dir, parent_dir, root_dir, prefix, path_eq, join, parent,
  display,
}
use elasticctl.Api.Transaction.Disk.{
  Bytes, Node, file, directory, other, IoKind, io_not_found, already_exists, io_other, IoError,
  World, IoResult, done, failed,
}
use elasticctl.Api.Transaction.Ops.{
  Tx, continue, ◌>>=◌, ◌>>◌, pure, raise, lift, io_error, filesystem_error, fs_metadata,
  fs_create_dir, sync_dir,
}
use elasticctl.Api.Transaction.Phase.{StagedFile, PullLock}

unfoldable pub path_metadata : FilePath → String → Tx (Option Node)
path_metadata path action w =
    let (r, w') = fs_metadata path w in
    elim r [
      | done n ↦ (ok (some n), w')
      | failed e ↦ elim e.io_kind [
        | io_not_found ↦ (ok none, w')
        | _ ↦ (err (filesystem_error action path e), w')
      ]
    ]

unfoldable pub path_exists : FilePath → Tx Bool
path_exists path = do m ← path_metadata path "checking pull transaction"; pure (is_some m)

unfoldable pub non_directory : FilePath → String → Error
non_directory path action =
    io_error (concat (action ∷ " " ∷ display path ∷ " is not a directory" ∷ []))

unfoldable pub directory_or : FilePath → String → Option Node → Tx (Unit {0})
directory_or path action (some directory) = pure tt
directory_or path action (some n) = raise (non_directory path action)
directory_or path action none =
    raise (io_error (concat (action ∷ " " ∷ display path ∷ ": directory does not exist" ∷ [])))

unfoldable pub require_directory : FilePath → String → Tx (Unit {0})
unfolding directory_or
require_directory path action = do m ← path_metadata path action; directory_or path action m

abbrev pub expect_some : {A : Type 0} → Option A → String → Tx A
expect_some none why w = (panic why, w)
expect_some (some a) why w = (ok a, w)

-- `fs::create_dir` and the sync of the parent behind it
unfoldable pub create_missing : FilePath → FilePath → String → Tx (Unit {0})
create_missing above path action w =
    let (r, w') = fs_create_dir path w in
    elim r [
      | done _ ↦ sync_dir above "syncing parent after directory creation" w'
      | failed e ↦ elim e.io_kind [
        | already_exists ↦ require_directory path action w'
        | _ ↦ (err (filesystem_error action path e), w')
      ]
    ]

unfoldable pub ensure_as : FilePath → FilePath → String → Option Node → Tx (Unit {0})
ensure_as above path action (some directory) = pure tt
ensure_as above path action (some n) = raise (non_directory path action)
ensure_as above path action none = create_missing above path action

unfoldable pub ensure_directory : FilePath → String → Tx (Unit {0})
unfolding create_missing ensure_as
ensure_directory path action = do
  above ← expect_some (parent path) "a created pull directory has a parent"
  require_directory above action
  m ← path_metadata path action
  ensure_as above path action m

unfoldable pub mirror_parent_of : FilePath → Option Node → Tx FilePath
mirror_parent_of above (some directory) = pure above
mirror_parent_of above (some n) =
    raise (io_error (concat ("mirror parent " ∷ display above ∷ " is not a directory" ∷ [])))
mirror_parent_of above none =
    raise (io_error (concat ("mirror parent " ∷ display above ∷ " does not exist" ∷ [])))

-- an empty parent, or none, is the current directory
unfoldable pub parent_or_here : Option FilePath → FilePath
parent_or_here (some (c ∷ p)) = c ∷ p
parent_or_here _ = cur_dir ∷ []

unfoldable pub mirror_parent : FilePath → Tx FilePath
unfolding mirror_parent_of parent_or_here
mirror_parent root = do
  let above = parent_or_here (parent root)
  m ← path_metadata above "reading mirror parent"
  mirror_parent_of above m

unfoldable pub invalid_relative : FilePath → Error
invalid_relative relative = io_error (
    concat (
      "pull replacement path "
      ∷ display relative
      ∷ " must be a relative rules/ or exceptions/ file"
      ∷ []))

-- the loop over the components behind the first: whether there is one, if all are plain names
unfoldable pub all_normal : FilePath → Bool → Option Bool
all_normal [] has_file_component = some has_file_component
all_normal (normal s ∷ p) has_file_component = all_normal p true
all_normal (c ∷ p) has_file_component = none

unfoldable pub validate_relative : FilePath → Result (Unit {0})
unfolding all_normal
validate_relative (normal first ∷ rest) =
    if not (first =? "rules") && not (first =? "exceptions")
    then err (invalid_relative (normal first ∷ rest))
    else elim (all_normal rest false) [
      | some true ↦ ok tt
      | _ ↦ err (invalid_relative (normal first ∷ rest))
    ]
validate_relative relative = err (invalid_relative relative)

-- one component after another below a directory; the first that is missing ends the walk
unfoldable pub ancestors_below : FilePath → FilePath → Tx (Unit {0})
ancestors_below current [] w = (ok tt, w)
ancestors_below current (normal s ∷ rest) w =
    let next = current ++ normal s ∷ [] in
    let (r, w') = path_metadata next "reading pull target directory" w in
    elim r [
      | ok none ↦ (ok tt, w')
      | ok (some directory) ↦ ancestors_below next rest w'
      | ok (some n) ↦ (err (non_directory next "pull target directory"), w')
      | err e ↦ (err e, w')
      | panic s ↦ (panic s, w')
    ]
ancestors_below current (c ∷ rest) w = (panic "validated replacement path has normal components", w)

unfoldable pub ancestors_of : FilePath → FilePath → Option Node → Tx (Unit {0})
ancestors_of root relative none = pure tt
ancestors_of root relative (some directory) = do
  above ← expect_some (parent relative) "validated replacement path has a parent"
  ancestors_below root above
ancestors_of root relative (some n) = raise (non_directory root "mirror root")

unfoldable pub validate_target_ancestors : FilePath → FilePath → Tx (Unit {0})
unfolding ancestors_below ancestors_of
validate_target_ancestors root relative = do
  m ← path_metadata root "reading mirror root"
  ancestors_of root relative m

unfoldable pub regular : FilePath → Option Node → Tx Bool
regular relative none = pure false
regular relative (some (file bytes)) = pure true
regular relative (some n) =
    raise (io_error (concat ("pull target " ∷ display relative ∷ " is not a regular file" ∷ [])))

unfoldable pub target_is_regular_file : PullLock → FilePath → Tx Bool
unfolding regular
target_is_regular_file lock relative = do
  validate_target_ancestors lock.root relative
  m ← path_metadata (join lock.root relative) "reading pull target"
  regular relative m

-- creates the directories of a path below a directory, and returns the last
unfoldable pub create_below : FilePath → FilePath → Tx FilePath
create_below current [] = pure current
create_below current (normal s ∷ rest) = do
  ensure_directory (current ++ normal s ∷ []) "creating pull target directory"
  create_below (current ++ normal s ∷ []) rest
create_below current (c ∷ rest) = lift (panic "validated replacement path has normal components")

unfoldable pub ensure_target_parent : PullLock → FilePath → Tx FilePath
unfolding create_below
ensure_target_parent lock relative = do
  above ← expect_some (parent relative) "validated replacement path has a parent"
  require_directory lock.root "reading mirror root"
  create_below lock.root above

unfoldable pub ensure_mirror_root : PullLock → Tx (Unit {0})
ensure_mirror_root lock = do
  mirror_parent lock.root
  ensure_directory lock.root "creating mirror root"

unfoldable pub planned : FilePath → List FilePath → Bool
planned p paths = any (λ q. path_eq p q) paths

unfoldable pub validate_files : PullLock → List StagedFile → List FilePath → Tx (List Bool)
validate_files lock [] seen = pure []
validate_files lock (f ∷ files) seen = do
  lift (validate_relative f.relative)
  validate_target_ancestors lock.root f.relative
  if planned f.relative seen
      then raise (io_error (concat ("pull plans " ∷ display f.relative ∷ " more than once" ∷ [])))
      else do
        existed ← target_is_regular_file lock f.relative
        rest ← validate_files lock files (f.relative ∷ seen)
        pure (existed ∷ rest)

unfoldable pub validate_replacement : PullLock → List StagedFile → Tx (List Bool)
unfolding planned validate_files
validate_replacement lock files = do mirror_parent lock.root; validate_files lock files []
