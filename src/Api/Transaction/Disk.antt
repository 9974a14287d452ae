-- ===== src/Api/Transaction/Disk.antt =====
-- The file system under the transaction: what `std::fs` does to it, and the faults that an
-- operation can meet. A fault script decides each operation in turn; where it is at its end, an
-- operation meets none.
use elasticctl.Prelude.{
  ℕ, String, Bool, true, false, not, ◌&&◌, Option, none, some, List, [], ◌∷◌, ◌++◌, if◌then◌else◌,
  take,
}
use elasticctl.Api.Transaction.FilePath.{FilePath, path_eq, parent, starts_with}

abbrev pub Bytes : Type 0
Bytes = List ℕ

pub data Node : Type 0 where
  file : Bytes → Node
  directory : Node
  -- a symbolic link, a device, a socket
  other : Node

abbrev pub FileSystem : Type 0
FileSystem = FilePath → Option Node

pub data IoKind : Type 0 where
  io_not_found already_exists io_other : IoKind

pub record IoError : Type 0 where
  pub io_kind : IoKind
  pub text : String

abbrev pub no_entry : IoError
no_entry = record { io_kind = io_not_found; text = "No such file or directory (os error 2)" }

abbrev pub file_exists : IoError
file_exists = record { io_kind = already_exists; text = "File exists (os error 17)" }

abbrev pub not_a_directory : IoError
not_a_directory = record { io_kind = io_other; text = "Not a directory (os error 20)" }

abbrev pub is_a_directory : IoError
is_a_directory = record { io_kind = io_other; text = "Is a directory (os error 21)" }

-- What an operation meets: nothing; an error that leaves the disk alone; an error after some of
-- the bytes are written; an error after some of a directory is removed.
pub data Fault : Type 0 where
  works : Fault
  fails : IoError → Fault
  tears : ℕ → IoError → Fault
  partly : (FilePath → Bool) → IoError → Fault

pub record World : Type 0 where
  pub fs : FileSystem
  pub script : List Fault

pub data IoResult (A : Type 0) : Type 0 where
  done : A → IoResult A
  failed : IoError → IoResult A

-- an operation of the file system
abbrev pub FsOp : Type 0 → Type 0
FsOp A = FileSystem → IoResult A × FileSystem

-- what a fault does instead of the operation
abbrev pub Damage : Type 0
Damage = FileSystem → Fault → FileSystem

abbrev pub no_damage : Damage
no_damage fs f = fs

-- one operation under the script
module _ {A : Type 0} where
  abbrev pub resume : IoResult A × FileSystem → List Fault → IoResult A × World
  resume (r, fs) script = (r, record { fs = fs; script = script })

  abbrev pub perform_as : FsOp A → Damage → FileSystem → List Fault → IoResult A × World
  perform_as op damage fs [] = resume (op fs) []
  perform_as op damage fs (works ∷ rest) = resume (op fs) rest
  perform_as op damage fs (fails e ∷ rest) = (failed e, record { fs = fs; script = rest })
  perform_as op damage fs (tears n e ∷ rest) =
      (failed e, record { fs = damage fs (tears n e); script = rest })
  perform_as op damage fs (partly k e ∷ rest) =
      (failed e, record { fs = damage fs (partly k e); script = rest })

  unfoldable pub perform : FsOp A → Damage → World → IoResult A × World
  perform op damage w = perform_as op damage w.fs w.script

-- the disk with one entry changed
unfoldable pub put_node : FilePath → Option Node → FileSystem → FileSystem
put_node p n fs q = if path_eq q p then n else fs q

-- whether the parent of a path is a directory
unfoldable pub has_parent : FilePath → FileSystem → Bool
has_parent p fs = elim (parent p) [
  | some q ↦ elim (fs q) [ some directory ↦ true | _ ↦ false ]
  | none ↦ false
]

-- `OpenOptions` with `create` and either `append` or `truncate`, and `write_all`
abbrev pub written : Bool → Bytes → Bytes → Bytes
written true old bytes = old ++ bytes
written false old bytes = bytes

unfoldable pub write_op : FilePath → Bytes → Bool → FsOp (Unit {0})
write_op p bytes append fs = elim (fs p) [
  | some (file old) ↦ (done tt, put_node p (some (file (written append old bytes))) fs)
  | some directory ↦ (failed is_a_directory, fs)
  | some other ↦ (done tt, fs)
  | none ↦
      if has_parent p fs
      then (done tt, put_node p (some (file bytes)) fs)
      else (failed no_entry, fs)
]

abbrev pub write_damage : FilePath → Bytes → Bool → Damage
write_damage p bytes append fs (tears n e) = (write_op p (take n bytes) append fs).1
write_damage p bytes append fs _ = fs

-- `sync_all` of a file that is opened to write
unfoldable pub sync_file_op : FilePath → FsOp (Unit {0})
sync_file_op p fs = elim (fs p) [
  | some directory ↦ (failed is_a_directory, fs)
  | some n ↦ (done tt, fs)
  | none ↦ (failed no_entry, fs)
]

-- `sync_all` of a directory that is opened to read
unfoldable pub sync_op : FilePath → FsOp (Unit {0})
sync_op p fs = elim (fs p) [ some n ↦ (done tt, fs) | none ↦ (failed no_entry, fs) ]

-- `fs::rename`; a directory is never renamed here, and the model refuses to
unfoldable pub rename_op : FilePath → FilePath → FsOp (Unit {0})
rename_op from to fs = elim (fs from) [
  | none ↦ (failed no_entry, fs)
  | some directory ↦ (failed is_a_directory, fs)
  | some n ↦ elim (fs to) [
    | some directory ↦ (failed is_a_directory, fs)
    | some m ↦ (done tt, put_node to (some n) (put_node from none fs))
    | none ↦
        if has_parent to fs
        then (done tt, put_node to (some n) (put_node from none fs))
        else (failed no_entry, fs)
  ]
]

-- `fs::remove_file`
unfoldable pub remove_file_op : FilePath → FsOp (Unit {0})
remove_file_op p fs = elim (fs p) [
  | none ↦ (failed no_entry, fs)
  | some directory ↦ (failed is_a_directory, fs)
  | some n ↦ (done tt, put_node p none fs)
]

-- a directory with what is below it, less what `kept` holds
unfoldable pub remove_below : FilePath → (FilePath → Bool) → FileSystem → FileSystem
remove_below p kept fs q = if starts_with q p && not (kept q) then none else fs q

-- `fs::remove_dir_all`; one that fails may have removed a part
unfoldable pub remove_dir_all_op : FilePath → FsOp (Unit {0})
remove_dir_all_op p fs = elim (fs p) [
  | none ↦ (failed no_entry, fs)
  | some directory ↦ (done tt, remove_below p (λ q. false) fs)
  | some n ↦ (failed not_a_directory, fs)
]

abbrev pub remove_damage : FilePath → Damage
remove_damage p fs (partly kept e) = remove_below p kept fs
remove_damage p fs _ = fs

-- `fs::create_dir`
unfoldable pub create_dir_op : FilePath → FsOp (Unit {0})
create_dir_op p fs = elim (fs p) [
  | some n ↦ (failed file_exists, fs)
  | none ↦
      if has_parent p fs then (done tt, put_node p (some directory) fs) else (failed no_entry, fs)
]

-- `fs::symlink_metadata`, of which only the type is read
unfoldable pub metadata_op : FilePath → FsOp Node
metadata_op p fs = elim (fs p) [ some n ↦ (done n, fs) | none ↦ (failed no_entry, fs) ]

-- `fs::read`
unfoldable pub read_op : FilePath → FsOp Bytes
read_op p fs = elim (fs p) [
  | some (file bytes) ↦ (done bytes, fs)
  | some directory ↦ (failed is_a_directory, fs)
  | some other ↦ (done [], fs)
  | none ↦ (failed no_entry, fs)
]
