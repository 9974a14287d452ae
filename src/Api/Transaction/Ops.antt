-- ===== src/Api/Transaction/Ops.antt =====
-- The operations of the file system as the transaction calls them: under the fault script, with the
-- program's error messages.
pub mod Inversion
use elasticctl.Prelude.{String, Bool, true, false, Option, none, some, List, [], ◌∷◌}
use elasticctl.Prelude.Text.{concat}
use elasticctl.Core.Error.{Error, error, new_error, Result, ok, err, panic}
use elasticctl.Api.Transaction.FilePath.{FilePath, display}
use elasticctl.Api.Transaction.Disk.{
  Bytes, Node, directory, IoError, World, IoResult, done, failed, perform, no_damage, write_op,
  write_damage, sync_file_op, sync_op, rename_op, remove_file_op, remove_dir_all_op, remove_damage,
  create_dir_op, metadata_op, read_op,
}

-- `impl FileOps for FsFileOps`, and the calls of `std::fs` that do not go through it
unfoldable pub fs_write : FilePath → Bytes → Bool → World → IoResult (Unit {0}) × World
fs_write p bytes append = perform (write_op p bytes append) (write_damage p bytes append)

unfoldable pub fs_sync_file : FilePath → World → IoResult (Unit {0}) × World
fs_sync_file p = perform (sync_file_op p) no_damage

unfoldable pub fs_sync : FilePath → World → IoResult (Unit {0}) × World
fs_sync p = perform (sync_op p) no_damage

unfoldable pub fs_rename : FilePath → FilePath → World → IoResult (Unit {0}) × World
fs_rename from to = perform (rename_op from to) no_damage

unfoldable pub fs_remove_file : FilePath → World → IoResult (Unit {0}) × World
fs_remove_file p = perform (remove_file_op p) no_damage

unfoldable pub fs_remove_dir_all : FilePath → World → IoResult (Unit {0}) × World
fs_remove_dir_all p = perform (remove_dir_all_op p) (remove_damage p)

unfoldable pub fs_create_dir : FilePath → World → IoResult (Unit {0}) × World
fs_create_dir p = perform (create_dir_op p) no_damage

unfoldable pub fs_metadata : FilePath → World → IoResult Node × World
fs_metadata p = perform (metadata_op p) no_damage

unfoldable pub fs_read : FilePath → World → IoResult Bytes × World
fs_read p = perform (read_op p) no_damage

-- `Path::exists`: false where the metadata cannot be read
unfoldable pub fs_exists : FilePath → World → Bool × World
fs_exists p w = let (r, w') = fs_metadata p w in (elim r [ done n ↦ true | failed e ↦ false ], w')

-- A step of the transaction: what is on the disk stays there, also beside an error.
abbrev pub Tx {ℓ} : Type ℓ → Type ℓ
Tx A = World → Result A × World

module _ {A B : Type 0} where
  abbrev pub continue : Result A → (A → Tx B) → Tx B
  continue (ok a) f w = f a w
  continue (err e) f w = (err e, w)
  continue (panic s) f w = (panic s, w)

  infixl 10 ◌>>=◌ ◌>>◌
  unfoldable pub ◌>>=◌ : Tx A → (A → Tx B) → Tx B
  ◌>>=◌ m f w = let (r, w') = m w in continue r f w'

  abbrev pub ◌>>◌ : Tx A → Tx B → Tx B
  m >> k = m >>= λ _. k

module _ {A : Type 0} where
  abbrev pub pure : A → Tx A
  pure a w = (ok a, w)

  abbrev pub raise : Error → Tx A
  raise e w = (err e, w)

  abbrev pub lift : Result A → Tx A
  lift r w = (r, w)

unfoldable pub filesystem_error : String → FilePath → IoError → Error
filesystem_error action p e =
    new_error error (concat (action ∷ " " ∷ display p ∷ ": " ∷ e.text ∷ []))

abbrev pub io_error : String → Error
io_error message = new_error error message

module _ {A : Type 0} where
  abbrev named : String → FilePath → IoResult A → Result A
  named action p (done a) = ok a
  named action p (failed e) = err (filesystem_error action p e)

  -- `map_err(|e| filesystem_error(action, path, e))`
  unfoldable pub map_io : String → FilePath → (World → IoResult A × World) → Tx A
  map_io action p op w = let (r, w') = op w in (named action p r, w')

unfoldable pub write : FilePath → Bytes → Bool → FilePath → String → Tx (Unit {0})
write p bytes append about action = map_io action about (fs_write p bytes append)

unfoldable pub sync_file : FilePath → FilePath → String → Tx (Unit {0})
sync_file p about action = map_io action about (fs_sync_file p)

unfoldable pub sync_dir : FilePath → String → Tx (Unit {0})
sync_dir p action = map_io action p (fs_sync p)

unfoldable pub rename : FilePath → FilePath → FilePath → String → Tx (Unit {0})
rename from to relative action = map_io action relative (fs_rename from to)

unfoldable pub remove_file : FilePath → FilePath → String → Tx (Unit {0})
remove_file p relative action = map_io action relative (fs_remove_file p)

unfoldable pub exists : FilePath → Tx Bool
exists p w = let (b, w') = fs_exists p w in (ok b, w')
