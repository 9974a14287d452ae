-- ===== src/Api/Transaction/Ops/Inversion.antt =====
-- What a step that returned has done.
use elasticctl.Prelude.{
  String, ◌≡◌, refl, Bool, true, false, none, some, [], arith, ◌⊎◌, if◌then◌else◌, inl, inr,
}
use elasticctl.Core.Error.{Error, ok, Result-cases}
use elasticctl.Api.Transaction.FilePath.{FilePath, path_eq_iff}
use elasticctl.Api.Transaction.Disk.{
  Bytes, FileSystem, file, other, World, perform, write_op, rename_op, sync_file_op, sync_op,
  read_op, put_node,
}
use elasticctl.Api.Transaction.Ops.{
  Tx, ◌>>=◌, raise, map_io, fs_read, fs_write, fs_sync_file, fs_sync, write, rename, fs_rename,
  sync_file, sync_dir,
}

-- a sequence that returned: both its parts did
pub bind-ok :
    {A B : Type 0} (m : Tx A) (f : A → Tx B) {w : World} {b : B}
    → ((m >>= f) w).0 ≡ ok b
    → (a : A) × ((m w).0 ≡ ok a) × ((f a (m w).1).0 ≡ ok b)
unfolding ◌>>=◌
bind-ok m f {w = w} h = elim (Result-cases (m w).0) [
  | inl r ↦ (r.0, r.1, ground (arith, r.1, h))
  | inr (inl r) ↦ absurd (ground (arith, r.1, h))
  | inr (inr r) ↦ absurd (ground (arith, r.1, h))
]

-- what is on the disk after a step, where it returned
pub record Ensures {A : Type 0} (Q : FileSystem → Type 0) (m : Tx A) (w : World) : Type 0 where
  pub returned : (b : A) → (m w).0 ≡ ok b → Q (m w).1.fs

pub Ensures-bind :
    {A B : Type 0} (Q : FileSystem → Type 0) (m : Tx A) (f : A → Tx B) (w : World)
    → ((a : A) → (m w).0 ≡ ok a → Ensures Q (f a) (m w).1)
    → Ensures Q (m >>= f) w
unfolding ◌>>=◌
Ensures-bind Q m f w more = record {
  returned = λ b h. elim (Result-cases (m w).0) [
    | inl r ↦ rw r.1 ((more r.0 r.1).returned b (ground (arith, r.1, h)))
    | inr (inl r) ↦ absurd (ground (arith, r.1, h))
    | inr (inr r) ↦ absurd (ground (arith, r.1, h))
  ];
}

-- what is on the disk after two steps, whether they returned or not
pub after-bind :
    {A B : Type 0} (Q : FileSystem → Type 0) (m : Tx A) (f : A → Tx B) (w : World)
    → Q (m w).1.fs
    → ((a : A) → (m w).0 ≡ ok a → Q (f a (m w).1).1.fs)
    → Q ((m >>= f) w).1.fs
unfolding ◌>>=◌
after-bind Q m f w failed more = elim (Result-cases (m w).0) [
  | inl r ↦ rw r.1 (more r.0 r.1)
  | inr (inl r) ↦ rw r.1 failed
  | inr (inr r) ↦ rw r.1 failed
]

pub after-unless :
    {A : Type 0} (Q : FileSystem → Type 0) (b : Bool) (e : Error) (m : Tx A) (w : World)
    → Q w.fs
    → Q (m w).1.fs
    → Q ((if b then raise e else m) w).1.fs
after-unless Q true e m w failed more = failed
after-unless Q false e m w failed more = more

pub Ensures-unless :
    {A : Type 0} (Q : FileSystem → Type 0) (b : Bool) (e : Error) (m : Tx A) (w : World)
    → Ensures Q m w
    → Ensures Q (if b then raise e else m) w
Ensures-unless Q true e m w more = record { returned = λ a h. absurd (ground (arith, h)) }
Ensures-unless Q false e m w more = more

-- a guard that was passed
pub unless-ok :
    {A : Type 0} (b : Bool) (e : Error) (m : Tx A) {w : World} {a : A}
    → ((if b then raise e else m) w).0 ≡ ok a
    → (b ≡ false) × ((m w).0 ≡ ok a)
unless-ok true e m h = absurd (ground (arith, h))
unless-ok false e m h = (refl, h)

-- a file that was written holds the bytes, or it is a special one
pub write-ok :
    (p : FilePath) (b : Bytes) (about : FilePath) (action : String) (w : World) (u : Unit {0})
    → (write p b false about action w).0 ≡ ok u
    → ((write p b false about action w).1.fs p ≡ some (file b))
      ⊎ ((write p b false about action w).1.fs p ≡ some other)
unfolding write fs_write map_io perform write_op put_node
write-ok p b about action w u h = ground (arith, h, path_eq_iff p p)

pub sync_file-keeps :
    (p about : FilePath) (action : String) (w : World) → (sync_file p about action w).1.fs ≡ w.fs
unfolding sync_file fs_sync_file map_io perform sync_file_op
sync_file-keeps p about action w = ground arith

pub sync_dir-keeps :
    (p : FilePath) (action : String) (w : World) → (sync_dir p action w).1.fs ≡ w.fs
unfolding sync_dir fs_sync map_io perform sync_op
sync_dir-keeps p action w = ground arith

-- what was read of a file are its bytes
pub read-ok :
    (p : FilePath) (action : String) (about : FilePath) (w : World) (b bytes : Bytes)
    → (map_io action about (fs_read p) w).0 ≡ ok bytes
    → w.fs p ≡ some (file b)
    → bytes ≡ b
unfolding map_io fs_read perform read_op
read-ok p action about w b bytes h k = ground (arith, h, k)

-- what was read of a special one is empty
pub read-ok_other :
    (p : FilePath) (action : String) (about : FilePath) (w : World) (bytes : Bytes)
    → (map_io action about (fs_read p) w).0 ≡ ok bytes
    → w.fs p ≡ some other
    → [] ≡ bytes
unfolding map_io fs_read perform read_op
read-ok_other p action about w bytes h k = ground (arith, h, k)

-- a file that was written where nothing was holds the bytes
pub write-new :
    (p : FilePath) (b : Bytes) (about : FilePath) (action : String) (w : World) (u : Unit {0})
    → (write p b false about action w).0 ≡ ok u
    → w.fs p ≡ none
    → (write p b false about action w).1.fs p ≡ some (file b)
unfolding write fs_write map_io perform write_op put_node
write-new p b about action w u h k = ground (arith, h, k, path_eq_iff p p)

-- a file that was renamed is at its new path
pub rename-ok :
    (from to about : FilePath) (action : String) (w : World) (u : Unit {0}) (b : Bytes)
    → (rename from to about action w).0 ≡ ok u
    → w.fs from ≡ some (file b)
    → (rename from to about action w).1.fs to ≡ some (file b)
unfolding rename fs_rename map_io perform rename_op put_node
rename-ok from to about action w u b h k = ground (arith, h, k, path_eq_iff to to)

-- a file that was to be renamed is at one of the paths
pub rename-either :
    (from to about : FilePath) (action : String) (w : World) (b : Bytes)
    → w.fs from ≡ some (file b)
    → ((rename from to about action w).1.fs from ≡ some (file b))
      ⊎ ((rename from to about action w).1.fs to ≡ some (file b))
unfolding rename fs_rename map_io perform rename_op put_node
rename-either from to about action w b k = ground (arith, k, path_eq_iff to to)
