-- ===== src/Api/Transaction/Frame/Operations.antt =====
-- The operations of the file system keep what a guard holds of, where it is free of the paths that they
-- change.
use elasticctl.Prelude.{
  String, ◌≡◌, refl, ap, subst, ◌∙◌, inl, inr, List, [], ◌∷◌, Bool, false, none, Option-cases,
  Bool-cases, arith, take,
}
use elasticctl.Api.Transaction.FilePath.{FilePath, path_eq, path_eq_iff}
use elasticctl.Api.Transaction.Disk.{
  Bytes, FileSystem, World, Fault, works, fails, tears, partly, FsOp, IoResult, Damage, no_damage,
  perform, put_node, write_op, write_damage, sync_file_op, sync_op, rename_op, remove_file_op,
  remove_below, remove_dir_all_op, remove_damage, create_dir_op, metadata_op, read_op,
}
use elasticctl.Api.Transaction.Ops.{
  fs_write, fs_sync_file, fs_sync, fs_rename, fs_remove_file, fs_remove_dir_all, fs_create_dir,
  fs_metadata, fs_read, map_io, write, sync_file, sync_dir, rename, remove_file, exists, fs_exists,
}
use elasticctl.Api.Transaction.Frame.{Guard, Same, Frame, Free, FreeBelow, Creatable}

module _ (G : Guard) where
  -- an operation and what its faults leave, without the script
  OpFrame : {A : Type 0} → FsOp A → Damage → Type 0
  OpFrame op damage =
      ((fs : FileSystem) → Same G fs (op fs).1)
      × ((fs : FileSystem) (f : Fault) → Same G fs (damage fs f))

  -- an input or output call under the script
  abbrev pub IoFrame : {A : Type 0} → (World → IoResult A × World) → Type 0
  IoFrame m = (w : World) → Same G w.fs (m w).1.fs

  perform-IoFrame :
      {A : Type 0} (op : FsOp A) (damage : Damage) → OpFrame op damage → IoFrame (perform op damage)
  unfolding perform OpFrame
  perform-IoFrame op damage h w = go w.script
    where
      go :
          (script : List Fault)
          → Same G w.fs (perform op damage (record { fs = w.fs; script = script })).1.fs
      go [] = h.0 w.fs
      go (works ∷ rest) = h.0 w.fs
      go (fails e ∷ rest) = λ q k. refl
      go (tears n e ∷ rest) = h.1 w.fs (tears n e)
      go (partly keep e ∷ rest) = h.1 w.fs (partly keep e)

  write_op-OpFrame :
      (p : FilePath) (b : Bytes) (append : Bool)
      → Free G p
      → OpFrame (write_op p b append) (write_damage p b append)
  unfolding OpFrame
  write_op-OpFrame p b append h = (λ fs. write_same b fs, λ fs f. damage_same fs f)
    where
      write_same : (b : Bytes) (fs : FileSystem) → Same G fs (write_op p b append fs).1
      write_same b fs q k = unfold write_op put_node in ground (arith, h.ne q _ k)

      damage_same : (fs : FileSystem) (f : Fault) → Same G fs (write_damage p b append fs f)
      damage_same fs (tears n e) = write_same (take n b) fs
      damage_same fs works = λ q k. refl
      damage_same fs (fails e) = λ q k. refl
      damage_same fs (partly kept e) = λ q k. refl

  sync_op-OpFrame : (p : FilePath) → OpFrame (sync_op p) no_damage
  unfolding OpFrame sync_op
  sync_op-OpFrame p = (λ fs q k. ground arith, λ fs f q k. refl)

  sync_file_op-OpFrame : (p : FilePath) → OpFrame (sync_file_op p) no_damage
  unfolding OpFrame sync_file_op
  sync_file_op-OpFrame p = (λ fs q k. ground arith, λ fs f q k. refl)

  metadata_op-OpFrame : (p : FilePath) → OpFrame (metadata_op p) no_damage
  unfolding OpFrame metadata_op
  metadata_op-OpFrame p = (λ fs q k. ground arith, λ fs f q k. refl)

  read_op-OpFrame : (p : FilePath) → OpFrame (read_op p) no_damage
  unfolding OpFrame read_op
  read_op-OpFrame p = (λ fs q k. ground arith, λ fs f q k. refl)

  rename_op-OpFrame :
      (from to : FilePath) → Free G from → Free G to → OpFrame (rename_op from to) no_damage
  unfolding OpFrame rename_op put_node
  rename_op-OpFrame from to h h' =
      (λ fs q k. ground (arith, h.ne q _ k, h'.ne q _ k), λ fs f q k. refl)

  remove_file_op-OpFrame : (p : FilePath) → Free G p → OpFrame (remove_file_op p) no_damage
  unfolding OpFrame remove_file_op put_node
  remove_file_op-OpFrame p h = (λ fs q k. ground (arith, h.ne q _ k), λ fs f q k. refl)

  create_dir_op-Same :
      (p q : FilePath) (fs : FileSystem)
      → Creatable G p
      → G q (fs q)
      → (create_dir_op p fs).1 q ≡ fs q
  unfolding create_dir_op put_node
  create_dir_op-Same p q fs h k = elim (Option-cases (fs p)) [
    | inr (n, there) ↦ ground (arith, there)
    | inl none_there ↦ elim (Bool-cases (path_eq q p)) [
      | inr apart ↦ ground (arith, none_there, apart)
      | inl same ↦
          let empty : fs q ≡ none = ap fs ((path_eq_iff q p).0 same) ∙ none_there in
          absurd (ground (arith, same, h.missing q (subst (G q) empty k)))
    ]
  ]

  create_dir_op-OpFrame : (p : FilePath) → Creatable G p → OpFrame (create_dir_op p) no_damage
  unfolding OpFrame
  create_dir_op-OpFrame p h = (λ fs q k. create_dir_op-Same p q fs h k, λ fs f q k. refl)

  remove_below-SameOutside :
      (p : FilePath) (kept : FilePath → Bool) (fs : FileSystem)
      → FreeBelow G p
      → Same G fs (remove_below p kept fs)
  unfolding remove_below
  remove_below-SameOutside p kept fs h q k = ground (arith, h.apart q _ k)

  remove_dir_all_op-OpFrame :
      (p : FilePath) → FreeBelow G p → OpFrame (remove_dir_all_op p) (remove_damage p)
  unfolding OpFrame remove_dir_all_op
  remove_dir_all_op-OpFrame p h = (
    λ fs q k. ground (arith, remove_below-SameOutside p (λ q. false) fs h q k),
    λ fs f. damage_same fs f,
  )
    where
      damage_same : (fs : FileSystem) (f : Fault) → Same G fs (remove_damage p fs f)
      damage_same fs (partly kept e) = remove_below-SameOutside p kept fs h
      damage_same fs works = λ q k. refl
      damage_same fs (fails e) = λ q k. refl
      damage_same fs (tears n e) = λ q k. refl

  map_io-Frame :
      {A : Type 0} (action : String) (p : FilePath) (m : World → IoResult A × World)
      → IoFrame m
      → Frame G (map_io action p m)
  unfolding map_io
  map_io-Frame action p m h = record { at = h }

  pub write-Frame :
      (p : FilePath) (b : Bytes) (append : Bool) (about : FilePath) (action : String)
      → Free G p
      → Frame G (write p b append about action)
  unfolding write fs_write
  write-Frame p b append about action h =
      map_io-Frame action about (perform (write_op p b append) (write_damage p b append)) (
        perform-IoFrame (write_op p b append) (write_damage p b append)
          (write_op-OpFrame p b append h))

  pub sync_file-Frame : (p about : FilePath) (action : String) → Frame G (sync_file p about action)
  unfolding sync_file fs_sync_file
  sync_file-Frame p about action =
      map_io-Frame action about (perform (sync_file_op p) no_damage)
        (perform-IoFrame (sync_file_op p) no_damage (sync_file_op-OpFrame p))

  pub sync_dir-Frame : (p : FilePath) (action : String) → Frame G (sync_dir p action)
  unfolding sync_dir fs_sync
  sync_dir-Frame p action =
      map_io-Frame action p (perform (sync_op p) no_damage)
        (perform-IoFrame (sync_op p) no_damage (sync_op-OpFrame p))

  pub rename-Frame :
      (from to about : FilePath) (action : String)
      → Free G from
      → Free G to
      → Frame G (rename from to about action)
  unfolding rename fs_rename
  rename-Frame from to about action h h' =
      map_io-Frame action about (perform (rename_op from to) no_damage)
        (perform-IoFrame (rename_op from to) no_damage (rename_op-OpFrame from to h h'))

  pub remove_file-Frame :
      (p about : FilePath) (action : String) → Free G p → Frame G (remove_file p about action)
  unfolding remove_file fs_remove_file
  remove_file-Frame p about action h =
      map_io-Frame action about (perform (remove_file_op p) no_damage)
        (perform-IoFrame (remove_file_op p) no_damage (remove_file_op-OpFrame p h))

  pub remove_dir_all-Frame :
      (p : FilePath) (action : String) (about : FilePath)
      → FreeBelow G p
      → Frame G (map_io action about (fs_remove_dir_all p))
  unfolding fs_remove_dir_all
  remove_dir_all-Frame p action about h =
      map_io-Frame action about (perform (remove_dir_all_op p) (remove_damage p))
        (perform-IoFrame (remove_dir_all_op p) (remove_damage p) (remove_dir_all_op-OpFrame p h))

  pub create_dir-IoFrame : (p : FilePath) → Creatable G p → IoFrame (fs_create_dir p)
  unfolding fs_create_dir
  create_dir-IoFrame p h = perform-IoFrame (create_dir_op p) no_damage (create_dir_op-OpFrame p h)

  pub metadata-IoFrame : (p : FilePath) → IoFrame (fs_metadata p)
  unfolding fs_metadata
  metadata-IoFrame p = perform-IoFrame (metadata_op p) no_damage (metadata_op-OpFrame p)

  pub read-Frame :
      (p : FilePath) (action : String) (about : FilePath)
      → Frame G (map_io action about (fs_read p))
  unfolding fs_read
  read-Frame p action about =
      map_io-Frame action about (perform (read_op p) no_damage)
        (perform-IoFrame (read_op p) no_damage (read_op-OpFrame p))

  pub exists-Frame : (p : FilePath) → Frame G (exists p)
  unfolding exists fs_exists
  exists-Frame p = record { at = metadata-IoFrame p }
