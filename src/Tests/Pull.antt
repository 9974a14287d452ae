-- ===== src/Tests/Pull.antt =====
-- A pull that was interrupted, and a replacement of one rules file.
use elasticctl.Prelude.{
  ◌≡◌, refl, true, none, some, List, [], ◌∷◌, ◌++◌, length, if◌then◌else◌, All,
}
use elasticctl.Prelude.Text.{show}
use elasticctl.Core.Error.{ok, ◌>>=◌}
use elasticctl.Api.Transaction.Ops
use elasticctl.Api.Transaction.Ops.{
  fs_metadata, fs_create_dir, sync_dir, map_io, fs_sync, fs_sync_file, fs_read, fs_write, sync_file,
  write,
}
use elasticctl.Api.Transaction.FilePath.{
  FilePath, normal, root_dir, path_eq, component_eq, parent, join,
}
use elasticctl.Api.Transaction.Disk.{
  file, directory, FileSystem, World, works, fails, not_a_directory, perform, metadata_op,
  create_dir_op, has_parent, put_node, read_op, sync_op, sync_file_op, write_op,
}
use elasticctl.Api.Transaction.Phase.{backing_up, backed_up, PullLock, StagedFile}
use elasticctl.Api.Transaction.Journal.{
  is_prepared, is_line, ends_with_newline, lines, read_journal, read_records, staged_path,
  journal_path, transaction_dir, parse_journal,
}
use elasticctl.Api.Transaction.Journal.Reading.{
  replay, journal_bytes, phase_bytes, parse_journal_torn,
}
use elasticctl.Api.Transaction.Checks.{
  validate_replacement, mirror_parent, path_metadata, validate_relative, validate_target_ancestors,
  target_is_regular_file, ensure_directory, require_directory, create_missing, directory_or,
  ensure_as,
}
use elasticctl.Api.Transaction.Checks.Plan.{
  IsMirrorPath, AreDistinct, validate_replacement-accepted,
}
use elasticctl.Api.Transaction.Recover.{recover_pull_with}
use elasticctl.Api.Transaction.Replace.{
  publish, read_prepared, stage_files, write_prepared, prepare, replace_staged_files_with,
}
use elasticctl.Api.Transaction.Replace.Prepared.{planned_entries, IsWritten, prepare-IsWritten}
use elasticctl.Api.Transaction.Within.{SameOutside}
use elasticctl.Api.Transaction.Within.Recovery.{recover_pull-Within}
use elasticctl.Api.Transaction.Within.Replacement.{replace_staged_files-Within}
use elasticctl.Tests.SampleJournal.{
  codec, encode_phase, encode_prepared, decode_prepared, rules_file, entry_of,
}

abbrev pub lock : PullLock
lock = record { root = root_dir ∷ normal "mirror" ∷ [] }

abbrev journal : FilePath
journal = normal "journal.ndjson" ∷ []

-- a mirror with one rules file, and nothing else but its directories
abbrev pub mirror : FileSystem
mirror p =
    if path_eq p (root_dir ∷ [])
    then some directory
    else if path_eq p lock.root
    then some directory
    else if path_eq p (lock.root ++ normal "rules" ∷ [])
    then some directory
    else if path_eq p (lock.root ++ rules_file)
    then some (file (1 ∷ 2 ∷ []))
    else none

-- the third operation fails
abbrev faulty : World
faulty = record { fs = mirror; script = works ∷ works ∷ fails not_a_directory ∷ [] }

abbrev pub sound : World
sound = record { fs = mirror; script = [] }

abbrev pub files : List StagedFile
files = record { relative = rules_file; bytes = 7 ∷ [] } ∷ []

-- two records of a phase, and a third that is not whole
parse_journal_torn_example :
    parse_journal codec journal ((11 ∷ 10 ∷ 12 ∷ 10 ∷ 13 ∷ 10 ∷ []) ++ (14 ∷ [])) ≡ (
      replay journal
        (record { entry = 0; phase = backing_up } ∷ record { entry = 0; phase = backed_up } ∷ [])
        (entry_of true ∷ [])
      >>= λ entries. ok (some entries))
unfolding journal_bytes phase_bytes encode_prepared encode_phase path_eq is_prepared is_line
parse_journal_torn_example =
    parse_journal_torn codec journal (entry_of true ∷ [])
      (record { entry = 0; phase = backing_up } ∷ record { entry = 0; phase = backed_up } ∷ [])
      (11 ∷ 10 ∷ 12 ∷ 10 ∷ 13 ∷ 10 ∷ []) (14 ∷ []) refl refl refl

recover_pull-Within_example :
    SameOutside lock.root mirror (recover_pull_with codec lock faulty).1.fs
recover_pull-Within_example = recover_pull-Within codec lock faulty

replace_staged_files-Within_example :
    SameOutside lock.root mirror (replace_staged_files_with codec lock files faulty).1.fs
replace_staged_files-Within_example = replace_staged_files-Within codec lock files faulty

validate_replacement-accepted_example :
    All (λ f. IsMirrorPath f.relative) files
    × AreDistinct files
    × (length (true ∷ []) ≡ length files)
unfolding validate_replacement Ops.◌>>=◌ mirror_parent path_metadata fs_metadata perform metadata_op
    path_eq parent validate_relative validate_target_ancestors target_is_regular_file join
validate_replacement-accepted_example =
    validate_replacement-accepted lock files sound (true ∷ []) refl

prepare-IsWritten_example :
    (planned_entries files (true ∷ []) ≡ entry_of true ∷ [])
    × IsWritten codec
        (transaction_dir lock)
        (planned_entries files (true ∷ []))
        (prepare codec (transaction_dir lock) files (true ∷ []) sound).1.fs
unfolding prepare sync_file_op fs_sync_file Ops.◌>>=◌ ensure_directory parent transaction_dir join
    require_directory path_metadata fs_metadata perform metadata_op path_eq fs_create_dir
    create_dir_op has_parent sync_dir map_io fs_sync create_missing directory_or ensure_as put_node
    read_op sync_op write_op component_eq ends_with_newline is_prepared journal_path lines
    parse_journal read_journal read_records staged_path fs_read fs_write sync_file write publish
    read_prepared stage_files write_prepared show encode_prepared decode_prepared
prepare-IsWritten_example =
    prepare-IsWritten codec (transaction_dir lock) files (true ∷ []) sound (entry_of true ∷ []) refl
