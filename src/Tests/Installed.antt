-- ===== src/Tests/Installed.antt =====
-- A replacement of one rules file, in a mirror where nothing of a transaction is.
use elasticctl.Prelude.{◌≡◌, refl, some, All}
use elasticctl.Prelude.Text.{show}
use elasticctl.Core.Error.{ok}
use elasticctl.Api.Transaction.Ops
use elasticctl.Api.Transaction.FilePath.{join, path_eq, component_eq, parent, starts_with}
use elasticctl.Api.Transaction.Disk.{
  file, perform, metadata_op, create_dir_op, has_parent, put_node, read_op, sync_op, sync_file_op,
  write_op, rename_op, remove_dir_all_op, remove_below,
}
use elasticctl.Api.Transaction.Journal.{
  staged_path, transaction_dir, is_prepared, ends_with_newline, lines, read_journal, read_records,
  journal_path, parse_journal, append_phase, backup_path,
}
use elasticctl.Api.Transaction.Replace.{
  replace_staged_files_with, unless_present, transact, commit, replace_entries, replace_one,
  back_up, install, prepare, publish, read_prepared, stage_files, write_prepared, or_roll_back,
}
use elasticctl.Api.Transaction.Installed.Outcome.{replace_staged_files-Installed}
use elasticctl.Tests.SampleJournal.{codec, encode_phase, encode_prepared, decode_prepared}
use elasticctl.Api.Transaction.Ops.{
  fs_metadata, fs_create_dir, sync_dir, map_io, fs_sync, fs_sync_file, fs_read, fs_write, sync_file,
  write, rename, fs_rename, fs_remove_dir_all,
}
use elasticctl.Api.Transaction.Phase.{can_advance_to}
use elasticctl.Api.Transaction.Checks.{
  validate_replacement, mirror_parent, path_metadata, path_exists, validate_relative,
  validate_target_ancestors, target_is_regular_file, ensure_directory, require_directory,
  create_missing, directory_or, ensure_as, ensure_mirror_root, ensure_target_parent,
}
use elasticctl.Api.Transaction.Recover.{remove_transaction, after_sync, sync_removed}
use elasticctl.Tests.Pull.{lock, sound, files}

is_done : (replace_staged_files_with codec lock files sound).0 ≡ ok tt
unfolding replace_staged_files_with Ops.◌>>=◌ show staged_path transaction_dir join path_eq
    component_eq fs_metadata fs_create_dir sync_dir map_io fs_sync fs_sync_file fs_read fs_write
    sync_file write rename fs_rename fs_remove_dir_all parent starts_with perform metadata_op
    create_dir_op has_parent put_node read_op sync_op sync_file_op write_op rename_op
    remove_dir_all_op remove_below can_advance_to is_prepared ends_with_newline lines read_journal
    read_records journal_path parse_journal append_phase backup_path validate_replacement
    mirror_parent path_metadata path_exists validate_relative validate_target_ancestors
    target_is_regular_file ensure_directory require_directory create_missing directory_or ensure_as
    ensure_mirror_root ensure_target_parent remove_transaction after_sync sync_removed
    unless_present transact commit replace_entries replace_one back_up install prepare publish
    read_prepared stage_files write_prepared or_roll_back encode_phase encode_prepared
    decode_prepared
is_done = refl

replace_staged_files-Installed_example :
    All
      (λ f.
        (replace_staged_files_with codec lock files sound).1.fs (join lock.root f.relative)
        ≡ some (file f.bytes))
      files
unfolding staged_path transaction_dir join path_eq component_eq
replace_staged_files-Installed_example =
    replace_staged_files-Installed codec lock files sound tt (λ i. refl) is_done
