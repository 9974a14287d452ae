-- ===== src/Tests/PullCommand.antt =====
-- A pull of one rule into a mirror that has an older file of it.
use Prim.Native.Char.{code}
use elasticctl.Prelude.{All, ℕ, String, ◌≡◌, refl, true, none, List, [], ◌∷◌, inl, inr}
use elasticctl.Json.{string, empty, field, get, keys}
use elasticctl.Core.Error.{ok}
use elasticctl.Api.Model.{Rule, from_value, rule_id}
use elasticctl.Api.Push.Planning.{RuleReads, scope_of, remote}
use elasticctl.Api.Scope.{custom, is_scoped, referenced_keys, all_keys, exception_refs}
use elasticctl.Api.Transaction.Checks.Plan.{IsMirrorPath, AreDistinct}
use elasticctl.Api.Transaction.Journal.{
  staged_path, transaction_dir, is_prepared, ends_with_newline, lines, read_journal, read_records,
  journal_path, parse_journal, append_phase, backup_path,
}
use elasticctl.Api.Transaction.Recover.{
  recover_pull_with, remove_transaction, after_sync, sync_removed,
}
use elasticctl.Api.Pull.{
  ndjson, Encoder, split, inline_by_rule, claim_rules, claim_lists, refuse_collisions, safe,
  safe_filename, sort_rules, fetch,
}
use elasticctl.Api.Pull.Staging.{
  PullPlan, plan_files, stage_rules, stage_lists, encode_rule_file, json_lines,
}
use elasticctl.Api.Pull.Names.{plan_files-accepted}
use elasticctl.Api.Pull.Command.{PullReport, Totals, pull, Pulled, pull-Pulled, check_empty}
use elasticctl.Prelude.BTree
use elasticctl.Prelude.Keys.{sort_by}
use elasticctl.Api.Normalize.{
  canonical, strip_volatile, strip_exception_ids, remove_all, update_entry, fill_defaults, fill,
  sort_value, sort_items, sort_each, copy,
}
use elasticctl.Tests.Sample.{insert, remove, json}
use elasticctl.Prelude.Text.{show}
use elasticctl.Api.Transaction.Ops
use elasticctl.Api.Transaction.Replace.{
  replace_staged_files_with, unless_present, transact, commit, replace_entries, replace_one,
  back_up, install, prepare, publish, read_prepared, stage_files, write_prepared, or_roll_back,
}
use elasticctl.Api.Transaction.FilePath.{
  path, pieces, component_of, join, path_eq, component_eq, display, parent, starts_with,
}
use elasticctl.Tests.SampleJournal.{
  encode_phase, encode_prepared, decode_prepared, codec, rules_file,
}
use elasticctl.Api.Selection.{resolve, is_unscoped}
use elasticctl.Api.Transaction.Ops.{
  fs_metadata, fs_create_dir, sync_dir, map_io, fs_sync, fs_sync_file, fs_read, fs_write, sync_file,
  write, rename, fs_rename, fs_remove_dir_all,
}
use elasticctl.Api.Transaction.Disk.{
  perform, metadata_op, create_dir_op, has_parent, put_node, read_op, sync_op, sync_file_op,
  write_op, rename_op, remove_dir_all_op, remove_below,
}
use elasticctl.Api.Transaction.Phase.{can_advance_to}
use elasticctl.Api.Transaction.Checks.{
  validate_replacement, mirror_parent, path_metadata, path_exists, validate_relative,
  validate_target_ancestors, target_is_regular_file, ensure_directory, require_directory,
  create_missing, directory_or, ensure_as, ensure_mirror_root, ensure_target_parent,
}
use elasticctl.Tests.Pull.{lock, sound}
use elasticctl.Tests.Plan.{rules, texts, reads}

abbrev rule : Rule
rule = record { map = field "rule_id" (string "a") (field "name" (string "one") empty) }

unfoldable codes : String → List ℕ
codes String.[] = []
codes (String.◌∷◌ c s) = code c ∷ codes s

-- an object is written as its name
abbrev encoder : Encoder
encoder = record { to_json = λ v. inr "{}"; to_yaml = λ v. inl "not written"; into_bytes = codes }

abbrev answers : RuleReads
answers = record {
  find_all = λ s. ok (rule ∷ []);
  find_by_rule_ids = λ ids. ok [];
  value_lists_bootstrapped = ok true;
  value_list_exists = λ id. ok true;
}

abbrev total : Totals
total s = ok 1

abbrev plan : PullPlan
plan = record {
  files = record { relative = rules_file; bytes = 123 ∷ 125 ∷ 10 ∷ [] } ∷ [];
  pulled = 1;
  exception_lists = 0;
  exception_items = 0;
}

is_planned : plan_files encoder json ndjson (rule ∷ []) [] ≡ ok plan
unfolding plan_files split inline_by_rule claim_rules claim_lists refuse_collisions safe
    safe_filename stage_rules stage_lists encode_rule_file json_lines rule_id canonical
    strip_volatile strip_exception_ids remove_all update_entry fill_defaults fill sort_value
    sort_items sort_each copy get keys BTree.get BTree.insert BTree.keys BTree.sort BTree.dedup
    insert remove codes from_value path pieces component_of join
is_planned = refl

plan_files-accepted_example : All (λ f. IsMirrorPath f.relative) plan.files × AreDistinct plan.files
plan_files-accepted_example = plan_files-accepted encoder ndjson json (rule ∷ []) [] plan is_planned

abbrev report : PullReport
report = record {
  pulled = 1;
  exception_lists = 0;
  exception_items = 0;
  dir = "/mirror/rules";
  selected = none;
}

is_done :
    (pull codec encoder json rules texts reads answers total lock lock.root ndjson [] none none
      custom sound).0
    ≡ ok report
unfolding pull recover_pull_with sort_rules fetch check_empty scope_of remote resolve is_unscoped
    is_scoped referenced_keys all_keys exception_refs display replace_staged_files_with Ops.◌>>=◌
    show staged_path transaction_dir join path_eq component_eq fs_metadata fs_create_dir sync_dir
    map_io fs_sync fs_sync_file fs_read fs_write sync_file write rename fs_rename fs_remove_dir_all
    parent starts_with perform metadata_op create_dir_op has_parent put_node read_op sync_op
    sync_file_op write_op rename_op remove_dir_all_op remove_below can_advance_to is_prepared
    ends_with_newline lines read_journal read_records journal_path parse_journal append_phase
    backup_path validate_replacement mirror_parent path_metadata path_exists validate_relative
    validate_target_ancestors target_is_regular_file ensure_directory require_directory
    create_missing directory_or ensure_as ensure_mirror_root ensure_target_parent remove_transaction
    after_sync sync_removed unless_present transact commit replace_entries replace_one back_up
    install prepare publish read_prepared stage_files write_prepared or_roll_back encode_phase
    encode_prepared decode_prepared plan_files split inline_by_rule claim_rules claim_lists
    refuse_collisions safe safe_filename stage_rules stage_lists encode_rule_file json_lines rule_id
    canonical strip_volatile strip_exception_ids remove_all update_entry fill_defaults fill
    sort_value sort_items sort_each copy get keys BTree.get BTree.insert BTree.keys BTree.sort
    BTree.dedup insert remove codes from_value sort_by path pieces component_of
is_done = refl

nothing_staged :
    (i : ℕ)
    → (recover_pull_with codec lock sound).1.fs (staged_path (transaction_dir lock) i) ≡ none
unfolding recover_pull_with Ops.◌>>=◌ mirror_parent path_metadata fs_metadata perform metadata_op
    path_eq parent path_exists transaction_dir join staged_path
nothing_staged i = refl

pull-Pulled_example :
    Pulled codec encoder json rules texts reads answers total lock ndjson [] none none custom
      (pull codec encoder json rules texts reads answers total lock lock.root ndjson [] none none
        custom sound).1.fs
pull-Pulled_example =
    pull-Pulled codec encoder json rules texts reads answers total lock lock.root ndjson [] none
      none custom sound report nothing_staged is_done
