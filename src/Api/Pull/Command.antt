-- ===== src/Api/Pull/Command.antt =====
-- The command `pull`: recovery, the reads of the stack, the plan, and the replacement of the files.
-- The lock is an argument; the reads are parameters.
use elasticctl.Prelude.{
  ℕ, ◌+◌, ◌^◌, String, ◌≡◌, Bool, true, false, not, ◌&&◌, Option, none, some, List, [], ◌∷◌, ◌==◌,
  ltb, All, if◌then◌else◌,
}
use elasticctl.Prelude.Text.{concat, show}
use elasticctl.Prelude.BTree.{BTreeMap, sort, dedup}
use elasticctl.Json.{JsonMap}
use elasticctl.Core.Error.{unsupported, new_error, Result, ok, err, panic}
use elasticctl.Core.Error
use elasticctl.Api.Model.{Rule, ListKey}
use elasticctl.Api.Model.Keys.{key_ord}
use elasticctl.Api.Selection.{Stack, Texts}
use elasticctl.Api.Scope.{RuleSource, custom, prebuilt, Scope, is_scoped, selected, referenced_keys}
use elasticctl.Api.Reconcile.Planning.{Reads}
use elasticctl.Api.Push.Planning.{RuleReads, remote, scope_of, when_scoped}
use elasticctl.Api.Transaction.FilePath.{FilePath, normal, join, display}
use elasticctl.Api.Transaction.Disk.{World, FileSystem, file}
use elasticctl.Api.Transaction.Ops.{Tx, ◌>>=◌, ◌>>◌, pure, lift}
use elasticctl.Api.Transaction.Ops.Inversion.{Ensures, Ensures-bind}
use elasticctl.Api.Transaction.Phase.{PullLock}
use elasticctl.Api.Transaction.Journal.{JournalCodec, staged_path, transaction_dir}
use elasticctl.Api.Transaction.Recover.{recover_pull_with}
use elasticctl.Api.Transaction.Replace.{replace_staged_files_with}
use elasticctl.Api.Transaction.Installed.Outcome.{replace_staged_files-Installed}
use elasticctl.Api.Pull.{Format, Encoder, sort_rules, Container, fetch}
use elasticctl.Api.Pull.Staging.{PullPlan, plan_files}

pub record PullReport : Type 0 where
  pub pulled : ℕ
  pub exception_lists : ℕ
  pub exception_items : ℕ
  pub dir : String
  pub selected : Option ℕ

-- how many rules of a source there are, or how many at all
abbrev pub Totals : Type 0
Totals = Option RuleSource → Result ℕ

-- the sum is checked, of numbers of 64 bits
abbrev is_exhaustive : ℕ → ℕ → ℕ → Bool
is_exhaustive of_custom of_prebuilt all =
    ltb (of_custom + of_prebuilt) (2 ^ 64) && (of_custom + of_prebuilt == all)

unfoldable pub exhaustive_or_refused : ℕ → ℕ → ℕ → Result (Unit {0})
exhaustive_or_refused of_custom of_prebuilt all =
    if is_exhaustive of_custom of_prebuilt all
    then ok tt
    else err (
        new_error unsupported (
          concat (
            "the immutable source partition is not exhaustive: custom="
            ∷ show of_custom
            ∷ ", prebuilt="
            ∷ show of_prebuilt
            ∷ ", all="
            ∷ show all
            ∷ ". The field may be absent on this stack; re-run with --source all to read the corpus."
            ∷ [])))

unfoldable pub verify_source_partition : Totals → Result (Unit {0})
verify_source_partition total = Error.◌>>=◌ (total (some custom)) λ of_custom.
    Error.◌>>=◌ (total (some prebuilt))
      λ of_prebuilt. Error.◌>>=◌ (total none) λ all. exhaustive_or_refused of_custom of_prebuilt all

abbrev is_partitioned : RuleSource → Bool
is_partitioned custom = true
is_partitioned prebuilt = true
is_partitioned _ = false

-- an empty pull of one of two sources is checked against the totals
unfoldable pub check_empty : Totals → Scope → List Rule → Result (Unit {0})
check_empty total scope [] =
    if not (is_scoped scope) && is_partitioned scope.source
    then verify_source_partition total
    else ok tt
check_empty total scope (r ∷ rs) = ok tt

module _ (codec : JournalCodec) (N : Encoder) (J : JsonMap) (S : Stack) (T : Texts) (E : Reads)
    (R : RuleReads) (total : Totals) where
  unfoldable pub pull :
      PullLock
      → FilePath
      → Format
      → List String
      → Option String
      → Option String
      → RuleSource
      → Tx PullReport
  pull lock dir format selectors tag search source = do
    recover_pull_with codec lock
    scope ← lift (scope_of J S T E R selectors tag search source [] "pull")
    found ← lift (remote R scope)
    lift (check_empty total scope found)
    fetched ← lift (fetch E (dedup (sort (referenced_keys (sort_rules found)))))
    plan ← lift (plan_files N J format (sort_rules found) fetched)
    replace_staged_files_with codec lock plan.files
    pure (record {
      pulled = plan.pulled;
      exception_lists = plan.exception_lists;
      exception_items = plan.exception_items;
      dir = display (join dir (normal "rules" ∷ []));
      selected = when_scoped scope (selected scope);
    })

  -- every file of a plan is in the mirror, and the plan is that of the answers of the stack
  abbrev pub Pulled :
      PullLock
      → Format
      → List String
      → Option String
      → Option String
      → RuleSource
      → FileSystem
      → Type 0
  Pulled lock format selectors tag search source fs =
      (scope : Scope) × (found : List Rule) × (fetched : BTreeMap ListKey Container)
      × (plan : PullPlan) × (scope_of J S T E R selectors tag search source [] "pull" ≡ ok scope)
      × (remote R scope ≡ ok found)
      × (fetch E (dedup (sort (referenced_keys (sort_rules found)))) ≡ ok fetched)
      × (plan_files N J format (sort_rules found) fetched ≡ ok plan)
      × All (λ f. fs (join lock.root f.relative) ≡ some (file f.bytes)) plan.files

  -- A pull that returns a report has written every file of its plan, which is the plan for the rules
  -- in the scope and the lists that the stack answered with, whatever faults its operations met, where its recovery
  -- left nothing at the paths of staged files.
  pub pull-Pulled :
      (lock : PullLock) (dir : FilePath) (format : Format) (selectors : List String)
      (tag search : Option String) (source : RuleSource) (w : World) (report : PullReport)
      → ((i : ℕ)
          → (recover_pull_with codec lock w).1.fs (staged_path (transaction_dir lock) i) ≡ none)
      → (pull lock dir format selectors tag search source w).0 ≡ ok report
      → Pulled lock format selectors tag search source
          (pull lock dir format selectors tag search source w).1.fs
  unfolding pull
  pull-Pulled lock dir format selectors tag search source w report empty h =
      let whole : Ensures (Pulled lock format selectors tag search source)
          (pull lock dir format selectors tag search source) w =
        Ensures-bind _ _ _ w λ _ _. Ensures-bind _ _ _ _ λ scope scoped.
          Ensures-bind _ _ _ _ λ found answered. Ensures-bind _ _ _ _ λ _ _.
            Ensures-bind _ _ _ _ λ fetched got. Ensures-bind _ _ _ _ λ plan made.
              Ensures-bind _ _ _ _ λ u done. record {
                returned = λ b k. (
                  scope,
                  found,
                  fetched,
                  plan,
                  scoped,
                  answered,
                  got,
                  made,
                  replace_staged_files-Installed codec lock plan.files _ u empty done,
                );
              } in
      whole.returned report h
