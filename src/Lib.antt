-- ===== src/Lib.antt =====
-- elasticctl, a command line tool that keeps detection rules of a Kibana stack as files: its drift, its
-- normal forms, its pull transaction, its selection of rules, the plan and the requests of a push, and
-- the results of its server.
--
-- The parts and how they interact. A rule is a JSON object (crates/elasticctl-api/src/model.rs). `pull`
-- writes its canonical form and `diff` compares the compared forms (normalize.rs); the drift of the
-- two sides (diff.rs) is what `push` acts on. `pull` replaces the files of a mirror directory as one
-- transaction with a journal (state/transaction.rs), and the next command rolls back one that was
-- interrupted. A command acts on the rules that selection.rs resolves, by requests that
-- crates/elasticctl-core/src/transport.rs sends; the server of crates/elasticctl-mcp cuts a list of rows
-- to what fits (result.rs). Every part fails with the error of crates/elasticctl-core/src/error.rs.
--
-- Files and code:
--   Prelude: Boolean tests, lists, texts, orders and the standard library's BTreeMap, sort and dedup.
--   Json: serde_json's Value. What serde_json computes (insertion, removal, equality) is the
--     parameter JsonMap, with the laws that the code relies on. Paths is what a value holds at a path of
--     keys and indices, whatever the order of its maps.
--   Core/Error: error.rs; Result has a third outcome, panic, for `expect`, `unreachable!` and an index
--     out of bounds.
--   Api/Model, Api/Normalize, Api/Drift: model.rs, normalize.rs and diff.rs, function by function. The
--     closures and loops of Drift::compute are index_from, classify and classify_all.
--   Api/Transaction: state/transaction.rs. FilePath is std::path on Unix: lists of components,
--     and the reading of a text as a path. Disk is the file system: a map from paths to nodes, and a
--     script of faults that decides each operation, so
--     that a theorem for every script covers every way in which operations fail, partial writes and
--     partial removals included. Ops has the operations as the code calls them, and a step (Tx) keeps
--     the disk beside an error. Phase and Journal are the journal, whose JSON is the parameter
--     JournalCodec; Checks, Recover and Replace are the functions of these names.
--     Frame has, for each step, what it leaves on the disk as it was; Within uses it for the paths outside
--     the mirror, and Installed for a staged file, an installed one and a backup.
--   Core/Transport: the repeats of a request, the bound on a body and the percent encoding. reqwest is the
--     parameter: what each attempt meets, and what each chunk of a body is.
--   Core/JsonRange: validate_json_integer_ranges of transport.rs, one turn of its loop at a time, over
--     the bytes that are left. Its Tokens describe the texts that the scan is compared with.
--   Api/Selection: selection.rs. The answers of the stack are the parameter Stack, and the tables of
--     Unicode the parameter Texts.
--   Api/Exceptions, Api/Pointers: the lists and items of exceptions (model.rs, normalize.rs), and the ids
--     of the stack in the references of a rule (inject_list_ids of state/push.rs).
--   Api/Scope: the narrowing of a run to rules and sources (state/mod.rs), and exception_refs of model.rs.
--   Api/Reconcile: state/diff.rs, the drift of the lists and items and the writes that make the stack
--     as the mirror is; the body of the loop of item_reconciliation is reconcile. Its Planning has
--     exception_plan, with the reads of the stack as the parameter Reads.
--   Api/StateDiff: the command diff of state/diff.rs.
--   Api/Pull: state/pull.rs, with safe_filename of state/mod.rs, sort_rules of normalize.rs and the files
--     of state/mirror.rs. Staging has the texts of the files, which serde_json and serde_yaml_ng make
--     (the parameter Encoder), and Command the command. The lock of acquire_pull is an argument of it,
--     and what find_page counts the parameter total.
--   Api/Report, Api/Push: report.rs, and state/push.rs over the requests of exceptions.rs and rules.rs.
--     Planning is plan_push, with read_mirror and the reads of the stack as parameters (its Inputs), and
--     Preview the lines that it shows. Writes is apply_push from the ids of the lists on, and
--     apply_planned of Composed the whole of it. What the stack answers, after any requests, is the
--     parameter Server; a push goes from the requests so far to its result and the requests after it.
--   Mcp/Truncation: result.rs. The bytes of a result and of its frame are the parameter Wire.
--   Mcp/Frames, Mcp/Sanitize: bounded_io.rs. The input is the list of the pieces that fill_buf returns.
--   Tests: the parameters instantiated, and each property at a concrete input.
--
-- Bounds and fuel: most loops of the code run over lists, and are structural. The repeats of a request
-- have one step of fuel more than the limit of attempts, the scan of a text one more than its bytes,
-- and the search for the longest prefix has as many steps as there are rows; the theorems about them
-- say that this is enough. The limit of attempts is 3 in the code (MAX_ATTEMPTS of transport.rs), so the
-- wait between them, an unbounded number here, is far below 2^64.
--
-- Not modelled: symbolic links that a path goes through, permissions and other processes that
-- change the mirror; acquiring the lock and resolving the mirror root (acquire_pull); reading a mirror
-- (read_mirror); a directory is never the source of a rename here. The other commands and the server
-- are left out.
pub mod Prelude
pub mod Json
pub mod Core
pub mod Api
pub mod Mcp
pub mod Tests
