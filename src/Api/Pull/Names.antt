-- ===== src/Api/Pull/Names.antt =====
-- The names of a pull: no two of its files are at the same path.

use elasticctl.Prelude.Text.{concat}
use elasticctl.Prelude.{
  All, true, String, ◌≡◌, refl, subst, ◌∙◌, false, none, List, [], ◌∷◌, ◌++◌, any, arith, inl, inr,
  Option-cases,
}
use elasticctl.Prelude.Order.{string_ord}
use elasticctl.Prelude.BTree
use elasticctl.Prelude.BTree.{BTreeMap, contains}
use elasticctl.Json.{JsonMap}
use elasticctl.Core.Error.{ok, bind-ok_inv}
use elasticctl.Core.Error.Outcomes.{OnOk, bind-OnOk, always-OnOk, OnOk-elim}
use elasticctl.Api.Model.{Rule, ListKey, rule_id}
use elasticctl.Api.Normalize.{canonical}
use elasticctl.Api.Exceptions.{ExceptionList}
use elasticctl.Api.Transaction.FilePath.{FilePath, normal, path, join, path_eq, component_eq}
use elasticctl.Api.Transaction.FilePath.Names.{
  has_no_separator, has_no_separator-append, chars, chars-append, path-name,
}
use elasticctl.Api.Transaction.Phase.{StagedFile}
use elasticctl.Api.Transaction.Checks.{validate_relative}
use elasticctl.Api.Transaction.Checks.Plan.{IsPlan, IsMirrorPath, AreDistinct, IsPlan-accepted}
use elasticctl.Api.Pull.{
  Format, yaml, ndjson, safe, extension, Encoder, safe_filename, Container, split, claim_rules,
  claim_lists, qualified, refuse_collisions,
}
use elasticctl.Api.Pull.Staging.{
  PullPlan, encode_rule_file, encode_list_file, stage_rules, stage_lists, plan_files,
}

-- a text that is one name of a path
abbrev IsName : String → Type 0
IsName n = path n ≡ normal n ∷ []

has_no_separator-safe : (s : String) → has_no_separator (safe s) ≡ true
unfolding safe has_no_separator
has_no_separator-safe String.[] = refl
has_no_separator-safe (String.◌∷◌ c s) =
    let rest = has_no_separator-safe s in
    ground (
      arith,
      rest,
      has_no_separator-append "_" (concat (safe s ∷ [])) refl
          (has_no_separator-append (safe s) "" rest refl),
    )

safe_filename-IsName :
    (id : String) (format : Format) → IsName (safe_filename id (extension format))
unfolding safe_filename has_no_separator chars
safe_filename-IsName id yaml =
    path-name (concat (safe id ∷ ".yaml" ∷ []))
      (has_no_separator-append (safe id) ".yaml" (has_no_separator-safe id) refl)
      (ground (arith, chars-append (safe id) ".yaml"))
safe_filename-IsName id ndjson =
    path-name (concat (safe id ∷ ".ndjson" ∷ []))
      (has_no_separator-append (safe id) ".ndjson" (has_no_separator-safe id) refl)
      (ground (arith, chars-append (safe id) ".ndjson"))

-- a name below a directory
joined : (top n : String) → IsName n → join (normal top ∷ []) (path n) ≡ normal top ∷ normal n ∷ []
unfolding join
joined top n h = rw h refl

-- each name is one of a path, and new, from those seen on
abbrev Fresh : List String → List String → Type 0
Fresh seen [] = Unit {0}
Fresh seen (n ∷ ns) = (contains n seen ≡ false) × IsName n × Fresh (n ∷ seen) ns

abbrev names : List (String × Rule) → List String
names [] = []
names ((n, r) ∷ rs) = n ∷ names rs

-- a name that is not claimed is not seen
abbrev Covers : BTreeMap String String → List String → Type 0
Covers claimed seen = (n : String) → BTree.get n claimed ≡ none → contains n seen ≡ false

Covers-insert :
    (claimed : BTreeMap String String) (seen : List String) (m v : String)
    → Covers claimed seen
    → Covers (BTree.insert m v claimed) (m ∷ seen)
unfolding contains
Covers-insert claimed seen m v covers n h =
    ground (arith, h, BTree.get-insert n m v claimed, covers n)

module _ (J : JsonMap) (format : Format) where
  abbrev ext : String
  ext = extension format

  claim_rules-Fresh :
      (claimed : BTreeMap String String) (rules : List Rule) (seen : List String)
      → Covers claimed seen
      → OnOk (λ r. Fresh seen (names r.0)) (claim_rules J ext claimed rules)
  unfolding claim_rules
  claim_rules-Fresh claimed [] seen covers = tt
  claim_rules-Fresh claimed (rule ∷ rules) seen covers =
      let P : List (String × Rule) × List String → Type 0 = λ r. Fresh seen (names r.0) in
      bind-OnOk (λ _. Unit {0}) P (canonical J rule) _ (always-OnOk _)
        λ c _.
          bind-OnOk (λ _. Unit {0}) P (rule_id c) _ (always-OnOk _)
            λ id _. elim (Option-cases (BTree.get (safe_filename id ext) claimed)) [
              | inl free ↦ rw free (
                  bind-OnOk (λ r. Fresh (safe_filename id ext ∷ seen) (names r.0)) P
                    (claim_rules J ext (BTree.insert (safe_filename id ext) id claimed) rules) _
                    (claim_rules-Fresh (BTree.insert (safe_filename id ext) id claimed) rules
                      (safe_filename id ext ∷ seen)
                      (Covers-insert claimed seen (safe_filename id ext) id covers))
                    (λ r h.
                      (covers (safe_filename id ext) free, safe_filename-IsName id format, h)))
              | inr (other, taken) ↦ rw taken (
                  bind-OnOk P P (claim_rules J ext claimed rules) _
                    (claim_rules-Fresh claimed rules seen covers) (λ r h. h))
            ]

abbrev rule_paths : List String → List FilePath
rule_paths [] = []
rule_paths (n ∷ ns) = (normal "rules" ∷ normal n ∷ []) ∷ rule_paths ns

abbrev list_paths : List String → List FilePath → List FilePath
list_paths [] rest = rest
list_paths (n ∷ ns) rest = (normal "exceptions" ∷ normal n ∷ []) ∷ list_paths ns rest

any-rule_paths :
    (n : String) (seen : List String)
    → any (λ q. path_eq (normal "rules" ∷ normal n ∷ []) q) (rule_paths seen) ≡ contains n seen
unfolding path_eq component_eq contains
any-rule_paths n [] = refl
any-rule_paths n (m ∷ seen) = ground (arith, any-rule_paths n seen)

any-list_paths :
    (n : String) (seen others : List String)
    → any
        (λ q. path_eq (normal "exceptions" ∷ normal n ∷ []) q)
        (list_paths seen (rule_paths others))
      ≡ contains n seen
unfolding path_eq component_eq contains
any-list_paths n [] [] = refl
any-list_paths n [] (m ∷ others) = any-list_paths n [] others
any-list_paths n (m ∷ seen) others = ground (arith, any-list_paths n seen others)

valid_rule : (n : String) → validate_relative (normal "rules" ∷ normal n ∷ []) ≡ ok tt
unfolding validate_relative
valid_rule n = refl

valid_list : (n : String) → validate_relative (normal "exceptions" ∷ normal n ∷ []) ≡ ok tt
unfolding validate_relative
valid_list n = refl

module _ (N : Encoder) (format : Format) where
  -- what follows the files of the rules is a plan, whichever rules there were
  abbrev Joins : List String → List StagedFile → Type 0
  Joins seen fs =
      (rest : List StagedFile)
      → ((others : List String) → IsPlan rest (rule_paths others))
      → IsPlan (fs ++ rest) (rule_paths seen)

  stage_rules-Joins :
      (inline : BTreeMap String (List ExceptionList)) (rules : List (String × Rule))
      (seen : List String)
      → Fresh seen (names rules)
      → OnOk (Joins seen) (stage_rules N inline format rules)
  unfolding stage_rules
  stage_rules-Joins inline [] seen fresh = λ rest more. more seen
  stage_rules-Joins inline ((n, rule) ∷ rules) seen fresh =
      bind-OnOk (λ _. Unit {0}) (Joins seen) (rule_id rule) _ (always-OnOk _)
        λ id _.
          bind-OnOk (λ _. Unit {0}) (Joins seen) (encode_rule_file N rule _ format) _
            (always-OnOk _)
            λ body _.
              bind-OnOk (Joins (n ∷ seen)) (Joins seen) (stage_rules N inline format rules) _
                (stage_rules-Joins inline rules (n ∷ seen) fresh.2)
                λ fs h rest more.
                  rw (joined "rules" n fresh.1)
                    (valid_rule n, any-rule_paths n seen ∙ fresh.0, h rest more)

  stage_lists-IsPlan :
      (claimed : BTreeMap String String) (lists : List (ListKey × ExceptionList))
      (seen others : List String)
      → Covers claimed seen
      → claim_lists (extension format) claimed lists ≡ []
      → OnOk (λ fs. IsPlan fs (list_paths seen (rule_paths others))) (stage_lists N format lists)
  unfolding stage_lists claim_lists
  stage_lists-IsPlan claimed [] seen others covers h = tt
  stage_lists-IsPlan claimed ((key, list) ∷ lists) seen others covers h =
      let n : String = safe_filename key.list_id (extension format) in
      let P : List StagedFile → Type 0 = λ fs. IsPlan fs (list_paths seen (rule_paths others)) in
      elim (Option-cases (BTree.get n claimed)) [
        | inr (other, taken) ↦ absurd (ground (arith, h, taken))
        | inl free ↦
            bind-OnOk (λ _. Unit {0}) P (encode_list_file N list format) _ (always-OnOk _)
              λ body _.
                bind-OnOk (λ fs. IsPlan fs (list_paths (n ∷ seen) (rule_paths others))) P
                  (stage_lists N format lists) _
                  (stage_lists-IsPlan (BTree.insert n (qualified key) claimed) lists (n ∷ seen)
                    others (Covers-insert claimed seen n (qualified key) covers)
                    (ground (arith, h, free)))
                  λ fs k.
                    rw (joined "exceptions" n (safe_filename-IsName key.list_id format))
                      (valid_list n, any-list_paths n seen others ∙ covers n free, k)
      ]

  no_collision : (cs : List String) → refuse_collisions cs ≡ ok tt → cs ≡ []
  unfolding refuse_collisions
  no_collision [] h = refl
  no_collision (c ∷ cs) h = absurd (ground (arith, h))

  append-nil_right : (xs ys : List String) → xs ++ ys ≡ [] → ys ≡ []
  append-nil_right [] ys h = h
  append-nil_right (x ∷ xs) ys h = absurd (ground (arith, h))

  -- the plan passes the check of the transaction on its paths
  pub plan_files-IsPlan :
      (J : JsonMap) (remote : List Rule) (fetched : BTreeMap ListKey Container) (plan : PullPlan)
      → plan_files N J format remote fetched ≡ ok plan
      → IsPlan plan.files []
  unfolding plan_files contains
  plan_files-IsPlan J remote fetched plan h =
      let (lists, _, h1) = bind-ok_inv (split J fetched) _ h in
      let (claims, claimed, h2) = bind-ok_inv (claim_rules J (extension format) [] remote) _ h1 in
      let (u, free, h3) = bind-ok_inv (refuse_collisions _) _ h2 in
      let (rules, staged, h4) = bind-ok_inv (stage_rules N _ format claims.0) _ h3 in
      let (others, listed, h5) = bind-ok_inv (stage_lists N format lists.to_write) _ h4 in
      let fresh : Fresh [] (names claims.0) =
        OnOk-elim (λ r. Fresh [] (names r.0)) (claim_rules J (extension format) [] remote) claims
          (claim_rules-Fresh J format [] remote [] (λ n e. refl)) claimed in
      let none_left : claim_lists (extension format) [] lists.to_write ≡ [] =
        append-nil_right claims.1 _ (no_collision _ free) in
      let joins : Joins [] rules =
        OnOk-elim (Joins []) (stage_rules N _ format claims.0) rules
          (stage_rules-Joins _ claims.0 [] fresh) staged in
      let whole : IsPlan (rules ++ others) [] = joins others (λ seen.
        OnOk-elim (λ fs. IsPlan fs (rule_paths seen)) (stage_lists N format lists.to_write) others
          (stage_lists-IsPlan [] lists.to_write [] seen (λ n e. refl) none_left) listed) in
      let files : rules ++ others ≡ plan.files = ground (arith, h5) in
      subst (λ (fs : List StagedFile). IsPlan fs []) files whole

  -- The files of a pull that is planned have a path each of one name or more below `rules` or
  -- `exceptions`, with no `..`, root or other component that is no name, whatever the ids of the rules
  -- and the lists are, and no two files have one path.
  pub plan_files-accepted :
      (J : JsonMap) (remote : List Rule) (fetched : BTreeMap ListKey Container) (plan : PullPlan)
      → plan_files N J format remote fetched ≡ ok plan
      → All (λ f. IsMirrorPath f.relative) plan.files × AreDistinct plan.files
  plan_files-accepted J remote fetched plan h =
      IsPlan-accepted plan.files [] (plan_files-IsPlan J remote fetched plan h)
