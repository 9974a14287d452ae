-- ===== src/Api/Transaction/Checks/Plan.antt =====
-- A plan that the check accepts.
use elasticctl.Prelude.{
  String, ◌≡◌, refl, Bool, true, false, List, [], ◌∷◌, arith, length, any, ap, suc, All, ◌⊎◌, inl,
  inr, some, Option-cases,
}
use elasticctl.Prelude.Order.{string_ord, =?_iff}
use elasticctl.Core.Error.{ok}
use elasticctl.Api.Transaction.FilePath.{
  FilePath, normal, cur_dir, parent_dir, root_dir, prefix, path_eq, path_eq_iff,
}
use elasticctl.Api.Transaction.Disk.{World}
use elasticctl.Api.Transaction.Ops.Inversion.{bind-ok, unless-ok}
use elasticctl.Api.Transaction.Phase.{PullLock, StagedFile}
use elasticctl.Api.Transaction.Checks.{
  mirror_parent, validate_relative, all_normal, planned, validate_files, validate_replacement,
}

-- every path is one that the check accepts, and none is among those seen or comes twice
abbrev pub IsPlan : List StagedFile → List FilePath → Type 0
IsPlan [] seen = Unit {0}
IsPlan (f ∷ files) seen =
    (validate_relative f.relative ≡ ok tt)
    × (any (λ q. path_eq f.relative q) seen ≡ false)
    × IsPlan files (f.relative ∷ seen)

validate_files-IsPlan :
    (lock : PullLock) (files : List StagedFile) (seen : List FilePath) (w : World)
    (existed : List Bool)
    → (validate_files lock files seen w).0 ≡ ok existed
    → IsPlan files seen × (length existed ≡ length files)
unfolding validate_files planned
validate_files-IsPlan lock [] seen w existed h = (tt, ground (arith, h))
validate_files-IsPlan lock (f ∷ files) seen w existed h =
    let (_, valid, h1) = bind-ok _ _ h in
    let (_, _, h2) = bind-ok _ _ h1 in
    let (fresh, h3) = unless-ok _ _ _ h2 in
    let (there, _, h4) = bind-ok _ _ h3 in
    let (rest, made, last) = bind-ok _ _ h4 in
    let (plan, same) = validate_files-IsPlan lock files (f.relative ∷ seen) _ rest made in
    let whole : there ∷ rest ≡ existed = ground (arith, last) in
    ((valid, fresh, plan), rw (← whole) (ap suc same))

pub validate_replacement-IsPlan :
    (lock : PullLock) (files : List StagedFile) (w : World) (existed : List Bool)
    → (validate_replacement lock files w).0 ≡ ok existed
    → IsPlan files [] × (length existed ≡ length files)
unfolding validate_replacement
validate_replacement-IsPlan lock files w existed h =
    let (p, _, rest) = bind-ok _ _ h in
    validate_files-IsPlan lock files [] (mirror_parent lock.root w).1 existed rest

abbrev pub AreNames : FilePath → Type 0
AreNames [] = Unit {0}
AreNames (c ∷ p) = ((s : String) × (c ≡ normal s)) × AreNames p

-- a path below `rules` or `exceptions`, of plain names only
abbrev pub IsMirrorPath : FilePath → Type 0
IsMirrorPath p =
    (top name : String) × (rest : FilePath) × (p ≡ normal top ∷ normal name ∷ rest)
    × ((top ≡ "rules") ⊎ (top ≡ "exceptions"))
    × AreNames rest

-- no two files have one path
abbrev pub AreDistinct : List StagedFile → Type 0
AreDistinct [] = Unit {0}
AreDistinct (f ∷ files) = All (λ g. ¬ (g.relative ≡ f.relative)) files × AreDistinct files

all_normal-AreNames : (p : FilePath) (b c : Bool) → all_normal p b ≡ some c → AreNames p
unfolding all_normal
all_normal-AreNames [] b c h = tt
all_normal-AreNames (normal s ∷ p) b c h = ((s, refl), all_normal-AreNames p true c h)
all_normal-AreNames (cur_dir ∷ p) b c h = absurd (ground (arith, h))
all_normal-AreNames (parent_dir ∷ p) b c h = absurd (ground (arith, h))
all_normal-AreNames (root_dir ∷ p) b c h = absurd (ground (arith, h))
all_normal-AreNames (prefix s ∷ p) b c h = absurd (ground (arith, h))

validate_relative-IsMirrorPath : (p : FilePath) → validate_relative p ≡ ok tt → IsMirrorPath p
unfolding validate_relative all_normal
validate_relative-IsMirrorPath [] h = absurd (ground (arith, h))
validate_relative-IsMirrorPath (cur_dir ∷ p) h = absurd (ground (arith, h))
validate_relative-IsMirrorPath (parent_dir ∷ p) h = absurd (ground (arith, h))
validate_relative-IsMirrorPath (root_dir ∷ p) h = absurd (ground (arith, h))
validate_relative-IsMirrorPath (prefix s ∷ p) h = absurd (ground (arith, h))
validate_relative-IsMirrorPath (normal top ∷ []) h = absurd (ground (arith, h))
validate_relative-IsMirrorPath (normal top ∷ cur_dir ∷ p) h = absurd (ground (arith, h))
validate_relative-IsMirrorPath (normal top ∷ parent_dir ∷ p) h = absurd (ground (arith, h))
validate_relative-IsMirrorPath (normal top ∷ root_dir ∷ p) h = absurd (ground (arith, h))
validate_relative-IsMirrorPath (normal top ∷ prefix s ∷ p) h = absurd (ground (arith, h))
validate_relative-IsMirrorPath (normal top ∷ normal name ∷ p) h =
    let under : (top ≡ "rules") ⊎ (top ≡ "exceptions") =
      ground (arith, h, =?_iff top "rules", =?_iff top "exceptions") in
    (
      top,
      name,
      p,
      refl,
      under,
      elim (Option-cases (all_normal p true)) [
        | inl e ↦ absurd (ground (arith, h, e))
        | inr (c, e) ↦ all_normal-AreNames p true c e
      ],
    )

IsPlan-fresh :
    (files : List StagedFile) (seen : List FilePath) (p : FilePath)
    → ((q : FilePath) → any (λ r. path_eq q r) seen ≡ false → ¬ (q ≡ p))
    → IsPlan files seen
    → All (λ g. ¬ (g.relative ≡ p)) files
IsPlan-fresh [] seen p apart plan = tt
IsPlan-fresh (f ∷ files) seen p apart plan = (
  apart f.relative plan.1,
  IsPlan-fresh files (f.relative ∷ seen) p
      (λ q h. apart q (let rest : any (λ r. path_eq q r) seen ≡ false = ground (arith, h) in rest))
      plan.2,
)

pub IsPlan-accepted :
    (files : List StagedFile) (seen : List FilePath)
    → IsPlan files seen
    → All (λ f. IsMirrorPath f.relative) files × AreDistinct files
IsPlan-accepted [] seen plan = (tt, tt)
IsPlan-accepted (f ∷ files) seen plan =
    let (paths, distinct) = IsPlan-accepted files (f.relative ∷ seen) plan.2 in
    (
      (validate_relative-IsMirrorPath f.relative plan.0, paths),
      (
        IsPlan-fresh files (f.relative ∷ seen) f.relative
            (λ q h same. absurd (ground (arith, h, (path_eq_iff q f.relative).1 same))) plan.2,
        distinct,
      ),
    )

-- A replacement that passes the check has a flag for each file; each path is one name or more below
-- `rules` or `exceptions`, with no `..`, root or other component that is no name, and no two files
-- have one path.
pub validate_replacement-accepted :
    (lock : PullLock) (files : List StagedFile) (w : World) (existed : List Bool)
    → (validate_replacement lock files w).0 ≡ ok existed
    → All (λ f. IsMirrorPath f.relative) files × AreDistinct files × (length existed ≡ length files)
validate_replacement-accepted lock files w existed h =
    let (plan, flags) = validate_replacement-IsPlan lock files w existed h in
    let (paths, distinct) = IsPlan-accepted files [] plan in (paths, distinct, flags)
