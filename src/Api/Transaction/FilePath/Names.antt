-- ===== src/Api/Transaction/FilePath/Names.antt =====
-- A text that is one plain name of a path.
use Prim.Native.Char.{code}
use Prim.Native.String
use Prim.Native.String.append
use elasticctl.Prelude.{
  ℕ, suc, ◌+◌, ◌<◌, String, ◌≡◌, refl, ap, ◌∙◌, Bool, true, false, not, ◌&&◌, ◌==◌, [], ◌∷◌, arith,
}
use elasticctl.Prelude.Order.{◌=?◌, string_ord, =?_iff}
use elasticctl.Api.Transaction.FilePath.{normal, pieces, component_of, from_pieces, path}

unfoldable pub has_no_separator : String → Bool
has_no_separator String.[] = true
has_no_separator (String.◌∷◌ c s) = not (code c == 47) && has_no_separator s

unfoldable pub chars : String → ℕ
chars String.[] = 0
chars (String.◌∷◌ c s) = suc (chars s)

pub chars-append : (s t : String) → chars (String.◌++◌ s t) ≡ chars s + chars t
unfolding chars
chars-append String.[] t = ap chars (λ i. append.nil t i) ∙ ground arith
chars-append (String.◌∷◌ c s) t =
    ap chars (λ i. append.cons c s t i) ∙ ground (arith, chars-append s t)

pub has_no_separator-append :
    (s t : String)
    → has_no_separator s ≡ true
    → has_no_separator t ≡ true
    → has_no_separator (String.◌++◌ s t) ≡ true
unfolding has_no_separator
has_no_separator-append String.[] t h k = ap has_no_separator (λ i. append.nil t i) ∙ k
has_no_separator-append (String.◌∷◌ c s) t h k =
    ap has_no_separator (λ i. append.cons c s t i)
    ∙ ground (
      arith,
      h,
      has_no_separator-append s t (let rest : has_no_separator s ≡ true = ground (arith, h) in rest)
          k,
    )

pieces-sole : (s : String) → has_no_separator s ≡ true → pieces s ≡ s ∷ []
unfolding pieces has_no_separator
pieces-sole String.[] h = refl
pieces-sole (String.◌∷◌ c s) h =
    let rest : pieces s ≡ s ∷ [] = pieces-sole s (ground (arith, h)) in rw rest (ground (arith, h))

-- a text of three characters or more without a separator is a name
pub path-name : (s : String) → has_no_separator s ≡ true → 2 < chars s → path s ≡ normal s ∷ []
unfolding path from_pieces component_of chars
path-name s h long =
    let differs : (t : String) → chars t < 3 → (s =? t) ≡ false =
      λ t short. ground (arith, =?_iff s t, long, short, ap chars {x = s} {y = t}) in
    rw (pieces-sole s h) (
      ground
        (arith, differs "" (ground arith), differs "." (ground arith), differs ".." (ground arith)))
