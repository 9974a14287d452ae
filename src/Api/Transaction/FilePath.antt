-- ===== src/Api/Transaction/FilePath.antt =====
-- Paths as lists of components, as `std::path` compares and joins them.
pub mod Names
use Prim.Native.Char.{code}
use Prim.Native.String
use elasticctl.Prelude.{
  ◌||◌, ◌==◌, if◌then◌else◌, String, ◌≡◌, ◌↔◌, Bool, true, false, ◌&&◌, Option, none, some, List,
  [], ◌∷◌, ◌++◌, arith, map_option,
}
use elasticctl.Prelude.Text.{join as join_texts}
use elasticctl.Prelude.Order.{◌=?◌, string_ord, =?_iff}

pub data Component : Type 0 where
  normal : String → Component
  cur_dir parent_dir root_dir : Component
  prefix : String → Component

abbrev pub FilePath : Type 0
FilePath = List Component

unfoldable pub component_eq : Component → Component → Bool
component_eq (normal s) (normal t) = s =? t
component_eq cur_dir cur_dir = true
component_eq parent_dir parent_dir = true
component_eq root_dir root_dir = true
component_eq (prefix s) (prefix t) = s =? t
component_eq _ _ = false

unfoldable pub path_eq : FilePath → FilePath → Bool
unfolding component_eq
path_eq [] [] = true
path_eq (c ∷ p) (d ∷ q) = component_eq c d && path_eq p q
path_eq _ _ = false

pub component_eq_iff : (c d : Component) → (component_eq c d ≡ true) ↔ (c ≡ d)
unfolding component_eq
component_eq_iff (normal s) (normal t) = ground (arith, =?_iff s t)
component_eq_iff cur_dir cur_dir = ground arith
component_eq_iff parent_dir parent_dir = ground arith
component_eq_iff root_dir root_dir = ground arith
component_eq_iff (prefix s) (prefix t) = ground (arith, =?_iff s t)
component_eq_iff _ _ = ground arith

pub path_eq_iff : (p q : FilePath) → (path_eq p q ≡ true) ↔ (p ≡ q)
unfolding path_eq
path_eq_iff [] [] = ground arith
path_eq_iff [] (d ∷ q) = ground arith
path_eq_iff (c ∷ p) [] = ground arith
path_eq_iff (c ∷ p) (d ∷ q) = ground (arith, component_eq_iff c d, path_eq_iff p q)

-- the pieces of a text between separators
unfoldable pub pieces : String → List String
pieces String.[] = "" ∷ []
pieces (String.◌∷◌ c s) = elim (pieces s) [
  | [] ↦ []
  | p ∷ ps ↦ if code c == 47 then "" ∷ p ∷ ps else String.◌∷◌ c p ∷ ps
]

-- a component of a path behind its start: an empty piece and a dot are passed over
unfoldable pub component_of : String → FilePath → FilePath
component_of s rest =
    if (s =? "") || (s =? ".")
    then rest
    else if s =? ".."
    then parent_dir ∷ rest
    else normal s ∷ rest

unfoldable pub components_of : List String → FilePath
components_of [] = []
components_of (s ∷ ss) = component_of s (components_of ss)

-- `Path::new`, by its components on Unix: a separator at the start is the root, a dot there the
-- current directory
unfoldable pub from_pieces : List String → FilePath
from_pieces [] = []
from_pieces (s ∷ []) = if s =? "." then cur_dir ∷ [] else component_of s []
from_pieces (s ∷ t ∷ ss) =
    if s =? ""
    then root_dir ∷ components_of (t ∷ ss)
    else if s =? "."
    then cur_dir ∷ components_of (t ∷ ss)
    else component_of s (components_of (t ∷ ss))

unfoldable pub path : String → FilePath
unfolding from_pieces
path s = from_pieces (pieces s)

-- `Path::join`: an absolute path replaces what stands before it
unfoldable pub join : FilePath → FilePath → FilePath
join p (root_dir ∷ q) = root_dir ∷ q
join p (prefix s ∷ q) = prefix s ∷ q
join p q = p ++ q

-- `Path::parent`: none of an empty path and of a root
unfoldable pub parent : FilePath → Option FilePath
parent [] = none
parent (root_dir ∷ []) = none
parent (prefix s ∷ []) = none
parent (c ∷ []) = some []
parent (c ∷ d ∷ p) = map_option (λ q. c ∷ q) (parent_of d p)
  where
    parent_of : Component → FilePath → Option FilePath
    parent_of d [] = some []
    parent_of d (e ∷ p) = map_option (λ q. d ∷ q) (parent_of e p)

unfoldable pub starts_with : FilePath → FilePath → Bool
starts_with p [] = true
starts_with [] (d ∷ q) = false
starts_with (c ∷ p) (d ∷ q) = component_eq c d && starts_with p q

texts : FilePath → List String
texts [] = []
texts (normal s ∷ p) = s ∷ texts p
texts (cur_dir ∷ p) = "." ∷ texts p
texts (parent_dir ∷ p) = ".." ∷ texts p
texts (root_dir ∷ p) = "" ∷ texts p
texts (prefix s ∷ p) = s ∷ texts p

-- `Path::display`
unfoldable pub display : FilePath → String
unfolding texts
display (root_dir ∷ []) = "/"
display p = join_texts (texts p) "/"
