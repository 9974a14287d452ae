-- ===== src/Api/Transaction/Frame.antt =====
-- A step that keeps what a guard holds of, whatever faults it meets: where the guard holds of a path and
-- of what is there, the step leaves the same there. A rule for each way to build a step.
pub mod Operations
pub mod Checking
pub mod Steps
use elasticctl.Prelude.{◌≡◌, refl, ◌∙◌, sym, subst, Bool, true, false, Option, none, if◌then◌else◌}
use elasticctl.Core.Error.{Error, Result, ok, err, panic}
use elasticctl.Api.Transaction.FilePath.{FilePath, starts_with, path_eq}
use elasticctl.Api.Transaction.Disk.{World, FileSystem, Node}
use elasticctl.Api.Transaction.Ops.{Tx, continue, ◌>>=◌, pure, raise, lift}

abbrev pub Guard : Type 1
Guard = FilePath → Option Node → Type 0

-- what the guard holds of is the same
abbrev pub Same : Guard → FileSystem → FileSystem → Type 0
Same G before after = (q : FilePath) → G q (before q) → after q ≡ before q

pub record Frame {A : Type 0} (G : Guard) (m : Tx A) : Type 0 where
  pub at : (w : World) → Same G w.fs (m w).1.fs

-- the guard holds of nothing at a path
pub record Free (G : Guard) (p : FilePath) : Type 0 where
  pub ne : (q : FilePath) (n : Option Node) → G q n → path_eq q p ≡ false

-- the guard holds of nothing at a path or below it
pub record FreeBelow (G : Guard) (p : FilePath) : Type 0 where
  pub apart : (q : FilePath) (n : Option Node) → G q n → starts_with q p ≡ false

-- the guard does not hold of a path where nothing is
pub record Creatable (G : Guard) (p : FilePath) : Type 0 where
  pub missing : (q : FilePath) → G q none → path_eq q p ≡ false

module _ {A : Type 0} (G : Guard) where
  pub Frame-pure : (a : A) → Frame G (pure a)
  Frame-pure a = record { at = λ w q h. refl }

  pub Frame-raise : (e : Error) → Frame G (raise {A = A} e)
  Frame-raise e = record { at = λ w q h. refl }

  pub Frame-lift : (r : Result A) → Frame G (lift r)
  Frame-lift r = record { at = λ w q h. refl }

  pub Frame-if : (b : Bool) (m n : Tx A) → Frame G m → Frame G n → Frame G (if b then m else n)
  Frame-if true m n hm hn = hm
  Frame-if false m n hm hn = hn

module _ {A B : Type 0} (G : Guard) where
  -- the rest of a block may use what the step before it returned
  pub Frame-bind_ok :
      (m : Tx A) (f : A → Tx B)
      → Frame G m
      → ((a : A) (w : World) → (m w).0 ≡ ok a → Same G (m w).1.fs (f a (m w).1).1.fs)
      → Frame G (m >>= f)
  unfolding ◌>>=◌
  Frame-bind_ok m f hm hf = record { at = λ w q h. go w (m w).0 refl q h ∙ hm.at w q h }
    where
      go :
          (w : World) (r : Result A)
          → (m w).0 ≡ r
          → (q : FilePath) → G q (w.fs q)
          → (continue (m w).0 f (m w).1).1.fs q ≡ (m w).1.fs q
      go w (ok a) e q h = rw e (hf a w e q (subst (G q) (sym (hm.at w q h)) h))
      go w (err x) e q h = rw e refl
      go w (panic s) e q h = rw e refl

  pub Frame-bind :
      (m : Tx A) (f : A → Tx B) → Frame G m → ((a : A) → Frame G (f a)) → Frame G (m >>= f)
  Frame-bind m f hm hf = Frame-bind_ok m f hm (λ a w e. (hf a).at (m w).1)

  -- the rest of a block may use that a pure step did not fail
  pub Frame-bind_lift :
      (r : Result A) (f : A → Tx B) → ((a : A) → r ≡ ok a → Frame G (f a)) → Frame G (lift r >>= f)
  unfolding ◌>>=◌
  Frame-bind_lift (ok a) f hf = hf a refl
  Frame-bind_lift (err e) f hf = record { at = λ w q h. refl }
  Frame-bind_lift (panic s) f hf = record { at = λ w q h. refl }

pub ruleset frame_rules = (Frame-pure, Frame-raise, Frame-lift, Frame-if, Frame-bind)
