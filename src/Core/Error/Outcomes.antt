-- ===== src/Core/Error/Outcomes.antt =====
-- What holds of a result where there is one, through the steps that make it.
use elasticctl.Prelude.{◌≡◌, refl, subst}
use elasticctl.Core.Error.{Result, ok, err, panic, ◌>>=◌}

-- `P` of a result that is there
abbrev pub OnOk {ℓ} : {A : Type ℓ} → (A → Type 0) → Result A → Type 0
OnOk P (ok a) = P a
OnOk P (err e) = Unit
OnOk P (panic w) = Unit

pub bind-OnOk {ℓ κ} :
    {A : Type ℓ} {B : Type κ} (P : A → Type 0) (Q : B → Type 0) (r : Result A) (f : A → Result B)
    → OnOk P r
    → ((a : A) → P a → OnOk Q (f a))
    → OnOk Q (r >>= f)
bind-OnOk P Q (ok a) f h more = more a h
bind-OnOk P Q (err e) f h more = tt
bind-OnOk P Q (panic w) f h more = tt

pub always-OnOk {ℓ} : {A : Type ℓ} (r : Result A) → OnOk (λ _. Unit {0}) r
always-OnOk (ok a) = tt
always-OnOk (err e) = tt
always-OnOk (panic w) = tt

-- what holds of each result that is there, from what holds of the one at hand
pub OnOk-intro {ℓ} :
    {A : Type ℓ} (P : A → Type 0) (r : Result A) → ((a : A) → r ≡ ok a → P a) → OnOk P r
OnOk-intro P (ok a) h = h a refl
OnOk-intro P (err e) h = tt
OnOk-intro P (panic w) h = tt

pub OnOk-elim {ℓ} : {A : Type ℓ} (P : A → Type 0) (r : Result A) (a : A) → OnOk P r → r ≡ ok a → P a
OnOk-elim P r a h e = let k : OnOk P (ok a) = subst (OnOk P) e h in k
