-- ===== src/Base/Options.antt =====
-- A result that may be missing: what follows is done only if it is there.
use mathlib.Core.Option.{Option, none, some}

infixl 5 ◌>>=◌
unfoldable pub ◌>>=◌ {ℓ} : {A B : Type ℓ} → Option A → (A → Option B) → Option B
none >>= f = none
some a >>= f = f a

-- What holds of a result, if there is one.
abbrev pub Always {ℓ} : {A : Type ℓ} → (A → Type 0) → Option A → Type 0
Always P none = Unit {0}
Always P (some a) = P a

pub Always-bind :
    {A B : Type 0} (Q : A → Type 0) (P : B → Type 0) (m : Option A) (f : A → Option B)
    → Always Q m
    → ((a : A) → Q a → Always P (f a))
    → Always P (m >>= f)
unfolding ◌>>=◌
Always-bind Q P none f q h = tt
Always-bind Q P (some a) f q h = h a q

pub Always-step :
    {A B : Type 0} (P : B → Type 0) (m : Option A) (f : A → Option B)
    → ((a : A) → Always P (f a))
    → Always P (m >>= f)
unfolding ◌>>=◌
Always-step P none f h = tt
Always-step P (some a) f h = h a
