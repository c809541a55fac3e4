-- ===== src/Common/Options.antt =====
-- Option results in sequence.
use mathlib.Core.Path.{◌≡◌, refl}
use mathlib.Core.Option.{Option, none, some}

infixl 5 ◌>>=◌
abbrev pub ◌>>=◌ {ℓ κ} : {A : Type ℓ} {B : Type κ} → Option A → (A → Option B) → Option B
none >>= k = none
some a >>= k = k a

-- A sequence whose two steps answer.
pub answers {ℓ κ} :
    {A : Type ℓ} {B : Type κ} (m : Option A) (k : A → Option B) (a : A) (b : B)
    → m ≡ some a
    → k a ≡ some b
    → (m >>= k) ≡ some b
answers m k a b e h = rw e h

-- The steps of a sequence that answers.
pub bind_some {ℓ κ} :
    {A : Type ℓ} {B : Type κ} (m : Option A) (k : A → Option B) (b : B)
    → (m >>= k) ≡ some b
    → (a : A) × (m ≡ some a) × (k a ≡ some b)
bind_some none k b e = cc e
bind_some (some a) k b e = (a, refl, e)
