-- ===== src/Prelude/Options.antt =====
-- Optional values: sequencing for `do` blocks, and Rust's `Option::or`.
use mathlib.Core.Path.{◌≡◌, refl}
use mathlib.Core.Option.{Option, none, some}

infixl 5 ◌>>=◌
abbrev pub ◌>>=◌ {ℓ κ} : {A : Type ℓ} {B : Type κ} → Option A → (A → Option B) → Option B
none >>= f = none
some a >>= f = f a

abbrev pub or {ℓ} : {A : Type ℓ} → Option A → Option A → Option A
or (some a) other = some a
or none other = other

pub or_assoc {ℓ} : {A : Type ℓ} (a b c : Option A) → or a (or b c) ≡ or (or a b) c
or_assoc (some a) b c = refl
or_assoc none b c = refl
