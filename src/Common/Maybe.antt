-- ===== src/Common/Maybe.antt =====
-- `do` blocks over `Option`, for a chain of steps any of which may panic on a nil map.
use mathlib.Core.Option.{Option, none, some}

infixl 5 ◌>>=◌
abbrev pub ◌>>=◌ {ℓ κ} : {A : Type ℓ} {B : Type κ} → Option A → (A → Option B) → Option B
none >>= f = none
some a >>= f = f a
