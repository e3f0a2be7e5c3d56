-- ===== src/Common/Opts.antt =====
-- Optional values: `a ?? b` and the tests on a value that may be undefined.
use mathlib.Core.Bool.{Bool, true, false}
use mathlib.Core.Option.{Option, none, some}

module _ {ℓ} {A : Type ℓ} where
  -- `a ?? b`
  abbrev pub or_else : Option A → A → A
  or_else none b = b
  or_else (some a) b = a

  abbrev pub is_some : Option A → Bool
  is_some none = false
  is_some (some a) = true

  -- `a != null && p(a)`
  abbrev pub holds : (A → Bool) → Option A → Bool
  holds p none = false
  holds p (some a) = p a

  -- `a?.f`
  abbrev pub then_some {κ} : {B : Type κ} → Option A → (A → Option B) → Option B
  then_some none f = none
  then_some (some a) f = f a
