-- ===== src/Common/Text/Laws.antt =====
-- What the tests on texts decide.
use Prim.Native.String.{String}
use mathlib.Core.Path.{◌≡◌, refl, ap}
use mathlib.Core.Logic.{◌≢◌, inl, inr}
use mathlib.Core.Bool.{true, false}
use mathlib.Core.Option.{Option, none, some}
use text.Mathlib.TextEquality.{eq_iff}
use poker_management_system.Common.Tests.{Bool-cases}
use poker_management_system.Common.Text.{◌=ₜ◌, opt_eq}

pub eq_of_test : (s t : String) → (s =ₜ t) ≡ true → s ≡ t
eq_of_test s t h = (eq_iff s t).0 h

pub test_of_eq : (s t : String) → s ≡ t → (s =ₜ t) ≡ true
test_of_eq s t e = (eq_iff s t).1 e

pub ne_of_test : (s t : String) → (s =ₜ t) ≡ false → s ≢ t
ne_of_test s t h e = let q = test_of_eq s t e in cc

pub test_of_ne : (s t : String) → s ≢ t → (s =ₜ t) ≡ false
test_of_ne s t n = elim (Bool-cases (s =ₜ t)) [ inl e ↦ absurd (n (eq_of_test s t e)) | inr e ↦ e ]

pub opt_eq-eq : (a b : Option String) → opt_eq a b ≡ true → a ≡ b
opt_eq-eq none none h = refl
opt_eq-eq none (some t) h = cc
opt_eq-eq (some s) none h = cc
opt_eq-eq (some s) (some t) h = ap some (eq_of_test s t h)

pub opt_eq_refl : (a : Option String) → opt_eq a a ≡ true
opt_eq_refl none = refl
opt_eq_refl (some s) = test_of_eq s s refl
