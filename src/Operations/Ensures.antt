-- ===== src/Operations/Ensures.antt =====
-- What a passed guard says, and the rule of `Ensures` for a conditional.
use poker_management_system.Common.{
  ℕ, ◌≡◌, refl, String, Bool, true, false, not, Option, none, some, List, arith, if◌then◌else◌,
}
use poker_management_system.Common.Result.{Result, ok, Ensures}
use poker_management_system.Model.{Staff, Role, has_role}
use poker_management_system.Operations.Guards.{require_status, require_some, permit}

pub passed : (n : ℕ) (b : Bool) (m : String) {u : Unit {0}} → require_status n b m ≡ ok u → b ≡ true
unfolding require_status
passed n true m h = refl
passed n false m h = cc

-- A guard that refuses what holds.
pub refuted :
    (n : ℕ) (b : Bool) (m : String) {u : Unit {0}} → require_status n (not b) m ≡ ok u → b ≡ false
unfolding require_status
refuted n true m h = cc
refuted n false m h = refl

pub permitted :
    (actor : Staff) (roles : List Role) {u : Unit {0}}
    → permit actor roles ≡ ok u
    → has_role roles actor.role ≡ true
unfolding permit
permitted actor roles h = passed _ _ _ h

pub found {ℓ} :
    {A : Type ℓ} (o : Option A) (m : String) {a : A} → require_some o m ≡ ok a → o ≡ some a
unfolding require_some
found (some a) m h = ground arith
found none m h = cc

module _ {ℓ κ} {A : Type ℓ} {P : A → Type κ} where
  pub Ensures-if :
      (b : Bool) {r s : Result A}
      → (b ≡ true → Ensures P r)
      → (b ≡ false → Ensures P s)
      → Ensures P (if b then r else s)
  Ensures-if true k l = k refl
  Ensures-if false k l = l refl
