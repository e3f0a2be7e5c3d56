-- ===== src/Server/Repository/Versions.antt =====
-- The versions of keys after `touchChangeVersions`.

use poker_management_system.Common.{
  ℕ, ◌<◌, ◌≡◌, refl, sym, ◌∙◌, ap, String, Bool, true, false, ◌||◌, List, [], ◌∷◌, if◌then◌else◌,
  arith,
}
use poker_management_system.Common.Text.{◌=ₜ◌}
use poker_management_system.Common.Text.Laws.{eq_of_test, test_of_eq}
use poker_management_system.Model.{Dict}
use poker_management_system.Commands.Keys.{has_key}
use poker_management_system.Server.Repository.{set_version, touch_change_versions, is_newer}

pub or_left : (a b : Bool) → a ≡ true → (a || b) ≡ true
or_left a b h = ground arith

pub or_right : (a b : Bool) → b ≡ true → (a || b) ≡ true
or_right a b h = ground arith

same_key : (l k key : String) → (l =ₜ key) ≡ true → (k =ₜ key) ≡ true → (l =ₜ k) ≡ true
same_key l k key a b = test_of_eq l k (eq_of_test l key a ∙ sym (eq_of_test k key b))

-- The versions after a touch.
is_newer-set_version :
    (k key : String) (revision r : ℕ) (versions : Dict ℕ)
    → r < revision
    → ((k =ₜ key) || is_newer versions r key) ≡ true
    → is_newer (set_version k revision versions) r key ≡ true
unfolding set_version is_newer
is_newer-set_version k key revision r [] h t = ground arith
is_newer-set_version k key revision r ((l, v) ∷ versions) h t =
    let rest = is_newer-set_version k key revision r versions h in by_test rest (l =ₜ k) refl
  where
    by_test :
        (((k =ₜ key) || is_newer versions r key) ≡ true
          → is_newer (set_version k revision versions) r key ≡ true)
        → (b : Bool) → (l =ₜ k) ≡ b
        → is_newer
            (if b then (l, revision) ∷ versions else (l, v) ∷ set_version k revision versions)
            r
            key
          ≡ true
    by_test rest true e =
        let same : (l =ₜ key) ≡ (k =ₜ key) = ap (λ x. x =ₜ key) (eq_of_test l k e) in ground arith
    by_test rest false e = ground (arith, rest, same_key l k key)

pub is_newer-touch :
    (keys : List String) (key : String) (revision r : ℕ) (versions : Dict ℕ)
    → r < revision
    → (has_key keys key || is_newer versions r key) ≡ true
    → is_newer (touch_change_versions keys revision versions) r key ≡ true
unfolding touch_change_versions
is_newer-touch [] key revision r versions h t = t
is_newer-touch (k ∷ keys) key revision r versions h t = ground (
  arith,
  is_newer-touch keys key revision r (set_version k revision versions),
  is_newer-set_version k key revision r versions,
)
