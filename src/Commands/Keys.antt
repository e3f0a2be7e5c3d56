-- ===== src/Commands/Keys.antt =====
-- Dependency keys: the template literals of src/domain/command-concurrency.ts, and
-- `[...new Set(keys)].sort()`.
pub mod Laws
use Prim.Native.String.{◌++◌ as text_append}
use poker_management_system.Common.{
  ℕ, String, Bool, true, false, ◌||◌, ◌≡◌, refl, Option, none, some, List, [], ◌∷◌, ◌++◌, any,
  if◌then◌else◌, arith, ap, ◌∙◌,
}
use poker_management_system.Common.Text.{◌=ₜ◌, less, truthy}
use poker_management_system.Common.Text.Laws.{eq_of_test, test_of_eq}
use poker_management_system.Common.Decimal.{decimal}

unfoldable pub player_key : String → String
player_key id = text_append "player:" id

unfoldable pub table_key : String → String
table_key id = text_append "table:" id

unfoldable pub seat_key : String → ℕ → String
seat_key table_id seat = text_append "seat:" (text_append table_id (text_append ":" (decimal seat)))

unfoldable pub transaction_key : String → String
transaction_key id = text_append "transaction:" id

unfoldable pub reversal_key : String → String
reversal_key id = text_append "reversal:" id

unfoldable pub approval_key : String → String
approval_key id = text_append "approval:" id

unfoldable pub phone_key : String → String
phone_key phone = text_append "phone:" phone

-- `if (id) keys.add(f(id))`
abbrev pub if_given : (String → List String) → Option String → List String
if_given f none = []
if_given f (some id) = if truthy (some id) then f id else []

-- `keys.has(key)`
abbrev pub has_key : List String → String → Bool
has_key keys key = any (λ k. k =ₜ key) keys

-- `new Set(keys)`: later copies are dropped.
unfoldable pub distinct_keys : List String → List String
distinct_keys [] = []
distinct_keys (k ∷ keys) =
    let rest = distinct_keys keys in if has_key keys k then rest else k ∷ rest

unfoldable pub insert_key : String → List String → List String
insert_key k [] = k ∷ []
insert_key k (x ∷ keys) =
    let rest = insert_key k keys in if less x k then x ∷ rest else k ∷ x ∷ keys

-- `.sort()`
unfoldable pub sort_keys : List String → List String
sort_keys [] = []
sort_keys (k ∷ keys) = insert_key k (sort_keys keys)

-- `[...new Set(keys)].sort()`
unfoldable pub key_list : List String → List String
key_list keys = sort_keys (distinct_keys keys)
