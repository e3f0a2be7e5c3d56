-- ===== src/Model/Same.antt =====
-- The test `JSON.stringify(a) === JSON.stringify(b)` on the records of src/domain/model.ts: two
-- texts are one exactly when the records are equal, as every field is written in a fixed order. (The
-- settings that a command builds anew are the exception: Commands/Dependencies writes it out.)
use native.Mathlib.Decide.{ℕ_discrete}
use mathlib.Core.Option.{Option, none, some}
use poker_management_system.Common.{String, Bool, true, false, ◌≡◌, refl}
use poker_management_system.Common.Text.{◌=ₜ◌}
use poker_management_system.Common.Text.Laws.{eq_of_test, ne_of_test}
use poker_management_system.Model.Records.{
  VenueSettings, Profile, Session, TableRecord, Transaction, ApprovalRequest, Day, AuditLog,
}

unfoldable pub by_test : (s t : String) (b : Bool) → (s =ₜ t) ≡ b → Dec (s ≡ t)
by_test s t true e = yes (eq_of_test s t e)
by_test s t false e = no (ne_of_test s t e)

unfoldable pub string_discrete : Discrete String
unfolding by_test
string_discrete s t = by_test s t (s =ₜ t) refl

unfoldable pub settings_discrete : Discrete VenueSettings
settings_discrete = hlevel (ℕ_discrete, string_discrete)

unfoldable pub profile_discrete : Discrete Profile
profile_discrete = hlevel (ℕ_discrete, string_discrete)

unfoldable pub session_discrete : Discrete Session
session_discrete = hlevel (ℕ_discrete, string_discrete)

unfoldable pub table_discrete : Discrete TableRecord
table_discrete = hlevel (ℕ_discrete, string_discrete)

unfoldable pub transaction_discrete : Discrete Transaction
transaction_discrete = hlevel (ℕ_discrete, string_discrete)

unfoldable pub approval_discrete : Discrete ApprovalRequest
approval_discrete = hlevel (ℕ_discrete, string_discrete)

unfoldable pub day_discrete : Discrete Day
day_discrete = hlevel (ℕ_discrete, string_discrete)

unfoldable pub log_discrete : Discrete AuditLog
log_discrete = hlevel (ℕ_discrete, string_discrete, settings_discrete)

abbrev pub is_yes {ℓ} : {A : Type ℓ} → Dec A → Bool
is_yes (yes a) = true
is_yes (no n) = false

-- `JSON.stringify(a) === JSON.stringify(b)` where either may be undefined
abbrev pub same {ℓ} : {A : Type ℓ} → Discrete A → Option A → Option A → Bool
same eq none none = true
same eq none (some b) = false
same eq (some a) none = false
same eq (some a) (some b) = is_yes (eq a b)
