-- ===== src/Common/Result.antt =====
-- Thrown errors: `DomainError` with its status, and a plain `Error`.
use Prim.Native.Nat.{ℕ}
use Prim.Native.String.{String}
use mathlib.Core.Path.{◌≡◌, refl, ap, subst}

pub data Error : Type 0 where
  domain : String → ℕ → Error
  plain : String → Error

-- A call returns a value, or throws.
pub data Result {ℓ} (T : Type ℓ) : Type ℓ where
  err : Error → Result T
  ok : T → Result T

-- The rest of a block runs after a call that returned. It is shut, so that proofs go by the rules
-- below.
infixl 5 ◌>>=◌ ◌>>◌
unfoldable pub ◌>>=◌ {ℓ κ} : {T : Type ℓ} {U : Type κ} → Result T → (T → Result U) → Result U
err thrown >>= rest = err thrown
ok value >>= rest = rest value

abbrev pub ◌>>◌ {κ} : {U : Type κ} → Result (Unit {0}) → Result U → Result U
check >> next = check >>= λ _. next

-- A call that returns is followed by the rest.
pub bind-ok {ℓ κ} :
    {T : Type ℓ} {U : Type κ} {m : Result T} {v : T} (rest : T → Result U)
    → m ≡ ok v
    → (m >>= rest) ≡ rest v
unfolding ◌>>=◌
bind-ok rest h = ap (λ r. r >>= rest) h

-- Whatever the call returns satisfies `P`; one rule for each way to build a call.
pub record Ensures {ℓ κ} {A : Type ℓ} (P : A → Type κ) (r : Result A) : Type (ℓ ⊔ κ) where
  pub at : {a : A} → r ≡ ok a → P a

module _ {ℓ κ} {A : Type ℓ} {P : A → Type κ} where
  pub Ensures-ok : {a : A} → P a → Ensures P (ok a)
  Ensures-ok {a} p = record { at = λ e. subst P (cc) p }

  pub Ensures-err : {e : Error} → Ensures P (err e)
  Ensures-err = record { at = λ h. cc }

  pub Ensures-bind {μ} :
      {B : Type μ} {m : Result B} {f : B → Result A}
      → ((b : B) → m ≡ ok b → Ensures P (f b))
      → Ensures P (m >>= f)
  unfolding ◌>>=◌
  Ensures-bind {m = ok b} k = k b refl
  Ensures-bind {m = err e} k = Ensures-err
