-- ===== src/Operations/Apply/Seats/Writes.antt =====
-- Sessions with different ids, and when two of them clash over a seat.
use poker_management_system.Common.{
  ℕ, ◌≡◌, ◌≢◌, sym, ◌∙◌, String, Bool, true, false, inl, inr, some, List, any, find, update_first,
  All, Pairwise, arith, Bool-cases,
}
use poker_management_system.Common.Lists.Laws.{All-map, any-none, Pairwise-update_first}
use poker_management_system.Common.Text.Laws.{test_of_eq}
use poker_management_system.Common.Text.{◌=ₜ◌}
use text.Mathlib.TextEquality.{eq_iff}
use poker_management_system.Model.{Session, is_active}
use poker_management_system.Operations.Guards.{occupies}

pub record SeatsApart (s t : Session) : Type 0 where
  pub ids : s.id ≢ t.id
  pub seats :
      is_active s.status ≡ true
      → is_active t.status ≡ true
      → s.table_id ≡ t.table_id
      → s.seat ≢ t.seat

-- Nobody but the session `id` is playing at the seat.
abbrev pub LeavesFree : String → ℕ → String → Session → Type 0
LeavesFree table_id seat id y =
    y.id ≢ id → is_active y.status ≡ true → y.table_id ≡ table_id → y.seat ≢ seat

occupies-LeavesFree :
    (table_id : String) (seat : ℕ) (id : String) (y : Session)
    → occupies table_id seat (some id) y ≡ false
    → LeavesFree table_id seat id y
unfolding occupies
occupies-LeavesFree table_id seat id y h n a e q = elim (Bool-cases (y.id =ₜ id)) [
  | inl t ↦ n ((eq_iff y.id id).0 t)
  | inr f ↦ let t = test_of_eq y.table_id table_id e in ground arith
]

pub all-LeavesFree :
    (table_id : String) (seat : ℕ) (id : String) (ys : List Session)
    → any (occupies table_id seat (some id)) ys ≡ false
    → All (LeavesFree table_id seat id) ys
all-LeavesFree table_id seat id ys h =
    All-map _ (occupies-LeavesFree table_id seat id) ys
      (any-none (occupies table_id seat (some id)) ys h)

-- A session takes a seat that is free but for itself.
pub seated-SeatsApart :
    (p : Session → Bool) (f : Session → Session) (xs : List Session) {s : Session}
    → find p xs ≡ some s
    → (f s).id ≡ s.id
    → All (LeavesFree (f s).table_id (f s).seat s.id) xs
    → Pairwise SeatsApart xs
    → Pairwise SeatsApart (update_first p f xs)
seated-SeatsApart p f xs {s} known same_id free apart =
    Pairwise-update_first SeatsApart (LeavesFree (f s).table_id (f s).seat s.id) p f xs known
      (λ y q r. record {
        ids = λ e. r.ids (sym same_id ∙ e);
        seats = λ a b t u. q (λ e. r.ids (sym e)) b (sym t) (sym u);
      })
      (λ y q r. record { ids = λ e. r.ids (e ∙ same_id); seats = λ a b t u. q r.ids a t u }) free
      apart
