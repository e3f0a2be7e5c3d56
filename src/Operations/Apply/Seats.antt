-- ===== src/Operations/Apply/Seats.antt =====
-- No two players who are playing sit in one seat.
pub mod Writes
pub mod Maps
pub mod Swap
use poker_management_system.Common.{
  ℕ, zero, suc, ◌≡◌, ◌≢◌, refl, sym, ap, subst, ◌∙◌, ◌⊎◌, inl, inr, String, Bool, true, false, not,
  ◌&&◌, ◌||◌, Option, none, some, List, [], ◌∷◌, any, find, update_first, All, Pairwise, arith,
  if◌then◌else◌, Bool-cases, Option-cases, or-false,
}
use poker_management_system.Common.Lists.Laws.{
  All-map, any-none, update_first-none, Pairwise-append, Pairwise-update_first,
}
use poker_management_system.Common.Text.{◌=ₜ◌, opt_eq}
use text.Mathlib.TextEquality.{eq_iff}
use poker_management_system.Common.Result.{ok, Ensures, Ensures-bind}
use poker_management_system.Model.{
  Store, Staff, Profile, Day, Session, Transaction, ApprovalRequest, TxType, entry, reversal,
  EntryType, cash_out, is_active, is_entry,
}
use poker_management_system.Commands.{Command, SeatSwapParticipant}
use poker_management_system.Ledger.Impact.{transaction_of}
use poker_management_system.Operations.Guards.{Host, uid, audit, occupies}
use poker_management_system.Operations.Ensures.{passed, found}
use poker_management_system.Operations.Entry.{
  session_of, validate_entry, check_visit, posted_sessions, end_visit, reopen_visit,
}
use poker_management_system.Operations.Entry.Done.{validate_reversal-done}
use poker_management_system.Operations.Seating.{
  new_session, ids_taken, sit_at, plays, is_seated, check_participant, swap_audit,
}
use poker_management_system.Operations.Seating.Done.{SeatFree, ensure_seat-SeatFree, CheckedIn}
use poker_management_system.Operations.Apply.{apply_command}
use poker_management_system.Operations.Apply.Done.{apply_command-done}
use poker_management_system.Operations.Apply.SessionStep.{
  SessionStep, kept, arrival, transfer, exchange, posting, Applied-SessionStep,
}
use poker_management_system.Operations.Apply.Seats.Writes.{
  SeatsApart, LeavesFree, all-LeavesFree, seated-SeatsApart,
}
use poker_management_system.Operations.Apply.Seats.Swap.{swap_sessions-SeatsApart}

abbrev pub SeatsExclusive : Store → Type 0
SeatsExclusive store = Pairwise SeatsApart store.sessions

-- No session has an id that the next check-in may take.
abbrev pub HasFreshIds : Host → Store → Type 0
HasFreshIds host store = All (λ s. (s.id ≢ uid host "S" 0) × (s.id ≢ uid host "S" 1)) store.sessions

-- The visit that the reversal of a cash-out reopens, and its seat.
pub record SeatReopens (store : Store) (o : Option Session) : Type 0 where
  pub session : Session
  pub is_session : o ≡ some session
  pub seat_free : SeatFree store session.table_id session.seat (some session.id)

pub check_visit-SeatReopens :
    (store : Store) (o : Option Session) (tx : Transaction)
    → tx.type ≡ entry cash_out
    → Ensures (λ _. SeatReopens store o) (check_visit store o tx)
unfolding check_visit
check_visit-SeatReopens store o tx e =
    rw (e, check_visit)
      (Ensures-bind λ s p. Ensures-bind λ _ q. record {
        at = λ r. record {
          session = s;
          is_session = found _ _ p;
          seat_free = (ensure_seat-SeatFree _ _ _ _).at r;
        };
      })

is_entry-eq : (t : TxType) → is_entry cash_out t ≡ true → t ≡ entry cash_out
is_entry-eq reversal h = cc
is_entry-eq (entry type) h = ground arith

module _ (store : Store) (r : ApprovalRequest) (time : String) (apart : SeatsExclusive store) where
  abbrev of_visit : Session → Bool
  of_visit s = opt_eq (some s.id) r.session_id

  -- A session that ends leaves its seat.
  ended : Pairwise SeatsApart (update_first of_visit (end_visit time) store.sessions)
  unfolding end_visit
  ended = elim (Option-cases (find of_visit store.sessions)) [
    | inl n ↦ rw (update_first-none of_visit (end_visit time) store.sessions n) apart
    | inr (s, e) ↦
        Pairwise-update_first SeatsApart (λ _. Unit {0}) of_visit (end_visit time) store.sessions e
          (λ y _ q. record { ids = q.ids; seats = λ a b. absurd (cc) })
          (λ y _ q. record { ids = q.ids; seats = λ a b. absurd (cc) }) (units store.sessions) apart
  ]
    where
      units : (xs : List Session) → All (λ _. Unit {0}) xs
      units [] = tt
      units (x ∷ xs) = (tt, units xs)

  reopened :
      (tx : Transaction)
      → check_visit store (session_of store r.session_id) tx ≡ ok tt
      → Pairwise SeatsApart (
          if is_entry cash_out tx.type
          then update_first of_visit reopen_visit store.sessions
          else store.sessions)
  unfolding session_of reopen_visit
  reopened tx v = elim (Bool-cases (is_entry cash_out tx.type)) [
    | inl y ↦ rw y (
        let o =
          (check_visit-SeatReopens store (session_of store r.session_id) tx
              (is_entry-eq tx.type y)).at
            v in
        seated-SeatsApart of_visit reopen_visit store.sessions o.is_session refl
          (all-LeavesFree o.session.table_id o.session.seat o.session.id store.sessions
            o.seat_free.seat_free)
          apart)
    | inr n ↦ rw n apart
  ]

  posted_sessions-SeatsApart :
      (type : TxType)
      → r.type ≡ type
      → validate_entry store r ≡ ok tt
      → Pairwise SeatsApart (
          posted_sessions type
            (transaction_of store r.reverses_id)
            r.session_id
            time
            store.sessions)
  unfolding posted_sessions validate_entry
  posted_sessions-SeatsApart reversal e v =
      let d = (validate_reversal-done store r).at (rw (e, validate_entry) at v) in
      rw d.original (reopened d.tx d.visit)
  posted_sessions-SeatsApart (entry cash_out) e v = ended
  posted_sessions-SeatsApart (entry _) e v = apart

check_participant-seated :
    (store : Store) (day : Day) (p : SeatSwapParticipant)
    → check_participant store day p ≡ ok tt
    → any (is_seated day p) store.sessions ≡ true
unfolding check_participant
check_participant-seated store day p h = let t = passed _ _ _ h in ground arith

module _ (host : Host) (store : Store) (actor : Staff) (time : String) where
  new_id :
      (known : Option Profile) (id : String)
      → (id ≢ uid host "S" 0) × (id ≢ uid host "S" 1)
      → id ≢ uid host "S" (ids_taken known)
  new_id none id f = f.1
  new_id (some p) id f = f.0

  -- A session that starts at a free seat, with a fresh id.
  arrivals :
      (new : Session) (known : Option Profile)
      → new.id ≡ uid host "S" (ids_taken known)
      → (ys : List Session) → All (λ s. (s.id ≢ uid host "S" 0) × (s.id ≢ uid host "S" 1)) ys
      → any (occupies new.table_id new.seat none) ys ≡ false
      → All (λ y. SeatsApart y new) ys
  unfolding occupies
  arrivals new known e [] f h = tt
  arrivals new known e (y ∷ ys) (f, fs) h =
      let free : occupies new.table_id new.seat none y ≡ false = (or-false h).0 in
      (
        record {
          ids = λ q. new_id known y.id f (q ∙ e);
          seats = λ a b t n.
              let same_table = (eq_iff y.table_id new.table_id).1 t in absurd (ground arith);
        },
        arrivals new known e ys fs (or-false h).1,
      )

  SessionStep-SeatsExclusive :
      (store' : Store)
      → HasFreshIds host store
      → SessionStep host store actor time store'
      → SeatsExclusive store
      → SeatsExclusive store'
  unfolding swap_audit audit new_session
  SessionStep-SeatsExclusive store' fresh (kept e) apart = rw e apart
  SessionStep-SeatsExclusive store' fresh (arrival day c d) apart = rw d.result (
      Pairwise-append SeatsApart store.sessions _ apart (
        arrivals (new_session host (ids_taken d.known) c d.profile.id day time) d.known refl
          store.sessions fresh d.free.seat_free))
  SessionStep-SeatsExclusive store' fresh (transfer c d) apart = rw d.result (
      seated-SeatsApart (plays c.player_id) (sit_at c.table_id c.seat) store.sessions d.playing refl
        (all-LeavesFree c.table_id c.seat d.session.id store.sessions d.free.seat_free) apart)
  SessionStep-SeatsExclusive store' fresh (exchange day f g d) apart =
      let two : f.session_id ≢ g.session_id =
        λ e. let t = (eq_iff _ _).1 e in let x = d.distinct in absurd (ground arith) in
      rw d.result (
        swap_sessions-SeatsApart day f g two store.sessions apart
          (check_participant-seated store day f d.first_seated)
          (check_participant-seated store day g d.second_seated) d.free)
  SessionStep-SeatsExclusive store' fresh (posting r id known v e) apart =
      rw e (posted_sessions-SeatsApart store r time apart r.type refl v)

-- No two players who are playing sit in one seat: if the sessions have different ids and those that
-- are active differ in table or seat, then so it is after every successful command, be it a check-in,
-- a move, a swap of two seats or a reversed cash-out. The ids that a check-in draws are to be fresh.
pub apply_command-SeatsExclusive :
    (host : Host) (store : Store) (input : Command) (actor : Staff) (time : String) {store' : Store}
    → HasFreshIds host store
    → apply_command host store input actor time ≡ ok store'
    → SeatsExclusive store
    → SeatsExclusive store'
apply_command-SeatsExclusive host store input actor time fresh h apart =
    SessionStep-SeatsExclusive host store actor time _ fresh
      (Applied-SessionStep host store actor time _ _
        ((apply_command-done host store actor time input).at h).done)
      apart
