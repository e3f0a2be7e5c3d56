-- ===== src/Operations/Apply/Floor/Seats.antt =====
-- What a posting and a change of a table do to the tables of those who play.
use poker_management_system.Common.{
  ◌≡◌, refl, ◌⊎◌, inl, inr, String, Bool, true, false, not, ◌&&◌, ◌||◌, Option, none, some, List,
  [], ◌∷◌, ◌++◌, any, find, update_first, All, arith, if◌then◌else◌, Bool-cases,
}
use poker_management_system.Common.Lists.Laws.{All-update_first, find-holds}
use poker_management_system.Common.Text.Laws.{opt_eq-eq}
use poker_management_system.Common.Text.{◌=ₜ◌, opt_eq}
use text.Mathlib.TextEquality.{eq_iff}
use poker_management_system.Common.Result.{ok, Ensures, Ensures-bind}
use poker_management_system.Model.{
  Store, Staff, Session, TableRecord, Transaction, TxType, entry, reversal, cash_out,
  ApprovalRequest, is_active, is_open, is_entry,
}
use poker_management_system.Commands.{TableCommand}
use poker_management_system.Ledger.Impact.{transaction_of}
use poker_management_system.Operations.Guards.{Host, has_open_table}
use poker_management_system.Operations.Ensures.{found}
use poker_management_system.Operations.Entry.{
  session_of, validate_entry, check_visit, posted_sessions, end_visit, reopen_visit,
}
use poker_management_system.Operations.Entry.Done.{validate_reversal-done}
use poker_management_system.Operations.Venue.{next_table, put_table}
use poker_management_system.Operations.Venue.Done as V
use poker_management_system.Operations.Seating.Done.{ensure_seat-SeatFree}

abbrev pub AtOpenTable : List TableRecord → Session → Type 0
AtOpenTable tables s = (is_active s.status ≡ false) ⊎ (has_open_table tables s.table_id ≡ true)

abbrev pub AllAtOpenTables : Store → Type 0
AllAtOpenTables store = All (AtOpenTable store.tables) store.sessions

module _ {A : Type 0} (q : A → Bool) where
  any-append : (xs : List A) (y : A) → any q xs ≡ true → any q (xs ++ (y ∷ [])) ≡ true
  any-append [] y h = cc
  any-append (x ∷ xs) y h = ground (arith, any-append xs y)

  any-update_first :
      (p : A → Bool) (next : A) (xs : List A) {old : A}
      → find p xs ≡ some old
      → q next ≡ true
      → any q (update_first p (λ _. next) xs) ≡ true
  any-update_first p next [] h t = cc
  any-update_first p next (x ∷ xs) h t = elim (Bool-cases (p x)) [
    | inl y ↦ rw y (ground arith)
    | inr n ↦ rw n (let e = rw n at h in let r = any-update_first p next xs e t in ground arith)
  ]

  any-update_first_other :
      (p : A → Bool) (f : A → A) (xs : List A)
      → ((x : A) → p x ≡ true → q x ≡ false)
      → any q xs ≡ true
      → any q (update_first p f xs) ≡ true
  any-update_first_other p f [] k h = cc
  any-update_first_other p f (x ∷ xs) k h = elim (Bool-cases (p x)) [
    | inl y ↦ rw y (let m = k x y in ground arith)
    | inr n ↦ rw n (let r = any-update_first_other p f xs k in ground arith)
  ]

-- A repeated write of the seat.
pub update-AtOpenTable :
    (tables : List TableRecord) (p : Session → Bool) (f : Session → Session) (xs : List Session)
    → ((s : Session) → AtOpenTable tables (f s))
    → All (AtOpenTable tables) xs
    → All (AtOpenTable tables) (update_first p f xs)
update-AtOpenTable tables p f [] k a = tt
update-AtOpenTable tables p f (x ∷ xs) k (a, as') = elim (Bool-cases (p x)) [
  | inl y ↦ rw y (k x, as')
  | inr n ↦ rw n (a, update-AtOpenTable tables p f xs k as')
]

record VisitOpen (store : Store) (o : Option Session) : Type 0 where
  session : Session
  is_session : o ≡ some session
  table_open : has_open_table store.tables session.table_id ≡ true

-- The visit that the reversal of a cash-out reopens is at an open table.
check_visit-VisitOpen :
    (store : Store) (o : Option Session) (tx : Transaction)
    → tx.type ≡ entry cash_out
    → Ensures (λ _. VisitOpen store o) (check_visit store o tx)
unfolding check_visit
check_visit-VisitOpen store o tx e =
    rw (e, check_visit)
      (Ensures-bind λ s p. Ensures-bind λ _ q. record {
        at = λ r. record {
          session = s;
          is_session = found _ _ p;
          table_open = ((ensure_seat-SeatFree _ _ _ _).at r).table_open;
        };
      })

entry_of_test : (t : TxType) → is_entry cash_out t ≡ true → t ≡ entry cash_out
entry_of_test reversal h = cc
entry_of_test (entry type) h = ground arith

module _ (store : Store) (r : ApprovalRequest) (time : String) (all : AllAtOpenTables store) where
  abbrev of_visit : Session → Bool
  of_visit s = opt_eq (some s.id) r.session_id

  reopened :
      (tx : Transaction)
      → check_visit store (session_of store r.session_id) tx ≡ ok tt
      → All (AtOpenTable store.tables) (
          if is_entry cash_out tx.type
          then update_first of_visit reopen_visit store.sessions
          else store.sessions)
  unfolding session_of reopen_visit
  reopened tx v = elim (Bool-cases (is_entry cash_out tx.type)) [
    | inl y ↦ rw y (
        let o =
          (check_visit-VisitOpen store (session_of store r.session_id) tx
              (entry_of_test tx.type y)).at
            v in
        All-update_first (AtOpenTable store.tables) of_visit reopen_visit store.sessions
          o.is_session (λ _. inr o.table_open) all)
    | inr n ↦ rw n all
  ]

  pub posted_sessions-AtOpenTable :
      (type : TxType)
      → r.type ≡ type
      → validate_entry store r ≡ ok tt
      → All (AtOpenTable store.tables) (
          posted_sessions type
            (transaction_of store r.reverses_id)
            r.session_id
            time
            store.sessions)
  unfolding posted_sessions end_visit validate_entry
  posted_sessions-AtOpenTable reversal e v =
      let d = (validate_reversal-done store r).at (rw (e, validate_entry) at v) in
      rw d.original (reopened d.tx d.visit)
  posted_sessions-AtOpenTable (entry cash_out) e v =
      update-AtOpenTable store.tables of_visit (end_visit time) store.sessions (λ s. inl refl) all
  posted_sessions-AtOpenTable (entry _) e v = all

-- A table that is saved stays open for those who play at it.
module _ (host : Host) (store : Store) (actor : Staff) (time : String) (c : TableCommand) where
  put_table-AtOpenTable :
      (old : Option TableRecord)
      → find (λ t. opt_eq (some t.id) c.table_id) store.tables ≡ old
      → (s : Session)
      → (is_open c.status || not (opt_eq (some s.table_id) c.table_id && is_active s.status)) ≡ true
      → AtOpenTable store.tables s
      → AtOpenTable (put_table old c.table_id (next_table host old c) store.tables) s
  unfolding put_table next_table has_open_table
  put_table-AtOpenTable old e s k (inl idle) = inl idle
  put_table-AtOpenTable none e s k (inr here) = inr (any-append _ store.tables _ here)
  put_table-AtOpenTable (some t) e s k (inr here) =
      elim (Bool-cases (opt_eq (some s.table_id) c.table_id)) [
        | inl y ↦ elim (Bool-cases (is_active s.status)) [
          | inr idle ↦ inl idle
          | inl playing ↦
              let known =
                opt_eq-eq (some t.id) c.table_id (
                  find-holds (λ (x : TableRecord). opt_eq (some x.id) c.table_id) store.tables e) in
              let its : some s.table_id ≡ c.table_id = opt_eq-eq _ _ y in
              let one : t.id ≡ s.table_id = cc in
              let same_id : (t.id =ₜ s.table_id) ≡ true = (eq_iff _ _).1 one in
              let is_still_open : is_open c.status ≡ true = ground arith in
              inr (any-update_first _ _ _ store.tables e (ground arith))
        ]
        | inr n ↦ inr (any-update_first_other _ _ _ store.tables (λ x h. other x h n) here)
      ]
    where
      other :
          (x : TableRecord)
          → opt_eq (some x.id) c.table_id ≡ true
          → opt_eq (some s.table_id) c.table_id ≡ false
          → ((x.id =ₜ s.table_id) && is_open x.status) ≡ false
      other x h n = elim (Bool-cases (x.id =ₜ s.table_id)) [
        | inr f ↦ rw f refl
        | inl same_id ↦
            let one : x.id ≡ s.table_id = (eq_iff _ _).0 same_id in
            absurd (let g = rw one at h in cc)
      ]

  pub saved-AtOpenTable :
      (xs : List Session)
      → (is_open c.status
          || not (any (λ s. opt_eq (some s.table_id) c.table_id && is_active s.status) xs))
        ≡ true
      → All (AtOpenTable store.tables) xs
      → All
          (AtOpenTable (
            put_table
              (V.old_table host store actor time c)
              c.table_id
              (next_table host (V.old_table host store actor time c) c)
              store.tables))
          xs
  saved-AtOpenTable [] k a = tt
  saved-AtOpenTable (s ∷ xs) k (a, as') = (
    put_table-AtOpenTable (V.old_table host store actor time c) refl s (ground arith) a,
    saved-AtOpenTable xs (ground arith) as',
  )
