-- ===== src/Operations/Seating/Done.antt =====
-- What a successful seating command has checked and done: `CHECK_IN`, `MOVE` and `SWAP_SEATS`.
use poker_management_system.Common.{
  ℕ, ◌+◌, ◌≡◌, refl, String, Bool, true, false, not, ◌&&◌, ◌||◌, Option, none, some, [], ◌∷◌, ◌++◌,
  any, find, update_first,
}
use poker_management_system.Common.Text.{◌=ₜ◌, opt_eq}
use poker_management_system.Common.Result.{ok, Ensures, Ensures-ok, Ensures-bind}
use poker_management_system.Model.{
  Store, Staff, Day, VenueSettings, Profile, Session, is_active, is_pending, has_role, text,
  json_swap,
}
use poker_management_system.Commands.{CheckIn, Move, SeatSwapParticipant}
use poker_management_system.Operations.Guards.{
  Host, uid, cashiers, ensure_seat, occupies, has_open_table, audit,
}
use poker_management_system.Operations.Ensures.{passed, refuted, permitted, found}
use poker_management_system.Operations.Seating.{
  apply_check_in, known_player, checked_player, with_player, new_session, ids_taken, apply_move,
  plays, sit_at, seat_text, apply_swap_seats, check_participant, has_request, sits_at,
  swap_sessions, swap_audit,
}

pub record SeatFree (store : Store) (table_id : String) (seat : ℕ) (session_id : Option String)
    : Type 0 where
  pub table_open : has_open_table store.tables table_id ≡ true
  pub seat_free : any (occupies table_id seat session_id) store.sessions ≡ false

pub ensure_seat-SeatFree :
    (store : Store) (table_id : String) (seat : ℕ) (session_id : Option String)
    → Ensures
        (λ _. SeatFree store table_id seat session_id)
        (ensure_seat store table_id seat session_id)
unfolding ensure_seat
ensure_seat-SeatFree store table_id seat session_id =
    Ensures-bind λ _ p. record {
      at = λ q. record { table_open = passed _ _ _ p; seat_free = refuted _ _ _ q };
    }

module _ (host : Host) (store : Store) (actor : Staff) (time : String) where
  pub record CheckedIn (day : Day) (c : CheckIn) (store' : Store) : Type 0 where
    pub phone : String
    pub known : Option Profile
    pub profile : Profile
    pub allowed : has_role cashiers actor.role ≡ true
    pub is_known : known_player store c phone ≡ ok known
    pub is_profile : checked_player host actor c phone known ≡ ok profile
    pub not_playing : any (plays profile.id) store.sessions ≡ false
    pub free : SeatFree store c.table_id c.seat none
    pub result :
        store'
        ≡ audit host
            (ids_taken known + 1)
            actor
            time
            "Checked in player"
            profile.id
            (seat_text c.table_id c.seat)
            none
            none
            (record store {
              profiles = with_player known profile store.profiles;
              sessions =
                  store.sessions ++ (new_session host (ids_taken known) c profile.id day time ∷ []);
            })

  pub check_in-done :
      (day : Day) (settings : VenueSettings) (c : CheckIn)
      → Ensures (CheckedIn day c) (apply_check_in host store day settings actor time c)
  unfolding apply_check_in
  check_in-done day settings c = Ensures-bind λ _ p. Ensures-bind λ phone q. Ensures-bind λ known r.
      Ensures-bind λ _ s. Ensures-bind λ profile t. Ensures-bind λ _ u. Ensures-bind λ _ v.
        Ensures-bind λ _ w. Ensures-ok (record {
          phone = phone;
          known = known;
          profile = profile;
          allowed = permitted _ _ p;
          is_known = r;
          is_profile = t;
          not_playing = refuted _ _ _ v;
          free = (ensure_seat-SeatFree _ _ _ _).at w;
          result = refl;
        })

  pub record Moved (c : Move) (store' : Store) : Type 0 where
    pub session : Session
    pub allowed : has_role cashiers actor.role ≡ true
    pub playing : find (plays c.player_id) store.sessions ≡ some session
    pub no_requests :
        any (λ r. opt_eq r.session_id (some session.id) && is_pending r.status) store.approvals
        ≡ false
    pub free : SeatFree store c.table_id c.seat (some session.id)
    pub result :
        store'
        ≡ audit host 0 actor time "Moved player" session.player_id
            (text "Seat transfer")
            (some (seat_text session.table_id session.seat))
            (some (seat_text c.table_id c.seat))
            (record store {
              sessions = update_first (plays c.player_id) (sit_at c.table_id c.seat) store.sessions;
            })

  pub move-done : (c : Move) → Ensures (Moved c) (apply_move host store actor time c)
  unfolding apply_move
  move-done c = Ensures-bind λ _ p. Ensures-bind λ session q. Ensures-bind λ _ r.
      Ensures-bind λ _ s. Ensures-ok (record {
        session = session;
        allowed = permitted _ _ p;
        playing = found _ _ q;
        no_requests = refuted _ _ _ r;
        free = (ensure_seat-SeatFree _ _ _ _).at s;
        result = refl;
      })

  -- Somebody who takes no part in the swap and sits in one of its seats.
  abbrev pub intrudes : SeatSwapParticipant → SeatSwapParticipant → Session → Bool
  intrudes first second s =
      is_active s.status
      && not ((first.session_id =ₜ s.id) || (second.session_id =ₜ s.id))
      && (sits_at first s || sits_at second s)

  pub record Swapped (day : Day) (first second : SeatSwapParticipant) (store' : Store)
      : Type 0 where
    pub allowed : has_role cashiers actor.role ≡ true
    pub distinct :
        (not (first.player_id =ₜ second.player_id) && not (first.session_id =ₜ second.session_id))
        ≡ true
    pub first_seated : check_participant store day first ≡ ok tt
    pub second_seated : check_participant store day second ≡ ok tt
    pub tables_open :
        (has_open_table store.tables first.table_id && has_open_table store.tables second.table_id)
        ≡ true
    pub no_requests :
        any
          (λ r. is_pending r.status && (has_request first r || has_request second r))
          store.approvals
        ≡ false
    pub free : any (intrudes first second) store.sessions ≡ false
    pub result :
        store'
        ≡ swap_audit host 2 actor time
            (json_swap (uid host "SWAP" 0) first.player_id second.player_id)
            second
            first
            (swap_audit host 1 actor time
              (json_swap (uid host "SWAP" 0) first.player_id second.player_id)
              first
              second
              (record store { sessions = swap_sessions day first second store.sessions }))

  pub swap_seats-done :
      (day : Day) (first second : SeatSwapParticipant)
      → Ensures (Swapped day first second) (apply_swap_seats host store day actor time first second)
  unfolding apply_swap_seats
  swap_seats-done day first second = Ensures-bind λ _ p. Ensures-bind λ _ q. Ensures-bind λ _ r.
      Ensures-bind λ _ s. Ensures-bind λ _ t. Ensures-bind λ _ u. Ensures-bind λ _ v.
        Ensures-bind λ _ w. Ensures-ok (record {
          allowed = permitted _ _ p;
          distinct = passed _ _ _ q;
          first_seated = s;
          second_seated = t;
          tables_open = passed _ _ _ u;
          no_requests = refuted _ _ _ v;
          free = refuted _ _ _ w;
          result = refl;
        })
