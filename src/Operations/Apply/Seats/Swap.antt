-- ===== src/Operations/Apply/Seats/Swap.antt =====
-- The exchange of two seats keeps the seats apart.
use poker_management_system.Common.{
  ℕ, ◌≡◌, ◌≢◌, refl, sym, ap, ◌∙◌, String, Bool, true, false, List, [], ◌∷◌, any, inl, inr, map,
  All, Pairwise, arith, if◌then◌else◌, Bool-cases, ◌&&◌, ◌||◌, not,
}
use poker_management_system.Common.Lists.Laws.{All-map, any-none}
use poker_management_system.Common.Text.Laws.{test_of_ne}
use poker_management_system.Common.Text.{◌=ₜ◌}
use text.Mathlib.TextEquality.{eq_iff}
use poker_management_system.Model.{Session, Day, is_active}
use poker_management_system.Commands.{SeatSwapParticipant}
use poker_management_system.Operations.Seating.{is_seated, sit_at, sits_at, swap_sessions}
use poker_management_system.Operations.Apply.Seats.Writes.{SeatsApart}
use poker_management_system.Operations.Apply.Seats.Maps.{
  OtherIds, Pairwise-map, its_test, update_first-map, trivial, map-any, map-map,
}

module _ (day : Day) (first second : SeatSwapParticipant)
    (two : first.session_id ≢ second.session_id) where
  abbrev to_second : Session → Session
  to_second s = if s.id =ₜ first.session_id then sit_at second.table_id second.seat s else s

  abbrev to_first : Session → Session
  to_first s = if s.id =ₜ second.session_id then sit_at first.table_id first.seat s else s

  -- Somebody else who is playing at one of the two seats.
  abbrev intruder : Session → Bool
  intruder s =
      is_active s.status
      && not ((first.session_id =ₜ s.id) || (second.session_id =ₜ s.id))
      && (sits_at first s || sits_at second s)

  only_first : (s : Session) → is_seated day first s ≡ true → s.id ≡ first.session_id
  unfolding is_seated
  only_first s h = let t : (s.id =ₜ first.session_id) ≡ true = ground arith in (eq_iff _ _).0 t

  only_second : (s : Session) → is_seated day second s ≡ true → s.id ≡ second.session_id
  unfolding is_seated
  only_second s h = let t : (s.id =ₜ second.session_id) ≡ true = ground arith in (eq_iff _ _).0 t

  record Known (s : Session) : Type 0 where
    is_first : s.id ≡ first.session_id → is_seated day first s ≡ true
    is_second : s.id ≡ second.session_id → is_seated day second s ≡ true
    no_intruder : intruder s ≡ false

  abbrev IsAt : String → ℕ → Session → Type 0
  IsAt table_id seat s = (s.table_id ≡ table_id) × (s.seat ≡ seat)

  -- Where a session was, and where it is after the exchange.
  data Placed (s s' : Session) : Type 0 where
    first_one :
        s.id ≡ first.session_id
        → IsAt first.table_id first.seat s
        → IsAt second.table_id second.seat s'
        → Placed s s'
    second_one :
        s.id ≡ second.session_id
        → IsAt second.table_id second.seat s
        → IsAt first.table_id first.seat s'
        → Placed s s'
    another :
        s' ≡ s
        → (is_active s.status ≡ true → ¬ IsAt first.table_id first.seat s)
        → (is_active s.status ≡ true → ¬ IsAt second.table_id second.seat s)
        → Placed s s'

  place_of :
      (p : SeatSwapParticipant) (s : Session) → is_seated day p s ≡ true → IsAt p.table_id p.seat s
  unfolding is_seated
  place_of p s h =
      let at_table : (s.table_id =ₜ p.table_id) ≡ true = ground arith in
      ((eq_iff _ _).0 at_table, ground arith)

  sits_there :
      (p : SeatSwapParticipant) (s : Session) → IsAt p.table_id p.seat s → sits_at p s ≡ true
  unfolding sits_at
  sits_there p s (t, n) = let at_table = (eq_iff s.table_id p.table_id).1 t in ground arith

  exchanged-Placed : (s : Session) → Known s → Placed s (to_first (to_second s))
  exchanged-Placed s k = elim (Bool-cases (s.id =ₜ first.session_id)) [
    | inl e ↦
        let its = (eq_iff _ _).0 e in
        let other = test_of_ne s.id second.session_id (λ q. two (sym its ∙ q)) in
        rw (e, other) (first_one its (place_of first s (k.is_first its)) (refl, refl))
    | inr n ↦ elim (Bool-cases (s.id =ₜ second.session_id)) [
      | inl e ↦
          let its = (eq_iff _ _).0 e in
          rw (n, e) (second_one its (place_of second s (k.is_second its)) (refl, refl))
      | inr m ↦
          let f = test_of_ne first.session_id s.id (λ q. let g = (eq_iff _ _).1 (sym q) in cc) in
          let g = test_of_ne second.session_id s.id (λ q. let g = (eq_iff _ _).1 (sym q) in cc) in
          rw (n, m)
            (another refl
              (λ a h.
                let t = sits_there first s h in let x = k.no_intruder in absurd (ground arith))
              (λ a h.
                let t = sits_there second s h in let x = k.no_intruder in absurd (ground arith)))
    ]
  ]

  to_second_same : (s : Session) → (to_second s).id ≡ s.id
  to_second_same s = ground arith

  to_second_keeps :
      (s : Session) → is_seated day second s ≡ true → is_seated day second (to_second s) ≡ true
  to_second_keeps s h =
      let other = test_of_ne s.id first.session_id (λ e. two (sym e ∙ only_second s h)) in
      rw other h

  exchanged : Session → Session
  exchanged s = to_first (to_second s)

  exchanged_same : (s : Session) → ((exchanged s).id ≡ s.id) × ((exchanged s).status ≡ s.status)
  unfolding exchanged
  exchanged_same s = ground arith

  apart_places :
      (s t s' t' : Session)
      → Placed s s'
      → Placed t t'
      → s.id ≢ t.id
      → (s.table_id ≡ t.table_id → s.seat ≢ t.seat)
      → is_active s.status ≡ true
      → is_active t.status ≡ true
      → s'.table_id ≡ t'.table_id
      → s'.seat ≢ t'.seat
  apart_places s t s' t' (first_one i a b) (first_one j c d) n r x y e q = n (i ∙ sym j)
  apart_places s t s' t' (first_one i a b) (second_one j c d) n r x y e q =
      r (a.0 ∙ sym d.0 ∙ sym e ∙ b.0 ∙ sym c.0) (a.1 ∙ sym d.1 ∙ sym q ∙ b.1 ∙ sym c.1)
  apart_places s t s' t' (first_one i a b) (another j c d) n r x y e q =
      let g = ap (λ (z : Session). z.table_id) j in
      let h = ap (λ (z : Session). z.seat) j in d y (sym g ∙ sym e ∙ b.0, sym h ∙ sym q ∙ b.1)
  apart_places s t s' t' (second_one i a b) (first_one j c d) n r x y e q =
      r (a.0 ∙ sym d.0 ∙ sym e ∙ b.0 ∙ sym c.0) (a.1 ∙ sym d.1 ∙ sym q ∙ b.1 ∙ sym c.1)
  apart_places s t s' t' (second_one i a b) (second_one j c d) n r x y e q = n (i ∙ sym j)
  apart_places s t s' t' (second_one i a b) (another j c d) n r x y e q =
      let g = ap (λ (z : Session). z.table_id) j in
      let h = ap (λ (z : Session). z.seat) j in c y (sym g ∙ sym e ∙ b.0, sym h ∙ sym q ∙ b.1)
  apart_places s t s' t' (another i a b) (first_one j c d) n r x y e q =
      let g = ap (λ (z : Session). z.table_id) i in
      let h = ap (λ (z : Session). z.seat) i in b x (sym g ∙ e ∙ d.0, sym h ∙ q ∙ d.1)
  apart_places s t s' t' (another i a b) (second_one j c d) n r x y e q =
      let g = ap (λ (z : Session). z.table_id) i in
      let h = ap (λ (z : Session). z.seat) i in a x (sym g ∙ e ∙ d.0, sym h ∙ q ∙ d.1)
  apart_places s t s' t' (another i a b) (another j c d) n r x y e q =
      r (sym (ap (λ (z : Session). z.table_id) i) ∙ e ∙ ap (λ (z : Session). z.table_id) j)
        (sym (ap (λ (z : Session). z.seat) i) ∙ q ∙ ap (λ (z : Session). z.seat) j)

  exchanged-SeatsApart :
      (s t : Session) → Known s → Known t → SeatsApart s t → SeatsApart (exchanged s) (exchanged t)
  unfolding exchanged
  exchanged-SeatsApart s t k l r =
      let (i, a) = exchanged_same s in
      let (j, b) = exchanged_same t in
      record {
        ids = λ e. r.ids (sym i ∙ e ∙ j);
        seats = λ x y.
            let x' = sym (ap is_active a) ∙ x in
            let y' = sym (ap is_active b) ∙ y in
            apart_places s t _ _ (exchanged-Placed s k) (exchanged-Placed t l) r.ids (r.seats x' y')
              x' y';
      }

  all-Known :
      (xs : List Session)
      → All (λ s. s.id ≡ first.session_id → is_seated day first s ≡ true) xs
      → All (λ s. s.id ≡ second.session_id → is_seated day second s ≡ true) xs
      → All (λ s. intruder s ≡ false) xs
      → All Known xs
  all-Known [] a b c = tt
  all-Known (x ∷ xs) (a, as') (b, bs) (c, cs) =
      (record { is_first = a; is_second = b; no_intruder = c }, all-Known xs as' bs cs)

  module _ (xs : List Session) (apart : Pairwise SeatsApart xs) where
    other_ids : Pairwise OtherIds xs
    other_ids = ids_of xs apart
      where
        ids_of : (ys : List Session) → Pairwise SeatsApart ys → Pairwise OtherIds ys
        ids_of [] a = tt
        ids_of (y ∷ ys) (a, as') = (All-map _ (λ z r. r.ids) ys a, ids_of ys as')

    swap_sessions-map :
        any (is_seated day first) xs ≡ true
        → any (is_seated day second) xs ≡ true
        → swap_sessions day first second xs ≡ map exchanged xs
    unfolding swap_sessions exchanged
    swap_sessions-map u v =
        let one =
          update_first-map (is_seated day first) first.session_id only_first
            (sit_at second.table_id second.seat) xs other_ids u in
        let ids =
          Pairwise-map OtherIds OtherIds (λ _. Unit {0}) to_second
            (λ s t _ _ n e. n (sym (to_second_same s) ∙ e ∙ to_second_same t)) xs (trivial xs)
            other_ids in
        let seen = map-any (is_seated day second) to_second to_second_keeps xs v in
        let two_writes =
          update_first-map (is_seated day second) second.session_id only_second
            (sit_at first.table_id first.seat) (map to_second xs) ids seen in
        rw one (two_writes ∙ map-map to_first to_second xs)

    pub swap_sessions-SeatsApart :
        any (is_seated day first) xs ≡ true
        → any (is_seated day second) xs ≡ true
        → any intruder xs ≡ false
        → Pairwise SeatsApart (swap_sessions day first second xs)
    swap_sessions-SeatsApart u v w =
        let a = its_test (is_seated day first) first.session_id only_first xs other_ids u in
        let b = its_test (is_seated day second) second.session_id only_second xs other_ids v in
        rw (swap_sessions-map u v) (
          Pairwise-map SeatsApart SeatsApart Known exchanged exchanged-SeatsApart xs
            (all-Known xs a b (any-none intruder xs w)) apart)
