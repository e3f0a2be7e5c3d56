-- ===== src/Operations/Apply/SeatTests.antt =====
-- The theorem on seats at a swap of two players, and the run that it is about.
use poker_management_system.Common.{◌≡◌, refl, [], ◌∷◌, arith}
use poker_management_system.Common.Text.Laws.{ne_of_test}
use poker_management_system.Common.Result.{ok}
use poker_management_system.Model.{Store, Profile, Session}
use poker_management_system.Commands.{Command, swap_seats}
use poker_management_system.Operations.Seating.{
  apply_swap_seats, check_participant, is_seated, swap_sessions, swap_audit, has_request, sits_at,
}
use poker_management_system.Operations.Apply.{apply_command}
use poker_management_system.Operations.Apply.Seats.{SeatsExclusive, apply_command-SeatsExclusive}
use poker_management_system.Operations.Apply.Tests.{engine, host, ann, bob, visit, playing, after}

abbrev ben : Profile
ben = record bob { id = "P2"; name = "Ben"; phone = "+60123456780" }

abbrev neighbour : Session
neighbour = record visit { id = "S2"; player_id = "P2"; seat = 5 }

abbrev full_table : Store
full_table = record playing {
  profiles = bob ∷ ben ∷ [];
  sessions = visit ∷ neighbour ∷ [];
  approvals = [];
}

abbrev exchange : Command
exchange =
    swap_seats (record { session_id = "S1"; player_id = "P1"; table_id = "T1"; seat = 4 })
      (record { session_id = "S2"; player_id = "P2"; table_id = "T1"; seat = 5 })

run_exchange :
    apply_command host full_table exchange ann "t3"
    ≡ ok (after (apply_command host full_table exchange ann "t3"))
unfolding engine apply_swap_seats check_participant is_seated swap_sessions swap_audit has_request
    sits_at
run_exchange = refl

exchanged_sessions :
    (after (apply_command host full_table exchange ann "t3")).sessions
    ≡ record visit { seat = 5 } ∷ record neighbour { seat = 4 } ∷ []
unfolding engine apply_swap_seats check_participant is_seated swap_sessions swap_audit has_request
    sits_at
exchanged_sessions = refl

full_table-SeatsExclusive : SeatsExclusive full_table
full_table-SeatsExclusive = (
  (record { ids = ne_of_test "S1" "S2" refl; seats = λ a b t n. absurd (omega arith) }, tt),
  (tt, tt),
)

apply_command-SeatsExclusive_example :
    SeatsExclusive (after (apply_command host full_table exchange ann "t3"))
unfolding engine
apply_command-SeatsExclusive_example =
    apply_command-SeatsExclusive host full_table exchange ann "t3"
      (
        (ne_of_test "S1" _ refl, ne_of_test "S1" _ refl),
        ((ne_of_test "S2" _ refl, ne_of_test "S2" _ refl), tt),
      )
      run_exchange full_table-SeatsExclusive
