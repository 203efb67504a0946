-- ===== src/Hub/Examples.antt =====
-- Concrete cases.
use briska_blast.Common.{
  ℕ, ◌+◌, ◌≤◌, ◌≡◌, ◌↔◌, refl, String, Bool, true, false, none, List, [], ◌∷◌, ◌||◌, string_eq,
  nat_eq, ℤ, pos, arith, if◌then◌else◌, Bool-cases, inl, inr,
}
use briska_blast.Common.Dict
use briska_blast.Hub.Data.{Hub, Room, Names, empty, put_room, empty_room, promotion, GraceKey}
use briska_blast.Protocol.{ServerMsg}
use briska_blast.Hub.Rooms.{join_room, broadcast}
use briska_blast.Hub.Rooms.Laws.{reaches, IsReached, reaches-broadcast}
use briska_blast.Hub.Scores.Winner.{Race, Ends, report_all, report_all-Ends}
use briska_blast.Hub.Barrier.{everyone_ready}
use briska_blast.Hub.Barrier.Latch.{
  Event, ready, valve, run_barrier, fires, gathers, run_barrier-exact,
}
use briska_blast.Hub.Pause.Holds.{clear_all, clear_all-once}
use briska_blast.Hub.Grace.{key, is_present, take_grace}
use briska_blast.Hub.Grace.Race.{
  arm, take, run_grace, pending, arms, run_grace-bound, arm_late, arm_late-present,
  arm_grace-absent,
}
use briska_blast.Hub.Grace.Race

abbrev abc : String
abc = "ABC"

abbrev two : String
two = "2"

abbrev no_names : Names
no_names = Dict.empty

abbrev idle : Hub
idle = empty

abbrev lone : Hub
lone = (join_room idle abc two).1

abbrev everyone : ℕ → Bool
everyone c = true

abbrev names : List String
names = two ∷ "3" ∷ []

reaches-broadcast_example :
    (reaches (broadcast everyone lone abc ServerMsg.match_started none) 0 ≡ true)
    ↔ IsReached everyone lone abc none 0
reaches-broadcast_example = reaches-broadcast everyone lone abc ServerMsg.match_started none 0

abbrev arena : Room
arena = record empty_room { win_target = pos 50 }

abbrev playing : Hub
playing = put_room idle abc arena

arena_race : Race 50 arena
unfolding empty_room
arena_race = record {
  target = refl;
  running = refl;
  below = λ p. (0, ground (arith, Dict.get-empty {V = ℤ} p), omega arith);
}

report_all-Ends_example :
    Ends 50
      (report_all playing abc ((two, pos 2) ∷ ("3", pos 7) ∷ [])).1
      abc
      (report_all playing abc ((two, pos 2) ∷ ("3", pos 7) ∷ [])).0
report_all-Ends_example =
    report_all-Ends 50 playing abc arena ((two, pos 2) ∷ ("3", pos 7) ∷ []) (omega arith)
      (Dict.get-insert_self idle.rooms abc arena) arena_race

abbrev gathering : Room
gathering = record empty_room { ready_roster = names }

abbrev arrivals : List Event
arrivals = ready two ∷ ready "3" ∷ valve ∷ []

gathering_lacks : everyone_ready gathering ≡ false
unfolding empty_room
gathering_lacks = ground (arith, Dict.get-empty {V = Unit {0}} two)

not_started : gathering.match_started ≡ false
unfolding empty_room
not_started = refl

run_barrier-exact_example :
    ((run_barrier gathering arrivals).0
      ≡ (if fires arrivals || gathers gathering arrivals then 1 else 0))
    × ((run_barrier gathering arrivals).1.match_started
        ≡ (fires arrivals || gathers gathering arrivals))
run_barrier-exact_example = run_barrier-exact gathering arrivals not_started gathering_lacks

abbrev frozen : Room
frozen = record empty_room { match_started = true; paused_for = Dict.insert Dict.empty two tt }

frozen_paused : Dict.is_empty frozen.paused_for ≡ false
frozen_paused = elim (Bool-cases (Dict.is_empty frozen.paused_for)) [
  | inl e ↦ absurd (
      ground
        (arith, Dict.is_empty-get frozen.paused_for two e, Dict.get-insert_self no_names two tt))
  | inr h ↦ h
]

clear_all-once_example :
    (clear_all frozen (two ∷ two ∷ [])).0
    ≡ (if Dict.is_empty (clear_all frozen (two ∷ two ∷ [])).1.paused_for then 1 else 0)
clear_all-once_example = clear_all-once frozen (two ∷ two ∷ []) frozen_paused

abbrev slot : GraceKey
slot = key abc two promotion

abbrev moves : List Race.Event
moves = arm abc two promotion ∷ take abc two promotion ∷ take abc two promotion ∷ []

run_grace-bound_example :
    (run_grace slot idle moves).0 + pending slot (run_grace slot idle moves).1
    ≤ arms slot moves + pending slot idle
run_grace-bound_example = run_grace-bound slot idle moves

two_absent : is_present idle abc two ≡ false
unfolding is_present
two_absent = ground (arith, Dict.get-empty {V = Room} abc)

arm_late-present_example :
    (is_present (arm_late idle abc two promotion).1 abc two ≡ true)
    × ((take_grace (arm_late idle abc two promotion).1 abc two promotion).0 ≡ true)
arm_late-present_example = arm_late-present idle abc two promotion two_absent
