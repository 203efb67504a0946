-- ===== src/Hub/Pause.antt =====
-- The pause holds: `pause_for` and `clear_pause`.
pub mod Holds
use briska_blast.Common.{
  String, Bool, true, false, not, ◌&&◌, Option, none, some, string_eq, if◌then◌else◌,
}
use briska_blast.Common.Dict
use briska_blast.Hub.Data.{Hub, Room, room_at, put_room}

pub data PauseOutcome : Type 0 where
  paused already_paused not_started : PauseOutcome

unfoldable pub pause_in : Room → String → PauseOutcome × Room
pause_in room p =
    if not room.match_started
    then (not_started, room)
    else if Dict.contains_key room.paused_for p
    then (already_paused, room)
    else (paused, record room { paused_for = Dict.insert room.paused_for p tt })

write_back : {O : Type 0} → Hub → String → O × Room → O × Hub
write_back h code (outcome, room) = (outcome, put_room h code room)

unfoldable pub pause_for : Hub → String → String → PauseOutcome × Hub
unfolding pause_in write_back
pause_for h code p = elim (room_at h code) [
  | none ↦ (not_started, h)
  | some room ↦ write_back h code (pause_in room p)
]

-- `paused_for.remove(p) && paused_for.is_empty()`
unfoldable pub clear_in : Room → String → Bool × Room
clear_in room p = (
  Dict.contains_key room.paused_for p && Dict.is_empty (Dict.remove room.paused_for p),
  record room { paused_for = Dict.remove room.paused_for p },
)

unfoldable pub clear_pause : Hub → String → String → Bool × Hub
unfolding clear_in write_back
clear_pause h code p = elim (room_at h code) [
  | none ↦ (false, h)
  | some room ↦ write_back h code (clear_in room p)
]
