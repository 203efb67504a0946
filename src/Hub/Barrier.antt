-- ===== src/Hub/Barrier.antt =====
-- The ready barrier: `set_ready_roster`, `record_ready` and `force_match_start`.
pub mod Latch
use briska_blast.Common.{
  String, Bool, true, false, not, Option, none, some, List, any, all, ◌==◌, string_eq,
  if◌then◌else◌,
}
use briska_blast.Common.Dict
use briska_blast.Hub.Data.{Hub, Room, room_at, put_room, room_or_default}

pub data ReadyOutcome : Type 0 where
  pending all_ready already_started not_seated : ReadyOutcome

unfoldable pub set_ready_roster : Hub → String → List String → Hub
set_ready_roster h code roster = put_room h code (record (room_or_default h code) {
  ready_roster = roster;
  ready = Dict.empty;
  match_started = false;
})

-- `ready_roster.iter().all(|p| ready.contains(p))`
abbrev pub everyone_ready : Room → Bool
everyone_ready room = all (λ p. Dict.contains_key room.ready p) room.ready_roster

unfoldable pub ready_in : Room → String → ReadyOutcome × Room
ready_in room p =
    let noted = record room { ready = Dict.insert room.ready p tt } in
    if room.match_started
    then (already_started, room)
    else if not (any (λ q. q == p) room.ready_roster)
    then (not_seated, room)
    else if everyone_ready noted
    then (all_ready, record noted { match_started = true })
    else (pending, noted)

write_back : {O : Type 0} → Hub → String → O × Room → O × Hub
write_back h code (outcome, room) = (outcome, put_room h code room)

unfoldable pub record_ready : Hub → String → String → ReadyOutcome × Hub
unfolding ready_in write_back
record_ready h code p = elim (room_at h code) [
  | none ↦ (not_seated, h)
  | some room ↦ write_back h code (ready_in room p)
]

unfoldable pub force_in : Room → Bool × Room
force_in room =
    if room.match_started then (false, room) else (true, record room { match_started = true })

unfoldable pub force_match_start : Hub → String → Bool × Hub
unfolding force_in write_back
force_match_start h code = elim (room_at h code) [
  | none ↦ (false, h)
  | some room ↦ write_back h code (force_in room)
]
