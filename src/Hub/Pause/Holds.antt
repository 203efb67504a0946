-- ===== src/Hub/Pause/Holds.antt =====
-- A pause ends once, with its last hold.
use briska_blast.Common.{
  ℕ, ◌+◌, ◌≡◌, refl, String, true, false, List, [], ◌∷◌, string_eq, arith, if◌then◌else◌,
}
use briska_blast.Common.Dict
use briska_blast.Hub.Data.{Room}
use briska_blast.Hub.Pause.{clear_in}

-- How often the room is told to resume, over a sequence of releases: the rejoiners' readiness,
-- their disconnects and the valves.
unfoldable pub clear_all : Room → List String → ℕ × Room
clear_all room [] = (0, room)
clear_all room (p ∷ ps) =
    let (resumed, room') = clear_in room p in
    let (n, room'') = clear_all room' ps in ((if resumed then 1 else 0) + n, room'')

clear_all-running :
    (room : Room) (ps : List String)
    → Dict.is_empty room.paused_for ≡ true
    → ((clear_all room ps).0 ≡ 0) × (Dict.is_empty (clear_all room ps).1.paused_for ≡ true)
unfolding clear_all clear_in
clear_all-running room [] e = (refl, e)
clear_all-running room (p ∷ ps) e = ground (
  arith,
  clear_all-running (record room { paused_for = Dict.remove room.paused_for p }) ps,
  Dict.remove-is_empty room.paused_for p e,
  Dict.contains_key-is_empty room.paused_for p e,
)

-- From a paused match the releases resume it once if they take the last hold away, and never
-- otherwise.
pub clear_all-once :
    (room : Room) (ps : List String)
    → Dict.is_empty room.paused_for ≡ false
    → (clear_all room ps).0 ≡ (if Dict.is_empty (clear_all room ps).1.paused_for then 1 else 0)
unfolding clear_all clear_in
clear_all-once room [] e = ground arith
clear_all-once room (p ∷ ps) e = ground (
  arith,
  clear_all-once (record room { paused_for = Dict.remove room.paused_for p }) ps,
  clear_all-running (record room { paused_for = Dict.remove room.paused_for p }) ps,
  Dict.is_empty-remove room.paused_for p,
)
