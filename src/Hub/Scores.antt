-- ===== src/Hub/Scores.antt =====
-- The score tally: `set_win_target` and `record_score`. `*entry += points` wraps as a release build
-- does.
pub mod Winner
use briska_blast.Common.{
  ℕ, String, Bool, true, false, ◌&&◌, not, Option, none, some, ℤ, pos, ltb_ℤ, leb_ℤ, min_ℤ, ◌+ℤ◌,
  wrap_i64, if◌then◌else◌, string_eq,
}
use briska_blast.Common.Dict
use briska_blast.Common.Dict.{Dict}
use briska_blast.Hub.Data.{Hub, Room, room_at, put_room, room_or_default}

unfoldable pub set_win_target : Hub → String → ℤ → Hub
set_win_target h code target =
    put_room h code (record (room_or_default h code) { win_target = target; game_over = false })

abbrev pub max_score_points : ℤ
max_score_points = pos 2

-- `scores.entry(p).or_insert(0)`
abbrev pub score_of : Room → String → ℤ
score_of room p = elim (Dict.get room.scores p) [ none ↦ pos 0 | some n ↦ n ]

-- What an accepted report makes of the room, and the player that it makes the winner.
unfoldable pub credit : Room → String → ℤ → Option String × Room
credit room p points =
    let new_total = wrap_i64 (score_of room p +ℤ min_ℤ points max_score_points) in
    let credited = record room { scores = Dict.insert room.scores p new_total } in
    if not room.game_over && (ltb_ℤ (pos 0) room.win_target && leb_ℤ room.win_target new_total)
    then (some p, record credited { game_over = true })
    else (none, credited)

abbrev pub Report : Type 0
Report = Option (Dict String ℤ × Option String)

unfoldable pub accept : Hub → String → Option String × Room → Report × Hub
accept h code (winner, room) = (some (room.scores, winner), put_room h code room)

unfoldable pub report_in : Hub → String → Room → String → ℤ → Report × Hub
report_in h code room p points =
    if not (Dict.contains_key room.senders p)
    then (none, h)
    else if leb_ℤ points (pos 0)
    then (none, h)
    else accept h code (credit room p points)

unfoldable pub record_score : Hub → String → String → ℤ → Report × Hub
unfolding report_in accept
record_score h code p points = elim (room_at h code) [
  | none ↦ (none, h)
  | some room ↦ report_in h code room p points
]
