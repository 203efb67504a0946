-- ===== src/Hub/Grace.antt =====
-- The grace timers. `arm_grace` looks at the rooms under one lock and writes its entry under another,
-- so other calls may come between its two halves; each half is a step of its own here.
pub mod Race
use briska_blast.Common.{
  ℕ, ◌+◌, String, Bool, true, false, Option, none, some, string_eq, nat_eq, ◌==◌, if◌then◌else◌,
}
use briska_blast.Common.Dict
use briska_blast.Hub.Data.{Hub, Room, GraceKind, GraceKey, grace_key_eq, room_at}

abbrev pub key : String → String → GraceKind → GraceKey
key code p kind = record { code = code; player_id = p; kind = kind }

-- `rooms.get(code).is_some_and(|r| r.senders.contains_key(p))`
unfoldable pub is_present : Hub → String → String → Bool
is_present h code p = elim (room_at h code) [
  | none ↦ false
  | some room ↦ Dict.contains_key room.senders p
]

-- `grace.insert(key, tx)`; an older timer under the key is cancelled.
unfoldable pub insert_grace : Hub → String → String → GraceKind → ℕ × Hub
insert_grace h code p kind = (
  h.next_timer,
  record h {
    grace = Dict.insert h.grace (key code p kind) h.next_timer;
    next_timer = h.next_timer + 1;
  },
)

unfoldable pub arm_unless : Bool → ℕ × Hub → Hub → Option ℕ × Hub
arm_unless true (timer, armed) h = (none, h)
arm_unless false (timer, armed) h = (some timer, armed)

-- Both halves, with nothing between them.
unfoldable pub arm_grace : Hub → String → String → GraceKind → Option ℕ × Hub
unfolding is_present insert_grace arm_unless
arm_grace h code p kind = arm_unless (is_present h code p) (insert_grace h code p kind) h

-- `remove(key).is_some()`
unfoldable pub take_grace : Hub → String → String → GraceKind → Bool × Hub
take_grace h code p kind = (
  Dict.contains_key h.grace (key code p kind),
  record h { grace = Dict.remove h.grace (key code p kind) },
)

-- A timer's receiver still waits while its number is stored under its key.
unfoldable pub waits : Hub → String → String → GraceKind → ℕ → Bool
waits h code p kind timer = elim (Dict.get h.grace (key code p kind)) [
  | none ↦ false
  | some n ↦ n == timer
]
