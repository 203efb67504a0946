-- ===== src/Hub/Grace/Race.antt =====
-- The handoff of a grace entry between the player's return and its timer.
use briska_blast.Common.{
  ℕ, ◌+◌, ◌≤◌, ◌≡◌, String, Bool, true, false, ◌&&◌, Option, some, List, [], ◌∷◌, ◌==◌, ==_iff,
  string_eq, arith, if◌then◌else◌,
}
use briska_blast.Common.Dict
use briska_blast.Hub.Data.{Hub, GraceKind, GraceKey, grace_key_eq, room_or_default}
use briska_blast.Hub.Rooms.{join_room}
use briska_blast.Hub.Grace.{key, is_present, insert_grace, arm_unless, arm_grace, take_grace}

-- A drop that wants a timer, or a claim: of the returning player or of the timer.
pub data Event : Type 0 where
  arm take : String → String → GraceKind → Event

-- How many claims of one key succeed over a sequence of events on any keys.
unfoldable pub run_grace : GraceKey → Hub → List Event → ℕ × Hub
run_grace k h [] = (0, h)
run_grace k h (arm code p kind ∷ es) = run_grace k (arm_grace h code p kind).1 es
run_grace k h (take code p kind ∷ es) =
    let (won, h') = take_grace h code p kind in
    let (n, h'') = run_grace k h' es in
    ((if won && key_beq_at k code p kind then 1 else 0) + n, h'')
  where
    key_beq_at : GraceKey → String → String → GraceKind → Bool
    key_beq_at k code p kind = key code p kind == k

abbrev pub pending : GraceKey → Hub → ℕ
pending k h = if Dict.contains_key h.grace k then 1 else 0

abbrev pub arms : GraceKey → List Event → ℕ
arms k [] = 0
arms k (arm code p kind ∷ es) = (if key code p kind == k then 1 else 0) + arms k es
arms k (take code p kind ∷ es) = arms k es

pending-arm :
    (k : GraceKey) (h : Hub) (code p : String) (kind : GraceKind)
    → pending k (arm_grace h code p kind).1 ≤ (if key code p kind == k then 1 else 0) + pending k h
unfolding arm_grace arm_unless insert_grace
pending-arm k h code p kind =
    ground (arith, Dict.contains_key-insert h.grace (key code p kind) h.next_timer k)

pending-take :
    (k : GraceKey) (h : Hub) (code p : String) (kind : GraceKind)
    → (if (take_grace h code p kind).0 && (key code p kind == k) then 1 else 0)
        + pending k (take_grace h code p kind).1
      ≡ pending k h
unfolding take_grace
pending-take k h code p kind =
    ground (arith, Dict.contains_key-remove h.grace (key code p kind) k, ==_iff (key code p kind) k)

-- Whatever drops, returns and timers there are and in whatever order, a key is claimed at most
-- once for each time that it was armed: of a return and a timer that claim one entry, one wins.
pub run_grace-bound :
    (k : GraceKey) (h : Hub) (es : List Event)
    → (run_grace k h es).0 + pending k (run_grace k h es).1 ≤ arms k es + pending k h
unfolding run_grace
run_grace-bound k h [] = ground arith
run_grace-bound k h (arm code p kind ∷ es) =
    ground (arith, run_grace-bound k (arm_grace h code p kind).1 es, pending-arm k h code p kind)
run_grace-bound k h (take code p kind ∷ es) =
    ground (arith, run_grace-bound k (take_grace h code p kind).1 es, pending-take k h code p kind)

-- The hub once the player is back: `join_room`, then the claim that finds nothing to cancel yet.
abbrev pub returned : Hub → String → String → GraceKind → Hub
returned h code p kind = (take_grace (join_room h code p).1 code p kind).1

-- `arm_grace` whose look at the rooms comes before that return, and whose write comes after it.
unfoldable pub arm_late : Hub → String → String → GraceKind → Option ℕ × Hub
unfolding arm_unless
arm_late h code p kind =
    arm_unless (is_present h code p) (insert_grace (returned h code p kind) code p kind)
      (returned h code p kind)

-- A return that comes between the two halves of `arm_grace` leaves the player connected with a
-- timer that will claim its entry, although `arm_grace` is not to arm for a connected player.
pub arm_late-present :
    (h : Hub) (code p : String) (kind : GraceKind)
    → is_present h code p ≡ false
    → (is_present (arm_late h code p kind).1 code p ≡ true)
      × ((take_grace (arm_late h code p kind).1 code p kind).0 ≡ true)
unfolding arm_late arm_unless insert_grace take_grace is_present join_room
arm_late-present h code p kind gone =
    let room = record (room_or_default h code) {
      senders = Dict.insert (room_or_default h code).senders p h.next_conn_id;
    } in
    ground (
      arith,
      Dict.get-insert_self h.rooms code room,
      Dict.get-insert_self (room_or_default h code).senders p h.next_conn_id,
      Dict.get-insert_self (Dict.remove h.grace (key code p kind)) (key code p kind) h.next_timer,
    )

-- With nothing between its halves, `arm_grace` arms when the player has no connection, and what
-- it arms can be claimed once.
pub arm_grace-absent :
    (h : Hub) (code p : String) (kind : GraceKind)
    → is_present h code p ≡ false
    → ((arm_grace h code p kind).0 ≡ some h.next_timer)
      × ((take_grace (arm_grace h code p kind).1 code p kind).0 ≡ true)
      × ((take_grace (take_grace (arm_grace h code p kind).1 code p kind).1 code p kind).0 ≡ false)
unfolding arm_grace arm_unless insert_grace take_grace
arm_grace-absent h code p kind gone = ground (
  arith,
  Dict.get-insert_self h.grace (key code p kind) h.next_timer,
  Dict.get-remove_self (Dict.insert h.grace (key code p kind) h.next_timer) (key code p kind),
)
