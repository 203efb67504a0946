-- ===== src/Hub/Rooms.antt =====
-- Connections: `join_room`, `leave_room`, `send_to`, `broadcast`, `room_members`, and the cached ICE
-- servers.
pub mod Laws
pub mod Messages
use briska_blast.Common.{
  ℕ, ◌+◌, ◌%◌, ◌^◌, String, Bool, true, false, ◌&&◌, not, Option, none, some, List, [], ◌∷◌, ◌==◌,
  string_eq, nat_eq, if◌then◌else◌, is_empty,
}
use briska_blast.Common.Dict
use briska_blast.Protocol.{IceServer, ServerMsg}
use briska_blast.Hub.Data.{Hub, Room, room_at, put_room, room_or_default}

-- `fetch_add` on an `AtomicU64`, then the room's entry for the player. Returns the connection.
unfoldable pub join_room : Hub → String → String → ℕ × Hub
join_room h code p =
    let conn_id = h.next_conn_id in
    let room = room_or_default h code in
    (
      conn_id,
      put_room (record h { next_conn_id = (conn_id + 1) % 2 ^ 64 }) code
          (record room { senders = Dict.insert room.senders p conn_id }),
    )

-- `senders.get(p).map(|(id, _)| *id) == Some(conn_id)`
abbrev pub holds : Room → String → ℕ → Bool
holds room p conn_id = elim (Dict.get room.senders p) [ none ↦ false | some id ↦ id == conn_id ]

-- The room as it is written back, or dropped once the last sender has left.
abbrev pub put_or_drop : Hub → String → Room → Hub
put_or_drop h code room =
    if Dict.is_empty room.senders
    then record h { rooms = Dict.remove h.rooms code }
    else put_room h code room

leave : Hub → String → Room → String → ℕ → Bool × Hub
leave h code room p conn_id =
    if holds room p conn_id
    then (true, put_or_drop h code (record room { senders = Dict.remove room.senders p }))
    else (false, put_or_drop h code room)

unfoldable pub leave_room : Hub → String → String → ℕ → Bool × Hub
unfolding leave
leave_room h code p conn_id = elim (room_at h code) [
  | none ↦ (false, h)
  | some room ↦ leave h code room p conn_id
]

-- A message put into the channel of a connection.
pub record Delivery : Type 0 where
  pub conn_id : ℕ
  pub msg : ServerMsg

-- `rooms.get(code).and_then(|r| r.senders.get(p))`
unfoldable pub sender_of : Hub → String → String → Option ℕ
sender_of h code p = elim (room_at h code) [ none ↦ none | some room ↦ Dict.get room.senders p ]

-- `alive` tells of each connection whether its receiver still exists.
unfoldable pub send_to : (ℕ → Bool) → Hub → String → String → ServerMsg → Bool × List Delivery
unfolding sender_of
send_to alive h code p msg = elim (sender_of h code p) [
  | none ↦ (false, [])
  | some c ↦ if alive c then (true, record { conn_id = c; msg = msg } ∷ []) else (false, [])
]

-- `Some(pid) == except`
abbrev pub is_except : Option String → String → Bool
is_except none p = false
is_except (some e) p = e == p

deliver : (ℕ → Bool) → Room → Option String → ServerMsg → List String → List Delivery
deliver alive room except msg [] = []
deliver alive room except msg (p ∷ ps) =
    let rest = deliver alive room except msg ps in
    if is_except except p then rest else elim (Dict.get room.senders p) [
      | none ↦ rest
      | some c ↦ if alive c then record { conn_id = c; msg = msg } ∷ rest else rest
    ]

unfoldable pub broadcast : (ℕ → Bool) → Hub → String → ServerMsg → Option String → List Delivery
unfolding deliver
broadcast alive h code msg except = elim (room_at h code) [
  | none ↦ []
  | some room ↦ deliver alive room except msg (Dict.keys room.senders)
]

unfoldable pub room_members : Hub → String → List String
room_members h code = elim (room_at h code) [ none ↦ [] | some room ↦ Dict.keys room.senders ]

unfoldable pub set_ice_servers : Hub → String → List IceServer → Hub
set_ice_servers h code servers =
    put_room h code (record (room_or_default h code) { ice_servers = servers })

some_unless_empty : List IceServer → Option (List IceServer)
some_unless_empty servers = if is_empty servers then none else some servers

unfoldable pub ice_servers : Hub → String → Option (List IceServer)
unfolding some_unless_empty
ice_servers h code = elim (room_at h code) [
  | none ↦ none
  | some room ↦ some_unless_empty room.ice_servers
]
