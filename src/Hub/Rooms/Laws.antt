-- ===== src/Hub/Rooms/Laws.antt =====
-- Who is connected after a join, a leave, and a leave that comes too late; who is reached.
use briska_blast.Common.{
  ℕ, ◌≡◌, ◌↔◌, refl, String, Bool, true, false, ◌&&◌, not, Option, none, some, List, [], ◌∷◌, ◌==◌,
  string_eq, nat_eq, if◌then◌else◌, arith, ==_iff, Bool-cases, Option-cases, inl, inr, contains,
  any, any-elem, any-contains,
}
use briska_blast.Common.Dict
use briska_blast.Protocol.{ServerMsg}
use briska_blast.Hub.Data.{Hub, Room, room_at, room_or_default, empty_room}
use briska_blast.Hub.Rooms.{
  join_room, leave_room, leave, holds, put_or_drop, sender_of, broadcast, deliver, room_members,
  Delivery, is_except,
}

-- A join gives the player the next connection of the hub, and changes no other connection in any
-- room.
pub sender_of-join_room :
    (h : Hub) (code p : String) (code' q : String)
    → sender_of (join_room h code p).1 code' q
      ≡ (if code == code' && p == q then some h.next_conn_id else sender_of h code' q)
unfolding join_room sender_of room_or_default empty_room
sender_of-join_room h code p code' q = ground (
  arith,
  Dict.get-insert h.rooms code
      (record (room_or_default h code) {
        senders = Dict.insert (room_or_default h code).senders p h.next_conn_id;
      })
      code',
  Dict.get-insert (room_or_default h code).senders p h.next_conn_id q,
  Dict.get-empty {V = ℕ} q,
  ==_iff code code',
)

-- Writing a room back, or dropping it when nobody is left in it, changes its senders alone.
sender_of-put_or_drop :
    (h : Hub) (code : String) (room : Room) (code' q : String)
    → sender_of (put_or_drop h code room) code' q
      ≡ (if code == code' then Dict.get room.senders q else sender_of h code' q)
unfolding sender_of
sender_of-put_or_drop h code room code' q = ground (
  arith,
  Dict.get-insert h.rooms code room code',
  Dict.get-remove h.rooms code code',
  Dict.is_empty-get room.senders q,
)

sender_of-at :
    (h : Hub) (code : String) (room : Room) (q : String)
    → room_at h code ≡ some room
    → sender_of h code q ≡ Dict.get room.senders q
unfolding sender_of
sender_of-at h code room q e = rw (e, sender_of)

sender_of-leave :
    (h : Hub) (code : String) (room : Room) (p : String) (conn_id : ℕ) (code' q : String)
    → room_at h code ≡ some room
    → sender_of (leave h code room p conn_id).1 code' q ≡ (
        if code == code' && (p == q && (leave h code room p conn_id).0)
        then none
        else sender_of h code' q)
unfolding leave
sender_of-leave h code room p conn_id code' q e = elim (Bool-cases (holds room p conn_id)) [
  | inl live ↦ rw live (
      ground (
        arith,
        sender_of-put_or_drop h code (record room { senders = Dict.remove room.senders p }) code' q,
        sender_of-at h code room q e,
        Dict.get-remove room.senders p q,
        ==_iff code code',
      ))
  | inr stale ↦ rw stale (
      ground (
        arith,
        sender_of-put_or_drop h code room code' q,
        sender_of-at h code room q e,
        ==_iff code code',
      ))
]

-- Whoever leaves, the connection of every other player stays; the leaving player's own goes
-- exactly when the call says so.
pub sender_of-leave_room :
    (h : Hub) (code p : String) (conn_id : ℕ) (code' q : String)
    → sender_of (leave_room h code p conn_id).1 code' q ≡ (
        if code == code' && (p == q && (leave_room h code p conn_id).0)
        then none
        else sender_of h code' q)
unfolding leave_room
sender_of-leave_room h code p conn_id code' q = elim (Option-cases (room_at h code)) [
  | inl gone ↦ rw (gone, leave_room) (ground arith)
  | inr (room, e) ↦ rw (e, leave_room) (sender_of-leave h code room p conn_id code' q e)
]

-- A leave removes something exactly when the player's live connection is the one that leaves.
pub leave_room-live :
    (h : Hub) (code p : String) (conn_id : ℕ)
    → (leave_room h code p conn_id).0
      ≡ (elim (sender_of h code p) [ none ↦ false | some id ↦ id == conn_id ])
unfolding leave_room leave sender_of
leave_room-live h code p conn_id = ground arith

-- A leave touches no other room.
pub room_at-leave_room :
    (h : Hub) (code p : String) (conn_id : ℕ) (k : String)
    → (code == k) ≡ false
    → room_at (leave_room h code p conn_id).1 k ≡ room_at h k
unfolding leave_room leave
room_at-leave_room h code p conn_id k other = elim (Option-cases (room_at h code)) [
  | inl gone ↦ rw (gone, leave_room)
  | inr (room, e) ↦
      rw (e, leave_room)
        (ground (
          arith,
          other,
          Dict.get-insert h.rooms code (record room { senders = Dict.remove room.senders p }) k,
          Dict.get-insert h.rooms code room k,
          Dict.get-remove h.rooms code k,
        ))
]

put_or_drop-empty :
    (h : Hub) (code : String) (r room : Room)
    → room_at (put_or_drop h code r) code ≡ some room
    → Dict.is_empty room.senders ≡ false
put_or_drop-empty h code r room e =
    ground (arith, Dict.get-insert_self h.rooms code r, Dict.get-remove_self h.rooms code)

leave-empty :
    (h : Hub) (code : String) (r : Room) (p : String) (conn_id : ℕ) (room : Room)
    → room_at (leave h code r p conn_id).1 code ≡ some room
    → Dict.is_empty room.senders ≡ false
unfolding leave
leave-empty h code r p conn_id room e = ground (
  arith,
  put_or_drop-empty h code (record r { senders = Dict.remove r.senders p }) room,
  put_or_drop-empty h code r room,
)

-- A room is dropped with its last connection.
pub leave_room-empty :
    (h : Hub) (code p : String) (conn_id : ℕ) (room : Room)
    → room_at (leave_room h code p conn_id).1 code ≡ some room
    → Dict.is_empty room.senders ≡ false
unfolding leave_room leave
leave_room-empty h code p conn_id room e = elim (Option-cases (room_at h code)) [
  | inl gone ↦ absurd (ground (arith, gone))
  | inr (r, at) ↦ leave-empty h code r p conn_id room (rw (at, leave_room) at e)
]

-- The members of a room are the players with a connection.
pub contains-room_members :
    (h : Hub) (code p : String)
    → contains (room_members h code) p
      ≡ (elim (sender_of h code p) [ none ↦ false | some c ↦ true ])
unfolding room_members sender_of
contains-room_members h code p = elim (Option-cases (room_at h code)) [
  | inl gone ↦ rw (gone, room_members, sender_of)
  | inr (room, e) ↦ rw (e, room_members, sender_of) (Dict.contains-keys room.senders p)
]

-- `send_to` reaches the player's connection and no other, if its receiver still exists.
abbrev pub reaches : List Delivery → ℕ → Bool
reaches ds c = any (λ d. d.conn_id == c) ds

reaches-deliver :
    (alive : ℕ → Bool) (room : Room) (except : Option String) (msg : ServerMsg) (ps : List String)
    (c : ℕ)
    → reaches (deliver alive room except msg ps) c
      ≡ any
          (λ p.
            not (is_except except p)
            && (elim (Dict.get room.senders p) [ none ↦ false | some d ↦ alive d && d == c ]))
          ps
unfolding deliver
reaches-deliver alive room except msg [] c = refl
reaches-deliver alive room except msg (p ∷ ps) c =
    ground (arith, reaches-deliver alive room except msg ps c)

abbrev reached : (ℕ → Bool) → Room → Option String → ℕ → String → Bool
reached alive room except c p =
    not (is_except except p)
    && (elim (Dict.get room.senders p) [ none ↦ false | some d ↦ alive d && d == c ])

reached_by :
    (alive : ℕ → Bool) (room : Room) (except : Option String) (c : ℕ) (p : String)
    → reached alive room except c p ≡ true
    → (Dict.get room.senders p ≡ some c) × (is_except except p ≡ false) × (alive c ≡ true)
reached_by alive room except c p h = ground arith

deliver_iff :
    (alive : ℕ → Bool) (room : Room) (except : Option String) (msg : ServerMsg) (c : ℕ)
    → (reaches (deliver alive room except msg (Dict.keys room.senders)) c ≡ true) ↔ (
        (p : String) × (Dict.get room.senders p ≡ some c)
        × (is_except except p ≡ false)
        × (alive c ≡ true))
deliver_iff alive room except msg c = (
  λ h.
      let (p, _, hit) =
        any-elem (reached alive room except c) (Dict.keys room.senders)
          (rw (reaches-deliver alive room except msg (Dict.keys room.senders) c) at h) in
      let (at, other, live) = reached_by alive room except c p hit in (p, at, other, live),
  λ x. rw (reaches-deliver alive room except msg (Dict.keys room.senders) c) (
      any-contains (reached alive room except c) (Dict.keys room.senders) x.0
        (ground (arith, Dict.contains-keys room.senders x.0)) (ground arith)),
)

-- The connection of a player who is not excepted, with a receiver.
abbrev pub IsReached : (ℕ → Bool) → Hub → String → Option String → ℕ → Type 0
IsReached alive h code except c =
    (p : String) × (sender_of h code p ≡ some c) × (is_except except p ≡ false) × (alive c ≡ true)

-- A broadcast reaches exactly the connections of the players in the room, but for the excepted
-- player's, whose receiver still exists.
pub reaches-broadcast :
    (alive : ℕ → Bool) (h : Hub) (code : String) (msg : ServerMsg) (except : Option String) (c : ℕ)
    → (reaches (broadcast alive h code msg except) c ≡ true) ↔ IsReached alive h code except c
unfolding broadcast sender_of
reaches-broadcast alive h code msg except c = elim (Option-cases (room_at h code)) [
  | inl gone ↦ rw (gone, broadcast, sender_of) (λ r. cc, λ x. cc)
  | inr (room, e) ↦ rw (e, broadcast, sender_of) (deliver_iff alive room except msg c)
]
