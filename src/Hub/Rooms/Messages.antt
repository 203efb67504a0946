-- ===== src/Hub/Rooms/Messages.antt =====
-- What is put into the channels is the message that was to be sent.
use briska_blast.Common.{
  ℕ, String, Bool, Option, List, [], ◌∷◌, string_eq, All, Bool-cases, Option-cases, inl, inr,
}
use briska_blast.Common.Dict
use briska_blast.Protocol.{ServerMsg}
use briska_blast.Hub.Data.{Hub, Room, room_at}
use briska_blast.Hub.Rooms.{sender_of, send_to, is_except, deliver, broadcast}

module _ (Q : ServerMsg → Type 0) (alive : ℕ → Bool) (msg : ServerMsg) (q : Q msg) where
  deliver-All :
      (room : Room) (except : Option String) (ps : List String)
      → All (λ d. Q d.msg) (deliver alive room except msg ps)
  unfolding deliver
  deliver-All room except [] = tt
  deliver-All room except (p ∷ ps) = elim (Bool-cases (is_except except p)) [
    | inl skipped ↦ rw skipped (deliver-All room except ps)
    | inr wanted ↦ elim (Option-cases (Dict.get room.senders p)) [
      | inl gone ↦ rw (wanted, gone) (deliver-All room except ps)
      | inr (c, e) ↦ elim (Bool-cases (alive c)) [
        | inl live ↦ rw (wanted, e, live) (q, deliver-All room except ps)
        | inr dead ↦ rw (wanted, e, dead) (deliver-All room except ps)
      ]
    ]
  ]

  pub broadcast-All :
      (h : Hub) (code : String) (except : Option String)
      → All (λ d. Q d.msg) (broadcast alive h code msg except)
  unfolding broadcast
  broadcast-All h code except = elim (Option-cases (room_at h code)) [
    | inl gone ↦ rw (gone, broadcast) tt
    | inr (room, e) ↦ rw (e, broadcast) (deliver-All room except (Dict.keys room.senders))
  ]

  pub send_to-All : (h : Hub) (code p : String) → All (λ d. Q d.msg) (send_to alive h code p msg).1
  unfolding send_to
  send_to-All h code p = elim (Option-cases (sender_of h code p)) [
    | inl gone ↦ rw (gone, send_to) tt
    | inr (c, e) ↦ elim (Bool-cases (alive c)) [
      | inl live ↦ rw (e, send_to, live) (q, tt)
      | inr dead ↦ rw (e, send_to, dead) tt
    ]
  ]
