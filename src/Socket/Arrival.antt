-- ===== src/Socket/Arrival.antt =====
-- Who is let in, and what an arrival leaves alone: the proofs on signaling/ws/identify.rs and on the
-- arrival in `handle_socket`.
use briska_blast.Common.{
  ◌≡◌, ◌↔◌, String, Bool, true, false, Option, none, some, List, [], ◌∷◌, ◌==◌, string_eq, ok,
  Result-cases, Option-cases, Bool-cases, inl, inr, arith,
}
use briska_blast.Common.Dict
use briska_blast.Common.Dict.{Dict}
use briska_blast.Protocol.{
  ClientMsg, identify, offer, answer, ice_candidate, peer_connection_failed, leave, report_score,
  time_sync, send_chat, client_ready, IceServer, peer_joined,
}
use briska_blast.Session.Data.{Session, contains_player}
use briska_blast.Session.Store.{Store, Raw, decode}
use briska_blast.Session.Host.{Players, validate_player}
use briska_blast.Session.Hosting.{validate_player_iff}
use briska_blast.Socket.Identify.{
  Identity, identify_member, identify_player, identify_first, RosterSnapshot, peer_roster,
  cache_minted, arrival_servers, after_pause, pause_rejoin, cancel_promotion, welcome, arrive,
  name_of,
}
use briska_blast.Hub.Data.{Hub, room_at, room_or_default, promotion, reconnect}
use briska_blast.Hub.Rooms.{join_room, ice_servers, set_ice_servers}
use briska_blast.Hub.Pause.{PauseOutcome, pause_for, pause_in}
use briska_blast.Hub.Grace.{take_grace}
use briska_blast.Socket.World.{World, with_hub}
use briska_blast.Socket.Confined.{
  Confined, Confined-refl, Confined-trans, hub-Confined, put_room-other, notify-Confined,
  leave_room-Confined, take_grace-Confined,
}

-- What a first frame and the keys say when the socket gets an identity.
pub record IsMember (hash_token : String → String) (players : Players) (store : Store)
    (code : String) (frame : Option ClientMsg) (i : Identity) : Type 0 where
  pub token : String
  pub sent : frame ≡ some (identify i.player_id token i.rejoin)
  pub on_file : Dict.get players i.player_id ≡ some (hash_token token)
  pub raw : Raw
  pub stored : Dict.get store code ≡ some raw
  pub session : Session
  pub read : decode raw ≡ some session
  pub member : contains_player session i.player_id ≡ true
  pub host : i.host_player_id ≡ session.host_player_id
  pub is_host : i.is_host ≡ (session.host_player_id == i.player_id)

identify_member-some :
    (p : String) (rejoin : Bool) (s : Session) (i : Identity)
    → identify_member p rejoin (some s) ≡ ok i
    → (contains_player s p ≡ true)
      × (i.player_id ≡ p)
      × (i.rejoin ≡ rejoin)
      × (i.host_player_id ≡ s.host_player_id)
      × (i.is_host ≡ (s.host_player_id == p))
unfolding identify_member
identify_member-some p rejoin s i h = elim (Bool-cases (contains_player s p)) [
  | inl member ↦ ground (arith, member)
  | inr stranger ↦ absurd (ground (arith, stranger))
]

identify_player-IsMember :
    (hash_token : String → String) (players : Players) (store : Store) (code p token : String)
    (rejoin : Bool) (i : Identity)
    → identify_player hash_token players store code p token rejoin ≡ ok i
    → IsMember hash_token players store code (some (identify p token rejoin)) i
unfolding identify_player
identify_player-IsMember hash_token players store code p token rejoin i h =
    elim (Result-cases (validate_player hash_token players p token)) [
      | inr (e, bad) ↦ absurd (ground (arith, bad))
      | inl good ↦ elim (Option-cases (Dict.get store code)) [
        | inl gone ↦ absurd (ground (arith, good, gone))
        | inr (raw, found) ↦ elim (Option-cases (decode raw)) [
          | inl bad ↦ absurd (ground (arith, good, found, bad, identify_member))
          | inr (s, d) ↦
              let kept : identify_member p rejoin (some s) ≡ ok i =
                ground (arith, good, found, d) in
              let (member, same, again, host, is_host) = identify_member-some p rejoin s i kept in
              record {
                token = token;
                sent = ground (arith, same, again);
                on_file =
                    ground (arith, same, (validate_player_iff hash_token players p token).0, good);
                raw = raw;
                stored = found;
                session = s;
                read = d;
                member = ground (arith, same, member);
                host = host;
                is_host = ground (arith, same, is_host);
              }
        ]
      ]
    ]

identify_first-IsMember :
    (hash_token : String → String) (players : Players) (store : Store) (code : String)
    (frame : Option ClientMsg) (i : Identity)
    → identify_first hash_token players store code frame ≡ ok i
    → IsMember hash_token players store code frame i
unfolding identify_first
identify_first-IsMember hash_token players store code none i h = cc
identify_first-IsMember hash_token players store code (some (identify p token rejoin)) i h =
    identify_player-IsMember hash_token players store code p token rejoin i h
identify_first-IsMember hash_token players store code (some (offer a b)) i h = cc
identify_first-IsMember hash_token players store code (some (answer a b)) i h = cc
identify_first-IsMember hash_token players store code (some (ice_candidate a b c d)) i h = cc
identify_first-IsMember hash_token players store code (some (peer_connection_failed a b)) i h = cc
identify_first-IsMember hash_token players store code (some leave) i h = cc
identify_first-IsMember hash_token players store code (some (report_score a b)) i h = cc
identify_first-IsMember hash_token players store code (some (time_sync a)) i h = cc
identify_first-IsMember hash_token players store code (some (send_chat a)) i h = cc
identify_first-IsMember hash_token players store code (some client_ready) i h = cc

IsMember-identify_first :
    (hash_token : String → String) (players : Players) (store : Store) (code : String)
    (frame : Option ClientMsg) (i : Identity)
    → IsMember hash_token players store code frame i
    → identify_first hash_token players store code frame ≡ ok i
unfolding identify_first identify_player identify_member
IsMember-identify_first hash_token players store code frame i m =
    let good = (validate_player_iff hash_token players i.player_id m.token).1 m.on_file in
    rw (m.sent, identify_first)
      (ground (arith, good, m.stored, m.read, m.member, m.host, m.is_host))

-- A socket is let in exactly when its first frame is an `Identify` of a player who is on file
-- with that token and is a member of the session as it is stored, and it is told that session's
-- host and whether the player is it.
pub identify_first_iff :
    (hash_token : String → String) (players : Players) (store : Store) (code : String)
    (frame : Option ClientMsg) (i : Identity)
    → (identify_first hash_token players store code frame ≡ ok i)
      ↔ IsMember hash_token players store code frame i
identify_first_iff hash_token players store code frame i = (
  identify_first-IsMember hash_token players store code frame i,
  IsMember-identify_first hash_token players store code frame i,
)

module _ (code : String) where
  join_room-Confined :
      (w : World) (p : String) → Confined code w (with_hub w (join_room w.hub code p).1)
  unfolding join_room
  join_room-Confined w p = hub-Confined code w (join_room w.hub code p).1 λ k h.
      put_room-other code w
        (record (room_or_default w.hub code) {
          senders = Dict.insert (room_or_default w.hub code).senders p w.hub.next_conn_id;
        })
        k h

  cache-Confined :
      (w : World) (minted : List IceServer)
      → Confined code w (with_hub w (cache_minted w.hub code minted).1)
  unfolding cache_minted set_ice_servers
  cache-Confined w [] = Confined-refl code w
  cache-Confined w (server ∷ servers) = hub-Confined code w _ λ k h. put_room-other code w _ k h

  arrival_servers-Confined :
      (w : World) (seats : List String) (minted : List IceServer)
      → Confined code w (with_hub w (arrival_servers w.hub code seats minted).1)
  unfolding arrival_servers
  arrival_servers-Confined w [] minted = Confined-refl code w
  arrival_servers-Confined w (seat ∷ seats) minted = elim (Option-cases (ice_servers w.hub code)) [
    | inl miss ↦ rw (miss, arrival_servers) (cache-Confined w minted)
    | inr (cached, e) ↦ rw (e, arrival_servers) (Confined-refl code w)
  ]

  pause_for-Confined :
      (w : World) (p : String) → Confined code w (with_hub w (pause_for w.hub code p).1)
  unfolding pause_for pause_in
  pause_for-Confined w p = hub-Confined code w (pause_for w.hub code p).1 λ k h.
      elim (Option-cases (room_at w.hub code)) [
        | inl gone ↦ rw (gone, pause_for)
        | inr (room, e) ↦ rw (e, pause_for) (put_room-other code w (pause_in room p).1 k h)
      ]

  after_pause-Confined :
      (w : World) (p username : String) (outcome : PauseOutcome) (hub : Hub)
      → Confined code w (with_hub w hub)
      → Confined code w (after_pause code p username (outcome, hub) w)
  unfolding after_pause
  after_pause-Confined w p username PauseOutcome.paused hub c =
      Confined-trans code w _ _ c (notify-Confined code _ _ none)
  after_pause-Confined w p username PauseOutcome.already_paused hub c = c
  after_pause-Confined w p username PauseOutcome.not_started hub c = c

  pause_rejoin-Confined :
      (w : World) (p username : String) (rejoin : Bool)
      → Confined code w (pause_rejoin w code p username rejoin)
  unfolding pause_rejoin
  pause_rejoin-Confined w p username false = Confined-refl code w
  pause_rejoin-Confined w p username true =
      after_pause-Confined w p username (pause_for w.hub code p).0 (pause_for w.hub code p).1
        (pause_for-Confined w p)

  cancel-Confined :
      (w : World) (p : String) (is_host : Bool)
      → Confined code w (cancel_promotion w code p is_host)
  unfolding cancel_promotion
  cancel-Confined w p false = Confined-refl code w
  cancel-Confined w p true = elim (Bool-cases (take_grace w.hub code p promotion).0) [
    | inl won ↦
        rw (won, cancel_promotion)
          (Confined-trans code w _ _ (take_grace-Confined code w p promotion)
            (notify-Confined code _ _ none))
    | inr lost ↦ rw (lost, cancel_promotion) (take_grace-Confined code w p promotion)
  ]

  welcome-Confined :
      (w : World) (i : Identity) (usernames : Dict String String) (minted : List IceServer)
      (roster : RosterSnapshot)
      → Confined code w (welcome w code i usernames minted roster).1
  unfolding welcome
  welcome-Confined w i usernames minted roster =
      Confined-trans code w _ _ (arrival_servers-Confined w roster.seat_order minted) (
        Confined-trans code _ _ _
          (notify-Confined code _ (peer_joined i.player_id (name_of usernames i.player_id))
            (some i.player_id))
          (Confined-trans code _ _ _ (take_grace-Confined code _ i.player_id reconnect) (
            Confined-trans code _ _ _ (cancel-Confined _ i.player_id i.is_host)
              (pause_rejoin-Confined _ i.player_id (name_of usernames i.player_id) i.rejoin))))

-- An arrival, whether it is welcomed or finds the session gone, writes no key and touches no
-- other session's room, and a sound store stays sound.
pub arrive-Confined :
    (code : String) (w : World) (i : Identity) (usernames : Dict String String)
    (minted : List IceServer)
    → Confined code w (arrive w code i usernames minted).1
unfolding arrive
arrive-Confined code w i usernames minted =
    elim (Option-cases (peer_roster w.store code i.player_id)) [
      | inl gone ↦
          rw (gone, arrive)
            (Confined-trans code w _ _ (join_room-Confined code w i.player_id)
              (leave_room-Confined code _ i.player_id w.hub.next_conn_id))
      | inr (roster, e) ↦
          rw (e, arrive)
            (Confined-trans code w _ _ (join_room-Confined code w i.player_id)
              (welcome-Confined code _ i usernames minted roster))
    ]
