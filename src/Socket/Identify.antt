-- ===== src/Socket/Identify.antt =====
-- The first phases of a socket: server/src/signaling/ws/identify.rs, and the arrival in `handle_socket`
-- of ws/mod.rs. The display names on file and the minted TURN servers are given.
use briska_blast.Common.{
  ℕ, String, Bool, true, false, not, Option, none, some, List, [], ◌∷◌, keep, ◌==◌, string_eq,
  if◌then◌else◌, Result, ok, err,
}
use briska_blast.Common.Dict
use briska_blast.Common.Dict.{Dict}
use briska_blast.Protocol.{
  IceServer, ClientMsg, identify, peer_joined, host_reconnected, match_paused, Identified,
}
use briska_blast.Session.Data.{Session, members, contains_player}
use briska_blast.Session.Store.{Store, decode}
use briska_blast.Session.Host.{Players, validate_player}
use briska_blast.Hub.Data.{Hub, promotion, reconnect}
use briska_blast.Hub.Rooms.{join_room, leave_room, ice_servers, set_ice_servers}
use briska_blast.Hub.Pause.{PauseOutcome, pause_for}
use briska_blast.Hub.Grace.{take_grace}
use briska_blast.Socket.World.{World, notify, with_hub}

-- The codes that a socket is closed with.
pub data CloseCode : Type 0 where
  bad_initial unauthorized forbidden not_found internal : CloseCode

-- `(player_id, is_host, host_player_id, rejoin)`
pub record Identity : Type 0 where
  pub player_id : String
  pub is_host : Bool
  pub host_player_id : String
  pub rejoin : Bool

unfoldable pub identify_member : String → Bool → Option Session → Result Identity CloseCode
unfolding contains_player
identify_member p rejoin none = err internal
identify_member p rejoin (some s) =
    if not (contains_player s p)
    then err forbidden
    else ok (record {
      player_id = p;
      is_host = s.host_player_id == p;
      host_player_id = s.host_player_id;
      rejoin = rejoin;
    })

unfoldable pub identify_player :
    (String → String)
    → Players
    → Store
    → String
    → String
    → String
    → Bool
    → Result Identity CloseCode
unfolding validate_player identify_member decode
identify_player hash_token players store code p token rejoin =
    elim (validate_player hash_token players p token) [
      | err e ↦ err unauthorized
      | ok u ↦ elim (Dict.get store code) [
        | none ↦ err not_found
        | some raw ↦ identify_member p rejoin (decode raw)
      ]
    ]

-- The first frame, `none` if it does not come in time or cannot be read.
unfoldable pub identify_first :
    (String → String) → Players → Store → String → Option ClientMsg → Result Identity CloseCode
unfolding identify_player
identify_first hash_token players store code (some (identify p token rejoin)) =
    identify_player hash_token players store code p token rejoin
identify_first hash_token players store code _ = err bad_initial

pub record RosterSnapshot : Type 0 where
  pub peers : List String
  pub seat_order : List String

unfoldable pub peer_roster : Store → String → String → Option RosterSnapshot
unfolding decode
peer_roster store code self_player_id = elim (Dict.get store code) [
  | none ↦ none
  | some raw ↦ elim (decode raw) [
    | none ↦ none
    | some s ↦ some (record {
      peers = keep (λ p. not (p == self_player_id)) (members s);
      seat_order = s.seat_order;
    })
  ]
]

-- The servers that the frame carries: none in the lobby, else the cached ones, else those minted now.
unfoldable pub cache_minted : Hub → String → List IceServer → List IceServer × Hub
unfolding set_ice_servers
cache_minted h code [] = ([], h)
cache_minted h code (server ∷ servers) =
    (server ∷ servers, set_ice_servers h code (server ∷ servers))

unfoldable pub arrival_servers : Hub → String → List String → List IceServer → List IceServer × Hub
unfolding ice_servers cache_minted
arrival_servers h code [] minted = ([], h)
arrival_servers h code (seat ∷ seats) minted = elim (ice_servers h code) [
  | none ↦ cache_minted h code minted
  | some cached ↦ (cached, h)
]

abbrev pub pause_valve_secs : ℕ
pause_valve_secs = 25

-- `if rejoin`
unfoldable pub after_pause : String → String → String → PauseOutcome × Hub → World → World
unfolding notify
after_pause code p username (PauseOutcome.paused, hub) w =
    notify (with_hub w hub) code (match_paused p username pause_valve_secs) none
after_pause code p username (PauseOutcome.already_paused, hub) w = with_hub w hub
after_pause code p username (PauseOutcome.not_started, hub) w = with_hub w hub

unfoldable pub pause_rejoin : World → String → String → String → Bool → World
unfolding pause_for after_pause
pause_rejoin w code p username false = w
pause_rejoin w code p username true = after_pause code p username (pause_for w.hub code p) w

-- `is_host && take_grace(…, Promotion)`
unfoldable pub cancel_promotion : World → String → String → Bool → World
unfolding take_grace notify
cancel_promotion w code p false = w
cancel_promotion w code p true =
    let (won, hub) = take_grace w.hub code p promotion in
    if won then notify (with_hub w hub) code (host_reconnected p) none else with_hub w hub

abbrev pub name_of : Dict String String → String → String
name_of usernames p = elim (Dict.get usernames p) [ none ↦ "" | some name ↦ name ]

-- The frame that the socket is sent, and the world after the arrival.
unfoldable pub welcome :
    World
    → String
    → Identity
    → Dict String String
    → List IceServer
    → RosterSnapshot
    → Identified × World
unfolding arrival_servers notify take_grace cancel_promotion pause_rejoin
welcome w code i usernames minted roster =
    let (servers, hub) = arrival_servers w.hub code roster.seat_order minted in
    let joined =
      notify (with_hub w hub) code (peer_joined i.player_id (name_of usernames i.player_id))
        (some i.player_id) in
    let held = with_hub joined (take_grace joined.hub code i.player_id reconnect).1 in
    (
      record {
        your_player_id = i.player_id;
        host_player_id = i.host_player_id;
        peers = roster.peers;
        seat_order = roster.seat_order;
        is_host = i.is_host;
        usernames = usernames;
        ice_servers = servers;
      },
      pause_rejoin (cancel_promotion held code i.player_id i.is_host) code i.player_id
          (name_of usernames i.player_id) i.rejoin,
    )

-- The connection and the frame, or none if the session has gone.
unfoldable pub arrive :
    World
    → String
    → Identity
    → Dict String String
    → List IceServer
    → Option (ℕ × Identified) × World
unfolding join_room peer_roster leave_room welcome
arrive w code i usernames minted =
    let (conn_id, hub) = join_room w.hub code i.player_id in
    let entered = with_hub w hub in
    elim (peer_roster w.store code i.player_id) [
      | none ↦ (none, with_hub entered (leave_room hub code i.player_id conn_id).1)
      | some roster ↦
          let (frame, w') = welcome entered code i usernames minted roster in
          (some (conn_id, frame), w')
    ]
