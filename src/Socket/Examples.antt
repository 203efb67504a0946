-- ===== src/Socket/Examples.antt =====
-- Concrete cases.
use briska_blast.Chat.Capture.{quiet}
use briska_blast.Common.{
  pos, String, true, false, ◌≡◌, refl, none, some, [], ◌∷◌, string_eq, arith, ok, ◌↔◌,
}
use briska_blast.Common.Dict
use briska_blast.Settings.Mode.{extended}
use briska_blast.Settings.Win
use briska_blast.Settings.Spawn
use briska_blast.Settings.Loot
use briska_blast.Session.Data.{Session, SessionStatus, waiting, is_waiting, contains_player}
use briska_blast.Session.Store.{Store, Raw, decode, serde_encode}
use briska_blast.Hub.Data.{empty, reconnect}
use briska_blast.Hub.Rooms.{join_room}
use briska_blast.Protocol.{ClientMsg, identify}
use briska_blast.Session.Host.{Players, validate_player}
use briska_blast.Socket.World.{World, with_hub}
use briska_blast.Socket.Identify.{
  Identity, RosterSnapshot, peer_roster, welcome, arrive, identify_first, identify_player,
  identify_member,
}
use briska_blast.Hub.Grace.{insert_grace}
use briska_blast.Socket.Returns.{IsReleased, arrive-IsReleased}
use briska_blast.Socket.Arrival.{IsMember, identify_first_iff}
use briska_blast.Socket.Cleanup.{cleanup}
use briska_blast.Socket.Confined.{Confined}
use briska_blast.Socket.Steps.{happen, closed, happen-Confined}
use briska_blast.Socket.Drops.{cleanup-lobby, cleanup-drop}

abbrev abc : String
abc = "ABC"

abbrev session : SessionStatus → Session
session status = record {
  code = abc;
  host_player_id = "2";
  gamemode = extended;
  win_condition = Win.default_condition;
  spawn_settings = Spawn.default_settings;
  loot_settings = Loot.default_settings;
  player_count = 4;
  joiners = record { player_id = "1"; joined_at_ms = 5 } ∷ [];
  status = status;
  seat_order = "2" ∷ "1" ∷ [];
}

abbrev no_keys : Store
no_keys = Dict.empty

abbrev stored : SessionStatus → Raw
stored status = serde_encode (session status) 60

-- Player 1 is connected twice over: the older connection is 0, the newer one 1.
abbrev world : SessionStatus → World
world status = record {
  alive = λ c. true;
  session_ttl_secs = 60;
  store = Dict.insert no_keys abc (stored status);
  hub = (join_room (join_room empty abc "1").1 abc "1").1;
  sent = [];
  chat = quiet;
  clock = pos 9;
}

happen-Confined_example :
    Confined abc
      (world SessionStatus.active)
      (happen (world SessionStatus.active) abc (closed "1" 0 false false 9))
happen-Confined_example =
    happen-Confined (world SessionStatus.active) abc (closed "1" 0 false false 9)

-- Player 1 has handed the host's role to player 2, and the older connection ends.
cleanup-lobby_example : Dict.get (cleanup (world waiting) abc "1" 0 true false 9).store abc ≡ none
cleanup-lobby_example =
    cleanup-lobby (world waiting) abc "1" 0 false 9 (stored waiting)
      (Dict.get-insert_self no_keys abc (stored waiting)) refl

cleanup-drop_example :
    (cleanup (world SessionStatus.active) abc "1" 1 true false 9).store
    ≡ (world SessionStatus.active).store
cleanup-drop_example = cleanup-drop (world SessionStatus.active) abc "1" 1 true 9 not_lobby
  where
    not_lobby :
        true ≡ true
        → (raw : Raw) → Dict.get (world SessionStatus.active).store abc ≡ some raw
        → is_waiting raw.session.status ≡ false
    not_lobby u raw e =
        ground (arith, Dict.get-insert_self no_keys abc (stored SessionStatus.active))

abbrev same_hash : String → String
same_hash token = token

abbrev no_players : Players
no_players = Dict.empty

abbrev players : Players
players = Dict.insert no_players "1" "token"

abbrev joiner : Identity
joiner = record { player_id = "1"; is_host = false; host_player_id = "2"; rejoin = true }

abbrev first_frame : ClientMsg
first_frame = identify "1" "token" true

-- Player 1 rejoins.
let_in :
    identify_first same_hash players (world SessionStatus.active).store abc (some first_frame)
    ≡ ok joiner
unfolding identify_first identify_player validate_player decode identify_member contains_player
let_in = ground (
  arith,
  Dict.get-insert_self no_players "1" "token",
  Dict.get-insert_self no_keys abc (stored SessionStatus.active),
)

identify_first_iff_example :
    (identify_first same_hash players (world SessionStatus.active).store abc (some first_frame)
      ≡ ok joiner)
    ↔ IsMember same_hash players (world SessionStatus.active).store abc (some first_frame) joiner
identify_first_iff_example =
    identify_first_iff same_hash players (world SessionStatus.active).store abc (some first_frame)
      joiner

-- A timer holds player 1's slot.
abbrev timed : World
timed = record (world SessionStatus.active) {
  hub = (insert_grace (world SessionStatus.active).hub abc "1" reconnect).1;
}

abbrev roster : RosterSnapshot
roster = record { peers = "2" ∷ []; seat_order = "2" ∷ "1" ∷ [] }

roster_read : peer_roster timed.store abc "1" ≡ some roster
unfolding peer_roster decode
roster_read = ground (arith, Dict.get-insert_self no_keys abc (stored SessionStatus.active))

abbrev entered : World
entered = with_hub timed (join_room timed.hub abc "1").1

welcomed :
    (arrive timed abc joiner Dict.empty []).0
    ≡ some (2, (welcome entered abc joiner Dict.empty [] roster).0)
unfolding arrive join_room insert_grace
welcomed = rw (roster_read, arrive)

arrive-IsReleased_example : IsReleased (arrive timed abc joiner Dict.empty []).1.hub abc joiner
arrive-IsReleased_example =
    arrive-IsReleased timed abc joiner Dict.empty [] 2
      (welcome entered abc joiner Dict.empty [] roster).0 welcomed
