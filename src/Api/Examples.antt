-- ===== src/Api/Examples.antt =====
-- Concrete cases.
use briska_blast.Chat.Capture.{quiet}
use briska_blast.Common.{
  pos, ◌+◌, ◌≤◌, String, true, ◌≡◌, some, List, [], ◌∷◌, length, contains, string_eq, arith, ok,
  err,
}
use briska_blast.Common.Dict
use briska_blast.Settings.Mode.{extended}
use briska_blast.Settings.Win
use briska_blast.Settings.Spawn
use briska_blast.Settings.Loot
use briska_blast.Session.Data.{Session, JoinerEntry, waiting, members, u8_max, current_player_count}
use briska_blast.Session.Store.{Store, Raw, serde_encode, decode, run_script}
use briska_blast.Session.Lobby.{
  join_script, join_body, transfer_script, transfer_body, remove_joiner,
}
use briska_blast.Session.Host.{Players, conflict, validate_player}
use briska_blast.Session.Start.{Moment}
use briska_blast.Hub.Data.{empty}
use briska_blast.Hub.Barrier.{record_ready}
use briska_blast.Hub.Rooms.{join_room}
use briska_blast.Socket.World.{World, with_hub}
use briska_blast.Api.Requests.{
  admit, JoinResponse, join_response, answer_join, join, load_session, get_session, answer_transfer,
  transfer_host,
}
use briska_blast.Api.Answers.{IsAnswer, join-get_session}
use briska_blast.Api.Launch.{Others}

abbrev abc : String
abc = "ABC"

abbrev one : String
one = "1"

abbrev two : String
two = "2"

abbrev no_players : Players
no_players = Dict.empty

abbrev players : Players
players = Dict.insert (Dict.insert no_players two "b") one "a"

abbrev hash : String → String
hash token = token

abbrev lobby : List JoinerEntry → Session
lobby joiners = record {
  code = abc;
  host_player_id = one;
  gamemode = extended;
  win_condition = Win.default_condition;
  spawn_settings = Spawn.default_settings;
  loot_settings = Loot.default_settings;
  player_count = 4;
  joiners = joiners;
  status = waiting;
  seat_order = [];
}

abbrev joiner : JoinerEntry
joiner = record { player_id = two; joined_at_ms = 5 }

abbrev no_keys : Store
no_keys = Dict.empty

abbrev world : List JoinerEntry → World
world joiners = record {
  alive = λ c. true;
  session_ttl_secs = 60;
  store = Dict.insert no_keys abc (serde_encode (lobby joiners) 60);
  hub = (join_room (join_room empty abc one).1 abc two).1;
  sent = [];
  chat = quiet;
  clock = pos 9;
}

admitted_one : admit hash players true one "a" ≡ ok tt
unfolding admit validate_player
admitted_one = ground (arith, Dict.get-insert_self (Dict.insert no_players two "b") one "a")

admitted_two : admit hash players true two "b" ≡ ok tt
unfolding admit validate_player
admitted_two = ground (
  arith,
  Dict.get-insert (Dict.insert no_players two "b") one "a" two,
  Dict.get-insert_self no_players two "b",
)

abbrev response : JoinResponse
response = join_response (lobby (joiner ∷ []))

granted : (join hash players true abc two "b" 5 (world [])).0 ≡ ok response
unfolding join join_script run_script join_body answer_join decode current_player_count
granted =
    ground (arith, admitted_two, Dict.get-insert_self no_keys abc (serde_encode (lobby []) 60))

bytes : (raw : Raw) → Dict.get (world []).store abc ≡ some raw → raw.session.player_count ≤ u8_max
bytes raw e = ground (arith, e, Dict.get-insert_self no_keys abc (serde_encode (lobby []) 60))

join-get_session_example :
    (s : Session) × (load_session (join hash players true abc two "b" 5 (world [])).1.store abc
      ≡ ok s)
    × (contains (members s) two ≡ true)
    × (1 + length s.joiners ≤ s.player_count)
    × IsAnswer response s
    × (contains response.joiners two ≡ true)
    × (get_session true abc (join hash players true abc two "b" 5 (world [])).1
        ≡ ok (record {
          status = s.status;
          gamemode = response.gamemode;
          win_condition = response.win_condition;
          spawn_settings = response.spawn_settings;
          loot_settings = response.loot_settings;
          player_count = response.player_count;
          current_player_count = response.current_player_count;
          joiner_player_ids = response.joiners;
        }))
join-get_session_example =
    join-get_session hash players true abc two "b" 5 (world []) response bytes granted

own : (join hash players true abc one "a" 5 (world [])).0 ≡ err (conflict "cannot_join_own_session")
unfolding join join_script run_script join_body answer_join
own = ground (arith, admitted_one, Dict.get-insert_self no_keys abc (serde_encode (lobby []) 60))

handed : (transfer_host hash players true abc one "a" two 9 (world (joiner ∷ []))).0 ≡ ok tt
unfolding transfer_host transfer_script run_script transfer_body remove_joiner answer_transfer
handed =
    ground (
      arith,
      admitted_one,
      Dict.get-insert_self no_keys abc (serde_encode (lobby (joiner ∷ [])) 60),
    )

abbrev moment : Moment
moment = record {
  read = (world (joiner ∷ [])).store;
  room_members = one ∷ two ∷ [];
  commit = (world (joiner ∷ [])).store;
}

-- The other player is ready before the frame is sent.
abbrev others : Others
others = record {
  before_roster = λ w. w;
  before_servers = λ w. w;
  before_frame = λ w. with_hub w (record_ready w.hub abc two).1;
}
