-- ===== src/Api/Launch.antt =====
-- `start_session` of server/src/api/start.rs as a whole: the limiter and the token, the attempts, and
-- what a success does to the hub. The minted TURN servers are given.
use briska_blast.Common.{
  ℕ, ◌≡◌, String, Bool, true, false, none, some, List, is_empty, string_eq, pos, if◌then◌else◌,
  Result, ok, err,
}
use briska_blast.Common.Dict
use briska_blast.Common.Dict.{Dict}
use briska_blast.Protocol.{IceServer, StartSignaling, start_signaling}
use briska_blast.Settings.Win.{target}
use briska_blast.Session.Data.{Session, members}
use briska_blast.Session.Host.{AppError, Players}
use briska_blast.Session.Start.{Moment, start_session}
use briska_blast.Hub.Data.{Room, room_at}
use briska_blast.Hub.Rooms.{set_ice_servers}
use briska_blast.Hub.Scores.{set_win_target}
use briska_blast.Hub.Barrier.{set_ready_roster, everyone_ready}
use briska_blast.Socket.World.{World, notify, with_store, with_hub}
use briska_blast.Api.Requests.{admit}

abbrev pub start_frame : Session → List IceServer → StartSignaling
start_frame s minted = record {
  gamemode = s.gamemode;
  win_condition = s.win_condition;
  spawn_settings = s.spawn_settings;
  loot_settings = s.loot_settings;
  player_count = s.player_count;
  peers = members s;
  ice_servers = minted;
}

-- What other requests make of the world before each of the later calls, which take the hub's lock
-- anew; the minting of the TURN servers comes before the second.
pub record Others : Type 0 where
  pub before_roster : World → World
  pub before_servers : World → World
  pub before_frame : World → World

abbrev pub seed_target : String → Session → World → World
unfolding set_win_target
seed_target code s w = with_hub w (set_win_target w.hub code (pos (target s.win_condition)))

abbrev pub seed_roster : String → Session → World → World
unfolding set_ready_roster
seed_roster code s w = with_hub w (set_ready_roster w.hub code (members s))

abbrev pub cache_servers : String → List IceServer → World → World
unfolding set_ice_servers
cache_servers code minted w =
    if is_empty minted then w else with_hub w (set_ice_servers w.hub code minted)

-- The four calls on the hub.
unfoldable pub launch : String → Session → List IceServer → Others → World → World
unfolding seed_target seed_roster cache_servers notify
launch code s minted o w =
    let seeded = seed_roster code s (o.before_roster (seed_target code s w)) in
    let cached = cache_servers code minted (o.before_servers seeded) in
    notify (o.before_frame cached) code (start_signaling (start_frame s minted)) none

unfoldable pub start_request :
    (String → String)
    → Players
    → Bool
    → String
    → String
    → String
    → (ℕ → Moment)
    → List IceServer
    → Others
    → World
    → Result (Unit {0}) AppError × World
unfolding admit start_session launch
start_request hash_token players rate_ok code p token ms minted o w =
    elim (admit hash_token players rate_ok p token) [
      | err e ↦ (err e, w)
      | ok u ↦ elim (start_session p code w.session_ttl_secs ms) [
        | err e ↦ (err e, w)
        | ok r ↦ (ok tt, launch code r.session minted o (with_store w r.store))
      ]
    ]

-- The room has the target of the session, and nobody's game over.
abbrev pub HasTarget : String → Session → World → Type 0
HasTarget code s w =
    (room : Room) × (room_at w.hub code ≡ some room)
    × (room.win_target ≡ pos (target s.win_condition))
    × (room.game_over ≡ false)

-- The room waits for the members of the session, each of them.
abbrev pub HasBarrier : String → Session → World → Type 0
HasBarrier code s w =
    (room : Room) × (room_at w.hub code ≡ some room)
    × (room.ready_roster ≡ members s)
    × (Dict.is_empty room.ready ≡ true)
    × (everyone_ready room ≡ false)
    × (room.match_started ≡ false)

abbrev nobody : Dict String (Unit {0})
nobody = Dict.empty
