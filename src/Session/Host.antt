-- ===== src/Session/Host.antt =====
-- `POST /host` of server/src/api/host.rs, and `validate_player` of api/mod.rs. The hash of a token and
-- the codes that the random generator draws are given.
use briska_blast.Common.{
  ℕ, String, Bool, Option, none, some, List, [], ◌∷◌, string_eq, ◌==◌, if◌then◌else◌, Result, ok,
  err, map_err, ensure, ok_or, ◌>>◌, ◌>>=◌,
}
use briska_blast.Common.Dict
use briska_blast.Common.Dict.{Dict}
use briska_blast.Settings.Range.{RangeError}
use briska_blast.Settings.Mode.{GameMode, validate_player_count}
use briska_blast.Settings.Win
use briska_blast.Settings.Win.{WinCondition}
use briska_blast.Settings.Spawn
use briska_blast.Settings.Spawn.{SpawnSettings}
use briska_blast.Settings.Loot
use briska_blast.Settings.Loot.{LootSettings, LootSettingsError}
use briska_blast.Session.Data.{Session, waiting}
use briska_blast.Session.Store.{Store, serde_encode}

pub record HostRequest : Type 0 where
  pub player_id : String
  pub secret_token : String
  pub gamemode : GameMode
  pub win_condition : WinCondition
  pub spawn_settings : SpawnSettings
  pub loot_settings : LootSettings
  pub player_count : ℕ

-- The text of an internal error is left out.
pub data AppError : Type 0 where
  not_found unauthorized too_many_requests internal : AppError
  bad_request conflict session_not_startable : String → AppError
  upgrade_required : String → String → String → AppError
  invalid_player_count invalid_win_condition invalid_spawn_settings : RangeError → AppError
  invalid_loot_settings : LootSettingsError → AppError
  session_full : ℕ → AppError

-- `player:{id}:token_hash`, by player.
abbrev pub Players : Type 0
Players = Dict String String

unfoldable pub validate_player :
    (String → String) → Players → String → String → Result (Unit {0}) AppError
validate_player hash_token players p token = do
  h ← ok_or (Dict.get players p) unauthorized
  ensure (hash_token token == h) unauthorized

-- `loop { let code = generate_code(); … }`, over the codes that are drawn, each with the store as
-- its `EXISTS` finds it.
unfoldable pub free_code : List (Store × String) → Option String
free_code [] = none
free_code ((found, code) ∷ draws) =
    let rest = free_code draws in if Dict.contains_key found code then rest else some code

abbrev pub new_session : HostRequest → String → Session
new_session body code = record {
  code = code;
  host_player_id = body.player_id;
  gamemode = body.gamemode;
  win_condition = body.win_condition;
  spawn_settings = body.spawn_settings;
  loot_settings = body.loot_settings;
  player_count = body.player_count;
  joiners = [];
  status = waiting;
  seat_order = [];
}

-- Everything that is tested before a code is drawn.
unfoldable pub check_host :
    (String → String) → Players → Bool → HostRequest → Result (Unit {0}) AppError
unfolding validate_player
check_host hash_token players rate_ok body = do
  ensure rate_ok too_many_requests
  map_err invalid_player_count (validate_player_count body.gamemode body.player_count)
  map_err invalid_win_condition (Win.validate body.win_condition)
  map_err invalid_spawn_settings (Spawn.validate body.spawn_settings)
  map_err invalid_loot_settings (Loot.validate body.loot_settings)
  validate_player hash_token players body.player_id body.secret_token

-- `none` while no drawn code is free. `store` is the store at the write: other requests may come
-- between it and the draws.
unfoldable pub host :
    (String → String)
    → Players
    → Bool
    → List (Store × String)
    → ℕ
    → HostRequest
    → Store
    → Option (Result String AppError × Store)
unfolding check_host
host hash_token players rate_ok draws ttl body store =
    elim (check_host hash_token players rate_ok body) [
      | err e ↦ some (err e, store)
      | ok u ↦ elim (free_code draws) [
        | none ↦ none
        | some code ↦
            some (ok code, Dict.insert store code (serde_encode (new_session body code) ttl))
      ]
    ]
