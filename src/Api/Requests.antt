-- ===== src/Api/Requests.antt =====
-- `join` of server/src/api/join.rs, and `get_session`, `close_session` and `transfer_host` of
-- api/session.rs, around their scripts.
use briska_blast.Common.{
  ℕ, String, Bool, none, some, List, string_eq, ◌==◌, Result, ok, err, ensure, ◌>>◌, ◌>>=◌,
}
use briska_blast.Common.Dict
use briska_blast.Protocol.{host_changed}
use briska_blast.Settings.Mode.{GameMode}
use briska_blast.Settings.Win.{WinCondition}
use briska_blast.Settings.Spawn.{SpawnSettings}
use briska_blast.Settings.Loot.{LootSettings}
use briska_blast.Session.Data.{Session, SessionStatus, current_player_count, ids}
use briska_blast.Session.Store.{Store, decode, apply, del}
use briska_blast.Session.Lobby.{JoinOutcome, join_script, TransferOutcome, transfer_script}
use briska_blast.Session.Host.{
  AppError, not_found, unauthorized, too_many_requests, internal, bad_request, conflict,
  session_full, Players, validate_player,
}
use briska_blast.Socket.World.{World, notify, with_store, end_chat}

-- The limiter, then the token.
unfoldable pub admit :
    (String → String) → Players → Bool → String → String → Result (Unit {0}) AppError
unfolding validate_player
admit hash_token players rate_ok p token = do
  ensure rate_ok too_many_requests
  validate_player hash_token players p token

pub record JoinResponse : Type 0 where
  pub gamemode : GameMode
  pub win_condition : WinCondition
  pub spawn_settings : SpawnSettings
  pub loot_settings : LootSettings
  pub player_count : ℕ
  pub current_player_count : ℕ
  pub joiners : List String

abbrev pub join_response : Session → JoinResponse
join_response s = record {
  gamemode = s.gamemode;
  win_condition = s.win_condition;
  spawn_settings = s.spawn_settings;
  loot_settings = s.loot_settings;
  player_count = s.player_count;
  current_player_count = current_player_count s;
  joiners = ids s.joiners;
}

-- The script's answer as the handler reads it.
unfoldable pub answer_join : JoinOutcome → Result JoinResponse AppError
unfolding decode
answer_join (JoinOutcome.ok raw) = elim (decode raw) [
  | none ↦ err internal
  | some s ↦ ok (join_response s)
]
answer_join JoinOutcome.not_found = err not_found
answer_join JoinOutcome.not_waiting = err (conflict "session_already_active")
answer_join JoinOutcome.is_host = err (conflict "cannot_join_own_session")
answer_join JoinOutcome.already_joined = err (conflict "already_joined")
answer_join (JoinOutcome.session_full capacity) = err (session_full capacity)

unfoldable pub join :
    (String → String)
    → Players
    → Bool
    → String
    → String
    → String
    → ℕ
    → World
    → Result JoinResponse AppError × World
unfolding admit join_script answer_join
join hash_token players rate_ok code p token now w =
    elim (admit hash_token players rate_ok p token) [
      | err e ↦ (err e, w)
      | ok u ↦
          let (outcome, store) = join_script p now w.session_ttl_secs code w.store in
          (answer_join outcome, with_store w store)
    ]

pub record SessionPollResponse : Type 0 where
  pub status : SessionStatus
  pub gamemode : GameMode
  pub win_condition : WinCondition
  pub spawn_settings : SpawnSettings
  pub loot_settings : LootSettings
  pub player_count : ℕ
  pub current_player_count : ℕ
  pub joiner_player_ids : List String

abbrev pub poll_response : Session → SessionPollResponse
poll_response s = record {
  status = s.status;
  gamemode = s.gamemode;
  win_condition = s.win_condition;
  spawn_settings = s.spawn_settings;
  loot_settings = s.loot_settings;
  player_count = s.player_count;
  current_player_count = current_player_count s;
  joiner_player_ids = ids s.joiners;
}

-- `conn.get(key)`, `ok_or(NotFound)`, `serde_json::from_str`.
unfoldable pub load_session : Store → String → Result Session AppError
unfolding decode
load_session store code = elim (Dict.get store code) [
  | none ↦ err not_found
  | some raw ↦ elim (decode raw) [ none ↦ err internal | some s ↦ ok s ]
]

unfoldable pub get_session : Bool → String → World → Result SessionPollResponse AppError
unfolding load_session
get_session rate_ok code w = do
  ensure rate_ok too_many_requests
  s ← load_session w.store code
  ok (poll_response s)

-- What is tested before the `DEL`.
unfoldable pub check_close :
    (String → String)
    → Players
    → Bool
    → String
    → String
    → String
    → Store
    → Result (Unit {0}) AppError
unfolding admit load_session
check_close hash_token players rate_ok code p token store = do
  admit hash_token players rate_ok p token
  s ← load_session store code
  ensure (s.host_player_id == p) unauthorized

-- The `GET` finds `read`; by the `DEL` other requests may have come.
unfoldable pub close_session :
    (String → String)
    → Players
    → Bool
    → String
    → String
    → String
    → Store
    → World
    → Result (Unit {0}) AppError × World
unfolding check_close apply end_chat
close_session hash_token players rate_ok code p token read w =
    elim (check_close hash_token players rate_ok code p token read) [
      | err e ↦ (err e, w)
      | ok u ↦ (ok tt, end_chat (with_store w (apply del code w.store)) code)
    ]

unfoldable pub answer_transfer :
    String → String → TransferOutcome → World → Result (Unit {0}) AppError × World
unfolding notify
answer_transfer code new_host TransferOutcome.ok w =
    (ok tt, notify w code (host_changed new_host) none)
answer_transfer code new_host TransferOutcome.not_found w = (err not_found, w)
answer_transfer code new_host TransferOutcome.not_host w = (err unauthorized, w)
answer_transfer code new_host TransferOutcome.not_waiting w =
    (err (conflict "session_already_active"), w)
answer_transfer code new_host TransferOutcome.target_not_joiner w =
    (err (bad_request "target_not_joiner"), w)

unfoldable pub transfer_host :
    (String → String)
    → Players
    → Bool
    → String
    → String
    → String
    → String
    → ℕ
    → World
    → Result (Unit {0}) AppError × World
unfolding admit transfer_script answer_transfer
transfer_host hash_token players rate_ok code p token new_host now w =
    elim (admit hash_token players rate_ok p token) [
      | err e ↦ (err e, w)
      | ok u ↦
          let (outcome, store) = transfer_script p new_host now w.session_ttl_secs code w.store in
          answer_transfer code new_host outcome (with_store w store)
    ]
