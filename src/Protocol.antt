-- ===== src/Protocol.antt =====
-- The signaling frames of server/src/signaling/protocol.rs, and the ICE entries of server/src/turn.rs.
-- An `i64` is an integer; JSON is not modelled, but what a missing field stands for is. The
-- text of a chat line and its id are the lists of their characters.
use briska_blast.Common.{ℕ, String, Bool, Option, List, ℤ, pos}
use briska_blast.Common.Dict.{Dict}
use briska_blast.Settings.Mode.{GameMode}
use briska_blast.Settings.Win.{WinCondition}
use briska_blast.Settings.Spawn.{SpawnSettings}
use briska_blast.Settings.Loot.{LootSettings}

pub record IceServer : Type 0 where
  pub urls : List String
  pub username : Option String
  pub credential : Option String

abbrev pub default_score_points : ℤ
default_score_points = pos 1

pub data ClientMsg : Type 0 where
  identify : String → String → Bool → ClientMsg
  offer : String → String → ClientMsg
  answer : String → String → ClientMsg
  ice_candidate : String → String → String → ℕ → ClientMsg
  peer_connection_failed : String → String → ClientMsg
  leave : ClientMsg
  report_score : String → ℤ → ClientMsg
  time_sync : ℤ → ClientMsg
  send_chat : List ℕ → ClientMsg
  client_ready : ClientMsg

pub data ChatKind : Type 0 where
  player moderator : ChatKind

pub record Identified : Type 0 where
  pub your_player_id : String
  pub host_player_id : String
  pub peers : List String
  pub seat_order : List String
  pub is_host : Bool
  pub usernames : Dict String String
  pub ice_servers : List IceServer

pub record StartSignaling : Type 0 where
  pub gamemode : GameMode
  pub win_condition : WinCondition
  pub spawn_settings : SpawnSettings
  pub loot_settings : LootSettings
  pub player_count : ℕ
  pub peers : List String
  pub ice_servers : List IceServer

pub record ChatMessage : Type 0 where
  pub from : String
  pub username : String
  pub text : List ℕ
  pub kind : ChatKind
  pub body_id : List ℕ

pub data ServerMsg : Type 0 where
  identified : Identified → ServerMsg
  peer_joined : String → String → ServerMsg
  peer_left : String → String → ServerMsg
  peer_reconnecting : String → ℕ → ServerMsg
  host_changed : String → ServerMsg
  host_reconnecting : String → ℕ → ServerMsg
  host_reconnected : String → ServerMsg
  start_signaling : StartSignaling → ServerMsg
  offer : String → String → ServerMsg
  answer : String → String → ServerMsg
  ice_candidate : String → String → String → ℕ → ServerMsg
  session_ended : String → ServerMsg
  game_over : String → Dict String ℤ → ServerMsg
  kicked : String → ServerMsg
  score_update : Dict String ℤ → ServerMsg
  time_sync : ℤ → ℤ → ServerMsg
  chat_message : ChatMessage → ServerMsg
  chat_warning : String → ServerMsg
  chat_banned : String → ServerMsg
  chat_body_deleted : List ℕ → ServerMsg
  match_started : ServerMsg
  match_paused : String → String → ℕ → ServerMsg
  match_resumed : ℕ → ServerMsg
