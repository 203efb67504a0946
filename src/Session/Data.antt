-- ===== src/Session/Data.antt =====
-- `Session` and `JoinerEntry` of server/src/api/mod.rs, `SessionStatus` of shared.
use briska_blast.Common.{
  ℕ, ◌+◌, ◌%◌, String, Bool, true, false, ◌||◌, List, ◌∷◌, map, length, any, leb, min, ◌==◌,
  string_eq,
}
use briska_blast.Settings.Mode.{GameMode}
use briska_blast.Settings.Win.{WinCondition}
use briska_blast.Settings.Spawn.{SpawnSettings}
use briska_blast.Settings.Loot.{LootSettings}

pub data SessionStatus : Type 0 where
  waiting starting active ended : SessionStatus

-- `status == 'waiting'` and `status == 'starting'`.
abbrev pub is_waiting : SessionStatus → Bool
is_waiting waiting = true
is_waiting _ = false

abbrev pub is_starting : SessionStatus → Bool
is_starting starting = true
is_starting _ = false

pub record JoinerEntry : Type 0 where
  pub player_id : String
  pub joined_at_ms : ℕ

pub record Session : Type 0 where
  pub code : String
  pub host_player_id : String
  pub gamemode : GameMode
  pub win_condition : WinCondition
  pub spawn_settings : SpawnSettings
  pub loot_settings : LootSettings
  pub player_count : ℕ
  pub joiners : List JoinerEntry
  pub status : SessionStatus
  pub seat_order : List String

abbrev pub u8_max : ℕ
u8_max = 255

-- `1u8.saturating_add(self.joiners.len() as u8)`
unfoldable pub current_player_count : Session → ℕ
current_player_count s = min u8_max (1 + length s.joiners % 256)

unfoldable pub is_full : Session → Bool
unfolding current_player_count
is_full s = leb s.player_count (current_player_count s)

-- `self.joiners.iter().any(|j| j.player_id == player_id)`
abbrev pub is_joiner : List JoinerEntry → String → Bool
is_joiner js p = any (λ j. j.player_id == p) js

unfoldable pub contains_player : Session → String → Bool
contains_player s p = s.host_player_id == p || is_joiner s.joiners p

abbrev pub ids : List JoinerEntry → List String
ids = map (λ j. j.player_id)

-- `once(host).chain(joiners)`: the members in join order.
abbrev pub members : Session → List String
members s = s.host_player_id ∷ ids s.joiners
