-- ===== src/Settings/Spawn.antt =====
-- shared/src/types/spawn_settings.rs
use briska_blast.Common.{
  ℕ, ◌≤◌, Bool, true, ◌||◌, ltb, ◌≡◌, ◌↔◌, arith, if◌then◌else◌, Result, ok, err,
}
use briska_blast.Settings.Range.{RangeError}

abbrev pub splitter_interval_min_secs : ℕ
splitter_interval_min_secs = 5

abbrev pub splitter_interval_max_secs : ℕ
splitter_interval_max_secs = 60

pub record SpawnSettings : Type 0 where
  pub splitter_interval_secs : ℕ
  pub chain_split : Bool

abbrev pub default_settings : SpawnSettings
default_settings = record { splitter_interval_secs = 15; chain_split = true }

unfoldable pub validate : SpawnSettings → Result (Unit {0}) RangeError
validate s =
    if ltb s.splitter_interval_secs splitter_interval_min_secs
      || ltb splitter_interval_max_secs s.splitter_interval_secs
    then err (record {
      min = splitter_interval_min_secs;
      max = splitter_interval_max_secs;
      requested = s.splitter_interval_secs;
    })
    else ok tt

abbrev pub IsInRange : SpawnSettings → Type 0
IsInRange s =
    (splitter_interval_min_secs ≤ s.splitter_interval_secs)
    × (s.splitter_interval_secs ≤ splitter_interval_max_secs)

pub validate_iff : (s : SpawnSettings) → (validate s ≡ ok tt) ↔ IsInRange s
unfolding validate
validate_iff s = ground arith
