-- ===== src/Settings/Mode.antt =====
-- shared/src/types/gamemode.rs and server/src/gamemode.rs
use briska_blast.Common.{ℕ, ◌≤◌, String, ◌||◌, ltb, ◌≡◌, ◌↔◌, arith, if◌then◌else◌, Result, ok, err}
use briska_blast.Settings.Range.{RangeError}

pub data GameMode : Type 0 where
  extended : GameMode

-- `Display`: the wire format.
pub display : GameMode → String
display extended = "extended"

unfoldable pub bounds_for : GameMode → ℕ × ℕ
bounds_for extended = (2, 4)

unfoldable pub validate_player_count : GameMode → ℕ → Result (Unit {0}) RangeError
unfolding bounds_for
validate_player_count mode requested =
    let (min, max) = bounds_for mode in
    if ltb requested min || ltb max requested
    then err (record { min = min; max = max; requested = requested })
    else ok tt

-- A count is accepted exactly when it lies within the mode's bounds.
pub validate_player_count_iff :
    (mode : GameMode) (n : ℕ)
    → (validate_player_count mode n ≡ ok tt)
      ↔ (((bounds_for mode).0 ≤ n) × (n ≤ (bounds_for mode).1))
unfolding validate_player_count
validate_player_count_iff extended n = ground arith
