-- ===== src/Settings/Win.antt =====
-- shared/src/types/win_condition.rs
use briska_blast.Common.{ℕ, ◌≤◌, ◌||◌, ltb, ◌≡◌, ◌↔◌, arith, if◌then◌else◌, Result, ok, err}
use briska_blast.Settings.Range.{RangeError}

abbrev pub set_score_min : ℕ
set_score_min = 50

abbrev pub set_score_max : ℕ
set_score_max = 200

abbrev pub default_target : ℕ
default_target = 100

pub data WinCondition : Type 0 where
  set_score : ℕ → WinCondition

abbrev pub default_condition : WinCondition
default_condition = set_score default_target

abbrev pub target : WinCondition → ℕ
target (set_score t) = t

unfoldable pub validate : WinCondition → Result (Unit {0}) RangeError
validate (set_score t) =
    if ltb t set_score_min || ltb set_score_max t
    then err (record { min = set_score_min; max = set_score_max; requested = t })
    else ok tt

abbrev pub IsInRange : WinCondition → Type 0
IsInRange c = (set_score_min ≤ target c) × (target c ≤ set_score_max)

pub validate_iff : (c : WinCondition) → (validate c ≡ ok tt) ↔ IsInRange c
unfolding validate
validate_iff (set_score t) = ground arith
