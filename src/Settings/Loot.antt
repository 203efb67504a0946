-- ===== src/Settings/Loot.antt =====
-- shared/src/types/loot_settings.rs. The drop rates in `f32` are not modelled; the subscribed total
-- is, over any number of items, as the code is written.
pub mod Total
use briska_blast.Common.{
  ℕ, ◌+◌, ◌%◌, ◌^◌, ◌≤◌, String, Bool, true, false, ◌&&◌, ◌||◌, not, List, [], ◌∷◌, ◌++◌, ltb, ◌≡◌,
  ◌↔◌, arith, if◌then◌else◌, ◌==◌, nat_eq, any, Result, ok, err, ◌>>◌, ◌>>=◌,
}

abbrev pub drop_interval_min_secs : ℕ
drop_interval_min_secs = 5

abbrev pub drop_interval_max_secs : ℕ
drop_interval_max_secs = 60

abbrev pub weight_min : ℕ
weight_min = 1

abbrev pub weight_max : ℕ
weight_max = 100

abbrev pub weight_total_max : ℕ
weight_total_max = 100

abbrev pub barrier_duration_min_secs : ℕ
barrier_duration_min_secs = 5

abbrev pub barrier_duration_max_secs : ℕ
barrier_duration_max_secs = 120

pub record LootSettings : Type 0 where
  pub drop_interval_secs : ℕ
  pub barrier_enabled : Bool
  pub barrier_weight : ℕ
  pub barrier_duration_secs : ℕ

pub record LootSettingsError : Type 0 where
  pub field : String
  pub min : ℕ
  pub max : ℕ
  pub requested : ℕ

abbrev pub default_settings : LootSettings
default_settings = record {
  drop_interval_secs = 20;
  barrier_enabled = true;
  barrier_weight = 50;
  barrier_duration_secs = 5;
}

abbrev pub Entry : Type 0
Entry = Bool × ℕ

abbrev pub entries : LootSettings → List Entry
entries s = (s.barrier_enabled, s.barrier_weight) ∷ []

-- `prev_on && prev_w == weight` for some earlier entry.
abbrev pub seen : List Entry → ℕ → Bool
seen before weight = any (λ p. p.0 && p.1 == weight) before

-- The loop of `subscribed_total`: the entries before this one, the total so far, and the rest.
unfoldable pub total_loop : List Entry → ℕ → List Entry → ℕ
total_loop before total [] = total
total_loop before total ((enabled, weight) ∷ rest) =
    total_loop (before ++ (enabled, weight) ∷ [])
      (if not enabled
        then total
        else if seen before weight
        then total
        else (total + weight) % 2 ^ 16)
      rest

unfoldable pub subscribed_total : LootSettings → ℕ
unfolding total_loop
subscribed_total s = total_loop [] 0 (entries s)

range : String → ℕ → ℕ → ℕ → Result (Unit {0}) LootSettingsError
range field value min max =
    if ltb value min || ltb max value
    then err (record { field = field; min = min; max = max; requested = value })
    else ok tt

-- `validate`'s last test.
range_total : ℕ → Result (Unit {0}) LootSettingsError
range_total total =
    if ltb weight_total_max total
    then err (record { field = "weight_total"; min = 0; max = weight_total_max; requested = total })
    else ok tt

unfoldable pub validate : LootSettings → Result (Unit {0}) LootSettingsError
unfolding range range_total subscribed_total
validate s = do
  range "drop_interval_secs" s.drop_interval_secs drop_interval_min_secs drop_interval_max_secs
  range "barrier_weight" s.barrier_weight weight_min weight_max
  range "barrier_duration_secs" s.barrier_duration_secs barrier_duration_min_secs
      barrier_duration_max_secs
  let total = subscribed_total s
  range_total total

abbrev pub IsInRange : LootSettings → Type 0
IsInRange s =
    (drop_interval_min_secs ≤ s.drop_interval_secs)
    × (s.drop_interval_secs ≤ drop_interval_max_secs)
    × (weight_min ≤ s.barrier_weight)
    × (s.barrier_weight ≤ weight_max)
    × (barrier_duration_min_secs ≤ s.barrier_duration_secs)
    × (s.barrier_duration_secs ≤ barrier_duration_max_secs)

pub validate_iff : (s : LootSettings) → (validate s ≡ ok tt) ↔ IsInRange s
unfolding validate
validate_iff s = ground arith
