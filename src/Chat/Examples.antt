-- ===== src/Chat/Examples.antt =====
-- Tests and concrete cases.
use briska_blast.Common.{
  ◌%◌, ◌≡◌, refl, none, some, pos, [], ◌∷◌, arith, List, ℕ, not, ◌==◌, nat_eq, IsDistinct, All,
}
use briska_blast.Common.{◌↔◌}
use briska_blast.Chat.Bans.{
  normalize_id, numeric_id, parse_u64, parse_digits, from_counter, show_digits,
}
use briska_blast.Chat.Bans.Keys.{normalize_id_iff}
use briska_blast.Chat.Ids.{Sequence, format_id, text_eq}
use briska_blast.Chat.Ids.Tail.{ltb_text, format_id-order}
use briska_blast.Chat.Ids.Runs.{Event, call, advance, run, run-IsDistinct, run-unset, StartsFirst}

abbrev z : ℕ
z = 35

-- `…z` and `…A`.
format_id-order_example :
    ltb_text (format_id 97 (pos 35)) (format_id 97 (pos 36)) ≡ not (z % 62 == 35)
format_id-order_example = format_id-order 97 z (omega arith)

abbrev late : Sequence
late = record { counter = pos 9000000000000000000; epoch = some (97 ∷ []) }

abbrev fresh : Sequence
fresh = record { counter = pos 9000000000000000000; epoch = none }

abbrev events : List Event
events = call ∷ call ∷ advance 97 ∷ call ∷ advance 97 ∷ call ∷ []

run-IsDistinct_example : IsDistinct (run late events).0
run-IsDistinct_example = run-IsDistinct late events (omega arith, refl)

run-unset_example : ((run fresh events).1.epoch ≡ none) × All StartsFirst (run fresh events).0
run-unset_example = run-unset fresh events refl

abbrev answer : ℕ
answer = 42

-- "42", " 42 " and "000000042".
abbrev short : List ℕ
short = 52 ∷ 50 ∷ []

abbrev spaced : List ℕ
spaced = 32 ∷ 52 ∷ 50 ∷ 32 ∷ []

abbrev padded : List ℕ
padded = 48 ∷ 48 ∷ 48 ∷ 48 ∷ 48 ∷ 48 ∷ 48 ∷ 52 ∷ 50 ∷ []

short_key : normalize_id short ≡ some padded
unfolding normalize_id numeric_id parse_u64 parse_digits from_counter show_digits
short_key = refl

spaced_key : normalize_id spaced ≡ some padded
unfolding normalize_id numeric_id parse_u64 parse_digits from_counter show_digits
spaced_key = refl

short_number : numeric_id short ≡ some 42
unfolding numeric_id parse_u64 parse_digits
short_number = refl

spaced_number : numeric_id spaced ≡ some 42
unfolding numeric_id parse_u64 parse_digits
spaced_number = refl

normalize_id_iff_example : (normalize_id short ≡ normalize_id spaced) ↔ (answer ≡ answer)
normalize_id_iff_example = normalize_id_iff short spaced answer answer short_number spaced_number
