-- ===== src/Chat/Bans/Keys.antt =====
-- The key of a player: every spelling of a number has one, and no other number has it.
use briska_blast.Common.{
  ℕ, zero, suc, ◌+◌, ◌-◌, ◌*◌, ◌/◌, ◌%◌, ◌^◌, ◌≤◌, ◌<◌, ◌≡◌, refl, ◌↔◌, ap, ◌∙◌, false, some, List,
  [], ◌∷◌, nat_eq, ltb, is_empty, length, All, arith, Bool-cases, inl, inr,
}
use briska_blast.Chat.Bans.{
  trim_start, trim_end, trim, parse_digits, parse_u64, show_digits, zeros, u64_digits, from_counter,
  numeric_id, normalize_id,
}

abbrev IsDigit : ℕ → Type 0
IsDigit c = (48 ≤ c) × (c ≤ 57)

capacity : ℕ → ℕ
capacity zero = 1
capacity (suc f) = 10 * capacity f

show_digits-IsDigit :
    (fuel n : ℕ) (done : List ℕ) → All IsDigit done → All IsDigit (show_digits fuel n done)
unfolding show_digits
show_digits-IsDigit zero n done h = h
show_digits-IsDigit (suc fuel) n done h =
    ground (arith, show_digits-IsDigit fuel (n / 10) ((48 + n % 10) ∷ done))

parse_digits-show_digits :
    (fuel n : ℕ) (done : List ℕ)
    → n < capacity fuel
    → n < 2 ^ 64
    → parse_digits 0 (show_digits fuel n done) ≡ parse_digits n done
unfolding show_digits parse_digits capacity
parse_digits-show_digits zero n done fits small = ap (λ a. parse_digits a done) (omega arith)
parse_digits-show_digits (suc fuel) n done fits small =
    ground (arith, parse_digits-show_digits fuel (n / 10) ((48 + n % 10) ∷ done))

parse_digits-zeros : (k : ℕ) (done : List ℕ) → parse_digits 0 (zeros k done) ≡ parse_digits 0 done
unfolding parse_digits
parse_digits-zeros zero done = refl
parse_digits-zeros (suc k) done = ground (arith, parse_digits-zeros k done)

zeros-IsDigit : (k : ℕ) (done : List ℕ) → All IsDigit done → All IsDigit (zeros k done)
zeros-IsDigit zero done h = h
zeros-IsDigit (suc k) done h = ((omega arith, omega arith), zeros-IsDigit k done h)

trim_end-IsDigit : (t : List ℕ) → All IsDigit t → trim_end t ≡ t
trim_end-IsDigit [] h = refl
trim_end-IsDigit (c ∷ cs) h = ground (arith, trim_end-IsDigit cs h.1)

trim_start-IsDigit : (t : List ℕ) → All IsDigit t → trim_start t ≡ t
trim_start-IsDigit [] h = refl
trim_start-IsDigit (c ∷ cs) h = ground arith

from_counter-IsDigit : (n : ℕ) → All IsDigit (from_counter n)
unfolding from_counter
from_counter-IsDigit n =
    zeros-IsDigit (9 - length (show_digits u64_digits n [])) (show_digits u64_digits n [])
      (show_digits-IsDigit u64_digits n [] tt)

trim-from_counter : (n : ℕ) → trim (from_counter n) ≡ from_counter n
trim-from_counter n =
    ap trim_end (trim_start-IsDigit (from_counter n) (from_counter-IsDigit n))
    ∙ trim_end-IsDigit (from_counter n) (from_counter-IsDigit n)

parse_digits-from_counter : (n : ℕ) → n < 2 ^ 64 → parse_digits 0 (from_counter n) ≡ some n
unfolding from_counter capacity parse_digits
parse_digits-from_counter n small =
    parse_digits-zeros (9 - length (show_digits u64_digits n [])) (show_digits u64_digits n [])
    ∙ parse_digits-show_digits u64_digits n [] (omega (arith, small)) small

-- A text of digits that is not empty is parsed from its start.
parse_u64-digits :
    (t : List ℕ) → All IsDigit t → is_empty t ≡ false → parse_u64 t ≡ parse_digits 0 t
unfolding parse_u64
parse_u64-digits [] h e = cc
parse_u64-digits (c ∷ []) h e = refl
parse_u64-digits (c ∷ d ∷ cs) h e = ground arith

show_digits-some :
    (n : ℕ) (t : List ℕ) → is_empty t ≡ false → (fuel : ℕ) → is_empty (show_digits fuel n t) ≡ false
unfolding show_digits
show_digits-some n t h zero = h
show_digits-some n t h (suc fuel) =
    ground (arith, show_digits-some (n / 10) ((48 + n % 10) ∷ t) refl fuel)

zeros-some : (k : ℕ) (t : List ℕ) → is_empty t ≡ false → is_empty (zeros k t) ≡ false
zeros-some zero t h = h
zeros-some (suc k) t h = refl

show_counter-some : (n : ℕ) → is_empty (show_digits u64_digits n []) ≡ false
unfolding show_digits
show_counter-some n = elim (Bool-cases (ltb n 10)) [
  | inl small ↦ ground (arith, small)
  | inr more ↦ ground (arith, more, show_digits-some (n / 10) ((48 + n % 10) ∷ []) refl 19)
]

from_counter-some : (n : ℕ) → is_empty (from_counter n) ≡ false
unfolding from_counter
from_counter-some n =
    zeros-some (9 - length (show_digits u64_digits n [])) (show_digits u64_digits n [])
      (show_counter-some n)

pub parse_u64-from_counter : (n : ℕ) → n < 2 ^ 64 → parse_u64 (from_counter n) ≡ some n
parse_u64-from_counter n small =
    parse_u64-digits (from_counter n) (from_counter-IsDigit n) (from_counter-some n)
    ∙ parse_digits-from_counter n small

-- The canonical id of a `u64` reads back as it, so different numbers have different keys.
pub numeric_id-from_counter : (n : ℕ) → n < 2 ^ 64 → numeric_id (from_counter n) ≡ some n
unfolding numeric_id
numeric_id-from_counter n small =
    ap parse_u64 (trim-from_counter n) ∙ parse_u64-from_counter n small

pub parse_u64-show_digits : (n : ℕ) → n < 2 ^ 64 → parse_u64 (show_digits u64_digits n []) ≡ some n
unfolding capacity parse_digits
parse_u64-show_digits n small =
    parse_u64-digits (show_digits u64_digits n []) (show_digits-IsDigit u64_digits n [] tt)
      (show_counter-some n)
    ∙ parse_digits-show_digits u64_digits n [] (omega (arith, small)) small

parse_digits-small :
    (a : ℕ) (t : List ℕ) (n : ℕ) → a < 2 ^ 64 → parse_digits a t ≡ some n → n < 2 ^ 64
unfolding parse_digits
parse_digits-small a [] n small h = ground (arith, small)
parse_digits-small a (c ∷ cs) n small h =
    ground (arith, parse_digits-small (a * 10 + (c - 48)) cs n)

pub parse_u64-small : (t : List ℕ) (n : ℕ) → parse_u64 t ≡ some n → n < 2 ^ 64
unfolding parse_u64
parse_u64-small [] n h = cc
parse_u64-small (c ∷ []) n h = parse_digits-small 0 (c ∷ []) n (omega arith) h
parse_u64-small (c ∷ d ∷ cs) n h = ground (
  arith,
  parse_digits-small 0 (d ∷ cs) n (omega arith),
  parse_digits-small 0 (c ∷ d ∷ cs) n (omega arith),
)

-- Two texts that spell numbers have one key exactly when they spell one number.
pub normalize_id_iff :
    (a b : List ℕ) (m n : ℕ)
    → numeric_id a ≡ some m
    → numeric_id b ≡ some n
    → (normalize_id a ≡ normalize_id b) ↔ (m ≡ n)
unfolding normalize_id numeric_id
normalize_id_iff a b m n ha hb =
    ground
      (arith, numeric_id-from_counter m (small a m ha), numeric_id-from_counter n (small b n hb))
  where
    small : (t : List ℕ) (k : ℕ) → numeric_id t ≡ some k → k < 2 ^ 64
    small t k h = parse_u64-small (trim t) k h
