-- ===== src/Chat/Ids.antt =====
-- Moderation identifiers: server/src/chat/ids.rs. A character and a byte are the number of their code
-- point; an id is the list of its characters. A sequence is its two Redis keys.
pub mod Tail
pub mod Epochs
pub mod Runs
use briska_blast.Common.{
  ◌&&◌, ◌≡◌, ◌↔◌, Eq, ==_iff, arith, ℕ, zero, suc, ◌+◌, ◌-◌, ◌/◌, ◌%◌, Bool, true, false, Option,
  none, some, List, [], ◌∷◌, ◌==◌, nat_eq, ltb, if◌then◌else◌, ℤ, pos, negsuc, i64_max, get_elem?,
  contains, map, pos_part,
}

-- `ALPHABET[d]`: `0-9`, `a-z`, `A-Z`.
abbrev pub alphabet : ℕ → ℕ
alphabet d = if ltb d 10 then 48 + d else if ltb d 36 then 87 + d else 29 + d

abbrev pub epoch_alphabet : List ℕ
epoch_alphabet =
    97 ∷ 98 ∷ 99 ∷ 100 ∷ 101 ∷ 102 ∷ 103 ∷ 104 ∷ 105 ∷ 106 ∷ 107 ∷ 108 ∷ 109 ∷ 110 ∷ 111 ∷ 112 ∷ 113
    ∷ 114 ∷ 115 ∷ 116 ∷ 117 ∷ 118 ∷ 119 ∷ 120 ∷ 121 ∷ 122 ∷ 65 ∷ 66 ∷ 67 ∷ 68 ∷ 69 ∷ 70 ∷ 71 ∷ 72
    ∷ 73 ∷ 74 ∷ 75 ∷ 76 ∷ 77 ∷ 78 ∷ 79 ∷ 80 ∷ 81 ∷ 82 ∷ 83 ∷ 84 ∷ 85 ∷ 86 ∷ 87 ∷ 88 ∷ 89 ∷ 90 ∷ []

-- 'a'
abbrev pub first_epoch : ℕ
first_epoch = 97

abbrev pub tail_len : ℕ
tail_len = 11

abbrev pub epoch_limit : ℕ
epoch_limit = 9000000000000000000

abbrev pub zeros : ℕ → List ℕ → List ℕ
zeros zero done = done
zeros (suc i) done = 48 ∷ zeros i done

-- The loop of `encode_tail`, with `i` places of the buffer still `0` and the others written.
unfoldable pub fill : ℕ → ℕ → List ℕ → List ℕ
fill zero v done = done
fill (suc i) v done =
    let rest = fill i (v / 62) (alphabet (v % 62) ∷ done) in
    if ltb 0 v then rest else zeros (suc i) done

-- `n.max(0) as u64`
unfoldable pub encode_tail : ℤ → List ℕ
unfolding fill
encode_tail n = fill tail_len (pos_part n) []

unfoldable pub format_id : ℕ → ℤ → List ℕ
unfolding encode_tail
format_id epoch counter = epoch ∷ encode_tail counter

-- `iter().position(|&c| c == current)`
unfoldable pub position : List ℕ → ℕ → Option ℕ
position [] c = none
position (x ∷ xs) c =
    let rest = position xs c in
    if x == c then some 0 else elim rest [ none ↦ none | some i ↦ some (suc i) ]

unfoldable pub next_in : List ℕ → ℕ → Option ℕ
unfolding position
next_in l current = elim (position l current) [ none ↦ none | some i ↦ get_elem? l (suc i) ]

unfoldable pub next_epoch : ℕ → Option ℕ
unfolding next_in
next_epoch current = next_in epoch_alphabet current

-- The stored text is its characters.
unfoldable pub parse_epoch : Option (List ℕ) → ℕ
parse_epoch none = first_epoch
parse_epoch (some []) = first_epoch
parse_epoch (some (c ∷ cs)) = if contains epoch_alphabet c then c else first_epoch

-- The two keys of a sequence; a counter that is not stored counts as zero.
pub record Sequence : Type 0 where
  pub counter : ℤ
  pub epoch : Option (List ℕ)

-- `INCR`: an error at the end of `i64`.
abbrev pub incr : ℤ → Option ℤ
incr (pos n) = if ltb n i64_max then some (pos (suc n)) else none
incr (negsuc zero) = some (pos 0)
incr (negsuc (suc n)) = some (negsuc n)

abbrev pub text_beq : List ℕ → List ℕ → Bool
text_beq [] [] = true
text_beq [] (y ∷ ys) = false
text_beq (x ∷ xs) [] = false
text_beq (x ∷ xs) (y ∷ ys) = x == y && text_beq xs ys

pub text_beq_iff : (a b : List ℕ) → (text_beq a b ≡ true) ↔ (a ≡ b)
text_beq_iff [] [] = ground arith
text_beq_iff [] (y ∷ ys) = ground arith
text_beq_iff (x ∷ xs) [] = ground arith
text_beq_iff (x ∷ xs) (y ∷ ys) = ground (arith, text_beq_iff xs ys, ==_iff x y)

instance abbrev pub text_eq : Eq (List ℕ)
text_eq = record { equal = text_beq; equal_iff = text_beq_iff }

-- ADVANCE_EPOCH_SCRIPT: a key that is not stored reads as `false`, which equals no text.
unfoldable pub advance_script : ℕ → ℕ → Sequence → Bool × Sequence
advance_script observed next s = elim s.epoch [
  | none ↦ (false, s)
  | some e ↦
      if e == observed ∷ []
      then (true, record { counter = pos 0; epoch = some (next ∷ []) })
      else (false, s)
]

unfoldable pub advance_epoch : ℕ → Sequence → Sequence
unfolding next_epoch advance_script
advance_epoch observed s = elim (next_epoch observed) [
  | none ↦ s
  | some next ↦ (advance_script observed next s).1
]

-- What `next_id` issued, and the epoch that it has then to advance, if the limit is passed.
pub record Issued : Type 0 where
  pub id : List ℕ
  pub counter : ℤ
  pub observed : ℕ

-- The transaction of `next_id`: `INCR` and `GET`.
unfoldable pub issue : Sequence → Option Issued × Sequence
unfolding format_id parse_epoch
issue s = elim (incr s.counter) [
  | none ↦ (none, s)
  | some n ↦ (
    some (record {
      id = format_id (parse_epoch s.epoch) n;
      counter = n;
      observed = parse_epoch s.epoch;
    }),
    record s { counter = n },
  )
]

-- `counter > EPOCH_LIMIT`
abbrev pub passes_limit : ℤ → Bool
passes_limit (pos n) = ltb epoch_limit n
passes_limit (negsuc n) = false

unfoldable pub advance_after : Option Issued → Sequence → Sequence
advance_after none s = s
advance_after (some i) s = if passes_limit i.counter then advance_epoch i.observed s else s

-- `next_id` with no other caller between its two halves.
unfoldable pub next_id : Sequence → Option Issued × Sequence
unfolding issue advance_epoch advance_after
next_id s = let (issued, s') = issue s in (issued, advance_after issued s')
