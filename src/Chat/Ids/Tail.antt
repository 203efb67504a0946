-- ===== src/Chat/Ids/Tail.antt =====
-- The tail: its width, that it determines the counter, and how tails compare.
use briska_blast.Common.{
  nat_beq_iff, not, ℕ, zero, suc, ◌+◌, ◌-◌, ◌*◌, ◌/◌, ◌%◌, ◌<◌, ◌≡◌, refl, Bool, true, false, List,
  [], ◌∷◌, ◌==◌, nat_eq, ltb, if◌then◌else◌, ℤ, pos, IsI64, pos_part, length, arith, ap, sym, ◌∙◌,
  Bool-cases, inl, inr,
}
use briska_blast.Chat.Ids.{alphabet, zeros, fill, encode_tail, format_id, tail_len}

length-zeros : (i : ℕ) (done : List ℕ) → length (zeros i done) ≡ i + length done
length-zeros zero done = omega arith
length-zeros (suc i) done = ground (arith, length-zeros i done)

length-fill : (i v : ℕ) (done : List ℕ) → length (fill i v done) ≡ i + length done
unfolding fill
length-fill zero v done = omega arith
length-fill (suc i) v done =
    ground (arith, length-fill i (v / 62) (alphabet (v % 62) ∷ done), length-zeros i done)

-- Every id has twelve characters, whatever the counter.
pub length-format_id : (epoch : ℕ) (counter : ℤ) → length (format_id epoch counter) ≡ 12
unfolding format_id encode_tail
length-format_id epoch counter = ground (arith, length-fill tail_len (pos_part counter) [])

-- The digit of a byte, and the number that a tail writes after the digits of `a`.
abbrev pub digit : ℕ → ℕ
digit b = if ltb b 58 then b - 48 else if ltb b 91 then b - 29 else b - 87

abbrev pub read_from : ℕ → List ℕ → ℕ
read_from a [] = a
read_from a (b ∷ bs) = read_from (a * 62 + digit b) bs

digit-alphabet : (d : ℕ) → d < 62 → digit (alphabet d) ≡ d
digit-alphabet d h = ground arith

read_from-zeros : (i : ℕ) (done : List ℕ) → read_from 0 (zeros i done) ≡ read_from 0 done
read_from-zeros zero done = refl
read_from-zeros (suc i) done = read_from-zeros i done

-- 62 ^ i
abbrev pub capacity : ℕ → ℕ
capacity zero = 1
capacity (suc i) = 62 * capacity i

read_from-fill :
    (i v : ℕ) (done : List ℕ) → v < capacity i → read_from 0 (fill i v done) ≡ read_from v done
unfolding fill
read_from-fill zero v done h = ap (λ a. read_from a done) (omega arith)
read_from-fill (suc i) v done h = elim (Bool-cases (ltb 0 v)) [
  | inr none_left ↦ ground (arith, none_left, read_from-zeros i done)
  | inl more ↦
      ground
        (arith, more, read_from-fill i (v / 62) (alphabet (v % 62) ∷ done), digit-alphabet (v % 62))
]

-- The tail of a counter of the range of `i64`, which is never negative in use, reads back as it.
pub read_from-encode_tail : (n : ℕ) → IsI64 (pos n) → read_from 0 (encode_tail (pos n)) ≡ n
unfolding encode_tail
read_from-encode_tail n h = read_from-fill tail_len n [] (omega arith)

-- The order of texts by their bytes, which is `String`'s.
abbrev pub ltb_text : List ℕ → List ℕ → Bool
ltb_text [] [] = false
ltb_text [] (y ∷ ys) = true
ltb_text (x ∷ xs) [] = false
ltb_text (x ∷ xs) (y ∷ ys) = if ltb x y then true else if x == y then ltb_text xs ys else false

ltb_text-zeros : (i : ℕ) (a b : List ℕ) → ltb_text (zeros i a) (zeros i b) ≡ ltb_text a b
ltb_text-zeros zero a b = refl
ltb_text-zeros (suc i) a b = ltb_text-zeros i a b

ltb_text-fill : (i v : ℕ) (a b : List ℕ) → ltb_text (fill i v a) (fill i v b) ≡ ltb_text a b
unfolding fill
ltb_text-fill zero v a b = refl
ltb_text-fill (suc i) v a b = ground (
  arith,
  ltb_text-fill i (v / 62) (alphabet (v % 62) ∷ a) (alphabet (v % 62) ∷ b),
  ltb_text-zeros i a b,
  nat_beq_iff (alphabet (v % 62)) (alphabet (v % 62)),
)

zeros-last : (i : ℕ) (done : List ℕ) → zeros (suc i) done ≡ zeros i (48 ∷ done)
zeros-last zero done = refl
zeros-last (suc i) done = ap (λ l. 48 ∷ l) (zeros-last i done)

fill-zero : (i : ℕ) (done : List ℕ) → fill i 0 done ≡ zeros i done
unfolding fill
fill-zero zero done = refl
fill-zero (suc i) done = refl

-- The last place is written even where the loop does not reach it.
fill-last : (i v : ℕ) → fill (suc i) v [] ≡ fill i (v / 62) (alphabet (v % 62) ∷ [])
unfolding fill
fill-last i v = elim (Bool-cases (ltb 0 v)) [
  | inl more ↦ ground (arith, more)
  | inr none_left ↦
      let none_left' : v ≡ 0 = ground (arith, none_left) in
      rw none_left' (zeros-last i [] ∙ sym (fill-zero i (48 ∷ [])))
]

tails-order :
    (n : ℕ)
    → n % 62 < 61
    → ltb_text (fill tail_len n []) (fill tail_len (suc n) [])
      ≡ ltb_text (alphabet (n % 62) ∷ []) (alphabet (suc (n % 62)) ∷ [])
tails-order n h =
    let last_digit : suc n % 62 ≡ suc (n % 62) = omega (arith, h) in
    let higher : suc n / 62 ≡ n / 62 = omega (arith, h) in
    let after : fill tail_len (suc n) [] ≡ fill 10 (n / 62) (alphabet (suc (n % 62)) ∷ []) =
      fill-last 10 (suc n)
      ∙ ap (λ v. fill 10 v (alphabet (suc n % 62) ∷ [])) higher
      ∙ ap (λ d. fill 10 (n / 62) (alphabet d ∷ [])) last_digit in
    ap (λ l. ltb_text l (fill tail_len (suc n) [])) (fill-last 10 n)
    ∙ ap (λ l. ltb_text (fill 10 (n / 62) (alphabet (n % 62) ∷ [])) l) after
    ∙ ltb_text-fill 10 (n / 62) (alphabet (n % 62) ∷ []) (alphabet (suc (n % 62)) ∷ [])

digits-order : (d : ℕ) → d < 61 → ltb_text (alphabet d ∷ []) (alphabet (suc d) ∷ []) ≡ not (d == 35)
digits-order d h = ground arith

ltb_text-cons : (c : ℕ) (a b : List ℕ) → ltb_text (c ∷ a) (c ∷ b) ≡ ltb_text a b
ltb_text-cons c a b = ground arith

-- Two ids of one epoch whose counters follow each other compare as texts by their last digits, as
-- long as the last digit does not turn over: the later id is above the earlier one, but for the
-- step from `z`, digit 35, to `A`, digit 36, where it is below.
pub format_id-order :
    (epoch n : ℕ)
    → n % 62 < 61
    → ltb_text (format_id epoch (pos n)) (format_id epoch (pos (suc n))) ≡ not (n % 62 == 35)
unfolding format_id encode_tail
format_id-order epoch n h =
    ltb_text-cons epoch (fill tail_len n []) (fill tail_len (suc n) [])
    ∙ tails-order n h
    ∙ digits-order (n % 62) h
