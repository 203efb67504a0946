-- ===== src/Chat/Blacklist/Caught.antt =====
-- Which occurrences `find_matches` of server/src/chat/blacklist.rs catches.
use briska_blast.Common.{
  ℕ, zero, suc, ◌+◌, ◌≤◌, ◌<◌, ◌≡◌, ap, Bool, true, false, ◌||◌, Option, none, some, List, [], ◌∷◌,
  ◌++◌, ◌==◌, ==_iff, nat_eq, ltb, leb, contains, All, arith, Bool-cases, inl, inr, ◌⊎◌, if_both,
}
use briska_blast.Chat.Ids.{text_eq}
use briska_blast.Chat.Transcript.{Text}
use briska_blast.Chat.Blacklist.Censored.{boundary-parts, byte_len-append}
use briska_blast.Chat.Blacklist.{
  byte_len, occurs_at, scan, scan_words, comes_first, insert_match, sort_matches, is_clear, dedupe,
  find_matches, Match, end,
}

-- Some element has a property.
abbrev pub Some : (Match → Type 0) → List Match → Type 0
Some P [] = ⊥
Some P (m ∷ l) = P m ⊎ Some P l

Some-append_left : (P : Match → Type 0) (a b : List Match) → Some P a → Some P (a ++ b)
Some-append_left P [] b h = absurd h
Some-append_left P (m ∷ a) b (inl h) = inl h
Some-append_left P (m ∷ a) b (inr h) = inr (Some-append_left P a b h)

Some-append_right : (P : Match → Type 0) (a b : List Match) → Some P b → Some P (a ++ b)
Some-append_right P [] b h = h
Some-append_right P (m ∷ a) b h = inr (Some-append_right P a b h)

-- A match overlaps the `n` bytes at `i`; and it begins there.
abbrev pub Overlaps : ℕ → ℕ → Match → Type 0
Overlaps i n m = (m.start < i + n) × (i < end m)

abbrev Starts : ℕ → Match → Type 0
Starts i m = (m.start ≡ i) × (i < end m)

module _ (is_alphanumeric : ℕ → Bool) (text word : Text) where
  -- No earlier occurrence of the word reaches over the offset.
  abbrev pub IsApart : ℕ → Type 0
  IsApart i = (j : ℕ) → occurs_at is_alphanumeric text word j ≡ true → j < i → j + byte_len word ≤ i

  scan-Starts :
      (fuel j i : ℕ)
      → 1 ≤ byte_len word
      → i + byte_len word ≤ byte_len text
      → occurs_at is_alphanumeric text word i ≡ true
      → IsApart i
      → j ≤ i
      → byte_len text < fuel + j
      → Some (Starts i) (scan is_alphanumeric fuel text word j)
  unfolding scan
  scan-Starts zero j i n fits hit apart le enough = absurd (omega (arith, n, fits, le, enough))
  scan-Starts (suc fuel) j i n fits hit apart le enough =
      let within : leb (j + byte_len word) (byte_len text) ≡ true = ground (arith, fits, le) in
      elim (Bool-cases (occurs_at is_alphanumeric text word j)) [
        | inl here ↦ elim (Bool-cases (j == i)) [
          | inl same ↦ rw (within, here) (inl (ground (arith, n, same)))
          | inr other ↦
              let before : j < i = ground (arith, other, le) in
              rw (within, here)
                (inr (
                  scan-Starts fuel (j + byte_len word) i n fits hit apart (apart j here before)
                    (omega (arith, n, enough))))
        ]
        | inr miss ↦
            let other : (j == i) ≡ false = elim (Bool-cases (j == i)) [
              | inr o ↦ o
              | inl same ↦ cc (miss, hit, (==_iff j i).0 same)
            ] in
            rw (within, miss)
              (scan-Starts fuel (j + 1) i n fits hit apart (ground (arith, other, le))
                (omega (arith, enough)))
      ]

  scan_words-Starts :
      (words : List Text) (i : ℕ)
      → contains words word ≡ true
      → 1 ≤ byte_len word
      → i + byte_len word ≤ byte_len text
      → occurs_at is_alphanumeric text word i ≡ true
      → IsApart i
      → Some (Starts i) (scan_words is_alphanumeric text words)
  unfolding scan_words
  scan_words-Starts [] i there n fits hit apart = cc
  scan_words-Starts (w ∷ words) i there n fits hit apart = elim (Bool-cases (w == word)) [
    | inl same ↦
        let e = (==_iff w word).0 same in
        let used : (byte_len w == 0 || ltb (byte_len text) (byte_len w)) ≡ false =
          ground (arith, e, n, fits) in
        rw used (
          Some-append_left (Starts i) (scan is_alphanumeric (suc (byte_len text)) text w 0)
            (scan_words is_alphanumeric text words)
            (rw e
              (scan-Starts (suc (byte_len text)) 0 i n fits hit apart (omega arith) (omega arith))))
    | inr other ↦
        let later = scan_words-Starts words i (ground (arith, there, other)) n fits hit apart in
        if_both (Some (Starts i)) _ (scan_words is_alphanumeric text words) _ later (
          Some-append_right (Starts i) (scan is_alphanumeric (suc (byte_len text)) text w 0) _
            later)
  ]

insert-Some :
    (P : Match → Type 0) (m : Match) (l : List Match) → P m ⊎ Some P l → Some P (insert_match m l)
unfolding insert_match
insert-Some P m [] h = h
insert-Some P m (n ∷ l) h = elim (Bool-cases (comes_first m n)) [
  | inl first ↦ rw first h
  | inr later ↦ rw later (elim h [
    | inl here ↦ inr (insert-Some P m l (inl here))
    | inr (inl there) ↦ inl there
    | inr (inr rest) ↦ inr (insert-Some P m l (inr rest))
  ])
]

sort-Some : (P : Match → Type 0) (l : List Match) → Some P l → Some P (sort_matches l)
unfolding sort_matches
sort-Some P [] h = h
sort-Some P (m ∷ l) (inl h) = insert-Some P m (sort_matches l) (inl h)
sort-Some P (m ∷ l) (inr h) = insert-Some P m (sort_matches l) (inr (sort-Some P l h))

abbrev IsOrdered : List Match → Type 0
IsOrdered [] = Unit
IsOrdered (m ∷ l) = All (λ n. m.start ≤ n.start) l × IsOrdered l

insert-All :
    (k : ℕ) (m : Match) (l : List Match)
    → k ≤ m.start
    → All (λ n. k ≤ n.start) l
    → All (λ n. k ≤ n.start) (insert_match m l)
unfolding insert_match
insert-All k m [] h a = (h, tt)
insert-All k m (n ∷ l) h a =
    if_both (All (λ (x : Match). k ≤ x.start)) (comes_first m n) (m ∷ n ∷ l) _ (h, a)
      (a.0, insert-All k m l h a.1)

All-later : (k j : ℕ) (l : List Match) → k ≤ j → All (λ n. j ≤ n.start) l → All (λ n. k ≤ n.start) l
All-later k j [] h a = tt
All-later k j (m ∷ l) h a = (omega (arith, h, a.0), All-later k j l h a.1)

insert-IsOrdered : (m : Match) (l : List Match) → IsOrdered l → IsOrdered (insert_match m l)
unfolding insert_match
insert-IsOrdered m [] o = (tt, tt)
insert-IsOrdered m (n ∷ l) o = elim (Bool-cases (comes_first m n)) [
  | inl first ↦
      let le : m.start ≤ n.start = ground (arith, first) in
      rw first ((le, All-later m.start n.start l le o.0), o)
  | inr later ↦
      rw later (insert-All n.start m l (ground (arith, later)) o.0, insert-IsOrdered m l o.1)
]

sort-IsOrdered : (l : List Match) → IsOrdered (sort_matches l)
unfolding sort_matches
sort-IsOrdered [] = tt
sort-IsOrdered (m ∷ l) = insert-IsOrdered m (sort_matches l) (sort-IsOrdered l)

abbrev Before : Option Match → List Match → Type 0
Before none l = Unit
Before (some prev) l = All (λ n. prev.start ≤ n.start) l

abbrev Covered : ℕ → ℕ → Option Match → Type 0
Covered i n none = ⊥
Covered i n (some prev) = Overlaps i n prev

Before-rest :
    (last : Option Match) (m : Match) (l : List Match) → Before last (m ∷ l) → Before last l
Before-rest none m l b = tt
Before-rest (some prev) m l b = b.1

Covered-start :
    (last : Option Match) (m : Match) (l : List Match) (i n : ℕ)
    → 1 ≤ n
    → Before last (m ∷ l)
    → is_clear last m ≡ false
    → Starts i m
    → Covered i n last
Covered-start none m l i n one b h s = cc
Covered-start (some prev) m l i n one b h s = ground (arith, one, b.0, h, s)

dedupe-Overlaps :
    (last : Option Match) (l : List Match) (i n : ℕ)
    → 1 ≤ n
    → IsOrdered l
    → Before last l
    → Some (Starts i) l
    → Some (Overlaps i n) (dedupe last l) ⊎ Covered i n last
unfolding dedupe
dedupe-Overlaps last [] i n one o b h = absurd h
dedupe-Overlaps last (m ∷ l) i n one o b h = elim (Bool-cases (is_clear last m)) [
  | inl clear ↦ rw clear (elim h [
    | inl here ↦ inl (inl (ground (arith, one, here)))
    | inr later ↦ elim (dedupe-Overlaps (some m) l i n one o.1 o.0 later) [
      | inl found ↦ inl (inr found)
      | inr covered ↦ inl (inl covered)
    ]
  ])
  | inr covered ↦ rw covered (elim h [
    | inl here ↦ inr (Covered-start last m l i n one b covered here)
    | inr later ↦ dedupe-Overlaps last l i n one o.1 (Before-rest last m l b) later
  ])
]

occurs_at-fits :
    (is_alphanumeric : ℕ → Bool) (text word : Text) (i : ℕ)
    → occurs_at is_alphanumeric text word i ≡ true
    → i + byte_len word ≤ byte_len text
unfolding occurs_at
occurs_at-fits is_alphanumeric text word i h =
    let (x, y, e, at_end) = boundary-parts text (i + byte_len word) (ground (arith, h)) in
    omega (arith, at_end, byte_len-append x y, ap byte_len e)

-- A whole-word occurrence of a listed word that is not empty, in any case of ASCII's letters,
-- that no earlier occurrence of the same word reaches over shares at least a byte with a match
-- that is reported.
pub find_matches-Overlaps :
    (is_alphanumeric : ℕ → Bool) (text : Text) (words : List Text) (word : Text) (i : ℕ)
    → contains words word ≡ true
    → 1 ≤ byte_len word
    → occurs_at is_alphanumeric text word i ≡ true
    → IsApart is_alphanumeric text word i
    → Some (Overlaps i (byte_len word)) (find_matches is_alphanumeric text words)
unfolding find_matches
find_matches-Overlaps is_alphanumeric text words word i there n hit apart =
    let fits = occurs_at-fits is_alphanumeric text word i hit in
    let raw = scan_words-Starts is_alphanumeric text word words i there n fits hit apart in
    let sorted : List Match = sort_matches (scan_words is_alphanumeric text words) in
    elim (dedupe-Overlaps none sorted i (byte_len word) n
      (sort-IsOrdered (scan_words is_alphanumeric text words)) tt
      (sort-Some (Starts i) (scan_words is_alphanumeric text words) raw)) [
        | inl found ↦ found
        | inr none_before ↦ absurd none_before
      ]
