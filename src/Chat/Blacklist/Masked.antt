-- ===== src/Chat/Blacklist/Masked.antt =====
-- What the mask does to a text: every character within a match becomes `#`, and every other one stays.
use briska_blast.Common.{
  ℕ, zero, suc, ◌+◌, ◌≤◌, ◌≡◌, refl, sym, ap, Bool, true, Option, none, some, List, [], ◌∷◌, nat_eq,
  leb, All, All-append, arith, Bool-cases, inl, inr, if_both,
}
use briska_blast.Chat.Transcript.{Text}
use briska_blast.Chat.Blacklist.{
  byte_len, is_char_boundary, Match, end, occurs_at, scan, scan_words, comes_first, insert_match,
  sort_matches, is_clear, dedupe, find_matches, mask,
}
use briska_blast.Chat.Blacklist.Censored.{censor, censor-none, Chain, mask_from-censor}

-- What `find_matches` finds begins and ends at a boundary.
abbrev IsCut : Text → Match → Type 0
IsCut text m = (is_char_boundary text m.start ≡ true) × (is_char_boundary text (end m) ≡ true)

module _ (is_alphanumeric : ℕ → Bool) (text : Text) where
  occurs_at-IsCut :
      (word : Text) (i : ℕ)
      → occurs_at is_alphanumeric text word i ≡ true
      → IsCut text (record { start = i; len = byte_len word; word = word })
  unfolding occurs_at
  occurs_at-IsCut word i h = (ground (arith, h), ground (arith, h))

  scan-IsCut :
      (fuel : ℕ) (word : Text) (i : ℕ) → All (IsCut text) (scan is_alphanumeric fuel text word i)
  unfolding scan
  scan-IsCut zero word i = tt
  scan-IsCut (suc fuel) word i = elim (Bool-cases (leb (i + byte_len word) (byte_len text))) [
    | inr out ↦ rw out tt
    | inl within ↦ elim (Bool-cases (occurs_at is_alphanumeric text word i)) [
      | inl hit ↦
          rw (within, hit) (occurs_at-IsCut word i hit, scan-IsCut fuel word (i + byte_len word))
      | inr miss ↦ rw (within, miss) (scan-IsCut fuel word (i + 1))
    ]
  ]

  scan_words-IsCut : (words : List Text) → All (IsCut text) (scan_words is_alphanumeric text words)
  unfolding scan_words
  scan_words-IsCut [] = tt
  scan_words-IsCut (word ∷ words) =
      if_both (All (IsCut text)) _ (scan_words is_alphanumeric text words) _
        (scan_words-IsCut words)
        (All-append (IsCut text) (scan is_alphanumeric (suc (byte_len text)) text word 0) _
          (scan-IsCut (suc (byte_len text)) word 0) (scan_words-IsCut words))

insert-All :
    (P : Match → Type 0) (m : Match) (l : List Match) → P m → All P l → All P (insert_match m l)
unfolding insert_match
insert-All P m [] h a = (h, tt)
insert-All P m (n ∷ l) h a =
    if_both (All P) (comes_first m n) (m ∷ n ∷ l) _ (h, a) (a.0, insert-All P m l h a.1)

sort-All : (P : Match → Type 0) (l : List Match) → All P l → All P (sort_matches l)
unfolding sort_matches
sort-All P [] a = tt
sort-All P (m ∷ l) a = insert-All P m (sort_matches l) a.0 (sort-All P l a.1)

abbrev clear_from : Option Match → ℕ
clear_from none = 0
clear_from (some prev) = end prev

is_clear-le : (last : Option Match) (m : Match) → is_clear last m ≡ true → clear_from last ≤ m.start
is_clear-le none m h = omega arith
is_clear-le (some prev) m h = ground (arith, h)

dedupe-Chain :
    (text : Text) (last : Option Match) (l : List Match)
    → All (IsCut text) l
    → Chain text (clear_from last) (dedupe last l)
unfolding dedupe
dedupe-Chain text last [] a = tt
dedupe-Chain text last (m ∷ l) a = elim (Bool-cases (is_clear last m)) [
  | inl clear ↦ rw clear (is_clear-le last m clear, a.0.0, a.0.1, dedupe-Chain text (some m) l a.1)
  | inr covered ↦ rw covered (dedupe-Chain text last l a.1)
]

find_matches-Chain :
    (is_alphanumeric : ℕ → Bool) (text : Text) (words : List Text)
    → Chain text 0 (find_matches is_alphanumeric text words)
unfolding find_matches
find_matches-Chain is_alphanumeric text words =
    dedupe-Chain text none _ (sort-All (IsCut text) _ (scan_words-IsCut is_alphanumeric text words))

mask-censor : (text : Text) (l : List Match) → Chain text 0 l → mask text l ≡ some (censor l 0 text)
unfolding mask byte_len
mask-censor text [] c = ap some (sym (censor-none 0 text))
mask-censor text (m ∷ l) c = mask_from-censor (m ∷ l) [] text 0 refl c

-- For any text and any words the masking of what the filter finds never slices inside a
-- character, and is a walk over the characters that puts `#` for each character that starts
-- inside a match and keeps every other.
pub mask-find_matches :
    (is_alphanumeric : ℕ → Bool) (text : Text) (words : List Text)
    → mask text (find_matches is_alphanumeric text words)
      ≡ some (censor (find_matches is_alphanumeric text words) 0 text)
mask-find_matches is_alphanumeric text words =
    mask-censor text (find_matches is_alphanumeric text words)
      (find_matches-Chain is_alphanumeric text words)
