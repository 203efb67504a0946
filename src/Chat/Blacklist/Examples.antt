-- ===== src/Chat/Blacklist/Examples.antt =====
-- Tests, and concrete cases.
use briska_blast.Common.{
  Bool, true, ◌||◌, ◌&&◌, some, List, [], ◌∷◌, ◌≡◌, refl, arith, leb, ℕ, zero, suc,
}
use briska_blast.Chat.Transcript.{Text}
use briska_blast.Chat.Blacklist.{
  find_matches, mask, mask_from, scan_words, scan, occurs_at, boundary_before, boundary_after,
  split_at, slice, byte_len, as_bytes, len_utf8, sort_matches, insert_match, dedupe,
}
use briska_blast.Chat.Blacklist.Masked.{mask-find_matches}
use briska_blast.Chat.Blacklist.Censored.{censor}
use briska_blast.Chat.Blacklist.Caught.{Some, Overlaps, IsApart, find_matches-Overlaps}

-- ASCII's letters.
abbrev is_letter : ℕ → Bool
is_letter c = leb 65 c && leb c 90 || (leb 97 c && leb c 122)

-- "xé bad B" with the words "bad" and "b".
abbrev text : Text
text = 120 ∷ 233 ∷ 32 ∷ 98 ∷ 97 ∷ 100 ∷ 32 ∷ 66 ∷ []

abbrev bad : Text
bad = 98 ∷ 97 ∷ 100 ∷ []

abbrev words : List Text
words = bad ∷ (98 ∷ []) ∷ []

-- "xé ### #".
masked :
    mask text (find_matches is_letter text words)
    ≡ some (120 ∷ 233 ∷ 32 ∷ 35 ∷ 35 ∷ 35 ∷ 32 ∷ 35 ∷ [])
unfolding find_matches mask mask_from scan_words scan occurs_at boundary_before boundary_after
    split_at slice byte_len as_bytes len_utf8 sort_matches insert_match dedupe
masked = refl

mask-find_matches_example :
    mask text (find_matches is_letter text words)
    ≡ some (censor (find_matches is_letter text words) 0 text)
mask-find_matches_example = mask-find_matches is_letter text words

-- "x a a a" with the words "x a" and "a a": the last "a a" is a whole word, and stays.
abbrev phrase : Text
phrase = 120 ∷ 32 ∷ 97 ∷ 32 ∷ 97 ∷ 32 ∷ 97 ∷ []

abbrev twice : Text
twice = 97 ∷ 32 ∷ 97 ∷ []

overlap_missed :
    (occurs_at is_letter phrase twice 4 ≡ true)
    × (mask phrase (find_matches is_letter phrase ((120 ∷ 32 ∷ 97 ∷ []) ∷ twice ∷ []))
        ≡ some (35 ∷ 35 ∷ 35 ∷ 32 ∷ 97 ∷ 32 ∷ 97 ∷ []))
unfolding find_matches mask mask_from scan_words scan occurs_at boundary_before boundary_after
    split_at slice byte_len as_bytes len_utf8 sort_matches insert_match dedupe
overlap_missed = (refl, refl)

hit : occurs_at is_letter text bad 4 ≡ true
unfolding occurs_at boundary_before boundary_after split_at byte_len as_bytes len_utf8
hit = refl

alone : IsApart is_letter text bad 4
unfolding occurs_at boundary_before boundary_after split_at byte_len as_bytes len_utf8
alone zero there lt = omega arith
alone (suc zero) there lt = omega arith
alone (suc (suc zero)) there lt = cc
alone (suc (suc (suc zero))) there lt = cc
alone (suc (suc (suc (suc n)))) there lt = absurd (omega (arith, lt))

find_matches-Overlaps_example : Some (Overlaps 4 (byte_len bad)) (find_matches is_letter text words)
unfolding byte_len len_utf8
find_matches-Overlaps_example =
    find_matches-Overlaps is_letter text words bad 4 refl (omega arith) hit alone
