-- ===== src/Chat/Blacklist.antt =====
-- The word blacklist: server/src/chat/blacklist.rs. A text is the list of its characters, and an offset
-- counts the bytes of its UTF-8 form. Unicode's table of letters and digits is given. A slice that
-- would panic is `none`. A stored value is an entry, or a text that is none.
pub mod Words
pub mod Censored
pub mod Masked
pub mod Caught
mod Examples
use briska_blast.Common.{
  ℕ, zero, suc, ◌+◌, ◌-◌, ◌/◌, ◌%◌, String, Bool, true, false, not, ◌&&◌, ◌||◌, Option, none, some,
  List, [], ◌∷◌, ◌++◌, ◌==◌, nat_eq, ltb, leb, is_empty, length, contains, if◌then◌else◌,
}
use briska_blast.Chat.Ids.{text_eq}
use briska_blast.Chat.Transcript.{Text}

-- The bytes of a character.
abbrev pub utf8 : ℕ → List ℕ
utf8 c =
    if ltb c 128
    then c ∷ []
    else if ltb c 2048
    then (192 + c / 64) ∷ (128 + c % 64) ∷ []
    else if ltb c 65536
    then (224 + c / 4096) ∷ (128 + c / 64 % 64) ∷ (128 + c % 64) ∷ []
    else (240 + c / 262144) ∷ (128 + c / 4096 % 64) ∷ (128 + c / 64 % 64) ∷ (128 + c % 64) ∷ []

-- `char::len_utf8`.
unfoldable pub len_utf8 : ℕ → ℕ
len_utf8 c = if ltb c 128 then 1 else if ltb c 2048 then 2 else if ltb c 65536 then 3 else 4

-- `as_bytes()`, and `len()` of a text.
unfoldable pub as_bytes : Text → List ℕ
as_bytes [] = []
as_bytes (c ∷ cs) = utf8 c ++ as_bytes cs

unfoldable pub byte_len : Text → ℕ
unfolding len_utf8
byte_len [] = 0
byte_len (c ∷ cs) = len_utf8 c + byte_len cs

-- `text[..i]` and `text[i..]`, where `i` is a boundary.
unfoldable pub split_at : Text → ℕ → Option (Text × Text)
unfolding len_utf8
split_at [] i = if i == 0 then some ([], []) else none
split_at (c ∷ cs) i =
    let rest = split_at cs (i - len_utf8 c) in
    if i == 0
    then some ([], c ∷ cs)
    else if leb (len_utf8 c) i
    then (elim rest [ none ↦ none | some (a, b) ↦ some (c ∷ a, b) ])
    else none

abbrev pub is_char_boundary : Text → ℕ → Bool
is_char_boundary text i = elim (split_at text i) [ none ↦ false | some s ↦ true ]

-- `text[i..j]`.
unfoldable pub slice : Text → ℕ → ℕ → Option Text
unfolding split_at
slice text i j = elim (split_at text j) [
  | none ↦ none
  | some (a, b) ↦ elim (split_at a i) [ none ↦ none | some (before, between) ↦ some between ]
]

abbrev pub to_ascii_lowercase : ℕ → ℕ
to_ascii_lowercase c = if leb 65 c && leb c 90 then c + 32 else c

abbrev pub eq_ignore_ascii_case : List ℕ → List ℕ → Bool
eq_ignore_ascii_case [] [] = true
eq_ignore_ascii_case [] (y ∷ ys) = false
eq_ignore_ascii_case (x ∷ xs) [] = false
eq_ignore_ascii_case (x ∷ xs) (y ∷ ys) =
    to_ascii_lowercase x == to_ascii_lowercase y && eq_ignore_ascii_case xs ys

-- `bytes[i..i + n]`, within the bytes.
abbrev pub take : ℕ → List ℕ → List ℕ
take zero l = []
take (suc n) [] = []
take (suc n) (x ∷ l) = x ∷ take n l

abbrev pub drop : ℕ → List ℕ → List ℕ
drop zero l = l
drop (suc n) [] = []
drop (suc n) (x ∷ l) = drop n l

pub record Match : Type 0 where
  pub start : ℕ
  pub len : ℕ
  pub word : Text

-- `Match::end`.
abbrev pub end : Match → ℕ
end m = m.start + m.len

abbrev pub last_char : Text → Option ℕ
last_char [] = none
last_char (c ∷ []) = some c
last_char (c ∷ d ∷ cs) = last_char (d ∷ cs)

abbrev pub first_char : Text → Option ℕ
first_char [] = none
first_char (c ∷ cs) = some c

-- `is_none_or(|c| !c.is_alphanumeric())`.
abbrev pub no_letter : (ℕ → Bool) → Option ℕ → Bool
no_letter is_alphanumeric none = true
no_letter is_alphanumeric (some c) = not (is_alphanumeric c)

module _ (is_alphanumeric : ℕ → Bool) where
  -- At a boundary.
  unfoldable pub boundary_before : Text → ℕ → Bool
  unfolding split_at
  boundary_before text i = elim (split_at text i) [
    | none ↦ false
    | some (a, b) ↦ no_letter is_alphanumeric (last_char a)
  ]

  unfoldable pub boundary_after : Text → ℕ → Bool
  unfolding split_at
  boundary_after text i = elim (split_at text i) [
    | none ↦ false
    | some (a, b) ↦ no_letter is_alphanumeric (first_char b)
  ]

  -- The tests of the loop of `find_matches` at one offset.
  unfoldable pub occurs_at : Text → Text → ℕ → Bool
  unfolding byte_len as_bytes split_at boundary_before boundary_after
  occurs_at text word i =
      (is_char_boundary text i && is_char_boundary text (i + byte_len word))
      && (eq_ignore_ascii_case (take (byte_len word) (drop i (as_bytes text))) (as_bytes word)
          && (boundary_before text i && boundary_after text (i + byte_len word)))

  -- The `while` loop for one word.
  unfoldable pub scan : ℕ → Text → Text → ℕ → List Match
  unfolding occurs_at byte_len
  scan zero text word i = []
  scan (suc fuel) text word i =
      let found : Match = record { start = i; len = byte_len word; word = word } in
      let past = scan fuel text word (i + byte_len word) in
      let next = scan fuel text word (i + 1) in
      if leb (i + byte_len word) (byte_len text)
      then (if occurs_at text word i then found ∷ past else next)
      else []

  -- The `for` loop. A turn moves on by one byte at least.
  unfoldable pub scan_words : Text → List Text → List Match
  unfolding scan byte_len
  scan_words text [] = []
  scan_words text (word ∷ words) =
      let rest = scan_words text words in
      if byte_len word == 0 || ltb (byte_len text) (byte_len word)
      then rest
      else scan (suc (byte_len text)) text word 0 ++ rest

-- `sort_by`, which is stable: earliest start, then longest.
abbrev pub comes_first : Match → Match → Bool
comes_first a b = ltb a.start b.start || (a.start == b.start && leb b.len a.len)

unfoldable pub insert_match : Match → List Match → List Match
insert_match m [] = m ∷ []
insert_match m (n ∷ l) =
    let rest = insert_match m l in if comes_first m n then m ∷ n ∷ l else n ∷ rest

unfoldable pub sort_matches : List Match → List Match
unfolding insert_match
sort_matches [] = []
sort_matches (m ∷ l) = insert_match m (sort_matches l)

abbrev pub is_clear : Option Match → Match → Bool
is_clear none m = true
is_clear (some prev) m = leb (end prev) m.start

unfoldable pub dedupe : Option Match → List Match → List Match
dedupe last [] = []
dedupe last (m ∷ l) =
    let kept = dedupe (some m) l in
    let rest = dedupe last l in if is_clear last m then m ∷ kept else rest

unfoldable pub find_matches : (ℕ → Bool) → Text → List Text → List Match
unfolding scan_words sort_matches dedupe
find_matches is_alphanumeric text words =
    dedupe none (sort_matches (scan_words is_alphanumeric text words))

-- '#', once for each character.
abbrev pub hashes : Text → Text
hashes [] = []
hashes (c ∷ cs) = 35 ∷ hashes cs

abbrev pub push_str : Option Text → Option Text → Option Text
push_str none rest = none
push_str (some a) none = none
push_str (some a) (some b) = some (a ++ b)

abbrev pub hash_out : Option Text → Option Text
hash_out none = none
hash_out (some t) = some (hashes t)

unfoldable pub mask_from : Text → ℕ → List Match → Option Text
unfolding slice byte_len
mask_from text cursor [] = slice text cursor (byte_len text)
mask_from text cursor (m ∷ l) =
    let skipped = mask_from text cursor l in
    let rest = mask_from text (end m) l in
    if ltb m.start cursor
    then skipped
    else push_str (slice text cursor m.start)
        (push_str (hash_out (slice text m.start (end m))) rest)

unfoldable pub mask : Text → List Match → Option Text
unfolding mask_from
mask text [] = some text
mask text (m ∷ l) = mask_from text 0 (m ∷ l)

unfoldable pub words_seen : List Text → List Match → List Text
words_seen seen [] = seen
words_seen seen (m ∷ l) = words_seen (if contains seen m.word then seen else seen ++ m.word ∷ []) l

unfoldable pub matched_words : List Match → List Text
unfolding words_seen
matched_words matches = words_seen [] matches
