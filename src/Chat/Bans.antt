-- ===== src/Chat/Bans.antt =====
-- The chat ban list: server/src/chat/bans.rs, and the canonical id of shared/src/types/player.rs. A
-- text that is an id is the list of its characters. A stored value is an entry, or a text that is none.
pub mod Keys
pub mod Listed
pub mod Lifted
use briska_blast.Common.{
  ℕ, zero, suc, ◌+◌, ◌-◌, ◌*◌, ◌/◌, ◌%◌, ◌^◌, String, Bool, true, false, not, ◌&&◌, ◌||◌, Option,
  none, some, List, [], ◌∷◌, ◌++◌, ◌==◌, nat_eq, ltb, leb, is_empty, length, contains,
  if◌then◌else◌, ℤ, pos,
}
use briska_blast.Common.Dict
use briska_blast.Common.Dict.{Dict}
use briska_blast.Chat.Ids.{text_eq}

-- `char::is_whitespace`.
abbrev pub is_whitespace : ℕ → Bool
is_whitespace c =
    (leb 9 c && leb c 13)
    || (c == 32
        || (c == 133
            || (c == 160
                || (c == 5760
                    || ((leb 8192 c && leb c 8202)
                        || (c == 8232
                            || (c == 8233 || (c == 8239 || (c == 8287 || c == 12288)))))))))

abbrev pub trim_start : List ℕ → List ℕ
trim_start [] = []
trim_start (c ∷ cs) = let rest = trim_start cs in if is_whitespace c then rest else c ∷ cs

abbrev pub trim_end : List ℕ → List ℕ
trim_end [] = []
trim_end (c ∷ cs) =
    let rest = trim_end cs in if is_empty rest && is_whitespace c then [] else c ∷ rest

abbrev pub trim : List ℕ → List ℕ
trim t = trim_end (trim_start t)

-- The digits of `u64::from_str`, with its check for overflow at each of them.
unfoldable pub parse_digits : ℕ → List ℕ → Option ℕ
parse_digits a [] = some a
parse_digits a (c ∷ cs) =
    let next = a * 10 + (c - 48) in
    let rest = parse_digits next cs in
    if leb 48 c && leb c 57 then (if ltb next (2 ^ 64) then rest else none) else none

-- `parse::<u64>()`: not empty, and a leading `+` is passed over where digits follow.
unfoldable pub parse_u64 : List ℕ → Option ℕ
unfolding parse_digits
parse_u64 [] = none
parse_u64 (c ∷ []) = parse_digits 0 (c ∷ [])
parse_u64 (c ∷ d ∷ cs) = if c == 43 then parse_digits 0 (d ∷ cs) else parse_digits 0 (c ∷ d ∷ cs)

-- The decimal digits of a number, before those in `done`; `fuel` digits are enough below 10 ^ fuel.
unfoldable pub show_digits : ℕ → ℕ → List ℕ → List ℕ
show_digits zero n done = done
show_digits (suc fuel) n done =
    let rest = show_digits fuel (n / 10) ((48 + n % 10) ∷ done) in
    if ltb n 10 then (48 + n) ∷ done else rest

abbrev pub zeros : ℕ → List ℕ → List ℕ
zeros zero done = done
zeros (suc k) done = 48 ∷ zeros k done

-- A `u64` has at most twenty digits.
abbrev pub u64_digits : ℕ
u64_digits = 20

-- `PlayerId::from_counter`: `{n:09}`.
unfoldable pub from_counter : ℕ → List ℕ
unfolding show_digits
from_counter n = let digits = show_digits u64_digits n [] in zeros (9 - length digits) digits

unfoldable pub numeric_id : List ℕ → Option ℕ
unfolding parse_u64
numeric_id raw = parse_u64 (trim raw)

unfoldable pub normalize_id : List ℕ → Option (List ℕ)
unfolding numeric_id from_counter
normalize_id raw = elim (numeric_id raw) [ none ↦ none | some n ↦ some (from_counter n) ]

pub record BanEntry : Type 0 where
  pub player_id : ℕ
  pub username : String
  pub reason : String
  pub words : List (List ℕ)
  pub banned_by : String
  pub banned_sub : String
  pub at_ms : ℤ
  pub sid : List ℕ
  pub cut_index : ℕ

-- `BanEntry { player_id, ..Default::default() }`
abbrev pub placeholder : ℕ → BanEntry
placeholder n = record {
  player_id = n;
  username = "";
  reason = "";
  words = [];
  banned_by = "";
  banned_sub = "";
  at_ms = pos 0;
  sid = [];
  cut_index = 0;
}

-- The hash `chat:banned`.
abbrev pub Bans : Type 0
Bans = Dict (List ℕ) (Option BanEntry)

-- `numeric_id(raw).unwrap_or_default()`
abbrev pub number_or_zero : List ℕ → ℕ
number_or_zero raw = elim (numeric_id raw) [ none ↦ 0 | some n ↦ n ]

pub record BanOutcome : Type 0 where
  pub banned : List (List ℕ)
  pub already : List (List ℕ)
  pub invalid : List (List ℕ)

abbrev pub no_outcome : BanOutcome
no_outcome = record { banned = []; already = []; invalid = [] }

-- `HSETNX`, and the list that the key is reported in.
unfoldable pub ban_key : BanEntry → List ℕ → List ℕ → BanOutcome × Bans → BanOutcome × Bans
unfolding numeric_id
ban_key entry raw key (out, bans) =
    if contains out.banned key || contains out.already key
    then (out, bans)
    else if Dict.contains_key bans key
    then (record out { already = out.already ++ key ∷ [] }, bans)
    else (
      record out { banned = out.banned ++ key ∷ [] },
      Dict.insert bans key (some (record entry { player_id = number_or_zero raw })),
    )

unfoldable pub ban_one : BanEntry → List ℕ → BanOutcome × Bans → BanOutcome × Bans
unfolding normalize_id ban_key
ban_one entry raw (out, bans) = elim (normalize_id raw) [
  | none ↦ (record out { invalid = out.invalid ++ trim raw ∷ [] }, bans)
  | some key ↦ ban_key entry raw key (out, bans)
]

unfoldable pub ban_loop : BanEntry → List (List ℕ) → BanOutcome × Bans → BanOutcome × Bans
unfolding ban_one
ban_loop entry [] state = state
ban_loop entry (raw ∷ ids) state = ban_loop entry ids (ban_one entry raw state)

unfoldable pub ban : List (List ℕ) → BanEntry → Bans → BanOutcome × Bans
unfolding ban_loop
ban ids entry bans = ban_loop entry ids (no_outcome, bans)

-- `HDEL`, once for each key.
unfoldable pub unban_key : List ℕ → List (List ℕ) × Bans → List (List ℕ) × Bans
unban_key key (lifted, bans) =
    if contains lifted key
    then (lifted, bans)
    else if Dict.contains_key bans key
    then (lifted ++ key ∷ [], Dict.remove bans key)
    else (lifted, bans)

unfoldable pub unban_one : List ℕ → List (List ℕ) × Bans → List (List ℕ) × Bans
unfolding normalize_id unban_key
unban_one raw state = elim (normalize_id raw) [ none ↦ state | some key ↦ unban_key key state ]

unfoldable pub unban_loop : List (List ℕ) → List (List ℕ) × Bans → List (List ℕ) × Bans
unfolding unban_one
unban_loop [] state = state
unban_loop (raw ∷ ids) state = unban_loop ids (unban_one raw state)

unfoldable pub unban : List (List ℕ) → Bans → List (List ℕ) × Bans
unfolding unban_loop
unban ids bans = unban_loop ids ([], bans)

unfoldable pub clear : Bans → List ℕ → Bans
unfolding normalize_id
clear bans id = elim (normalize_id id) [ none ↦ bans | some key ↦ Dict.remove bans key ]

-- A text that is no entry still counts as a ban.
unfoldable pub lookup : Bans → List ℕ → Option BanEntry
unfolding normalize_id
lookup bans id = elim (normalize_id id) [
  | none ↦ none
  | some key ↦ elim (Dict.get bans key) [
    | none ↦ none
    | some none ↦ some (placeholder (number_or_zero id))
    | some (some entry) ↦ some entry
  ]
]
