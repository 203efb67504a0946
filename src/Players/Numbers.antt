-- ===== src/Players/Numbers.antt =====
-- The numbers of players: `allocate_player_number` of server/src/api/register.rs. The pool is a sorted
-- set of Redis, a list of members with their scores; `u64` numbers are written in decimal.
use briska_blast.Common.{
  ℕ, suc, Bool, true, false, ◌&&◌, ◌||◌, Option, none, some, List, [], ◌∷◌, ◌==◌, nat_eq, ltb,
  i64_max, if◌then◌else◌,
}
use briska_blast.Chat.Ids.{text_eq}
use briska_blast.Chat.Bans.{show_digits, u64_digits, parse_u64}

abbrev pub Member : Type 0
Member = List ℕ × ℕ

-- `u64::to_string`.
unfoldable pub show : ℕ → List ℕ
unfolding show_digits
show n = show_digits u64_digits n []

-- Redis orders members of one score as texts.
abbrev pub text_leb : List ℕ → List ℕ → Bool
text_leb [] b = true
text_leb (x ∷ a) [] = false
text_leb (x ∷ a) (y ∷ b) = ltb x y || (x == y && text_leb a b)

abbrev pub pops_first : Member → Member → Bool
pops_first (a, s) (b, t) = ltb s t || (s == t && text_leb a b)

unfoldable pub least : Member → List Member → Member
least m [] = m
least m (n ∷ l) = least (if pops_first m n then m else n) l

unfoldable pub without_member : List ℕ → List Member → List Member
without_member t [] = []
without_member t ((a, s) ∷ l) =
    let rest = without_member t l in if a == t then rest else (a, s) ∷ rest

-- `ZPOPMIN key 1`.
unfoldable pub zpopmin : List Member → List Member × List Member
unfolding least without_member
zpopmin [] = ([], [])
zpopmin (m ∷ l) = let popped = least m l in (popped ∷ [], without_member popped.0 (m ∷ l))

-- `ZADD key n n`.
unfoldable pub zadd : ℕ → List Member → List Member
unfolding show without_member
zadd n l = (show n, n) ∷ without_member (show n) l

unfoldable pub freed_number_from_pop : List Member → Option ℕ
unfolding parse_u64
freed_number_from_pop [] = none
freed_number_from_pop ((member, score) ∷ l) = parse_u64 member

-- `INCR`, an error at the end of `i64`; the counter is never negative.
abbrev pub incr : ℕ → Option (ℕ × ℕ)
incr n = if ltb n i64_max then some (suc n, suc n) else none

unfoldable pub count_up : List Member → ℕ → Option (ℕ × List Member × ℕ)
count_up pool counter = elim (incr counter) [ none ↦ none | some (n, c) ↦ some (n, pool, c) ]

-- The number, the pool and the counter; none if the counter is at its end.
unfoldable pub allocate_player_number : List Member → ℕ → Option (ℕ × List Member × ℕ)
unfolding zpopmin freed_number_from_pop count_up
allocate_player_number pool counter =
    let (popped, rest) = zpopmin pool in
    elim (freed_number_from_pop popped) [
      | some number ↦ some (number, rest, counter)
      | none ↦ count_up rest counter
    ]
