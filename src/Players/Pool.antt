-- ===== src/Players/Pool.antt =====
-- What the pool gives out: a number that was counted, and that is in the pool no more.
use briska_blast.Common.{
  ℕ, suc, ◌^◌, ◌≤◌, ◌<◌, ◌≡◌, refl, ap, ◌∙◌, sym, Bool, true, false, not, ◌&&◌, some, List, [], ◌∷◌,
  ◌==◌, ==_iff, ltb, All, if◌then◌else◌, i64_max, arith, Bool-cases, inl, inr, ◌⊎◌,
}
use briska_blast.Chat.Ids.{text_eq}
use briska_blast.Chat.Bans.{from_counter, parse_u64}
use briska_blast.Chat.Bans.Keys.{parse_u64-from_counter, parse_u64-show_digits}
use briska_blast.Players.Numbers.{
  Member, show, pops_first, least, without_member, zpopmin, freed_number_from_pop, count_up,
  allocate_player_number,
}

abbrev pub has_member : List ℕ → List Member → Bool
has_member t [] = false
has_member t (m ∷ l) = if m.0 == t then true else has_member t l

pub parse-show : (n : ℕ) → n < 2 ^ 64 → parse_u64 (show n) ≡ some n
unfolding show
parse-show n small = parse_u64-show_digits n small

pub show_injective : (m n : ℕ) → m < 2 ^ 64 → n < 2 ^ 64 → show m ≡ show n → m ≡ n
show_injective m n hm hn e = cc (parse-show m hm, parse-show n hn, e)

pub from_counter_injective :
    (m n : ℕ) → m < 2 ^ 64 → n < 2 ^ 64 → from_counter m ≡ from_counter n → m ≡ n
from_counter_injective m n hm hn e =
    cc (parse_u64-from_counter m hm, parse_u64-from_counter n hn, e)

-- An entry of the pool is a number that was counted, under its own score.
abbrev pub IsEntry : ℕ → Member → Type 0
IsEntry counter m = (m.0 ≡ show m.1) × (m.1 ≤ counter)

All-least :
    (c : ℕ) (m : Member) (l : List Member) → IsEntry c m → All (IsEntry c) l → IsEntry c (least m l)
unfolding least
All-least c m [] h a = h
All-least c m (n ∷ l) h a = elim (Bool-cases (pops_first m n)) [
  | inl first ↦ rw (first, least) (All-least c m l h a.1)
  | inr later ↦ rw (later, least) (All-least c n l a.0 a.1)
]

has_member-either :
    (b : Bool) (m n : Member) (l : List Member)
    → has_member (least m l).0 (m ∷ l) ≡ true
    → has_member (least n l).0 (n ∷ l) ≡ true
    → has_member (least (if b then m else n) l).0 (m ∷ n ∷ l) ≡ true
has_member-either true m n l h k = ground arith
has_member-either false m n l h k = ground arith

has_member-least : (m : Member) (l : List Member) → has_member (least m l).0 (m ∷ l) ≡ true
unfolding least
has_member-least m [] = rw ((==_iff m.0 m.0).1 refl)
has_member-least m (n ∷ l) =
    has_member-either (pops_first m n) m n l (has_member-least m l) (has_member-least n l)

pub has_member-without :
    (t u : List ℕ) (l : List Member)
    → has_member u (without_member t l) ≡ not (t == u) && has_member u l
unfolding without_member
has_member-without t u [] = ground arith
has_member-without t u ((a, s) ∷ l) =
    ground (arith, has_member-without t u l, ==_iff a t, ==_iff a u, ==_iff t u)

pub All-without :
    (c : ℕ) (t : List ℕ) (l : List Member)
    → All (IsEntry c) l
    → All (IsEntry c) (without_member t l)
unfolding without_member
All-without c t [] a = tt
All-without c t ((b, s) ∷ l) a = elim (Bool-cases (b == t)) [
  | inl same ↦ rw same (All-without c t l a.1)
  | inr other ↦ rw other (a.0, All-without c t l a.1)
]

All-weaken : (c d : ℕ) (l : List Member) → c ≤ d → All (IsEntry c) l → All (IsEntry d) l
All-weaken c d [] h a = tt
All-weaken c d (m ∷ l) h a = ((a.0.0, omega (arith, a.0.1, h)), All-weaken c d l h a.1)

has_member-above :
    (c n : ℕ) (l : List Member)
    → All (IsEntry c) l
    → c < n
    → n < 2 ^ 64
    → has_member (show n) l ≡ false
has_member-above c n [] a above small = refl
has_member-above c n (m ∷ l) a above small =
    let differ : (m.0 == show n) ≡ false = elim (Bool-cases (m.0 == show n)) [
      | inr other ↦ other
      | inl same ↦
          let e =
            show_injective m.1 n (omega (arith, a.0.1, above, small)) small
              (sym a.0.0 ∙ (==_iff m.0 (show n)).0 same) in
          absurd (omega (arith, e, a.0.1, above))
    ] in
    rw differ (has_member-above c n l a.1 above small)

-- The pool, and the counter below its end.
pub record IsPool (pool : List Member) (counter : ℕ) : Type 0 where
  pub counted : counter ≤ i64_max
  pub entries : All (IsEntry counter) pool

-- A number that is allocated was counted, was in the pool or above the counter, and is in the pool no
-- more; no other number comes into the pool.
pub record IsAllocated (pool : List Member) (counter number : ℕ) (pool' : List Member)
    (counter' : ℕ) : Type 0 where
  pub good : IsPool pool' counter'
  pub grows : counter ≤ counter'
  pub within : number ≤ counter'
  pub fresh : (has_member (show number) pool ≡ true) ⊎ (counter < number)
  pub taken : has_member (show number) pool' ≡ false
  pub others : (t : List ℕ) → has_member t pool ≡ false → has_member t pool' ≡ false

count_up-IsAllocated :
    (pool rest : List Member) (counter number counter' : ℕ) (pool' : List Member)
    → IsPool rest counter
    → ((t : List ℕ) → has_member t pool ≡ false → has_member t rest ≡ false)
    → count_up rest counter ≡ some (number, pool', counter')
    → IsAllocated pool counter number pool' counter'
unfolding count_up
count_up-IsAllocated pool rest counter number counter' pool' g others h =
    elim (Bool-cases (ltb counter i64_max)) [
      | inr full ↦ absurd (ground (arith, full))
      | inl room ↦
          let e : number ≡ suc counter = ground (arith, room) in
          let same : pool' ≡ rest = ground (arith, room) in
          let up : counter' ≡ suc counter = ground (arith, room) in
          let small : suc counter ≤ i64_max = ground (arith, room) in
          rw (e, same, up)
            (record {
              good = record {
                counted = small;
                entries = All-weaken counter (suc counter) rest (omega arith) g.entries;
              };
              grows = omega arith;
              within = omega arith;
              fresh = inr (omega arith);
              taken =
                  has_member-above counter (suc counter) rest g.entries (omega arith)
                    (omega (arith, small));
              others = others;
            })
    ]

pub allocate-IsAllocated :
    (pool : List Member) (counter number counter' : ℕ) (pool' : List Member)
    → IsPool pool counter
    → allocate_player_number pool counter ≡ some (number, pool', counter')
    → IsAllocated pool counter number pool' counter'
unfolding allocate_player_number zpopmin freed_number_from_pop
allocate-IsAllocated [] counter number counter' pool' g h =
    count_up-IsAllocated [] [] counter number counter' pool' g (λ t k. k) h
allocate-IsAllocated (m ∷ l) counter number counter' pool' g h =
    let entry = All-least counter m l g.entries.0 g.entries.1 in
    let read : parse_u64 (least m l).0 ≡ some (least m l).1 =
      ap parse_u64 entry.0 ∙ parse-show (least m l).1 (omega (arith, entry.1, g.counted)) in
    let e : number ≡ (least m l).1 = ground (arith, read) in
    let same : pool' ≡ without_member (least m l).0 (m ∷ l) = ground (arith, read) in
    let kept : counter' ≡ counter = ground (arith, read) in
    rw (e, same, kept)
      (record {
        good = record {
          counted = g.counted;
          entries = All-without counter (least m l).0 (m ∷ l) g.entries;
        };
        grows = omega arith;
        within = entry.1;
        fresh = inl (ap (λ t. has_member t (m ∷ l)) (sym entry.0) ∙ has_member-least m l);
        taken = ground (
          arith,
          entry.0,
          has_member-without (least m l).0 (show (least m l).1) (m ∷ l),
          ==_iff (least m l).0 (show (least m l).1),
        );
        others = λ t k. ground (arith, k, has_member-without (least m l).0 t (m ∷ l));
      })
