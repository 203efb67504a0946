-- ===== src/Chat/Ids/Epochs.antt =====
-- The epochs in their order.
use briska_blast.Common.{
  ℕ, zero, suc, ◌≡◌, refl, Bool, true, false, none, some, List, [], ◌∷◌, ==_iff, nat_eq, contains,
  IsDistinct, get_elem?, arith, Option-cases, inl, inr, if◌then◌else◌,
}
use briska_blast.Chat.Ids.{position, next_in, next_epoch, epoch_alphabet}

position-contains : (l : List ℕ) (c i : ℕ) → position l c ≡ some i → contains l c ≡ true
unfolding position
position-contains [] c i h = cc
position-contains (x ∷ xs) c i h = elim (Option-cases (position xs c)) [
  | inl gone ↦ ground (arith, gone)
  | inr (j, e) ↦ ground (arith, e, position-contains xs c j e)
]

contains-get_elem? : (l : List ℕ) (i d : ℕ) → get_elem? l i ≡ some d → contains l d ≡ true
contains-get_elem? [] i d h = cc
contains-get_elem? (x ∷ xs) zero d h = ground (arith, ==_iff x d)
contains-get_elem? (x ∷ xs) (suc i) d h = ground (arith, contains-get_elem? xs i d)

-- The place of an element of a list without repetition is where it stands.
position-get_elem? :
    (l : List ℕ) (i d : ℕ) → IsDistinct l → get_elem? l i ≡ some d → position l d ≡ some i
unfolding position
position-get_elem? [] i d n h = cc
position-get_elem? (x ∷ xs) zero d n h = ground (arith, ==_iff x d)
position-get_elem? (x ∷ xs) (suc i) d n h =
    ground (arith, position-get_elem? xs i d n.1 h, contains-get_elem? xs i d h, ==_iff x d)

is_distinct : List ℕ → Bool
is_distinct [] = true
is_distinct (x ∷ xs) = if contains xs x then false else is_distinct xs

IsDistinct-test : (l : List ℕ) → is_distinct l ≡ true → IsDistinct l
unfolding is_distinct
IsDistinct-test [] h = tt
IsDistinct-test (x ∷ xs) h = ground (arith, IsDistinct-test xs)

epoch_alphabet-IsDistinct : IsDistinct epoch_alphabet
unfolding is_distinct
epoch_alphabet-IsDistinct = IsDistinct-test epoch_alphabet refl

-- The place of an epoch, from 0 to 51; any other character counts as the first.
abbrev pub rank : ℕ → ℕ
rank c = elim (position epoch_alphabet c) [ none ↦ 0 | some i ↦ i ]

next_in-position :
    (l : List ℕ) (c d : ℕ)
    → IsDistinct l
    → next_in l c ≡ some d
    → (i : ℕ) × (position l c ≡ some i) × (position l d ≡ some (suc i))
unfolding next_in
next_in-position l c d n h = elim (Option-cases (position l c)) [
  | inl gone ↦ absurd (ground (arith, gone))
  | inr (i, e) ↦ (i, e, position-get_elem? l (suc i) d n (ground (arith, e)))
]

-- The next epoch is the one that follows.
pub next_epoch-rank :
    (c d : ℕ) → next_epoch c ≡ some d → (contains epoch_alphabet d ≡ true) × (rank d ≡ suc (rank c))
unfolding next_epoch
next_epoch-rank c d h =
    let (i, e, f) = next_in-position epoch_alphabet c d epoch_alphabet-IsDistinct h in
    (position-contains epoch_alphabet d (suc i) f, rw (f, rank) (rw (e, rank) refl))
