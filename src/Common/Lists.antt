-- ===== src/Common/Lists.antt =====
-- Lists measured by native numbers, and the iterator methods that the code calls.
use Prim.Native.Nat.{ℕ, zero, suc, ◌+◌}
use mathlib.Core.Path.{◌≡◌, refl, ap}
use mathlib.Core.Bool.{Bool, true, false, not, ◌&&◌, ◌||◌}
use mathlib.Core.List.{List, [], ◌∷◌, ◌++◌, map}
use mathlib.Core.Logic.{inl, inr}
use mathlib.Core.Option.{Option, none, some}
use native.Mathlib.Omega.{arith}
use briska_blast.Common.Tests.{Eq, ◌==◌, ==_iff, Bool-cases, if◌then◌else◌}

module _ {ℓ} {A : Type ℓ} where
  abbrev pub length : List A → ℕ
  length [] = 0
  length (x ∷ xs) = suc (length xs)

  -- `iter().any(p)` and `iter().all(p)`.
  abbrev pub any : (A → Bool) → List A → Bool
  any p [] = false
  any p (x ∷ xs) = p x || any p xs

  abbrev pub all : (A → Bool) → List A → Bool
  all p [] = true
  all p (x ∷ xs) = p x && all p xs

  -- `iter().filter(p)`, by a Boolean test.
  abbrev pub keep : (A → Bool) → List A → List A
  keep p [] = []
  keep p (x ∷ xs) = let rest = keep p xs in if p x then x ∷ rest else rest

  abbrev pub is_empty : List A → Bool
  is_empty [] = true
  is_empty (x ∷ xs) = false

  abbrev pub get_elem? : List A → ℕ → Option A
  get_elem? [] i = none
  get_elem? (x ∷ xs) zero = some x
  get_elem? (x ∷ xs) (suc i) = get_elem? xs i

  pub all-weaken :
      (f g : A → Bool) (xs : List A)
      → ((x : A) → f x ≡ true → g x ≡ true)
      → all f xs ≡ true
      → all g xs ≡ true
  all-weaken f g [] h a = refl
  all-weaken f g (x ∷ xs) h a = ground (arith, h x, all-weaken f g xs h)

  pub length-append : (xs ys : List A) → length (xs ++ ys) ≡ length xs + length ys
  length-append [] ys = omega arith
  length-append (x ∷ xs) ys = omega (arith, length-append xs ys)

  -- A predicate of every element, by recursion, so that the tactics see its parts.
  abbrev pub All {κ} : (A → Type κ) → List A → Type κ
  All P [] = Unit
  All P (x ∷ xs) = P x × All P xs

  pub All-append {κ} : (P : A → Type κ) (xs ys : List A) → All P xs → All P ys → All P (xs ++ ys)
  All-append P [] ys first last = last
  All-append P (x ∷ xs) ys first last = (first.0, All-append P xs ys first.1 last)

pub length-map {ℓ κ} :
    {A : Type ℓ} {B : Type κ} (f : A → B) (xs : List A) → length (map f xs) ≡ length xs
length-map f [] = refl
length-map f (x ∷ xs) = ap suc (length-map f xs)

module _ {ℓ} {A : Type ℓ} ⦃e : Eq A⦄ where
  -- `contains(&a)` of a slice.
  abbrev pub contains : List A → A → Bool
  contains [] a = false
  contains (x ∷ xs) a = (x == a) || contains xs a

  -- No element occurs twice.
  abbrev pub IsDistinct : List A → Type 0
  IsDistinct [] = Unit
  IsDistinct (x ∷ xs) = (contains xs x ≡ false) × IsDistinct xs

  -- `any`, as "there is an element".
  pub any-contains :
      (f : A → Bool) (xs : List A) (a : A) → contains xs a ≡ true → f a ≡ true → any f xs ≡ true
  any-contains f [] a h k = cc
  any-contains f (x ∷ xs) a h k = ground (arith, any-contains f xs a, ==_iff x a)

  pub any-elem :
      (f : A → Bool) (xs : List A)
      → any f xs ≡ true
      → (a : A) × (contains xs a ≡ true) × (f a ≡ true)
  any-elem f [] h = cc
  any-elem f (x ∷ xs) h = elim (Bool-cases (f x)) [
    | inl hit ↦ (x, ground (arith, ==_iff x x), hit)
    | inr miss ↦
        let (a, there, hit) = any-elem f xs (ground (arith, miss)) in (a, ground arith, hit)
  ]

  -- `all` of two tests that agree on the elements, and of a weaker test.
  pub all-congr :
      (f g : A → Bool) (xs : List A)
      → ((x : A) → contains xs x ≡ true → f x ≡ g x)
      → all f xs ≡ all g xs
  all-congr f g [] h = refl
  all-congr f g (x ∷ xs) h =
      let here = h x (ground (arith, ==_iff x x)) in
      let rest = all-congr f g xs (λ y m. h y (ground (arith, m))) in ground (arith, here, rest)

  pub contains-append :
      (xs ys : List A) (a : A) → contains (xs ++ ys) a ≡ contains xs a || contains ys a
  contains-append [] ys a = refl
  contains-append (x ∷ xs) ys a = ground (arith, contains-append xs ys a)

  -- A new element at the end keeps a list distinct.
  pub IsDistinct-snoc :
      (xs : List A) (a : A) → IsDistinct xs → contains xs a ≡ false → IsDistinct (xs ++ a ∷ [])
  IsDistinct-snoc [] a d h = ground arith
  IsDistinct-snoc (x ∷ xs) a d h =
      ground
        (arith, IsDistinct-snoc xs a d.1, contains-append xs (a ∷ []) x, ==_iff a x, ==_iff x a)

  -- The list without any occurrence of an element.
  pub erase_all : A → List A → List A
  erase_all k [] = []
  erase_all k (j ∷ l) = let rest = erase_all k l in if j == k then rest else j ∷ rest

  pub contains-erase_all :
      (k j : A) (l : List A) → contains (erase_all k l) j ≡ not (k == j) && contains l j
  unfolding erase_all
  contains-erase_all k j [] = ground arith
  contains-erase_all k j (i ∷ l) =
      ground (arith, contains-erase_all k j l, ==_iff i k, ==_iff i j, ==_iff k j)

  pub IsDistinct-erase_all : (k : A) (l : List A) → IsDistinct l → IsDistinct (erase_all k l)
  unfolding erase_all
  IsDistinct-erase_all k [] d = tt
  IsDistinct-erase_all k (i ∷ l) d =
      ground (arith, IsDistinct-erase_all k l d.1, contains-erase_all k i l)
