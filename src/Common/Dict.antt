-- ===== src/Common/Dict.antt =====
-- `HashMap` and `HashSet`: finite maps with the operations that the code calls. The order of the
-- entries is private to this module, since the code's maps promise none.
use mathlib.Core.Path.{◌≡◌, refl}
use mathlib.Core.Bool.{Bool, true, false}
use mathlib.Core.Option.{Option, none, some}
use mathlib.Core.List.{List, [], ◌∷◌}
use native.Mathlib.Omega.{arith}
use mathlib.Core.Logic.{inl, inr}
use briska_blast.Common.Tests.{Eq, ◌==◌, ==_iff, Bool-cases, if◌then◌else◌}
use briska_blast.Common.Lists.{
  contains, IsDistinct, erase_all, contains-erase_all, IsDistinct-erase_all,
}

pub record Dict {ℓ κ} (K : Type ℓ) (V : Type κ) : Type (ℓ ⊔ κ) where
  entries : List (K × V)

module _ {ℓ κ} {K : Type ℓ} {V : Type κ} ⦃e : Eq K⦄ where
  find : K → List (K × V) → Option V
  find k [] = none
  find k ((j, v) ∷ l) = if j == k then some v else find k l

  without : K → List (K × V) → List (K × V)
  without k [] = []
  without k ((j, v) ∷ l) = let rest = without k l in if j == k then rest else (j, v) ∷ rest

  keys_of : List (K × V) → List K
  keys_of [] = []
  keys_of ((j, v) ∷ l) = j ∷ erase_all j (keys_of l)

  has_none : List (K × V) → Bool
  has_none [] = true
  has_none (x ∷ l) = false

  pub empty : Dict K V
  empty = record { entries = [] }

  pub get : Dict K V → K → Option V
  unfolding find
  get d k = find k d.entries

  pub insert : Dict K V → K → V → Dict K V
  unfolding without
  insert d k v = record { entries = (k, v) ∷ without k d.entries }

  pub remove : Dict K V → K → Dict K V
  unfolding without
  remove d k = record { entries = without k d.entries }

  abbrev pub contains_key : Dict K V → K → Bool
  contains_key d k = elim (get d k) [ none ↦ false | some v ↦ true ]

  -- In some order.
  pub keys : Dict K V → List K
  unfolding keys_of
  keys d = keys_of d.entries

  pub is_empty : Dict K V → Bool
  unfolding has_none
  is_empty d = has_none d.entries

  pub is_empty-empty : (d : Dict K V) → d ≡ empty → is_empty d ≡ true
  unfolding is_empty empty
  is_empty-empty d h = rw h

  find-without :
      (k j : K) (l : List (K × V)) → find j (without k l) ≡ (if k == j then none else find j l)
  unfolding find without
  find-without k j [] = ground arith
  find-without k j ((i, v) ∷ l) =
      ground (arith, find-without k j l, ==_iff i k, ==_iff i j, ==_iff k j)

  contains-keys_of :
      (l : List (K × V)) (k : K)
      → contains (keys_of l) k ≡ (elim (find k l) [ none ↦ false | some v ↦ true ])
  unfolding find keys_of
  contains-keys_of [] k = refl
  contains-keys_of ((j, v) ∷ l) k =
      ground (arith, contains-keys_of l k, contains-erase_all j k (keys_of l))

  IsDistinct-keys_of : (l : List (K × V)) → IsDistinct (keys_of l)
  unfolding keys_of
  IsDistinct-keys_of [] = tt
  IsDistinct-keys_of ((j, v) ∷ l) = ground (
    arith,
    IsDistinct-erase_all j (keys_of l) (IsDistinct-keys_of l),
    contains-erase_all j j (keys_of l),
    ==_iff j j,
  )

  pub get-empty : (k : K) → get empty k ≡ none
  unfolding get empty
  get-empty k = refl

  pub get-insert :
      (d : Dict K V) (k : K) (v : V) (j : K)
      → get (insert d k v) j ≡ (if k == j then some v else get d j)
  unfolding get insert
  get-insert d k v j = ground (arith, find-without k j d.entries)

  pub get-remove :
      (d : Dict K V) (k j : K) → get (remove d k) j ≡ (if k == j then none else get d j)
  unfolding get remove
  get-remove d k j = find-without k j d.entries

  pub get-insert_self : (d : Dict K V) (k : K) (v : V) → get (insert d k v) k ≡ some v
  get-insert_self d k v = rw (get-insert d k v k, (==_iff k k).1 refl)

  pub get-remove_self : (d : Dict K V) (k : K) → get (remove d k) k ≡ none
  get-remove_self d k = rw (get-remove d k k, (==_iff k k).1 refl)

  -- The keys are those that have a value.
  pub contains-keys : (d : Dict K V) (k : K) → contains (keys d) k ≡ contains_key d k
  unfolding get keys
  contains-keys d k = contains-keys_of d.entries k

  pub IsDistinct-keys : (d : Dict K V) → IsDistinct (keys d)
  unfolding keys
  IsDistinct-keys d = IsDistinct-keys_of d.entries

  pub is_empty-get : (d : Dict K V) (k : K) → is_empty d ≡ true → get d k ≡ none
  unfolding get is_empty
  is_empty-get d k h = go d.entries h
    where
      go : (l : List (K × V)) → has_none l ≡ true → find k l ≡ none
      go [] h = refl
      go (x ∷ l) h = cc

  -- A map that is not empty has a key.
  pub not_empty-get : (d : Dict K V) → is_empty d ≡ false → (k : K) × (v : V) × (get d k ≡ some v)
  unfolding get is_empty
  not_empty-get d h = go d.entries h
    where
      go : (l : List (K × V)) → has_none l ≡ false → (k : K) × (v : V) × (find k l ≡ some v)
      go [] h = cc
      go ((k, v) ∷ l) h = (k, v, rw ((==_iff k k).1 refl))

  pub contains_key-insert :
      (d : Dict K V) (k : K) (v : V) (j : K)
      → contains_key (insert d k v) j ≡ (if k == j then true else contains_key d j)
  contains_key-insert d k v j = ground (arith, get-insert d k v j)

  pub contains_key-remove :
      (d : Dict K V) (k j : K)
      → contains_key (remove d k) j ≡ (if k == j then false else contains_key d j)
  contains_key-remove d k j = ground (arith, get-remove d k j)

  pub contains_key-is_empty : (d : Dict K V) (k : K) → is_empty d ≡ true → contains_key d k ≡ false
  contains_key-is_empty d k h = ground (arith, is_empty-get d k h)

  -- A key that is taken away empties a map only when it was its last, so it was there.
  pub is_empty-remove :
      (d : Dict K V) (k : K)
      → is_empty (remove d k) ≡ true
      → contains_key d k ≡ false
      → is_empty d ≡ true
  is_empty-remove d k e absent = elim (Bool-cases (is_empty d)) [
    | inl done ↦ done
    | inr left ↦
        let (j, v, at) = not_empty-get d left in
        ground (arith, get-remove d k j, is_empty-get (remove d k) j e, ==_iff k j)
  ]

  pub remove-is_empty : (d : Dict K V) (k : K) → is_empty d ≡ true → is_empty (remove d k) ≡ true
  remove-is_empty d k e = elim (Bool-cases (is_empty (remove d k))) [
    | inl done ↦ done
    | inr left ↦
        let (j, v, at) = not_empty-get (remove d k) left in
        ground (arith, get-remove d k j, is_empty-get d j e)
  ]

pub ruleset dict_laws = (get-empty, get-insert, get-remove)
