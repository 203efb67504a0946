-- ===== src/Common/Fallible.antt =====
-- `Result<A, E>` and the `?` operator.
use mathlib.Core.Option.{Option, none, some}
use mathlib.Core.Bool.{Bool, true, false}
use mathlib.Core.Path.{◌≡◌, refl}
use mathlib.Core.Logic.{◌↔◌, ◌⊎◌, inl, inr}
use native.Mathlib.Omega.{arith}

pub data Result {ℓ κ} (A : Type ℓ) (E : Type κ) : Type (ℓ ⊔ κ) where
  ok : A → Result A E
  err : E → Result A E

infixl 5 ◌>>=◌ ◌>>◌
abbrev pub ◌>>=◌ {ℓ κ μ} :
    {A : Type ℓ} {B : Type κ} {E : Type μ} → Result A E → (A → Result B E) → Result B E
ok a >>= f = f a
err e >>= f = err e

abbrev pub ◌>>◌ {ℓ κ} : {B : Type ℓ} {E : Type κ} → Result (Unit {0}) E → Result B E → Result B E
m >> k = m >>= λ _. k

-- `map_err`.
abbrev pub map_err {ℓ κ μ} :
    {A : Type ℓ} {E : Type κ} {F : Type μ} → (E → F) → Result A E → Result A F
map_err f (ok a) = ok a
map_err f (err e) = err (f e)

pub Result-cases {ℓ} :
    {E : Type ℓ} (m : Result (Unit {0}) E) → (m ≡ ok tt) ⊎ ((e : E) × (m ≡ err e))
Result-cases (ok tt) = inl refl
Result-cases (err e) = inr (e, refl)

pub result-cases {ℓ κ} :
    {A : Type ℓ} {E : Type κ} (m : Result A E) → ((a : A) × (m ≡ ok a)) ⊎ ((e : E) × (m ≡ err e))
result-cases (ok a) = inl (a, refl)
result-cases (err e) = inr (e, refl)

-- A chain succeeds when each of its steps does.
pub >>_ok {ℓ κ} :
    {B : Type ℓ} {E : Type κ} (m : Result (Unit {0}) E) (k : Result B E) (b : B)
    → (m >> k ≡ ok b) ↔ ((m ≡ ok tt) × (k ≡ ok b))
>>_ok (ok u) k b = ground arith
>>_ok (err e) k b = ground arith

pub map_err-ok {ℓ κ μ} :
    {A : Type ℓ} {E : Type κ} {F : Type μ} (f : E → F) (m : Result A E) (a : A)
    → (map_err f m ≡ ok a) ↔ (m ≡ ok a)
map_err-ok f (ok x) a = ground arith
map_err-ok f (err e) a = ground arith

-- `ok_or(e)`.
abbrev pub ok_or {ℓ κ} : {A : Type ℓ} {E : Type κ} → Option A → E → Result A E
ok_or none e = err e
ok_or (some a) e = ok a

-- An early return of `e` unless the test holds.
abbrev pub ensure {ℓ} : {E : Type ℓ} → Bool → E → Result (Unit {0}) E
ensure true e = ok tt
ensure false e = err e
