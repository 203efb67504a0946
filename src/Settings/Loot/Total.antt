-- ===== src/Settings/Loot/Total.antt =====
-- The total that an item list subscribes: every distinct weight of an enabled item counts once, in
-- any number of items, and the `u16` sum never wraps.
use briska_blast.Common.{
  ℕ, zero, suc, ◌+◌, ◌*◌, ◌%◌, ◌^◌, ◌≤◌, ◌<◌, ◌≡◌, refl, true, false, ◌&&◌, ◌||◌, not, List, [],
  ◌∷◌, ◌++◌, arith, ◌==◌, nat_eq, if◌then◌else◌, All,
}
use briska_blast.Settings.Loot.{Entry, seen, total_loop}

-- The sum of the weights below `n` that an enabled entry has and no earlier one had.
unfoldable pub fresh_sum : ℕ → List Entry → List Entry → ℕ
fresh_sum zero before es = 0
fresh_sum (suc w) before es =
    fresh_sum w before es + (if seen es w && not (seen before w) then w else 0)

seen-append :
    (before : List Entry) (e : Entry) (w : ℕ)
    → seen (before ++ e ∷ []) w ≡ seen before w || (e.0 && e.1 == w)
seen-append [] e w = ground arith
seen-append (b ∷ before) e w = ground (arith, seen-append before e w)

fresh_sum_off :
    (n w : ℕ) (before es : List Entry)
    → fresh_sum n (before ++ (false, w) ∷ []) es ≡ fresh_sum n before ((false, w) ∷ es)
unfolding fresh_sum
fresh_sum_off zero w before es = refl
fresh_sum_off (suc k) w before es =
    ground (arith, fresh_sum_off k w before es, seen-append before (false, w) k)

fresh_sum_above :
    (n w : ℕ) (before es : List Entry)
    → n ≤ w
    → fresh_sum n (before ++ (true, w) ∷ []) es ≡ fresh_sum n before ((true, w) ∷ es)
unfolding fresh_sum
fresh_sum_above zero w before es h = refl
fresh_sum_above (suc k) w before es h =
    ground (arith, fresh_sum_above k w before es, seen-append before (true, w) k)

fresh_sum_on :
    (n w : ℕ) (before es : List Entry)
    → w < n
    → fresh_sum n before ((true, w) ∷ es)
      ≡ fresh_sum n (before ++ (true, w) ∷ []) es + (if seen before w then 0 else w)
unfolding fresh_sum
fresh_sum_on zero w before es h = absurd (omega arith)
fresh_sum_on (suc k) w before es h = ground (
  arith,
  fresh_sum_on k w before es,
  fresh_sum_above k w before es,
  seen-append before (true, w) k,
)

fresh_sum-le : (n : ℕ) (before es : List Entry) → fresh_sum n before es * 2 ≤ n * n
unfolding fresh_sum
fresh_sum-le zero before es = omega arith
fresh_sum-le (suc n) before es = ground (arith, fresh_sum-le n before es)

fresh_sum_nil : (n : ℕ) (before : List Entry) → fresh_sum n before [] ≡ 0
unfolding fresh_sum
fresh_sum_nil zero before = refl
fresh_sum_nil (suc n) before = ground (arith, fresh_sum_nil n before)

abbrev pub IsByte : Entry → Type 0
IsByte e = e.1 < 256

total_loop-fresh_sum :
    (before : List Entry) (total : ℕ) (es : List Entry)
    → All IsByte es
    → total + fresh_sum 256 before es < 2 ^ 16
    → total_loop before total es ≡ total + fresh_sum 256 before es
unfolding total_loop
total_loop-fresh_sum before total [] h b = omega (arith, fresh_sum_nil 256 before)
total_loop-fresh_sum before total ((false, w) ∷ es) h b = ground (
  arith,
  fresh_sum_off 256 w before es,
  total_loop-fresh_sum (before ++ (false, w) ∷ []) total es h.1,
)
total_loop-fresh_sum before total ((true, w) ∷ es) h b = ground (
  arith,
  fresh_sum_on 256 w before es h.0,
  total_loop-fresh_sum (before ++ (true, w) ∷ []) total es h.1,
  total_loop-fresh_sum (before ++ (true, w) ∷ []) ((total + w) % 2 ^ 16) es h.1,
)

-- Over any list of byte weights the subscribed total is the sum of the distinct weights of the
-- enabled items: an item tied with an earlier one adds nothing, and `u16` never wraps.
pub total_loop-distinct_sum :
    (es : List Entry) → All IsByte es → total_loop [] 0 es ≡ fresh_sum 256 [] es
total_loop-distinct_sum es h =
    omega (arith, total_loop-fresh_sum [] 0 es h (omega (arith, fresh_sum-le 256 [] es)))
