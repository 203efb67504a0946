-- ===== src/Chat/Blacklist/Censored.antt =====
-- The masking of matches that do not overlap, as a walk over the characters: `mask` of
-- server/src/chat/blacklist.rs.
use briska_blast.Common.{
  ℕ, ◌+◌, ◌-◌, ◌≤◌, ◌<◌, ◌≡◌, refl, sym, ap, subst, ◌∙◌, Bool, true, false, ◌&&◌, some, List, [],
  ◌∷◌, ◌++◌, ◌==◌, nat_eq, ltb, leb, any, All, if◌then◌else◌, arith, Bool-cases, Option-cases, inl,
  inr,
}
use mathlib.Core.List.{append_assoc, append-nil}
use briska_blast.Chat.Transcript.{Text}
use briska_blast.Chat.Blacklist.{
  len_utf8, byte_len, split_at, is_char_boundary, slice, Match, end, hashes, mask_from,
}

len_utf8-pos : (c : ℕ) → 1 ≤ len_utf8 c
unfolding len_utf8
len_utf8-pos c = ground arith

pub byte_len-append : (a b : Text) → byte_len (a ++ b) ≡ byte_len a + byte_len b
unfolding byte_len
byte_len-append [] b = omega arith
byte_len-append (c ∷ a) b = omega (arith, byte_len-append a b)

split_at-parts :
    (t : Text) (i : ℕ) (a b : Text) → split_at t i ≡ some (a, b) → (t ≡ a ++ b) × (byte_len a ≡ i)
unfolding split_at byte_len
split_at-parts [] i a b h = ground (arith, h)
split_at-parts (c ∷ cs) i a b h = elim (Bool-cases (i == 0)) [
  | inl start ↦ ground (arith, h, start)
  | inr on ↦ elim (Bool-cases (leb (len_utf8 c) i)) [
    | inr cut ↦ absurd (ground (arith, h, on, cut))
    | inl fits ↦ elim (Option-cases (split_at cs (i - len_utf8 c))) [
      | inl bad ↦ absurd (ground (arith, h, on, fits, bad))
      | inr ((x, y), e) ↦ ground (arith, h, on, fits, e, split_at-parts cs (i - len_utf8 c) x y e)
    ]
  ]
]

split_at-append : (a b : Text) → split_at (a ++ b) (byte_len a) ≡ some (a, b)
unfolding split_at byte_len
split_at-append [] [] = refl
split_at-append [] (c ∷ b) = refl
split_at-append (c ∷ a) b =
    let less : len_utf8 c + byte_len a - len_utf8 c ≡ byte_len a = omega arith in
    ground (arith, len_utf8-pos c, split_at-append a b, ap (split_at (a ++ b)) less)

slice-append :
    (a s b : Text) → slice (a ++ (s ++ b)) (byte_len a) (byte_len a + byte_len s) ≡ some s
unfolding slice
slice-append a s b =
    let whole : split_at (a ++ (s ++ b)) (byte_len a + byte_len s) ≡ some (a ++ s, b) =
      ap (λ i. split_at (a ++ (s ++ b)) i) (sym (byte_len-append a s))
      ∙ ap (λ t. split_at t (byte_len (a ++ s))) (sym (append_assoc a s b))
      ∙ split_at-append (a ++ s) b in
    rw (whole, slice) (rw (split_at-append a s) refl)

-- A boundary after another one: what lies between.
between :
    (a rest x y : Text)
    → a ++ rest ≡ x ++ y
    → byte_len a ≤ byte_len x
    → (seg : Text) × (x ≡ a ++ seg) × (rest ≡ seg ++ y)
unfolding byte_len
between [] rest x y e le = (x, refl, e)
between (c ∷ a) rest [] y e le = absurd (omega (arith, le, len_utf8-pos c))
between (c ∷ a) rest (d ∷ x) y e le =
    let same : c ≡ d = ground (arith, e) in
    let tails : a ++ rest ≡ x ++ y = ground (arith, e) in
    let (seg, ex, er) = between a rest x y tails (ground (arith, le, same)) in
    (seg, ground (arith, same, ex), er)

-- The reference: which characters the matches cover.
abbrev pub covers : ℕ → Match → Bool
covers p m = leb m.start p && ltb p (end m)

unfoldable pub censor : List Match → ℕ → Text → Text
unfolding len_utf8
censor l p [] = []
censor l p (c ∷ cs) = (if any (covers p) l then 35 else c) ∷ censor l (p + len_utf8 c) cs

censor-append :
    (l : List Match) (p : ℕ) (s t : Text)
    → censor l p (s ++ t) ≡ censor l p s ++ censor l (p + byte_len s) t
unfolding censor byte_len
censor-append l p [] t = ap (λ q. censor l q t) (sum p)
  where
    sum : (p : ℕ) → p ≡ p + 0
    sum p = omega arith
censor-append l p (c ∷ s) t =
    ap (λ u. (if any (covers p) l then 35 else c) ∷ u)
      (censor-append l (p + len_utf8 c) s t
        ∙ ap (λ q. censor l (p + len_utf8 c) s ++ censor l q t) (sum p (len_utf8 c) (byte_len s)))
  where
    sum : (p q r : ℕ) → p + q + r ≡ p + (q + r)
    sum p q r = omega arith

-- The matches begin at a position or later.
abbrev From : ℕ → List Match → Type 0
From p l = All (λ m. p ≤ m.start) l

From-weaken : (p q : ℕ) (l : List Match) → p ≤ q → From q l → From p l
From-weaken p q [] h f = tt
From-weaken p q (m ∷ l) h f = (omega (arith, h, f.0), From-weaken p q l h f.1)

From-any : (p q : ℕ) (l : List Match) → From q l → p < q → any (covers p) l ≡ false
From-any p q [] f h = refl
From-any p q (m ∷ l) f h = ground (arith, f.0, h, From-any p q l f.1 h)

censor-before :
    (l : List Match) (p q : ℕ) (s : Text) → From q l → p + byte_len s ≤ q → censor l p s ≡ s
unfolding censor byte_len
censor-before l p q [] f h = refl
censor-before l p q (c ∷ s) f h = ground (
  arith,
  From-any p q l f (omega (arith, h, len_utf8-pos c)),
  censor-before l (p + len_utf8 c) q s f (omega (arith, h)),
)

censor-inside :
    (m : Match) (l : List Match) (p : ℕ) (s : Text)
    → m.start ≤ p
    → p + byte_len s ≤ end m
    → censor (m ∷ l) p s ≡ hashes s
unfolding censor byte_len
censor-inside m l p [] h k = refl
censor-inside m l p (c ∷ s) h k = ground (
  arith,
  h,
  k,
  len_utf8-pos c,
  censor-inside m l (p + len_utf8 c) s (omega (arith, h)) (omega (arith, k)),
)

censor-after :
    (m : Match) (l : List Match) (p : ℕ) (s : Text) → end m ≤ p → censor (m ∷ l) p s ≡ censor l p s
unfolding censor
censor-after m l p [] h = refl
censor-after m l p (c ∷ s) h =
    ground (arith, h, censor-after m l (p + len_utf8 c) s (omega (arith, h)))

pub censor-none : (p : ℕ) (s : Text) → censor [] p s ≡ s
unfolding censor
censor-none p [] = refl
censor-none p (c ∷ s) = ap (λ t. c ∷ t) (censor-none (p + len_utf8 c) s)

-- Matches that `mask` can work through from a position.
abbrev pub Chain : Text → ℕ → List Match → Type 0
Chain text cursor [] = Unit
Chain text cursor (m ∷ l) =
    (cursor ≤ m.start)
    × (is_char_boundary text m.start ≡ true)
    × (is_char_boundary text (end m) ≡ true)
    × Chain text (end m) l

Chain-From :
    (text : Text) (p cursor : ℕ) (l : List Match) → p ≤ cursor → Chain text cursor l → From p l
Chain-From text p cursor [] le c = tt
Chain-From text p cursor (m ∷ l) le c =
    (omega (arith, le, c.0), Chain-From text p (end m) l (omega (arith, le, c.0)) c.3)

pub boundary-parts :
    (text : Text) (i : ℕ)
    → is_char_boundary text i ≡ true
    → (x : Text) × (y : Text) × (text ≡ x ++ y) × (byte_len x ≡ i)
boundary-parts text i h = elim (Option-cases (split_at text i)) [
  | inl bad ↦ absurd (ground (arith, h, bad))
  | inr ((x, y), e) ↦ let (whole, at_i) = split_at-parts text i x y e in (x, y, whole, at_i)
]

slice-mid :
    (text a s b : Text) (i j : ℕ)
    → text ≡ a ++ (s ++ b)
    → byte_len a ≡ i
    → byte_len a + byte_len s ≡ j
    → slice text i j ≡ some s
slice-mid text a s b i j e h k = rw (e, ← h, ← k) (slice-append a s b)

censor-parts :
    (m : Match) (l : List Match) (cursor : ℕ) (seg seg2 rest : Text)
    → cursor + byte_len seg ≡ m.start
    → m.start + byte_len seg2 ≡ end m
    → From (end m) l
    → censor (m ∷ l) cursor (seg ++ (seg2 ++ rest)) ≡ seg ++ (hashes seg2 ++ censor l (end m) rest)
censor-parts m l cursor seg seg2 rest h k f =
    let from : From m.start (m ∷ l) =
      (omega arith, From-weaken m.start (end m) l (omega arith) f) in
    let before = censor-before (m ∷ l) cursor m.start seg from (omega (arith, h)) in
    let inside = censor-inside m l m.start seg2 (omega arith) (omega (arith, k)) in
    let after = censor-after m l (end m) rest (omega arith) in
    censor-append (m ∷ l) cursor seg (seg2 ++ rest)
    ∙ rw (before, h)
        (ap (λ t. seg ++ t)
          (censor-append (m ∷ l) m.start seg2 rest
            ∙ rw (inside, k) (ap (λ t. hashes seg2 ++ t) after)))

mask_from-step :
    (text seg seg2 rest : Text) (cursor : ℕ) (m : Match) (l : List Match)
    → cursor ≤ m.start
    → slice text cursor m.start ≡ some seg
    → slice text m.start (end m) ≡ some seg2
    → mask_from text (end m) l ≡ some rest
    → mask_from text cursor (m ∷ l) ≡ some (seg ++ (hashes seg2 ++ rest))
unfolding mask_from
mask_from-step text seg seg2 rest cursor m l le e e2 e3 = ground (arith, le, e, e2, e3)

pub mask_from-censor :
    (l : List Match) (a rest : Text) (cursor : ℕ)
    → byte_len a ≡ cursor
    → Chain (a ++ rest) cursor l
    → mask_from (a ++ rest) cursor l ≡ some (censor l cursor rest)
unfolding mask_from
mask_from-censor [] a rest cursor at_a c =
    ap (λ p. slice (a ++ rest) p (byte_len (a ++ rest))) (sym at_a)
    ∙ ap (λ t. slice (a ++ t) (byte_len a) (byte_len (a ++ rest))) (sym (append-nil rest))
    ∙ ap (λ j. slice (a ++ (rest ++ [])) (byte_len a) j) (byte_len-append a rest)
    ∙ slice-append a rest []
    ∙ ap some (sym (censor-none cursor rest))
mask_from-censor (m ∷ l) a rest cursor at_a c =
    let (x, y, ex, bx) = boundary-parts (a ++ rest) m.start c.1 in
    let (x', y', ex', bx') = boundary-parts (a ++ rest) (end m) c.2 in
    let (seg, es, er) = between a rest x y ex (omega (arith, at_a, bx, c.0)) in
    let (seg2, es2, er2) = between x y x' y' (sym ex ∙ ex') (omega (arith, bx, bx')) in
    let len_x : byte_len x ≡ byte_len a + byte_len seg = ap byte_len es ∙ byte_len-append a seg in
    let len_x' : byte_len x' ≡ byte_len x + byte_len seg2 =
      ap byte_len es2 ∙ byte_len-append x seg2 in
    let chain = subst (λ t. Chain t (end m) l) ex' c.3 in
    mask_from-step (a ++ rest) seg seg2 (censor l (end m) y') cursor m l c.0
      (slice-mid (a ++ rest) a seg y cursor m.start (ap (λ t. a ++ t) er) at_a
        (omega (arith, len_x, bx)))
      (slice-mid (a ++ rest) x seg2 y' m.start (end m) (ex ∙ ap (λ t. x ++ t) er2) bx
        (omega (arith, len_x', bx')))
      (ap (λ t. mask_from t (end m) l) ex' ∙ mask_from-censor l x' y' (end m) bx' chain)
    ∙ ap some (
        sym (
          censor-parts m l cursor seg seg2 y' (omega (arith, len_x, bx, at_a))
            (omega (arith, len_x', bx', bx))
            (Chain-From (a ++ rest) (end m) (end m) l (omega arith) c.3))
        ∙ ap (censor (m ∷ l) cursor) (ap (λ t. seg ++ t) (sym er2) ∙ sym er))
