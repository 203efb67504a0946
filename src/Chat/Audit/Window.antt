-- ===== src/Chat/Audit/Window.antt =====
-- The span of records that a page shows: `AuditWindow` of server/src/chat/audit.rs. A `usize` has 64
-- bits. The text of a notice is left out.
use briska_blast.Common.{
  ℕ, ◌+◌, ◌-◌, ◌^◌, ◌≤◌, ◌<◌, ◌≡◌, refl, ◌&&◌, Option, none, some, List, [], ◌∷◌, ◌==◌, nat_eq, ltb,
  leb, is_empty, if◌then◌else◌, arith, Bool-cases, Option-cases, if_both, inl, inr, min,
}
use briska_blast.Chat.Bans.{trim, parse_u64}
use briska_blast.Chat.Bans.Keys.{parse_u64-small}

abbrev pub default_window : ℕ
default_window = 100

abbrev pub max_window : ℕ
max_window = 500

pub data Notice : Type 0 where
  not_valid capped : Notice

pub record AuditWindow : Type 0 where
  pub first : ℕ
  pub last : ℕ
  pub notice : Option Notice

abbrev pub the_default : Option Notice → AuditWindow
the_default notice = record { first = 1; last = default_window; notice = notice }

-- `split_once('-')`.
unfoldable pub split_dash : List ℕ → Option (List ℕ × List ℕ)
split_dash [] = none
split_dash (c ∷ cs) =
    let rest = split_dash cs in
    if c == 45 then some ([], cs) else elim rest [ none ↦ none | some (a, b) ↦ some (c ∷ a, b) ]

abbrev pub pair_of : Option ℕ → Option ℕ → Option (ℕ × ℕ)
pair_of none last = none
pair_of (some first) none = none
pair_of (some first) (some last) = some (first, last)

unfoldable pub span_of : List ℕ → Option (ℕ × ℕ)
unfolding split_dash parse_u64
span_of raw = elim (split_dash raw) [
  | none ↦ elim (parse_u64 raw) [ none ↦ none | some n ↦ some (1, n) ]
  | some (first, last) ↦ pair_of (parse_u64 (trim first)) (parse_u64 (trim last))
]

-- `saturating_add`.
abbrev pub saturating_add : ℕ → ℕ → ℕ
saturating_add a b = min (a + b) (2 ^ 64 - 1)

unfoldable pub window_of : Option (ℕ × ℕ) → AuditWindow
window_of none = the_default (some not_valid)
window_of (some (first, last)) =
    if leb 1 first && leb first last
    then (if ltb max_window (last - first + 1)
        then record {
          first = first;
          last = saturating_add first (max_window - 1);
          notice = some capped;
        }
        else record { first = first; last = last; notice = none })
    else the_default (some not_valid)

unfoldable pub parse : Option (List ℕ) → AuditWindow
unfolding span_of window_of
parse none = the_default none
parse (some text) =
    if is_empty (trim text) then the_default none else window_of (span_of (trim text))

-- `isize::try_from(v.saturating_sub(1)).unwrap_or(isize::MAX)`.
abbrev pub clamp : ℕ → ℕ
clamp v = min (v - 1) (2 ^ 63 - 1)

unfoldable pub bounds : AuditWindow → ℕ × ℕ
bounds w = (clamp w.first, clamp w.last)

-- What a window may show.
pub record IsWindow (w : AuditWindow) : Type 0 where
  pub from_one : 1 ≤ w.first
  pub ordered : w.first ≤ w.last
  pub narrow : w.last - w.first < max_window
  pub small : w.last < 2 ^ 64

the_default-IsWindow : (notice : Option Notice) → IsWindow (the_default notice)
the_default-IsWindow notice = record {
  from_one = omega arith;
  ordered = omega arith;
  narrow = omega arith;
  small = omega arith;
}

capped-IsWindow :
    (first last : ℕ)
    → 1 ≤ first
    → first ≤ last
    → last < 2 ^ 64
    → IsWindow (
        if ltb max_window (last - first + 1)
        then record {
          first = first;
          last = saturating_add first (max_window - 1);
          notice = some capped;
        }
        else record { first = first; last = last; notice = none })
capped-IsWindow first last one le small = elim (Bool-cases (ltb max_window (last - first + 1))) [
  | inl wide ↦ rw wide (record {
    from_one = one;
    ordered = ground (arith, small);
    narrow = ground (arith, small);
    small = ground (arith, small);
  })
  | inr fits ↦
      rw fits
        (record { from_one = one; ordered = le; narrow = ground (arith, fits); small = small })
]

window_of-IsWindow :
    (span : Option (ℕ × ℕ))
    → ((a b : ℕ) → span ≡ some (a, b) → b < 2 ^ 64)
    → IsWindow (window_of span)
unfolding window_of
window_of-IsWindow none h = the_default-IsWindow (some not_valid)
window_of-IsWindow (some (first, last)) h = elim (Bool-cases (leb 1 first && leb first last)) [
  | inl good ↦
      rw good (
        capped-IsWindow first last (ground (arith, good)) (ground (arith, good))
          (h first last refl))
  | inr bad ↦ rw bad (the_default-IsWindow (some not_valid))
]

pair_of-small :
    (x y : Option ℕ) (a b : ℕ)
    → ((n : ℕ) → y ≡ some n → n < 2 ^ 64)
    → pair_of x y ≡ some (a, b)
    → b < 2 ^ 64
pair_of-small none y a b h e = cc
pair_of-small (some x) none a b h e = cc
pair_of-small (some x) (some y) a b h e = ground (arith, h y refl)

span_of-small : (raw : List ℕ) (a b : ℕ) → span_of raw ≡ some (a, b) → b < 2 ^ 64
unfolding span_of
span_of-small raw a b h = elim (Option-cases (split_dash raw)) [
  | inl one ↦ elim (Option-cases (parse_u64 raw)) [
    | inl bad ↦ absurd (ground (arith, one, bad))
    | inr (n, e) ↦ ground (arith, one, e, parse_u64-small raw n e)
  ]
  | inr ((x, y), e) ↦
      pair_of-small (parse_u64 (trim x)) (parse_u64 (trim y)) a b (parse_u64-small (trim y))
        (ground (arith, e))
]

-- Whatever is typed into the range of the audit log, the span of records begins at 1 or later,
-- does not end before it begins, covers at most 500 records and ends within `usize`.
pub parse-IsWindow : (raw : Option (List ℕ)) → IsWindow (parse raw)
unfolding parse
parse-IsWindow none = the_default-IsWindow none
parse-IsWindow (some text) =
    if_both IsWindow _ (the_default none) _ (the_default-IsWindow none)
      (window_of-IsWindow (span_of (trim text)) (span_of-small (trim text)))
