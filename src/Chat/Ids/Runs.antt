-- ===== src/Chat/Ids/Runs.antt =====
-- Ids over every interleaving of the transactions and the advances of a sequence.
use briska_blast.Common.{
  ℕ, suc, ◌+◌, ◌*◌, ◌^◌, ◌≤◌, ◌<◌, ◌≡◌, All, true, Option, none, some, List, [], ◌∷◌, ◌==◌, ==_iff,
  nat_eq, contains, IsDistinct, arith, Option-cases, Bool-cases, ltb, inl, inr, subst, sym, ◌∙◌, ℤ,
  pos, negsuc, i64_max, pos_part,
}
use briska_blast.Chat.Ids.{
  Sequence, Issued, issue, incr, advance_epoch, advance_script, next_epoch, parse_epoch, format_id,
  epoch_alphabet, first_epoch, text_eq,
}
use briska_blast.Chat.Ids.Tail.{read_from, read_from-encode_tail}
use briska_blast.Chat.Ids.Epochs.{rank, next_epoch-rank}

-- A transaction, or an advance of a caller that has observed some epoch, at any later time.
pub data Event : Type 0 where
  call : Event
  advance : ℕ → Event

cons_issued : Option Issued → List (List ℕ) → List (List ℕ)
cons_issued none ids = ids
cons_issued (some i) ids = i.id ∷ ids

-- The ids that are issued, and the keys afterwards.
unfoldable pub run : Sequence → List Event → List (List ℕ) × Sequence
unfolding cons_issued
run s [] = ([], s)
run s (call ∷ es) =
    let (issued, s') = issue s in let (ids, s'') = run s' es in (cons_issued issued ids, s'')
run s (advance observed ∷ es) = run (advance_epoch observed s) es

abbrev pub IsEpoch : Option (List ℕ) → Type 0
IsEpoch none = Unit
IsEpoch (some []) = ⊥
IsEpoch (some (c ∷ [])) = contains epoch_alphabet c ≡ true
IsEpoch (some (c ∷ d ∷ cs)) = ⊥

abbrev pub IsCount : ℤ → Type 0
IsCount (pos n) = n ≤ i64_max
IsCount (negsuc n) = ⊥

-- The keys as the code leaves them: a count, and no epoch or one letter.
abbrev pub IsProper : Sequence → Type 0
IsProper s = IsCount s.counter × IsEpoch s.epoch

abbrev mark : Sequence → ℕ
mark s = rank (parse_epoch s.epoch) * 2 ^ 63 + pos_part s.counter

abbrev ticket : List ℕ → ℕ
ticket [] = 0
ticket (c ∷ tail) = rank c * 2 ^ 63 + read_from 0 tail

-- Every id has a ticket above the mark and the tickets of the ids before it.
abbrev IsRising : ℕ → List (List ℕ) → Type 0
IsRising m [] = Unit
IsRising m (id ∷ ids) = (m < ticket id) × IsRising (ticket id) ids

IsRising-weaken : (m n : ℕ) (ids : List (List ℕ)) → m ≤ n → IsRising n ids → IsRising m ids
IsRising-weaken m n [] le r = tt
IsRising-weaken m n (id ∷ ids) le r = (omega (arith, le, r.0), r.1)

IsRising-contains :
    (m : ℕ) (ids : List (List ℕ)) (id : List ℕ)
    → IsRising m ids
    → contains ids id ≡ true
    → m < ticket id
IsRising-contains m [] id r c = cc
IsRising-contains m (x ∷ ids) id r c =
    ground (arith, IsRising-contains (ticket x) ids id r.1, ==_iff x id)

IsRising-IsDistinct : (m : ℕ) (ids : List (List ℕ)) → IsRising m ids → IsDistinct ids
IsRising-IsDistinct m [] r = tt
IsRising-IsDistinct m (id ∷ ids) r =
    ground
      (arith, IsRising-contains (ticket id) ids id r.1, IsRising-IsDistinct (ticket id) ids r.1)

-- What a transaction does: nothing, or an id with the next ticket.
Takes : Sequence → Option Issued × Sequence → Type 0
Takes s (none, s') = s' ≡ s
Takes s (some i, s') = IsProper s' × (ticket i.id ≡ suc (mark s)) × (mark s' ≡ suc (mark s))

issue-Takes :
    (c : ℤ) (e : Option (List ℕ))
    → IsProper (record { counter = c; epoch = e })
    → Takes (record { counter = c; epoch = e }) (issue (record { counter = c; epoch = e }))
unfolding issue format_id Takes
issue-Takes (negsuc n) e h = absurd h.0
issue-Takes (pos n) e h = elim (Bool-cases (ltb n i64_max)) [
  | inr full ↦ ground (arith, full)
  | inl more ↦ ground (arith, more, read_from-encode_tail (suc n))
]

advance_script-mark :
    (observed d : ℕ) (c : ℤ) (e : Option (List ℕ))
    → contains epoch_alphabet d ≡ true
    → rank d ≡ suc (rank observed)
    → IsCount c
    → IsEpoch e
    → IsProper (advance_script observed d (record { counter = c; epoch = e })).1
      × (mark (record { counter = c; epoch = e })
          ≤ mark (advance_script observed d (record { counter = c; epoch = e })).1)
unfolding advance_script parse_epoch
advance_script-mark observed d c none letter up count one = ground arith
advance_script-mark observed d c (some []) letter up count one = absurd one
advance_script-mark observed d (negsuc n) (some (x ∷ [])) letter up count one = absurd count
advance_script-mark observed d (pos n) (some (x ∷ [])) letter up count one =
    elim (Bool-cases (x == observed)) [
      | inl hit ↦ ground (arith, hit, ==_iff x observed)
      | inr miss ↦ ground (arith, miss)
    ]
advance_script-mark observed d c (some (x ∷ y ∷ cs)) letter up count one = absurd one

advance_epoch-mark :
    (observed : ℕ) (s : Sequence)
    → IsProper s
    → IsProper (advance_epoch observed s) × (mark s ≤ mark (advance_epoch observed s))
unfolding advance_epoch
advance_epoch-mark observed s h = elim (Option-cases (next_epoch observed)) [
  | inl gone ↦ rw (gone, advance_epoch) (h, ground arith)
  | inr (d, e) ↦
      let (letter, up) = next_epoch-rank observed d e in
      rw (e, advance_epoch) (advance_script-mark observed d s.counter s.epoch letter up h.0 h.1)
]

call-IsRising :
    (s : Sequence) (x : Option Issued × Sequence) (ids : List (List ℕ))
    → Takes s x
    → IsRising (mark x.1) ids
    → IsRising (mark s) (cons_issued x.0 ids)
unfolding Takes cons_issued
call-IsRising s (none, s') ids t r = subst (λ z. IsRising (mark z) ids) t r
call-IsRising s (some i, s') ids t r =
    (omega (arith, t.1), subst (λ n. IsRising n ids) (t.2 ∙ sym t.1) r)

Takes-IsProper :
    (s : Sequence) (x : Option Issued × Sequence) → IsProper s → Takes s x → IsProper x.1
unfolding Takes
Takes-IsProper s (none, s') h t = subst IsProper (sym t) h
Takes-IsProper s (some i, s') h t = t.0

run-IsRising : (s : Sequence) (es : List Event) → IsProper s → IsRising (mark s) (run s es).0
unfolding run cons_issued
run-IsRising s [] h = tt
run-IsRising s (call ∷ es) h =
    let t : Takes s (issue s) = issue-Takes s.counter s.epoch h in
    call-IsRising s (issue s) (run (issue s).1 es).0 t
      (run-IsRising (issue s).1 es (Takes-IsProper s (issue s) h t))
run-IsRising s (advance observed ∷ es) h =
    let (proper, le) = advance_epoch-mark observed s h in
    IsRising-weaken (mark s) (mark (advance_epoch observed s)) (run (advance_epoch observed s) es).0
      le (run-IsRising (advance_epoch observed s) es proper)

-- Whatever transactions and advances come and in whatever order, however late a caller advances
-- the epoch that it has observed, no id is issued twice.
pub run-IsDistinct : (s : Sequence) (es : List Event) → IsProper s → IsDistinct (run s es).0
run-IsDistinct s es h = IsRising-IsDistinct (mark s) (run s es).0 (run-IsRising s es h)

abbrev pub StartsFirst : List ℕ → Type 0
StartsFirst [] = ⊥
StartsFirst (c ∷ cs) = c ≡ first_epoch

-- A sequence whose epoch key is not stored never has one: no advance is ever made, whatever
-- epochs its callers have observed, and every id it issues has the first epoch.
pub run-unset :
    (s : Sequence) (es : List Event)
    → s.epoch ≡ none
    → ((run s es).1.epoch ≡ none) × All StartsFirst (run s es).0
unfolding run cons_issued issue format_id parse_epoch advance_epoch advance_script
run-unset s [] h = (h, tt)
run-unset s (call ∷ es) h = elim (Option-cases (incr s.counter)) [
  | inl gone ↦ ground (arith, gone, run-unset s es)
  | inr (n, e) ↦ ground (arith, e, run-unset (record s { counter = n }) es)
]
run-unset s (advance observed ∷ es) h = elim (Option-cases (next_epoch observed)) [
  | inl gone ↦ ground (arith, gone, run-unset s es)
  | inr (d, e) ↦ ground (arith, e, run-unset s es)
]
