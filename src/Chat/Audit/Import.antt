-- ===== src/Chat/Audit/Import.antt =====
-- The import of the legacy lists, `migrate` of server/src/chat/audit.rs, when it is stopped and begun again.
use briska_blast.Common.{
  ℕ, zero, suc, ◌+◌, ◌≡◌, refl, sym, ap, ◌∙◌, true, false, Option, none, some, List, [], ◌∷◌,
  string_eq, arith, Bool-cases, Option-cases, inl, inr,
}
use mathlib.Core.List.{reverse}
use briska_blast.Chat.Ids.{text_eq, next_id}
use briska_blast.Chat.Transcript.{skip}
use briska_blast.Chat.Audit.{
  AuditCategory, AuditRecord, AuditLog, Shelf, shelf, set_cursor, index_record, index_issued,
  home_of, tag_list, import_one, import_from, import_category,
}
use briska_blast.Chat.Audit.Aligned.{
  IsAligned, import_from-nil, import_category-IsAligned, shelf-on_shelf, same_category_refl,
  legacy-on_shelf, index_record-legacy, index_record-migrated, next_id-none, IsAligned-step,
  shelf_ids,
}

import_one-IsAligned :
    (category : AuditCategory) (position : ℕ) (entry : Option AuditRecord)
    (entries : List (Option AuditRecord)) (log : AuditLog)
    → IsAligned category position (entry ∷ entries) log
    → (import_one category position entry log).0 ≡ true
    → IsAligned category (suc position) entries (import_one category position entry log).1
unfolding import_one
import_one-IsAligned category position none entries log a h =
    IsAligned-step category position none entries log _ a
      (legacy-on_shelf category category (set_cursor (suc position)) log refl)
      (ap (λ (s : Shelf). s.migrated)
          (shelf-on_shelf category category (set_cursor (suc position)) log)
        ∙ rw (same_category_refl category))
import_one-IsAligned category position (some r) entries log a h =
    elim (Option-cases (next_id log.ids).0) [
      | inl full ↦ absurd (ground (arith, full))
      | inr (i, e) ↦
          let home = home_of category in
          let filed = record (tag_list category r) { event_id = i.id } in
          let counted = record log { ids = (next_id log.ids).1 } in
          rw (e, index_issued)
            (IsAligned-step category position (some r) entries log
              (index_record home filed (some (category, suc position)) counted) a
              (index_record-legacy category home filed (suc position) counted
                ∙ ap (λ (s : Shelf). s.legacy) (shelf_ids category (next_id log.ids).1 log))
              (index_record-migrated category home filed (suc position) counted))
    ]

-- A turn that cannot issue an id leaves the log as it was.
import_one-stuck :
    (category : AuditCategory) (position : ℕ) (entry : Option AuditRecord) (log : AuditLog)
    → (import_one category position entry log).0 ≡ false
    → (import_one category position entry log).1 ≡ log
unfolding import_one
import_one-stuck category position none log h = cc
import_one-stuck category position (some r) log h = elim (Option-cases (next_id log.ids).0) [
  | inr (i, e) ↦ absurd (ground (arith, h, e))
  | inl full ↦
      rw (full, index_issued) (ap (λ ids. record log { ids = ids }) (next_id-none log.ids full))
]

import_from-on :
    (budget : ℕ) (category : AuditCategory) (position : ℕ) (entry : Option AuditRecord)
    (entries : List (Option AuditRecord)) (log : AuditLog)
    → (import_one category position entry log).0 ≡ true
    → import_from (suc budget) category position (entry ∷ entries) log
      ≡ import_from budget category
          (suc position)
          entries
          (import_one category position entry log).1
unfolding import_from
import_from-on budget category position entry entries log h = ground (arith, h)

import_from-stuck :
    (budget : ℕ) (category : AuditCategory) (position : ℕ) (entry : Option AuditRecord)
    (entries : List (Option AuditRecord)) (log : AuditLog)
    → (import_one category position entry log).0 ≡ false
    → import_from budget category position (entry ∷ entries) log ≡ log
unfolding import_from
import_from-stuck zero category position entry entries log h = refl
import_from-stuck (suc budget) category position entry entries log h =
    ground (arith, h, import_one-stuck category position entry log h)

import_from-resumed :
    (first second : ℕ) (category : AuditCategory) (position : ℕ)
    (entries : List (Option AuditRecord)) (log : AuditLog)
    → IsAligned category position entries log
    → import_category second category (import_from first category position entries log)
      ≡ import_from (first + second) category position entries log
unfolding import_from
import_from-resumed zero second category position [] log a =
    let sum : second ≡ zero + second = omega arith in
    import_category-IsAligned second category position [] log a
    ∙ ap (λ b. import_from b category position [] log) sum
import_from-resumed zero second category position (entry ∷ entries) log a =
    let sum : second ≡ zero + second = omega arith in
    import_category-IsAligned second category position (entry ∷ entries) log a
    ∙ ap (λ b. import_from b category position (entry ∷ entries) log) sum
import_from-resumed (suc first) second category position [] log a =
    import_category-IsAligned second category position [] log a
    ∙ import_from-nil second category position log
    ∙ sym (import_from-nil (suc first + second) category position log)
import_from-resumed (suc first) second category position (entry ∷ entries) log a =
    elim (Bool-cases (import_one category position entry log).0) [
      | inl went_on ↦
          let log' = (import_one category position entry log).1 in
          let sum : suc (first + second) ≡ suc first + second = omega arith in
          ap (import_category second category)
            (import_from-on first category position entry entries log went_on)
          ∙ import_from-resumed first second category (suc position) entries log'
              (import_one-IsAligned category position entry entries log a went_on)
          ∙ sym (import_from-on (first + second) category position entry entries log went_on)
          ∙ ap (λ b. import_from b category position (entry ∷ entries) log) sum
      | inr stuck ↦
          ap (import_category second category)
            (import_from-stuck (suc first) category position entry entries log stuck)
          ∙ import_category-IsAligned second category position (entry ∷ entries) log a
          ∙ import_from-stuck second category position entry entries log stuck
          ∙ sym (import_from-stuck (suc first + second) category position entry entries log stuck)
    ]

-- An import of a legacy list that is stopped after some turns of its loop and begun again later
-- leaves the log that one uninterrupted import with as many turns as both leaves, also where an
-- id could not be issued: no record is imported twice, skipped or put in another order.
pub import_category-resumed :
    (first second : ℕ) (category : AuditCategory) (log : AuditLog)
    → import_category second category (import_category first category log)
      ≡ import_category (first + second) category log
import_category-resumed first second category log =
    let a : IsAligned category (shelf log category).migrated
        (skip (shelf log category).migrated (reverse (shelf log category).legacy)) log =
      record { migrated = refl; left = refl } in
    ap (import_category second category) (import_category-IsAligned first category _ _ log a)
    ∙ import_from-resumed first second category _ _ log a
    ∙ sym (import_category-IsAligned (first + second) category _ _ log a)
