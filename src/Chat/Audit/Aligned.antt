-- ===== src/Chat/Audit/Aligned.antt =====
-- How far an import of `migrate` in server/src/chat/audit.rs has come, as the log tells it.
use briska_blast.Common.{
  ℕ, zero, suc, ◌≤◌, ◌≡◌, refl, sym, ap, ◌∙◌, Bool, true, false, not, ◌&&◌, Option, none, some,
  List, [], ◌∷◌, ◌==◌, string_eq, leb, length, length-append, if◌then◌else◌, arith, if_both,
  Bool-cases, Option-cases, inl, inr,
}
use mathlib.Core.List.{reverse, reverse-cons}
use briska_blast.Common.Dict
use briska_blast.Chat.Ids.{text_eq, Sequence, incr, next_id, issue, advance_after}
use briska_blast.Chat.Transcript.{skip}
use briska_blast.Chat.Audit.{
  AuditCategory, list, AuditRecord, AuditLog, Shelf, shelf, on_shelf, is_list, lpush, set_cursor,
  index_record, import_from, import_category,
}

-- What is left to import, and the cursor before it.
pub record IsAligned (category : AuditCategory) (position : ℕ) (entries : List (Option AuditRecord))
    (log : AuditLog) : Type 0 where
  pub migrated : (shelf log category).migrated ≡ position
  pub left : skip position (reverse (shelf log category).legacy) ≡ entries

pub import_from-nil :
    (budget : ℕ) (category : AuditCategory) (position : ℕ) (log : AuditLog)
    → import_from budget category position [] log ≡ log
unfolding import_from
import_from-nil zero category position log = refl
import_from-nil (suc budget) category position log = refl

shelf_stored :
    (c : AuditCategory) (r : AuditRecord) (log : AuditLog)
    → (shelf (record log { records = Dict.insert log.records r.event_id r }) c).legacy
      ≡ (shelf log c).legacy
shelf_stored AuditCategory.player r log = refl
shelf_stored AuditCategory.word r log = refl
shelf_stored AuditCategory.list r log = refl
shelf_stored AuditCategory.system r log = refl

skip-all : (n : ℕ) (l : List (Option AuditRecord)) → length l ≤ n → skip n l ≡ []
unfolding skip
skip-all zero [] h = refl
skip-all zero (x ∷ l) h = absurd (omega (arith, h))
skip-all (suc n) [] h = refl
skip-all (suc n) (x ∷ l) h = skip-all n l (omega (arith, h))

skip-step :
    (n : ℕ) (l : List (Option AuditRecord)) (x : Option AuditRecord)
    (xs : List (Option AuditRecord))
    → skip n l ≡ x ∷ xs
    → skip (suc n) l ≡ xs
unfolding skip
skip-step zero [] x xs h = cc
skip-step zero (y ∷ l) x xs h = ground (arith, h)
skip-step (suc n) [] x xs h = cc
skip-step (suc n) (y ∷ l) x xs h = skip-step n l x xs h

length-reverse : (l : List (Option AuditRecord)) → length (reverse l) ≡ length l
length-reverse [] = refl
length-reverse (x ∷ l) =
    ap length (reverse-cons x l)
    ∙ length-append (reverse l) (x ∷ [])
    ∙ omega (arith, length-reverse l)

pub import_category-IsAligned :
    (budget : ℕ) (category : AuditCategory) (position : ℕ) (entries : List (Option AuditRecord))
    (log : AuditLog)
    → IsAligned category position entries log
    → import_category budget category log ≡ import_from budget category position entries log
unfolding import_category
import_category-IsAligned budget category position entries log a =
    elim (Bool-cases (leb (length (shelf log category).legacy) (shelf log category).migrated)) [
      | inr more ↦ rw more (rw (a.migrated, a.left) refl)
      | inl all_done ↦
          let nothing : entries ≡ [] =
            sym a.left
            ∙ skip-all position (reverse (shelf log category).legacy) (
                ground (arith, all_done, a.migrated, length-reverse (shelf log category).legacy)) in
          rw (all_done, nothing) (sym (import_from-nil budget category position log))
    ]

abbrev pub same_category : AuditCategory → AuditCategory → Bool
same_category AuditCategory.player AuditCategory.player = true
same_category AuditCategory.player AuditCategory.word = false
same_category AuditCategory.player AuditCategory.list = false
same_category AuditCategory.player AuditCategory.system = false
same_category AuditCategory.word AuditCategory.player = false
same_category AuditCategory.word AuditCategory.word = true
same_category AuditCategory.word AuditCategory.list = false
same_category AuditCategory.word AuditCategory.system = false
same_category AuditCategory.list AuditCategory.player = false
same_category AuditCategory.list AuditCategory.word = false
same_category AuditCategory.list AuditCategory.list = true
same_category AuditCategory.list AuditCategory.system = false
same_category AuditCategory.system AuditCategory.player = false
same_category AuditCategory.system AuditCategory.word = false
same_category AuditCategory.system AuditCategory.list = false
same_category AuditCategory.system AuditCategory.system = true

-- A shelf after a change of one.
pub shelf-on_shelf :
    (d c : AuditCategory) (f : Shelf → Shelf) (log : AuditLog)
    → shelf (on_shelf d f log) c ≡ (if same_category d c then f (shelf log c) else shelf log c)
shelf-on_shelf AuditCategory.player AuditCategory.player f log = refl
shelf-on_shelf AuditCategory.player AuditCategory.word f log = refl
shelf-on_shelf AuditCategory.player AuditCategory.list f log = refl
shelf-on_shelf AuditCategory.player AuditCategory.system f log = refl
shelf-on_shelf AuditCategory.word AuditCategory.player f log = refl
shelf-on_shelf AuditCategory.word AuditCategory.word f log = refl
shelf-on_shelf AuditCategory.word AuditCategory.list f log = refl
shelf-on_shelf AuditCategory.word AuditCategory.system f log = refl
shelf-on_shelf AuditCategory.list AuditCategory.player f log = refl
shelf-on_shelf AuditCategory.list AuditCategory.word f log = refl
shelf-on_shelf AuditCategory.list AuditCategory.list f log = refl
shelf-on_shelf AuditCategory.list AuditCategory.system f log = refl
shelf-on_shelf AuditCategory.system AuditCategory.player f log = refl
shelf-on_shelf AuditCategory.system AuditCategory.word f log = refl
shelf-on_shelf AuditCategory.system AuditCategory.list f log = refl
shelf-on_shelf AuditCategory.system AuditCategory.system f log = refl

pub same_category_refl : (c : AuditCategory) → same_category c c ≡ true
same_category_refl AuditCategory.player = refl
same_category_refl AuditCategory.word = refl
same_category_refl AuditCategory.list = refl
same_category_refl AuditCategory.system = refl

pub legacy-on_shelf :
    (d c : AuditCategory) (f : Shelf → Shelf) (log : AuditLog)
    → (f (shelf log c)).legacy ≡ (shelf log c).legacy
    → (shelf (on_shelf d f log) c).legacy ≡ (shelf log c).legacy
legacy-on_shelf d c f log h = elim (Bool-cases (same_category d c)) [
  | inl same ↦ ap (λ (s : Shelf). s.legacy) (shelf-on_shelf d c f log) ∙ rw same h
  | inr other ↦ ap (λ (s : Shelf). s.legacy) (shelf-on_shelf d c f log) ∙ rw other
]

pub index_record-legacy :
    (category home : AuditCategory) (r : AuditRecord) (position : ℕ) (log : AuditLog)
    → (shelf (index_record home r (some (category, position)) log) category).legacy
      ≡ (shelf log category).legacy
unfolding index_record
index_record-legacy category home r position log =
    let stored = record log { records = Dict.insert log.records r.event_id r } in
    let homed = on_shelf home (lpush r.event_id) stored in
    let once = legacy-on_shelf home category (lpush r.event_id) stored refl in
    let both : (shelf
          (if not (r.list_name == "") && not (is_list home)
            then on_shelf list (lpush r.event_id) homed
            else homed)
          category).legacy
        ≡ (shelf log category).legacy =
      if_both (λ (l : AuditLog). (shelf l category).legacy ≡ (shelf log category).legacy) _
        (on_shelf list (lpush r.event_id) homed) homed
        (legacy-on_shelf list category (lpush r.event_id) homed refl
          ∙ once
          ∙ shelf_stored category r log)
        (once ∙ shelf_stored category r log) in
    legacy-on_shelf category category (set_cursor position) _ refl ∙ both

pub index_record-migrated :
    (category home : AuditCategory) (r : AuditRecord) (position : ℕ) (log : AuditLog)
    → (shelf (index_record home r (some (category, position)) log) category).migrated ≡ position
unfolding index_record
index_record-migrated category home r position log =
    ap (λ (s : Shelf). s.migrated) (shelf-on_shelf category category (set_cursor position) _)
    ∙ rw (same_category_refl category)

pub next_id-none : (s : Sequence) → (next_id s).0 ≡ none → (next_id s).1 ≡ s
unfolding next_id issue advance_after
next_id-none s h = elim (Option-cases (incr s.counter)) [
  | inl full ↦ rw (full, issue)
  | inr (n, e) ↦ absurd (ground (arith, h, e))
]

pub IsAligned-step :
    (category : AuditCategory) (position : ℕ) (entry : Option AuditRecord)
    (entries : List (Option AuditRecord)) (log log' : AuditLog)
    → IsAligned category position (entry ∷ entries) log
    → (shelf log' category).legacy ≡ (shelf log category).legacy
    → (shelf log' category).migrated ≡ suc position
    → IsAligned category (suc position) entries log'
IsAligned-step category position entry entries log log' a same moved = record {
  migrated = moved;
  left =
      ap (λ l. skip (suc position) (reverse l)) same
      ∙ skip-step position (reverse (shelf log category).legacy) entry entries a.left;
}

pub shelf_ids :
    (c : AuditCategory) (ids : Sequence) (log : AuditLog)
    → shelf (record log { ids = ids }) c ≡ shelf log c
shelf_ids AuditCategory.player ids log = refl
shelf_ids AuditCategory.word ids log = refl
shelf_ids AuditCategory.list ids log = refl
shelf_ids AuditCategory.system ids log = refl
