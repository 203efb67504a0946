-- ===== src/Chat/Audit/Page.antt =====
-- One page of the audit log: `read` of server/src/chat/audit.rs.
use briska_blast.Common.{
  ℕ, zero, suc, ◌+◌, ◌-◌, ◌≤◌, ◌≡◌, refl, ap, ◌∙◌, Bool, true, false, not, ◌&&◌, none, some, List,
  [], ◌∷◌, ◌==◌, string_eq, arith, if◌then◌else◌,
}
use briska_blast.Common.Dict
use briska_blast.Common.Dict.{Dict}
use briska_blast.Chat.Ids.{Issued, text_eq, next_id}
use briska_blast.Chat.Transcript.{Text, skip}
use briska_blast.Chat.Audit.{
  AuditCategory, player, word, list, system, AuditRecord, AuditLog, shelf, on_shelf, lpush, is_list,
  index_record, index_issued, write,
}
use briska_blast.Chat.Audit.Window.{AuditWindow, bounds, clamp}

unfoldable pub first_of : ℕ → List Text → List Text
first_of zero l = []
first_of (suc n) [] = []
first_of (suc n) (x ∷ l) = x ∷ first_of n l

-- `LRANGE`, whose bounds are not negative here.
unfoldable pub lrange : ℕ → ℕ → List Text → List Text
unfolding first_of skip
lrange start stop l = first_of (stop + 1 - start) (skip start l)

-- `MGET`, less what is missing.
unfoldable pub records_of : Dict Text AuditRecord → List Text → List AuditRecord
records_of records [] = []
records_of records (id ∷ ids) =
    let rest = records_of records ids in
    elim (Dict.get records id) [ none ↦ rest | some r ↦ r ∷ rest ]

unfoldable pub read : AuditCategory → AuditWindow → AuditLog → List AuditRecord
unfolding bounds lrange records_of
read category window log =
    let (start, stop) = bounds window in
    records_of log.records (lrange start stop (shelf log category).index)

-- The id of a record that was indexed, and the record.
IsIndexed : AuditCategory → AuditRecord → AuditLog → AuditLog → Type 0
IsIndexed category r log log' =
    ((shelf log' category).index ≡ r.event_id ∷ (shelf log category).index)
    × (log'.records ≡ Dict.insert log.records r.event_id r)

-- `tagged` is whether the record names a list.
tagged-IsIndexed :
    (tagged : Bool) (category : AuditCategory) (r : AuditRecord) (log : AuditLog)
    → let homed : AuditLog =
        on_shelf category
          (lpush r.event_id)
          (record log { records = Dict.insert log.records r.event_id r }) in
      IsIndexed category r log
        (if tagged && not (is_list category) then on_shelf list (lpush r.event_id) homed else homed)
unfolding IsIndexed
tagged-IsIndexed true player r log = (refl, refl)
tagged-IsIndexed true word r log = (refl, refl)
tagged-IsIndexed true list r log = (refl, refl)
tagged-IsIndexed true system r log = (refl, refl)
tagged-IsIndexed false player r log = (refl, refl)
tagged-IsIndexed false word r log = (refl, refl)
tagged-IsIndexed false list r log = (refl, refl)
tagged-IsIndexed false system r log = (refl, refl)

index_record-IsIndexed :
    (category : AuditCategory) (r : AuditRecord) (log : AuditLog)
    → IsIndexed category r log (index_record category r none log)
unfolding index_record
index_record-IsIndexed category r log = tagged-IsIndexed (not (r.list_name == "")) category r log

first_of-cons :
    (n : ℕ) (id : Text) (l : List Text)
    → 1 ≤ n
    → (older : List Text) × (first_of n (id ∷ l) ≡ id ∷ older)
unfolding first_of
first_of-cons zero id l h = absurd (omega (arith, h))
first_of-cons (suc n) id l h = (first_of n l, refl)

bounds-first : (window : AuditWindow) → window.first ≡ 1 → bounds window ≡ (0, clamp window.last)
unfolding bounds
bounds-first window first = rw first refl

records_of-cons :
    (records : Dict Text AuditRecord) (r : AuditRecord) (ids : List Text)
    → records_of (Dict.insert records r.event_id r) (r.event_id ∷ ids)
      ≡ r ∷ records_of (Dict.insert records r.event_id r) ids
unfolding records_of
records_of-cons records r ids = rw (Dict.get-insert_self records r.event_id r, records_of)

read-IsIndexed :
    (category : AuditCategory) (r : AuditRecord) (window : AuditWindow) (log log' : AuditLog)
    → window.first ≡ 1
    → IsIndexed category r log log'
    → (rest : List AuditRecord) × (read category window log' ≡ r ∷ rest)
unfolding read lrange skip IsIndexed
read-IsIndexed category r window log log' first (index, records) =
    let page : ℕ × ℕ → Dict Text AuditRecord → List Text → List AuditRecord =
      λ b stored ids. records_of stored (lrange b.0 b.1 ids) in
    let stored = Dict.insert log.records r.event_id r in
    let ids = r.event_id ∷ (shelf log category).index in
    let last = clamp window.last in
    let (older, e) =
      first_of-cons (last + 1 - 0) r.event_id (shelf log category).index (omega arith) in
    (
      records_of stored older,
      ap (λ b. page b log'.records (shelf log' category).index) (bounds-first window first)
          ∙ ap (λ x. page (0, last) x (shelf log' category).index) records
          ∙ ap (page (0, last) stored) index
          ∙ ap (records_of stored) e
          ∙ records_of-cons log.records r older,
    )

-- A record that is written to a table other than the list of bans, if an id can be issued, is the
-- first of the records that any page beginning at 1 of that table then shows, with the id that
-- was issued and otherwise as it was written.
pub read-write :
    (category : AuditCategory) (r : AuditRecord) (window : AuditWindow) (log : AuditLog)
    (i : Issued)
    → is_list category ≡ false
    → window.first ≡ 1
    → (next_id log.ids).0 ≡ some i
    → (rest : List AuditRecord) × (read category window (write category r log)
        ≡ record r { event_id = i.id } ∷ rest)
unfolding write index_issued IsIndexed
read-write category r window log i other first issued =
    let counted : AuditLog = record log { ids = (next_id log.ids).1 } in
    let stored : AuditRecord = record r { event_id = i.id } in
    let indexed = index_record-IsIndexed category stored counted in
    let (rest, e) =
      read-IsIndexed category stored window counted (index_record category stored none counted)
        first indexed in
    (
      rest,
      ap
            (λ b.
              read category window
                (if b then log else index_issued category r none (next_id log.ids).0 counted))
            other
          ∙ ap (λ x. read category window (index_issued category r none x counted)) issued
          ∙ e,
    )
