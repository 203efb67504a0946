-- ===== src/Chat/Audit.antt =====
-- The audit log of the chat moderation: server/src/chat/audit.rs. A record that is stored is one that
-- was written; an entry of a legacy list is a record, or a text that is none.
pub mod Window
pub mod Page
pub mod Aligned
pub mod Import
mod Examples
use briska_blast.Common.{
  ℕ, zero, suc, ◌+◌, ◌-◌, String, Bool, true, false, not, ◌&&◌, Option, none, some, List, [], ◌∷◌,
  ◌++◌, ◌==◌, string_eq, nat_eq, Eq, leb, is_empty, length, if◌then◌else◌, ℤ,
}
use mathlib.Core.List.{reverse}
use briska_blast.Common.Dict
use briska_blast.Common.Dict.{Dict}
use briska_blast.Chat.Ids.{Sequence, Issued, text_eq, next_id}
use briska_blast.Chat.Transcript.{Text, skip}

pub data AuditCategory : Type 0 where
  player word list system : AuditCategory

-- `AuditCategory::ALL`.
abbrev pub all_categories : List AuditCategory
all_categories = player ∷ word ∷ list ∷ system ∷ []

abbrev pub is_list : AuditCategory → Bool
is_list AuditCategory.player = false
is_list AuditCategory.word = false
is_list AuditCategory.list = true
is_list AuditCategory.system = false

pub record AuditRecord : Type 0 where
  pub event_id : Text
  pub at_ms : ℤ
  pub actor : String
  pub actor_sub : String
  pub group : String
  pub action : String
  pub reason : String
  pub target_username : String
  pub target_player_id : Option ℕ
  pub words : List Text
  pub list_name : String
  pub sid : Text
  pub cut_index : ℕ
  pub body_ids : List Text
  pub full : Bool
  pub delivered : Option Bool

abbrev pub system_group : String
system_group = "System"

abbrev pub word_filter_source : String
word_filter_source = "Word Filter"

-- `by_system`, at the time `now`.
unfoldable pub by_system : ℤ → String → String → String → AuditRecord
by_system now source action trigger = record {
  event_id = [];
  at_ms = now;
  actor = source;
  actor_sub = "";
  group = system_group;
  action = action;
  reason = trigger;
  target_username = "";
  target_player_id = none;
  words = [];
  list_name = "";
  sid = [];
  cut_index = 0;
  body_ids = [];
  full = false;
  delivered = none;
}

abbrev pub with_snapshot : Text → ℕ → List Text → AuditRecord → AuditRecord
with_snapshot sid cut_index body_ids r = record r {
  sid = sid;
  cut_index = cut_index;
  body_ids = body_ids;
}

abbrev pub with_target : String → Option ℕ → AuditRecord → AuditRecord
with_target username player_id r = record r {
  target_username = username;
  target_player_id = player_id;
}

abbrev pub with_words : List Text → AuditRecord → AuditRecord
with_words words r = record r { words = words }

-- `by_moderator`, with the role's label.
unfoldable pub by_moderator : ℤ → String → String → String → String → String → AuditRecord
unfolding by_system
by_moderator now actor actor_sub role_label action reason =
    record (by_system now actor action reason) { actor_sub = actor_sub; group = role_label }

abbrev pub with_list : String → AuditRecord → AuditRecord
with_list name r = record r { list_name = name }

abbrev pub with_delivery : Bool → AuditRecord → AuditRecord
with_delivery delivered r = record r { delivered = some delivered }

-- `full()`.
abbrev pub in_full : AuditRecord → AuditRecord
in_full r = record r { full = true }

-- The lists of one category: the index, the legacy list and how much of it is imported.
pub record Shelf : Type 0 where
  pub index : List Text
  pub legacy : List (Option AuditRecord)
  pub migrated : ℕ

abbrev pub empty_shelf : Shelf
empty_shelf = record { index = []; legacy = []; migrated = 0 }

pub record AuditLog : Type 0 where
  pub records : Dict Text AuditRecord
  pub player_shelf : Shelf
  pub word_shelf : Shelf
  pub list_shelf : Shelf
  pub system_shelf : Shelf
  pub ids : Sequence

abbrev pub shelf : AuditLog → AuditCategory → Shelf
shelf log AuditCategory.player = log.player_shelf
shelf log AuditCategory.word = log.word_shelf
shelf log AuditCategory.list = log.list_shelf
shelf log AuditCategory.system = log.system_shelf

abbrev pub on_shelf : AuditCategory → (Shelf → Shelf) → AuditLog → AuditLog
on_shelf AuditCategory.player f log = record log { player_shelf = f log.player_shelf }
on_shelf AuditCategory.word f log = record log { word_shelf = f log.word_shelf }
on_shelf AuditCategory.list f log = record log { list_shelf = f log.list_shelf }
on_shelf AuditCategory.system f log = record log { system_shelf = f log.system_shelf }

-- `LPUSH` of an id, and `SET` of a cursor.
abbrev pub lpush : Text → Shelf → Shelf
lpush id s = record s { index = id ∷ s.index }

abbrev pub set_cursor : ℕ → Shelf → Shelf
set_cursor done s = record s { migrated = done }

abbrev pub move_cursor : Option (AuditCategory × ℕ) → AuditLog → AuditLog
move_cursor none log = log
move_cursor (some (category, done)) log = on_shelf category (set_cursor done) log

-- The transaction of `index_record`.
unfoldable pub index_record :
    AuditCategory → AuditRecord → Option (AuditCategory × ℕ) → AuditLog → AuditLog
index_record home r cursor log =
    let stored = record log { records = Dict.insert log.records r.event_id r } in
    let homed = on_shelf home (lpush r.event_id) stored in
    move_cursor cursor (
      if not (r.list_name == "") && not (is_list home)
      then on_shelf list (lpush r.event_id) homed
      else homed)

abbrev pub index_issued :
    AuditCategory → AuditRecord → Option (AuditCategory × ℕ) → Option Issued → AuditLog → AuditLog
unfolding index_record
index_issued home r cursor none log = log
index_issued home r cursor (some i) log =
    index_record home (record r { event_id = i.id }) cursor log

-- No record if no id can be issued. The list of bans is never written to: such a call stops at the
-- function's assertion, and nothing is stored.
unfoldable pub write : AuditCategory → AuditRecord → AuditLog → AuditLog
unfolding next_id index_issued
write category r log =
    let (issued, ids) = next_id log.ids in
    let written = index_issued category r none issued (record log { ids = ids }) in
    if is_list category then log else written

-- The list that a record of the old ban list is filed under.
abbrev pub audit_list_name : String
audit_list_name = "Ban List"

abbrev pub home_of : AuditCategory → AuditCategory
home_of AuditCategory.player = player
home_of AuditCategory.word = word
home_of AuditCategory.list = player
home_of AuditCategory.system = system

unfoldable pub tag_list : AuditCategory → AuditRecord → AuditRecord
tag_list category r =
    if is_list category && (r.list_name == "") then record r { list_name = audit_list_name } else r

-- One turn of the loop of `migrate`, at a position; false if no id could be issued.
unfoldable pub import_one : AuditCategory → ℕ → Option AuditRecord → AuditLog → Bool × AuditLog
unfolding tag_list index_issued
import_one category position none log = (true, on_shelf category (set_cursor (suc position)) log)
import_one category position (some r) log =
    let (issued, ids) = next_id log.ids in
    (
      elim issued [ none ↦ false | some i ↦ true ],
      index_issued (home_of category) (tag_list category r) (some (category, suc position)) issued
          (record log { ids = ids }),
    )

-- The loop over the entries that are left, oldest first. `budget` bounds the turns before the server
-- is stopped.
unfoldable pub import_from : ℕ → AuditCategory → ℕ → List (Option AuditRecord) → AuditLog → AuditLog
unfolding import_one
import_from budget category position [] log = log
import_from zero category position (entry ∷ entries) log = log
import_from (suc budget) category position (entry ∷ entries) log =
    let (went_on, log') = import_one category position entry log in
    let rest = import_from budget category (suc position) entries log' in
    if went_on then rest else log'

unfoldable pub import_category : ℕ → AuditCategory → AuditLog → AuditLog
unfolding import_from skip
import_category budget category log =
    let legacy = (shelf log category).legacy in
    let done = (shelf log category).migrated in
    if leb (length legacy) done
    then log
    else import_from budget category done (skip done (reverse legacy)) log
