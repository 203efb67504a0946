-- ===== src/Chat/Audit/Examples.antt =====
-- Tests, and concrete cases.
use briska_blast.Common.{ℕ, ◌+◌, none, some, List, [], ◌∷◌, ◌≡◌, refl, pos}
use briska_blast.Common.Dict
use briska_blast.Chat.Ids.{text_eq, Issued, next_id, issue, parse_epoch, format_id}
use briska_blast.Chat.Bans.{parse_u64, parse_digits}
use briska_blast.Chat.Audit.{
  AuditRecord, player, list, AuditLog, empty_shelf, by_system, import_category, write,
}
use briska_blast.Chat.Audit.Page.{read, read-write}
use briska_blast.Chat.Audit.Window.{
  the_default, IsWindow, capped, parse, span_of, split_dash, window_of, parse-IsWindow,
}
use briska_blast.Chat.Audit.Import.{import_category-resumed}

-- "3-700", which is cut to "3-502".
abbrev wide : List ℕ
wide = 51 ∷ 45 ∷ 55 ∷ 48 ∷ 48 ∷ []

wide_window : parse (some wide) ≡ record { first = 3; last = 502; notice = some capped }
unfolding parse span_of split_dash parse_u64 parse_digits window_of
wide_window = refl

parse-IsWindow_example : IsWindow (parse (some wide))
parse-IsWindow_example = parse-IsWindow (some wide)

-- Two records of the old ban list, and a text that is none.
abbrev old_log : AuditLog
old_log = record {
  records = Dict.empty;
  player_shelf = empty_shelf;
  word_shelf = empty_shelf;
  list_shelf = record empty_shelf {
    legacy =
        some (by_system (pos 2) "a" "b" "c") ∷ none ∷ some (by_system (pos 1) "a" "b" "c") ∷ [];
  };
  system_shelf = empty_shelf;
  ids = record { counter = pos 0; epoch = none };
}

import_category-resumed_example :
    import_category 2 list (import_category 1 list old_log) ≡ import_category (1 + 2) list old_log
import_category-resumed_example = import_category-resumed 1 2 list old_log

-- The newest record about players, on the page "1-100".
abbrev entry : AuditRecord
entry = by_system (pos 3) "a" "b" "c"

abbrev first_id : Issued
first_id = record { id = format_id 97 (pos 1); counter = pos 1; observed = 97 }

issued : (next_id old_log.ids).0 ≡ some first_id
unfolding next_id issue parse_epoch
issued = refl

read-write_example :
    (rest : List AuditRecord) × (read player (the_default none) (write player entry old_log)
      ≡ record entry { event_id = first_id.id } ∷ rest)
read-write_example = read-write player entry (the_default none) old_log first_id refl refl issued
