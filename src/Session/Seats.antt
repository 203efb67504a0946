-- ===== src/Session/Seats.antt =====
-- The seating roster of a match: who writes it, and what the promotion of a new host does with the
-- members.
use briska_blast.Common.{false, ◌≡◌, string_eq}
use briska_blast.Common.Dict
use briska_blast.Session.Data.{Session, is_waiting}
use briska_blast.Session.Store.{Store, Raw}

-- The session that `raw` holds has the seats of `s`, and has not gone back to the lobby.
abbrev pub Frozen : Session → Raw → Type 0
Frozen s raw = (raw.session.seat_order ≡ s.seat_order) × (is_waiting raw.session.status ≡ false)
