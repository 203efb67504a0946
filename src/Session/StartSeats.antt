-- ===== src/Session/StartSeats.antt =====
-- What a start commits, against what it announces.
use briska_blast.Common.{
  ℕ, ◌≡◌, ◌≤◌, String, true, some, length, all, contains, string_eq, arith, Result, ok, ==_iff,
  Bool-cases, Option-cases, inl, inr, ◌⊎◌, subst, sym, ◌∙◌, suc, ◌<◌, zero, ◌+◌, refl,
}
use briska_blast.Common.Dict
use briska_blast.Settings.Mode.{bounds_for}
use briska_blast.Session.Data.{Session, members, is_waiting}
use briska_blast.Session.Store.{
  Store, Raw, decode, deserialize_seat_order, run_script, set, apply, cjson_encode,
}
use briska_blast.Session.Lobby.{StartOutcome, start_script, start_body, start}
use briska_blast.Session.Host.{AppError}
use briska_blast.Session.Start.{
  Moment, Started, Attempt, done, again, settle, commit_snapshot, decode_snapshot, attempt,
  start_loop, start_session, max_start_retries,
}

-- What the one write of a successful start was: the snapshot's members were all connected; the
-- session that the script found was the caller's, in the lobby and of the snapshot's size; and what
-- is stored now is that session with its own members as its seats.
pub record IsCommit (caller key : String) (ttl : ℕ) (r : Started) (m : Moment) : Type 0 where
  pub snapshot : Raw
  pub was_read : Dict.get m.read key ≡ some snapshot
  pub decoded : decode snapshot ≡ some r.session
  pub connected : all (λ p. contains m.room_members p) (members r.session) ≡ true
  pub found : Raw
  pub was_found : Dict.get m.commit key ≡ some found
  pub by_host : found.session.host_player_id ≡ caller
  pub in_lobby : is_waiting found.session.status ≡ true
  pub same_size : length found.session.joiners ≡ length r.session.joiners
  pub written : r.store ≡ Dict.insert m.commit key (cjson_encode (start found.session) ttl)

start_body-ok :
    (caller : String) (min_players expected ttl : ℕ) (s : Session)
    → (start_body caller min_players expected ttl s).0 ≡ StartOutcome.ok
    → (s.host_player_id ≡ caller)
      × (is_waiting s.status ≡ true)
      × (length s.joiners ≡ expected)
      × ((start_body caller min_players expected ttl s).1 ≡ set (cjson_encode (start s) ttl))
unfolding start_body
start_body-ok caller m n ttl s h = ground (arith, ==_iff s.host_player_id caller)

start_script-ok :
    (caller key : String) (min_players expected ttl : ℕ) (store : Store)
    → (start_script caller min_players expected ttl key store).0 ≡ StartOutcome.ok
    → (raw : Raw) × (Dict.get store key ≡ some raw)
      × (raw.session.host_player_id ≡ caller)
      × (is_waiting raw.session.status ≡ true)
      × (length raw.session.joiners ≡ expected)
      × ((start_script caller min_players expected ttl key store).1
          ≡ Dict.insert store key (cjson_encode (start raw.session) ttl))
unfolding start_script run_script apply
start_script-ok caller key m n ttl store h = elim (Option-cases (Dict.get store key)) [
  | inl gone ↦ absurd (ground (arith, gone))
  | inr (raw, e) ↦
      let (host, lobby, size, wrote) =
        start_body-ok caller m n ttl raw.session (rw (e, start_script, run_script) at h) in
      (raw, e, host, lobby, size, rw (e, start_script, run_script) (rw (wrote, apply)))
]

settle-ok :
    (s : Session) (x : StartOutcome × Store) (r : Started)
    → settle s x ≡ done (ok r)
    → (x.0 ≡ StartOutcome.ok) × (r.session ≡ s) × (r.store ≡ x.1)
unfolding settle
settle-ok s (StartOutcome.ok, store) r h = (refl, ground arith, ground arith)
settle-ok s (StartOutcome.not_found, store) r h = cc
settle-ok s (StartOutcome.not_host, store) r h = cc
settle-ok s (StartOutcome.not_in_waiting, store) r h = cc
settle-ok s (StartOutcome.below_min_players, store) r h = cc
settle-ok s (StartOutcome.conflict, store) r h = cc

commit_snapshot-IsCommit :
    (caller key : String) (ttl : ℕ) (m : Moment) (snapshot : Raw) (s : Session) (r : Started)
    → Dict.get m.read key ≡ some snapshot
    → decode snapshot ≡ some s
    → commit_snapshot caller key ttl m s ≡ done (ok r)
    → IsCommit caller key ttl r m
unfolding commit_snapshot
commit_snapshot-IsCommit caller key ttl m snapshot s r read decoded h =
    elim (Bool-cases (all (λ p. contains m.room_members p) (members s))) [
      | inr missing ↦ absurd (ground (arith, missing))
      | inl all_there ↦
          let script =
            start_script caller (bounds_for s.gamemode).0 (length s.joiners) ttl key m.commit in
          let (is_ok, same, stored) = settle-ok s script r (rw all_there at h) in
          let (raw, found, host, lobby, size, wrote) =
            start_script-ok caller key (bounds_for s.gamemode).0 (length s.joiners) ttl m.commit
              is_ok in
          record {
            snapshot = snapshot;
            was_read = read;
            decoded = rw same decoded;
            connected = rw same all_there;
            found = raw;
            was_found = found;
            by_host = host;
            in_lobby = lobby;
            same_size = rw same size;
            written = stored ∙ wrote;
          }
    ]

attempt-IsCommit :
    (caller key : String) (ttl : ℕ) (m : Moment) (r : Started)
    → attempt caller key ttl m ≡ done (ok r)
    → IsCommit caller key ttl r m
unfolding attempt decode_snapshot
attempt-IsCommit caller key ttl m r h = elim (Option-cases (Dict.get m.read key)) [
  | inl gone ↦ absurd (ground (arith, gone))
  | inr (raw, e) ↦ elim (Option-cases (decode raw)) [
    | inl bad ↦ absurd (ground (arith, e, bad))
    | inr (s, d) ↦
        commit_snapshot-IsCommit caller key ttl m raw s r e d
          (rw (d, decode_snapshot) at (rw (e, attempt) at h))
  ]
]

attempt-cases : (a : Attempt) → ((r : Result Started AppError) × (a ≡ done r)) ⊎ (a ≡ again)
attempt-cases (done r) = inl (r, refl)
attempt-cases again = inr refl

start_loop-IsCommit :
    (caller key : String) (ttl tries : ℕ) (ms : ℕ → Moment) (r : Started)
    → start_loop caller key ttl tries ms ≡ ok r
    → (i : ℕ) × (i < tries) × IsCommit caller key ttl r (ms i)
unfolding start_loop
start_loop-IsCommit caller key ttl zero ms r h = cc
start_loop-IsCommit caller key ttl (suc tries) ms r h =
    elim (attempt-cases (attempt caller key ttl (ms 0))) [
      | inl (x, e) ↦ (0, omega arith, attempt-IsCommit caller key ttl (ms 0) r (ground (arith, e)))
      | inr e ↦
          let (i, lt, c) =
            start_loop-IsCommit caller key ttl tries (λ n. ms (suc n)) r (ground (arith, e)) in
          (suc i, omega (arith, lt), c)
    ]

-- A start that succeeds does so by the write of one of its three attempts: the members of that
-- attempt's snapshot were all connected; the session that its script found was the caller's, in
-- the lobby and of the snapshot's size; and what is stored is that session with its own members
-- as its seats.
pub start_session-IsCommit :
    (caller key : String) (ttl : ℕ) (ms : ℕ → Moment) (r : Started)
    → start_session caller key ttl ms ≡ ok r
    → (i : ℕ) × (i < max_start_retries) × IsCommit caller key ttl r (ms i)
unfolding start_session
start_session-IsCommit caller key ttl ms r h =
    start_loop-IsCommit caller key ttl max_start_retries ms r h

-- If nothing came between the snapshot and the script of a successful attempt, the players that
-- `StartSignaling` names are the seats that were stored, and all were connected.
pub IsCommit-seats :
    (caller key : String) (ttl : ℕ) (m : Moment) (r : Started)
    → IsCommit caller key ttl r m
    → m.commit ≡ m.read
    → (raw : Raw) × (Dict.get r.store key ≡ some raw)
      × (raw.session.seat_order ≡ members r.session)
      × (all (λ p. contains m.room_members p) raw.session.seat_order ≡ true)
unfolding decode
IsCommit-seats caller key ttl m r c quiet =
    let same : c.found.session ≡ c.snapshot.session =
      ground (arith, c.was_found, c.was_read, quiet) in
    let announced : members c.snapshot.session ≡ members r.session = ground (arith, c.decoded) in
    let seats : members c.found.session ≡ members r.session = rw same announced in
    (
      cjson_encode (start c.found.session) ttl,
      ground (
        arith,
        c.written,
        Dict.get-insert_self m.commit key (cjson_encode (start c.found.session) ttl),
      ),
      seats,
      subst (λ l. all (λ p. contains m.room_members p) l ≡ true) (sym seats) c.connected,
    )

-- Otherwise the script checks the number of joiners alone: whatever sessions of the caller's the
-- two reads find in the lobby, if they have equally many joiners, enough for the mode, and those
-- of the first are connected, the start names the members of the first and seats those of the
-- second.
pub attempt-seats :
    (caller key : String) (ttl : ℕ) (m : Moment) (a b : Raw)
    → Dict.get m.read key ≡ some a
    → Dict.get m.commit key ≡ some b
    → a.joiners_array ≡ true
    → all (λ p. contains m.room_members p) (members a.session) ≡ true
    → b.session.host_player_id ≡ caller
    → is_waiting b.session.status ≡ true
    → length b.session.joiners ≡ length a.session.joiners
    → (bounds_for a.session.gamemode).0 ≤ 1 + length a.session.joiners
    → (r : Started) × (raw : Raw) × (attempt caller key ttl m ≡ done (ok r))
      × (members r.session ≡ members a.session)
      × (Dict.get r.store key ≡ some raw)
      × (raw.session.seat_order ≡ members b.session)
unfolding attempt decode_snapshot decode commit_snapshot start_script run_script start_body apply
    settle
attempt-seats caller key ttl m a b read found array there host lobby size enough =
    let s : Session = record (a.session) { seat_order = deserialize_seat_order a } in
    let new : Raw = cjson_encode (start b.session) ttl in
    (
      record { session = s; store = Dict.insert m.commit key new },
      new,
      ground (arith, ==_iff b.session.host_player_id caller),
      refl,
      Dict.get-insert_self m.commit key new,
      refl,
    )
