-- ===== src/Session/Start.antt =====
-- `POST /session/:code/start`: the snapshot, the look at the connections, and the script that commits,
-- in at most three attempts. Other requests come between; an attempt is told what its reads find.
use briska_blast.Common.{
  ℕ, zero, suc, String, not, Option, none, some, List, length, all, contains, string_eq,
  if◌then◌else◌, Result, ok, err,
}
use briska_blast.Common.Dict
use briska_blast.Settings.Mode.{bounds_for}
use briska_blast.Session.Data.{Session, members}
use briska_blast.Session.Store.{Store, decode}
use briska_blast.Session.Host.{AppError, not_found, internal, session_not_startable}
use briska_blast.Session.Lobby.{StartOutcome, start_script}

-- The keys as the `GET` finds them, the players of the room, and the keys as the script finds them.
pub record Moment : Type 0 where
  pub read : Store
  pub room_members : List String
  pub commit : Store

abbrev pub max_start_retries : ℕ
max_start_retries = 3

-- The snapshot whose members `StartSignaling` names, and the keys afterwards.
pub record Started : Type 0 where
  pub session : Session
  pub store : Store

-- An attempt ends the request, or is to be made again.
pub data Attempt : Type 0 where
  done : Result Started AppError → Attempt
  again : Attempt

unfoldable pub settle : Session → StartOutcome × Store → Attempt
settle s (StartOutcome.ok, store) = done (ok (record { session = s; store = store }))
settle s (StartOutcome.not_found, store) = done (err not_found)
settle s (StartOutcome.not_host, store) = done (err (session_not_startable "not_host"))
settle s (StartOutcome.not_in_waiting, store) = done (err (session_not_startable "not_in_waiting"))
settle s (StartOutcome.below_min_players, store) =
    done (err (session_not_startable "below_min_players"))
settle s (StartOutcome.conflict, store) = again

unfoldable pub commit_snapshot : String → String → ℕ → Moment → Session → Attempt
unfolding start_script settle
commit_snapshot caller key ttl m s =
    if not (all (λ p. contains m.room_members p) (members s))
    then done (err (session_not_startable "not_all_peers_ready"))
    else settle s
        (start_script caller (bounds_for s.gamemode).0 (length s.joiners) ttl key m.commit)

unfoldable pub decode_snapshot : String → String → ℕ → Moment → Option Session → Attempt
unfolding commit_snapshot
decode_snapshot caller key ttl m none = done (err internal)
decode_snapshot caller key ttl m (some s) = commit_snapshot caller key ttl m s

unfoldable pub attempt : String → String → ℕ → Moment → Attempt
unfolding decode_snapshot decode
attempt caller key ttl m = elim (Dict.get m.read key) [
  | none ↦ done (err not_found)
  | some raw ↦ decode_snapshot caller key ttl m (decode raw)
]

-- The loop, with `tries` attempts left; `ms i` is what its `i`th attempt finds.
unfoldable pub start_loop : String → String → ℕ → ℕ → (ℕ → Moment) → Result Started AppError
unfolding attempt
start_loop caller key ttl zero ms = err (session_not_startable "conflict")
start_loop caller key ttl (suc tries) ms =
    let rest = start_loop caller key ttl tries (λ i. ms (suc i)) in
    elim (attempt caller key ttl (ms 0)) [ done r ↦ r | again ↦ rest ]

unfoldable pub start_session : String → String → ℕ → (ℕ → Moment) → Result Started AppError
unfolding start_loop
start_session caller key ttl ms = start_loop caller key ttl max_start_retries ms
