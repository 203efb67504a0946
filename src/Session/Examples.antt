-- ===== src/Session/Examples.antt =====
-- Tests and concrete cases.
use briska_blast.Common.{
  none, ◌↔◌, ℕ, ◌+◌, ◌≡◌, ◌≤◌, refl, String, true, some, [], ◌∷◌, length, string_eq, arith, ok, ◌<◌,
}
use briska_blast.Common.Dict
use briska_blast.Settings.Mode.{extended, bounds_for, validate_player_count}
use briska_blast.Settings.Win
use briska_blast.Settings.Spawn
use briska_blast.Settings.Loot
use briska_blast.Session.Data.{Session, JoinerEntry, active, members}
use briska_blast.Session.Store.{
  Store, Raw, serde_encode, cjson_encode, mend_joiners, run_script, apply, decode,
}
use briska_blast.Session.Lobby.{start, start_script, start_body}
use briska_blast.Session.Host.{
  HostRequest, Players, host, check_host, validate_player, free_code, new_session,
}
use briska_blast.Session.Hosting.{Accepts, WasFree, host-IsCall}
use briska_blast.Session.Steps.{
  History, begin, step, create, join, perform, IsCall, History-IsSound,
}
use briska_blast.Session.Valid.{IsSound}
use briska_blast.Session.Promotion.{Promotion, promote_body-cases}
use briska_blast.Session.Start.{
  Moment, Started, done, attempt, start_session, start_loop, max_start_retries, commit_snapshot,
  decode_snapshot, settle,
}
use briska_blast.Session.StartSeats.{IsCommit, start_session-IsCommit, attempt-seats}

abbrev abc : String
abc = "ABC"

abbrev one : String
one = "1"

abbrev no_keys : Store
no_keys = Dict.empty

abbrev no_players : Players
no_players = Dict.empty

abbrev body : HostRequest
body = record {
  player_id = "1";
  secret_token = "secret";
  gamemode = extended;
  win_condition = Win.default_condition;
  spawn_settings = Spawn.default_settings;
  loot_settings = Loot.default_settings;
  player_count = 4;
}

abbrev hash : String → String
hash token = token

abbrev players : Players
players = Dict.insert Dict.empty "1" "secret"

abbrev lobby : Session
lobby = new_session body "ABC"

accepted : Accepts hash players body
unfolding bounds_for
accepted = (
  (ground arith, ground arith, ground arith, ground arith, ground arith),
  Dict.get-insert_self no_players one "secret",
)

granted :
    host hash players true ((Dict.empty, "ABC") ∷ []) 60 body Dict.empty
    ≡ some (ok "ABC", Dict.insert Dict.empty "ABC" (serde_encode lobby 60))
unfolding host check_host validate_player free_code validate_player_count bounds_for Win.validate
    Spawn.validate Loot.validate
granted = ground (arith, Dict.get-empty {V = Raw} abc, Dict.get-insert_self no_players one "secret")

host-IsCall_example :
    Accepts hash players body
    × WasFree "ABC" ((Dict.empty, "ABC") ∷ [])
    × (Dict.insert Dict.empty "ABC" (serde_encode lobby 60)
        ≡ perform (create lobby 60) "ABC" Dict.empty)
    × (IsCall (create lobby 60) "ABC" Dict.empty ↔ (Dict.get no_keys "ABC" ≡ none))
host-IsCall_example =
    host-IsCall hash players true ((Dict.empty, "ABC") ∷ []) 60 body Dict.empty
      (Dict.insert Dict.empty "ABC" (serde_encode lobby 60)) "ABC" granted

two_steps : History (perform (join "2" 5 60) "ABC" (perform (create lobby 60) "ABC" Dict.empty))
two_steps = step (join "2" 5 60) "ABC" (step (create lobby 60) "ABC" begin lobby_call) tt
  where
    lobby_call : IsCall (create lobby 60) "ABC" Dict.empty
    lobby_call =
        (host-IsCall hash players true ((Dict.empty, "ABC") ∷ []) 60 body Dict.empty
            (Dict.insert Dict.empty "ABC" (serde_encode lobby 60)) "ABC" granted).3.1
          (Dict.get-empty abc)

History-IsSound_example :
    IsSound (perform (join "2" 5 60) "ABC" (perform (create lobby 60) "ABC" Dict.empty))
History-IsSound_example = History-IsSound two_steps

abbrev joiner : String → JoinerEntry
joiner p = record { player_id = p; joined_at_ms = 5 }

abbrev trio : Session
trio = record lobby { joiners = joiner "2" ∷ joiner "3" ∷ [] }

abbrev running : Raw
running = cjson_encode (start trio) 60

abbrev activated : Raw
activated = mend_joiners (cjson_encode (record (start trio) { status = active }) 60)

promote_body-cases_example : Promotion "1" ("3" ∷ "2" ∷ []) 60 9 true (start trio)
promote_body-cases_example =
    promote_body-cases "1" ("3" ∷ "2" ∷ []) 60 9 true (start trio) refl refl

abbrev stored : Raw
stored = serde_encode trio 60

abbrev keys : Store
keys = Dict.insert Dict.empty "ABC" stored

abbrev quiet : Moment
quiet = record { read = keys; room_members = "1" ∷ "2" ∷ "3" ∷ []; commit = keys }

abbrev started : Started
started = record { session = trio; store = Dict.insert keys "ABC" running }

starts_at_once : start_session "1" "ABC" 60 (λ i. quiet) ≡ ok started
unfolding start_session start_loop attempt commit_snapshot decode_snapshot settle start_script
    run_script start_body apply decode bounds_for
starts_at_once = ground (arith, Dict.get-insert_self no_keys abc stored)

start_session-IsCommit_example :
    (i : ℕ) × (i < max_start_retries) × IsCommit "1" "ABC" 60 started quiet
start_session-IsCommit_example =
    start_session-IsCommit "1" "ABC" 60 (λ i. quiet) started starts_at_once

-- Joiner 3 has left and joiner 4 has come by the time that the script runs.
abbrev replaced : Raw
replaced = serde_encode (record lobby { joiners = joiner "2" ∷ joiner "4" ∷ [] }) 60

abbrev busy : Moment
busy = record {
  read = keys;
  room_members = "1" ∷ "2" ∷ "3" ∷ [];
  commit = Dict.insert no_keys abc replaced;
}

three_of_two : (bounds_for extended).0 ≤ 1 + length trio.joiners
unfolding bounds_for
three_of_two = ground arith

attempt-seats_example :
    (r : Started) × (raw : Raw) × (attempt "1" "ABC" 60 busy ≡ done (ok r))
    × (members r.session ≡ members stored.session)
    × (Dict.get r.store abc ≡ some raw)
    × (raw.session.seat_order ≡ members replaced.session)
attempt-seats_example =
    attempt-seats "1" "ABC" 60 busy stored replaced (Dict.get-insert_self no_keys abc stored)
      (Dict.get-insert_self no_keys abc replaced) refl refl refl refl refl three_of_two
