-- ===== src/Hub/Barrier/Latch.antt =====
-- The barrier resolves once, and exactly when it should.
use briska_blast.Common.{
  ℕ, ◌+◌, ◌≡◌, refl, String, Bool, true, false, ◌||◌, List, [], ◌∷◌, any, all, ◌==◌, ==_iff,
  string_eq, arith, if◌then◌else◌, all-congr, all-weaken, any-contains,
}
use briska_blast.Common.Dict
use briska_blast.Hub.Data.{Room}
use briska_blast.Hub.Barrier.{ReadyOutcome, all_ready, everyone_ready, ready_in, force_in}

-- A `ClientReady` of a player, or the valve's timer.
pub data Event : Type 0 where
  ready : String → Event
  valve : Event

abbrev pub starts : ReadyOutcome → ℕ
starts all_ready = 1
starts _ = 0

-- How often the caller is told to start the match, over a sequence of events in one room.
unfoldable pub run_barrier : Room → List Event → ℕ × Room
run_barrier room [] = (0, room)
run_barrier room (ready p ∷ es) =
    let (outcome, room') = ready_in room p in
    let (n, room'') = run_barrier room' es in (starts outcome + n, room'')
run_barrier room (valve ∷ es) =
    let (won, room') = force_in room in
    let (n, room'') = run_barrier room' es in ((if won then 1 else 0) + n, room'')

run_barrier-started :
    (room : Room) (es : List Event)
    → room.match_started ≡ true
    → ((run_barrier room es).0 ≡ 0) × ((run_barrier room es).1.match_started ≡ true)
unfolding run_barrier ready_in force_in
run_barrier-started room [] on = (refl, on)
run_barrier-started room (ready p ∷ es) on = ground (arith, run_barrier-started room es)
run_barrier-started room (valve ∷ es) on = ground (arith, run_barrier-started room es)

abbrev pub fires : List Event → Bool
fires [] = false
fires (ready p ∷ es) = fires es
fires (valve ∷ es) = true

abbrev pub reports : List Event → String → Bool
reports [] p = false
reports (ready q ∷ es) p = q == p || reports es p
reports (valve ∷ es) p = reports es p

-- A player counts once they are ready, or report themselves later.
abbrev pub gathers : Room → List Event → Bool
gathers room es = all (λ p. Dict.contains_key room.ready p || reports es p) room.ready_roster

abbrev noted : Room → String → Room
noted room p = record room { ready = Dict.insert room.ready p tt }

gathers-stranger :
    (room : Room) (p : String) (es : List Event)
    → any (λ q. q == p) room.ready_roster ≡ false
    → gathers room (ready p ∷ es) ≡ gathers room es
gathers-stranger room p es out =
    all-congr _ _ room.ready_roster λ q m.
      ground (arith, any-contains (λ x. x == p) room.ready_roster q m, ==_iff p q, ==_iff q p)

gathers-noted :
    (room : Room) (p : String) (es : List Event)
    → gathers (noted room p) es ≡ gathers room (ready p ∷ es)
gathers-noted room p es =
    all-congr _ _ room.ready_roster
      λ q m. ground (arith, Dict.contains_key-insert room.ready p tt q)

gathers-everyone :
    (room : Room) (p : String) (es : List Event)
    → everyone_ready (noted room p) ≡ true
    → gathers (noted room p) es ≡ true
gathers-everyone room p es h = all-weaken _ _ room.ready_roster (λ q. ground arith) h

-- From a match that has not begun, with players outstanding, the barrier begins it once if it
-- begins it at all; and it begins it exactly when a valve fires, or when every player of the
-- roster is ready already or reports in some order.
pub run_barrier-exact :
    (room : Room) (es : List Event)
    → room.match_started ≡ false
    → everyone_ready room ≡ false
    → ((run_barrier room es).0 ≡ (if fires es || gathers room es then 1 else 0))
      × ((run_barrier room es).1.match_started ≡ (fires es || gathers room es))
unfolding run_barrier ready_in force_in
run_barrier-exact room [] off lacks =
    let none_reports =
      all-congr (λ p. Dict.contains_key room.ready p || false) (λ p. Dict.contains_key room.ready p)
        room.ready_roster (λ q m. ground arith) in
    ground (arith, none_reports)
run_barrier-exact room (ready p ∷ es) off lacks = ground (
  arith,
  run_barrier-exact (noted room p) es,
  run_barrier-exact room es,
  run_barrier-started (record (noted room p) { match_started = true }) es,
  gathers-stranger room p es,
  gathers-noted room p es,
  gathers-everyone room p es,
)
run_barrier-exact room (valve ∷ es) off lacks =
    ground (arith, run_barrier-started (record room { match_started = true }) es)
