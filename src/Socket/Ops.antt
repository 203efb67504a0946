-- ===== src/Socket/Ops.antt =====
-- server/src/signaling/ws/session_ops.rs around its scripts. `now` is the clock's reading.
use briska_blast.Common.{ℕ, String, List, keep, Bool, not, none, ◌==◌, string_eq, if◌then◌else◌}
use briska_blast.Protocol.{session_ended, host_changed, match_started, match_resumed}
use briska_blast.Session.Store.{apply, del}
use briska_blast.Session.Lobby.{EndOutcome, end_if_waiting_script}
use briska_blast.Session.Live.{
  PromoteOutcome, RemoveOutcome, activate_script, promote_script, remove_script,
}
use briska_blast.Hub.Data.{Hub}
use briska_blast.Hub.Rooms.{room_members}
use briska_blast.Hub.Barrier.{force_match_start}
use briska_blast.Hub.Pause.{clear_pause}
use briska_blast.Socket.World.{World, notify, with_store, with_hub, end_chat}

abbrev pub resume_countdown_secs : ℕ
resume_countdown_secs = 3

unfoldable pub announce_session_end : World → String → String → World
unfolding end_chat notify
announce_session_end w code reason = notify (end_chat w code) code (session_ended reason) none

unfoldable pub end_session : World → String → String → World
unfolding announce_session_end apply
end_session w code reason = announce_session_end (with_store w (apply del code w.store)) code reason

unfoldable pub resume_if_cleared : World → String → String → World
unfolding notify clear_pause
resume_if_cleared w code p =
    let (cleared, hub) = clear_pause w.hub code p in
    if cleared
    then notify (with_hub w hub) code (match_resumed resume_countdown_secs) none
    else with_hub w hub

unfoldable pub activate_session : World → String → World
unfolding activate_script
activate_session w code = with_store w (activate_script w.session_ttl_secs code w.store).1

unfoldable pub start_match : World → String → World
unfolding notify activate_session
start_match w code = activate_session (notify w code match_started none) code

-- The timer of `spawn_ready_barrier` as it fires.
unfoldable pub fire_ready_barrier : World → String → World
unfolding force_match_start start_match
fire_ready_barrier w code =
    let (won, hub) = force_match_start w.hub code in
    if won then start_match (with_hub w hub) code else with_hub w hub

pub data HostDisconnectStage : Type 0 where
  ended_waiting session_gone active : HostDisconnectStage

unfoldable pub stage_of : String → EndOutcome → World → HostDisconnectStage × World
unfolding announce_session_end
stage_of code EndOutcome.not_found w = (session_gone, w)
stage_of code EndOutcome.not_waiting w = (active, w)
stage_of code EndOutcome.deleted w = (ended_waiting, announce_session_end w code "host_disconnect")

unfoldable pub end_session_if_waiting : World → String → HostDisconnectStage × World
unfolding end_if_waiting_script stage_of
end_session_if_waiting w code =
    let (outcome, store) = end_if_waiting_script code w.store in
    stage_of code outcome (with_store w store)

unfoldable pub after_promotion : String → PromoteOutcome → World → World
unfolding announce_session_end notify
after_promotion code (PromoteOutcome.promoted new_host) w =
    notify w code (host_changed new_host) none
after_promotion code PromoteOutcome.ended w = announce_session_end w code "host_disconnect"
after_promotion code PromoteOutcome.gone w = w
after_promotion code PromoteOutcome.not_active w = w
after_promotion code PromoteOutcome.not_host w = w

-- The players of the room other than the departing host.
unfoldable pub connected_others : Hub → String → String → List String
unfolding room_members
connected_others h code departing_host = keep (λ p. not (p == departing_host)) (room_members h code)

unfoldable pub promote_demote_or_end_active : World → String → String → ℕ → Bool → World
unfolding promote_script connected_others after_promotion
promote_demote_or_end_active w code departing_host now keep_ex_host =
    let (outcome, store) =
      promote_script departing_host (connected_others w.hub code departing_host) w.session_ttl_secs
        now keep_ex_host code w.store in
    after_promotion code outcome (with_store w store)

unfoldable pub after_removal : String → RemoveOutcome → World → World
unfolding announce_session_end
after_removal code RemoveOutcome.removed w = w
after_removal code RemoveOutcome.ended w = announce_session_end w code "last_player_left"
after_removal code RemoveOutcome.not_found w = w
after_removal code RemoveOutcome.not_joiner w = w

unfoldable pub remove_joiner_on_leave : World → String → String → World
unfolding remove_script after_removal
remove_joiner_on_leave w code p =
    let (outcome, store) = remove_script p w.session_ttl_secs code w.store in
    after_removal code outcome (with_store w store)
