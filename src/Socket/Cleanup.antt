-- ===== src/Socket/Cleanup.antt =====
-- What follows the end of a socket: the last phase of `handle_socket` in
-- server/src/signaling/ws/mod.rs, and the grace windows of ws/disconnect.rs. A timer is a step that may
-- come at any time after it is armed.
use briska_blast.Common.{ℕ, String, Bool, true, false, Option, none, some, string_eq, if◌then◌else◌}
use briska_blast.Common.Dict
use briska_blast.Protocol.{peer_left, peer_reconnecting, host_reconnecting}
use briska_blast.Session.Data.{SessionStatus, waiting, starting, ended}
use briska_blast.Session.Store.{decode}
use briska_blast.Hub.Data.{Hub, promotion, reconnect}
use briska_blast.Hub.Rooms.{leave_room}
use briska_blast.Hub.Grace.{arm_grace, take_grace}
use briska_blast.Socket.World.{World, notify, with_hub}
use briska_blast.Socket.Ops.{
  HostDisconnectStage, ended_waiting, session_gone, active, resume_if_cleared,
  end_session_if_waiting, promote_demote_or_end_active, remove_joiner_on_leave,
}

abbrev pub promotion_grace_secs : ℕ
promotion_grace_secs = 30

unfoldable pub broadcast_peer_left : World → String → String → Bool → World
unfolding notify
broadcast_peer_left w code p explicit_leave =
    notify w code (peer_left p (if explicit_leave then "leave" else "disconnect")) none

abbrev pub is_live : SessionStatus → Bool
is_live waiting = false
is_live starting = true
is_live SessionStatus.active = true
is_live ended = false

-- A session that is missing, or that cannot be read, is not live.
unfoldable pub session_status_is_active : World → String → Bool
unfolding decode
session_status_is_active w code = elim (Dict.get w.store code) [
  | none ↦ false
  | some raw ↦ elim (decode raw) [ none ↦ false | some s ↦ is_live s.status ]
]

unfoldable pub armed : World → Option ℕ × Hub → Bool × World
armed w (none, hub) = (false, with_hub w hub)
armed w (some timer, hub) = (true, with_hub w hub)

unfoldable pub arm_reconnect_slot_hold : World → String → String → Bool × World
unfolding arm_grace armed
arm_reconnect_slot_hold w code p = armed w (arm_grace w.hub code p reconnect)

unfoldable pub arm_host_disconnect_grace : World → String → String → World
unfolding arm_grace armed notify arm_reconnect_slot_hold
arm_host_disconnect_grace w code host =
    let (is_armed, w') = armed w (arm_grace w.hub code host promotion) in
    if is_armed
    then (arm_reconnect_slot_hold
        (notify w' code (host_reconnecting host promotion_grace_secs) none) code host).1
    else w'

unfoldable pub arm_joiner_disconnect_grace : World → String → String → World
unfolding arm_reconnect_slot_hold notify
arm_joiner_disconnect_grace w code p =
    let (is_armed, w') = arm_reconnect_slot_hold w code p in
    if is_armed then notify w' code (peer_reconnecting p promotion_grace_secs) none else w'

-- The promotion timer as it fires.
unfoldable pub fire_promotion : World → String → String → ℕ → World
unfolding take_grace promote_demote_or_end_active
fire_promotion w code host now =
    let (won, hub) = take_grace w.hub code host promotion in
    if won then promote_demote_or_end_active (with_hub w hub) code host now true else with_hub w hub

unfoldable pub free_member_after_timeout : World → String → String → World
unfolding notify remove_joiner_on_leave
free_member_after_timeout w code p =
    remove_joiner_on_leave (notify w code (peer_left p "reconnect_timeout") none) code p

-- The timer of the slot-hold as it fires.
unfoldable pub fire_reconnect : World → String → String → World
unfolding take_grace free_member_after_timeout
fire_reconnect w code p =
    let (won, hub) = take_grace w.hub code p reconnect in
    if won then free_member_after_timeout (with_hub w hub) code p else with_hub w hub

unfoldable pub host_lost : String → String → ℕ → Bool → HostDisconnectStage × World → World
unfolding promote_demote_or_end_active arm_host_disconnect_grace
host_lost code p now explicit_leave (ended_waiting, w) = w
host_lost code p now explicit_leave (session_gone, w) = w
host_lost code p now true (active, w) = promote_demote_or_end_active w code p now false
host_lost code p now false (active, w) = arm_host_disconnect_grace w code p

-- The branches for a host, a joiner who leaves, and a joiner who drops.
unfoldable pub depart : World → String → String → Bool → Bool → ℕ → World
unfolding broadcast_peer_left end_session_if_waiting host_lost remove_joiner_on_leave
    session_status_is_active arm_joiner_disconnect_grace
depart w code p is_host explicit_leave now =
    if is_host
    then host_lost code p now explicit_leave
        (end_session_if_waiting (broadcast_peer_left w code p explicit_leave) code)
    else if explicit_leave
    then remove_joiner_on_leave (broadcast_peer_left w code p true) code p
    else if session_status_is_active w code
    then arm_joiner_disconnect_grace w code p
    else broadcast_peer_left w code p false

-- Phase 4. `is_host` is what `identify` found when the socket opened.
unfoldable pub cleanup : World → String → String → ℕ → Bool → Bool → ℕ → World
unfolding leave_room resume_if_cleared depart
cleanup w code p conn_id is_host explicit_leave now =
    let (was_live, hub) = leave_room w.hub code p conn_id in
    let left = with_hub w hub in
    let resumed = if was_live then resume_if_cleared left code p else left in
    depart resumed code p is_host explicit_leave now
