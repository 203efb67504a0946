-- ===== src/Socket/Steps.antt =====
-- Every way in which a socket's end, a readiness and the timers change the world.
use briska_blast.Common.{ℕ, String, Bool, true, false, none, string_eq, Bool-cases, inl, inr}
use briska_blast.Hub.Data.{promotion, reconnect}
use briska_blast.Hub.Rooms.{leave_room}
use briska_blast.Hub.Barrier.{force_match_start}
use briska_blast.Hub.Grace.{arm_grace, take_grace}
use briska_blast.Socket.World.{World}
use briska_blast.Socket.Ops.{
  HostDisconnectStage, ended_waiting, session_gone, active, resume_if_cleared, fire_ready_barrier,
}
use briska_blast.Socket.Cleanup.{
  broadcast_peer_left, armed, arm_reconnect_slot_hold, arm_host_disconnect_grace,
  arm_joiner_disconnect_grace, fire_promotion, free_member_after_timeout, fire_reconnect, host_lost,
  depart, cleanup, session_status_is_active,
}
use briska_blast.Socket.Confined.{
  Confined, Confined-refl, Confined-trans, notify-Confined, leave_room-Confined, force-Confined,
  arm_grace-Confined, take_grace-Confined, promote-Confined, remove-Confined,
  end_if_waiting-Confined, resume-Confined, start_match-Confined,
}

module _ (code : String) where
  arm_host-Confined :
      (w : World) (p : String) → Confined code w (arm_host_disconnect_grace w code p)
  unfolding arm_host_disconnect_grace arm_reconnect_slot_hold
  arm_host-Confined w p = elim (Bool-cases (armed w (arm_grace w.hub code p promotion)).0) [
    | inl yes_armed ↦
        rw (yes_armed, arm_host_disconnect_grace)
          (Confined-trans code w _ _ (arm_grace-Confined code w p promotion) (
            Confined-trans code _ _ _ (notify-Confined code _ _ none)
              (arm_grace-Confined code _ p reconnect)))
    | inr present ↦ rw (present, arm_host_disconnect_grace) (arm_grace-Confined code w p promotion)
  ]

  arm_joiner-Confined :
      (w : World) (p : String) → Confined code w (arm_joiner_disconnect_grace w code p)
  unfolding arm_joiner_disconnect_grace arm_reconnect_slot_hold
  arm_joiner-Confined w p = elim (Bool-cases (armed w (arm_grace w.hub code p reconnect)).0) [
    | inl yes_armed ↦
        rw (yes_armed, arm_joiner_disconnect_grace)
          (Confined-trans code w _ _ (arm_grace-Confined code w p reconnect)
            (notify-Confined code _ _ none))
    | inr present ↦
        rw (present, arm_joiner_disconnect_grace) (arm_grace-Confined code w p reconnect)
  ]

  host_lost-Confined :
      (p : String) (now : ℕ) (explicit_leave : Bool) (stage : HostDisconnectStage) (w : World)
      → Confined code w (host_lost code p now explicit_leave (stage, w))
  unfolding host_lost
  host_lost-Confined p now explicit_leave ended_waiting w = Confined-refl code w
  host_lost-Confined p now explicit_leave session_gone w = Confined-refl code w
  host_lost-Confined p now true active w = promote-Confined code w p now false
  host_lost-Confined p now false active w = arm_host-Confined w p

  depart-Confined :
      (w : World) (p : String) (is_host explicit_leave : Bool) (now : ℕ)
      → Confined code w (depart w code p is_host explicit_leave now)
  unfolding depart broadcast_peer_left
  depart-Confined w p true explicit_leave now =
      Confined-trans code w _ _ (notify-Confined code w _ none) (
        Confined-trans code _ _ _ (end_if_waiting-Confined code _)
          (host_lost-Confined p now explicit_leave _ _))
  depart-Confined w p false true now =
      Confined-trans code w _ _ (notify-Confined code w _ none) (remove-Confined code _ p)
  depart-Confined w p false false now = elim (Bool-cases (session_status_is_active w code)) [
    | inl live ↦ rw (live, depart) (arm_joiner-Confined w p)
    | inr lobby ↦ rw (lobby, depart) (notify-Confined code w _ none)
  ]

  cleanup-Confined :
      (w : World) (p : String) (conn_id : ℕ) (is_host explicit_leave : Bool) (now : ℕ)
      → Confined code w (cleanup w code p conn_id is_host explicit_leave now)
  unfolding cleanup
  cleanup-Confined w p conn_id is_host explicit_leave now =
      elim (Bool-cases (leave_room w.hub code p conn_id).0) [
        | inl was_live ↦
            rw (was_live, cleanup)
              (Confined-trans code w _ _ (leave_room-Confined code w p conn_id) (
                Confined-trans code _ _ _ (resume-Confined code _ p)
                  (depart-Confined _ p is_host explicit_leave now)))
        | inr stale ↦
            rw (stale, cleanup)
              (Confined-trans code w _ _ (leave_room-Confined code w p conn_id)
                (depart-Confined _ p is_host explicit_leave now))
      ]

-- A socket's end, or a timer.
pub data Event : Type 0 where
  closed : String → ℕ → Bool → Bool → ℕ → Event
  promotion_due : String → ℕ → Event
  reconnect_due : String → Event
  barrier_due : Event
  pause_due : String → Event

unfoldable pub happen : World → String → Event → World
unfolding cleanup fire_promotion fire_reconnect fire_ready_barrier resume_if_cleared
happen w code (closed p conn_id is_host explicit_leave now) =
    cleanup w code p conn_id is_host explicit_leave now
happen w code (promotion_due host now) = fire_promotion w code host now
happen w code (reconnect_due p) = fire_reconnect w code p
happen w code barrier_due = fire_ready_barrier w code
happen w code (pause_due p) = resume_if_cleared w code p

-- Whatever ends of sockets and timers there are, nothing of another session is touched, neither
-- its key nor its room, and a sound store stays sound.
pub happen-Confined : (w : World) (code : String) (e : Event) → Confined code w (happen w code e)
unfolding happen free_member_after_timeout
happen-Confined w code (closed p conn_id is_host explicit_leave now) =
    cleanup-Confined code w p conn_id is_host explicit_leave now
happen-Confined w code (promotion_due host now) =
    elim (Bool-cases (take_grace w.hub code host promotion).0) [
      | inl won ↦
          rw (won, fire_promotion)
            (Confined-trans code w _ _ (take_grace-Confined code w host promotion)
              (promote-Confined code _ host now true))
      | inr lost ↦ rw (lost, fire_promotion) (take_grace-Confined code w host promotion)
    ]
happen-Confined w code (reconnect_due p) = elim (Bool-cases (take_grace w.hub code p reconnect).0) [
  | inl won ↦
      rw (won, fire_reconnect)
        (Confined-trans code w _ _ (take_grace-Confined code w p reconnect)
          (Confined-trans code _ _ _ (notify-Confined code _ _ none) (remove-Confined code _ p)))
  | inr lost ↦ rw (lost, fire_reconnect) (take_grace-Confined code w p reconnect)
]
happen-Confined w code barrier_due = elim (Bool-cases (force_match_start w.hub code).0) [
  | inl won ↦
      rw (won, fire_ready_barrier)
        (Confined-trans code w _ _ (force-Confined code w) (start_match-Confined code _))
  | inr lost ↦ rw (lost, fire_ready_barrier) (force-Confined code w)
]
happen-Confined w code (pause_due p) = resume-Confined code w p
