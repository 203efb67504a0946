-- ===== src/Socket/Logged.antt =====
-- What sockets, timers and frames do to the chat's transcripts: the operations of
-- server/src/chat/transcript.rs, and nothing else.
use briska_blast.Common.{
  ℕ, String, Bool, true, false, ◌≡◌, refl, ◌∙◌, Option, none, some, string_eq, Bool-cases, inl, inr,
}
use briska_blast.Protocol.{peer_left, host_reconnecting}
use briska_blast.Session.Lobby.{EndOutcome, end_if_waiting_script}
use briska_blast.Session.Live.{PromoteOutcome, RemoveOutcome, promote_script, remove_script}
use briska_blast.Session.Store.{apply, del}
use briska_blast.Hub.Data.{Hub, promotion, reconnect}
use briska_blast.Hub.Rooms.{leave_room}
use briska_blast.Hub.Barrier.{force_match_start}
use briska_blast.Hub.Grace.{arm_grace, take_grace}
use briska_blast.Hub.Pause.{clear_pause}
use briska_blast.Chat.Transcript.Kept.{ending, perform}
use briska_blast.Chat.Transcript.Logged.{Logged, Logged-refl, Logged-perform, Logged-trans}
use briska_blast.Socket.World.{World, notify, with_hub, with_store, end_chat}
use briska_blast.Socket.Ops.{
  HostDisconnectStage, ended_waiting, session_gone, active, announce_session_end, end_session,
  stage_of, end_session_if_waiting, after_promotion, promote_demote_or_end_active, connected_others,
  after_removal, remove_joiner_on_leave, resume_if_cleared, activate_session, start_match,
  fire_ready_barrier,
}
use briska_blast.Socket.Cleanup.{
  broadcast_peer_left, armed, arm_reconnect_slot_hold, arm_host_disconnect_grace,
  arm_joiner_disconnect_grace, fire_promotion, free_member_after_timeout, fire_reconnect, host_lost,
  depart, cleanup, session_status_is_active, promotion_grace_secs,
}
use briska_blast.Socket.Steps.{
  Event, closed, promotion_due, reconnect_due, barrier_due, pause_due, happen,
}

abbrev pub Log : World → World → Type 0
Log w x = Logged w.chat.transcripts x.chat.transcripts

pub Log-same : (w x : World) → x.chat ≡ w.chat → Log w x
Log-same w x e = rw e (Logged-refl w.chat.transcripts)

Log-after : (w x y : World) → x.chat ≡ w.chat → Log x y → Log w y
Log-after w x y e l =
    Logged-trans w.chat.transcripts x.chat.transcripts y.chat.transcripts (Log-same w x e) l

announce-Logged : (w : World) (code reason : String) → Log w (announce_session_end w code reason)
unfolding announce_session_end end_chat notify perform
announce-Logged w code reason = Logged-perform (ending code w.clock) w.chat.transcripts

pub end_session-Logged : (w : World) (code reason : String) → Log w (end_session w code reason)
unfolding end_session
end_session-Logged w code reason =
    announce-Logged (with_store w (apply del code w.store)) code reason

module _ (code : String) where
  after_promotion-Logged :
      (outcome : PromoteOutcome) (w : World) → Log w (after_promotion code outcome w)
  unfolding after_promotion notify
  after_promotion-Logged (PromoteOutcome.promoted new_host) w = Logged-refl w.chat.transcripts
  after_promotion-Logged PromoteOutcome.ended w = announce-Logged w code "host_disconnect"
  after_promotion-Logged PromoteOutcome.gone w = Logged-refl w.chat.transcripts
  after_promotion-Logged PromoteOutcome.not_active w = Logged-refl w.chat.transcripts
  after_promotion-Logged PromoteOutcome.not_host w = Logged-refl w.chat.transcripts

  after_removal-Logged :
      (outcome : RemoveOutcome) (w : World) → Log w (after_removal code outcome w)
  unfolding after_removal
  after_removal-Logged RemoveOutcome.removed w = Logged-refl w.chat.transcripts
  after_removal-Logged RemoveOutcome.ended w = announce-Logged w code "last_player_left"
  after_removal-Logged RemoveOutcome.not_found w = Logged-refl w.chat.transcripts
  after_removal-Logged RemoveOutcome.not_joiner w = Logged-refl w.chat.transcripts

  stage_of-Logged : (outcome : EndOutcome) (w : World) → Log w (stage_of code outcome w).1
  unfolding stage_of
  stage_of-Logged EndOutcome.deleted w = announce-Logged w code "host_disconnect"
  stage_of-Logged EndOutcome.not_found w = Logged-refl w.chat.transcripts
  stage_of-Logged EndOutcome.not_waiting w = Logged-refl w.chat.transcripts

  promote-Logged :
      (w : World) (p : String) (now : ℕ) (keep_ex_host : Bool)
      → Log w (promote_demote_or_end_active w code p now keep_ex_host)
  unfolding promote_demote_or_end_active
  promote-Logged w p now b =
      let (outcome, store) =
        promote_script p (connected_others w.hub code p) w.session_ttl_secs now b code w.store in
      after_promotion-Logged outcome (with_store w store)

  remove-Logged : (w : World) (p : String) → Log w (remove_joiner_on_leave w code p)
  unfolding remove_joiner_on_leave
  remove-Logged w p =
      let (outcome, store) = remove_script p w.session_ttl_secs code w.store in
      after_removal-Logged outcome (with_store w store)

  end_if_waiting-Logged : (w : World) → Log w (end_session_if_waiting w code).1
  unfolding end_session_if_waiting
  end_if_waiting-Logged w =
      let (outcome, store) = end_if_waiting_script code w.store in
      stage_of-Logged outcome (with_store w store)

  pub resume-chat : (w : World) (p : String) → (resume_if_cleared w code p).chat ≡ w.chat
  unfolding resume_if_cleared notify
  resume-chat w p = elim (Bool-cases (clear_pause w.hub code p).0) [
    | inl cleared ↦ rw (cleared, resume_if_cleared)
    | inr held ↦ rw (held, resume_if_cleared)
  ]

  armed-chat : (w : World) (r : Option ℕ × Hub) → (armed w r).1.chat ≡ w.chat
  unfolding armed
  armed-chat w (none, hub) = refl
  armed-chat w (some timer, hub) = refl

  arm_host-chat : (w : World) (p : String) → (arm_host_disconnect_grace w code p).chat ≡ w.chat
  unfolding arm_host_disconnect_grace arm_reconnect_slot_hold notify
  arm_host-chat w p =
      let first = arm_grace w.hub code p promotion in
      let told = notify (armed w first).1 code (host_reconnecting p promotion_grace_secs) none in
      elim (Bool-cases (armed w first).0) [
        | inl yes_armed ↦
            rw (yes_armed, arm_host_disconnect_grace)
              (armed-chat told (arm_grace told.hub code p reconnect) ∙ armed-chat w first)
        | inr present ↦ rw (present, arm_host_disconnect_grace) (armed-chat w first)
      ]

  arm_joiner-chat : (w : World) (p : String) → (arm_joiner_disconnect_grace w code p).chat ≡ w.chat
  unfolding arm_joiner_disconnect_grace arm_reconnect_slot_hold notify
  arm_joiner-chat w p =
      let first = arm_grace w.hub code p reconnect in
      elim (Bool-cases (armed w first).0) [
        | inl yes_armed ↦ rw (yes_armed, arm_joiner_disconnect_grace) (armed-chat w first)
        | inr present ↦ rw (present, arm_joiner_disconnect_grace) (armed-chat w first)
      ]

  host_lost-Logged :
      (p : String) (now : ℕ) (explicit_leave : Bool) (stage : HostDisconnectStage) (w : World)
      → Log w (host_lost code p now explicit_leave (stage, w))
  unfolding host_lost
  host_lost-Logged p now explicit_leave ended_waiting w = Logged-refl w.chat.transcripts
  host_lost-Logged p now explicit_leave session_gone w = Logged-refl w.chat.transcripts
  host_lost-Logged p now true active w = promote-Logged w p now false
  host_lost-Logged p now false active w =
      Log-same w (arm_host_disconnect_grace w code p) (arm_host-chat w p)

  depart-Logged :
      (w : World) (p : String) (is_host explicit_leave : Bool) (now : ℕ)
      → Log w (depart w code p is_host explicit_leave now)
  unfolding depart broadcast_peer_left notify
  depart-Logged w p true explicit_leave now =
      let told = broadcast_peer_left w code p explicit_leave in
      let (stage, waited) = end_session_if_waiting told code in
      Logged-trans w.chat.transcripts waited.chat.transcripts _ (end_if_waiting-Logged told)
        (host_lost-Logged p now explicit_leave stage waited)
  depart-Logged w p false true now = remove-Logged (broadcast_peer_left w code p true) p
  depart-Logged w p false false now = elim (Bool-cases (session_status_is_active w code)) [
    | inl live ↦
        rw (live, depart) (Log-same w (arm_joiner_disconnect_grace w code p) (arm_joiner-chat w p))
    | inr lobby ↦ rw (lobby, depart) (Logged-refl w.chat.transcripts)
  ]

  cleanup-Logged :
      (w : World) (p : String) (conn_id : ℕ) (is_host explicit_leave : Bool) (now : ℕ)
      → Log w (cleanup w code p conn_id is_host explicit_leave now)
  unfolding cleanup
  cleanup-Logged w p conn_id is_host explicit_leave now =
      let left = with_hub w (leave_room w.hub code p conn_id).1 in
      let resumed = resume_if_cleared left code p in
      elim (Bool-cases (leave_room w.hub code p conn_id).0) [
        | inl was_live ↦
            rw (was_live, cleanup)
              (Log-after w resumed (depart resumed code p is_host explicit_leave now)
                (resume-chat left p) (depart-Logged resumed p is_host explicit_leave now))
        | inr stale ↦ rw (stale, cleanup) (depart-Logged left p is_host explicit_leave now)
      ]

pub happen-Logged : (w : World) (code : String) (e : Event) → Log w (happen w code e)
unfolding happen free_member_after_timeout fire_promotion fire_reconnect fire_ready_barrier
    start_match activate_session notify
happen-Logged w code (closed p conn_id is_host explicit_leave now) =
    cleanup-Logged code w p conn_id is_host explicit_leave now
happen-Logged w code (promotion_due host now) =
    let taken = with_hub w (take_grace w.hub code host promotion).1 in
    elim (Bool-cases (take_grace w.hub code host promotion).0) [
      | inl won ↦ rw (won, fire_promotion) (promote-Logged code taken host now true)
      | inr lost ↦ rw (lost, fire_promotion) (Logged-refl w.chat.transcripts)
    ]
happen-Logged w code (reconnect_due p) =
    let taken = with_hub w (take_grace w.hub code p reconnect).1 in
    elim (Bool-cases (take_grace w.hub code p reconnect).0) [
      | inl won ↦
          rw (won, fire_reconnect)
            (remove-Logged code (notify taken code (peer_left p "reconnect_timeout") none) p)
      | inr lost ↦ rw (lost, fire_reconnect) (Logged-refl w.chat.transcripts)
    ]
happen-Logged w code barrier_due = elim (Bool-cases (force_match_start w.hub code).0) [
  | inl won ↦ rw (won, fire_ready_barrier) (Logged-refl w.chat.transcripts)
  | inr lost ↦ rw (lost, fire_ready_barrier) (Logged-refl w.chat.transcripts)
]
happen-Logged w code (pause_due p) = Log-same w (resume_if_cleared w code p) (resume-chat code w p)
