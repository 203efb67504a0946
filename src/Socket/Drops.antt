-- ===== src/Socket/Drops.antt =====
-- Which sockets' ends change the session, and which must not but do.
use briska_blast.Common.{
  ℕ, String, Bool, true, false, ◌≡◌, refl, ◌∙◌, sym, Option, none, some, string_eq, arith,
  Bool-cases, Option-cases, inl, inr,
}
use briska_blast.Common.Dict
use briska_blast.Session.Data.{is_waiting}
use briska_blast.Session.Store.{Raw, run_script, apply}
use briska_blast.Session.Lobby.{end_if_waiting_script, end_if_waiting_body}
use briska_blast.Hub.Data.{Hub, promotion, reconnect}
use briska_blast.Hub.Rooms.{leave_room}
use briska_blast.Hub.Grace.{arm_grace}
use briska_blast.Hub.Pause.{clear_pause}
use briska_blast.Protocol.{host_reconnecting}
use briska_blast.Socket.World.{World, notify, with_hub}
use briska_blast.Socket.Ops.{
  HostDisconnectStage, ended_waiting, session_gone, active, stage_of, resume_if_cleared,
  end_session_if_waiting, announce_session_end,
}
use briska_blast.Socket.Cleanup.{
  broadcast_peer_left, promotion_grace_secs, armed, arm_reconnect_slot_hold,
  arm_host_disconnect_grace, arm_joiner_disconnect_grace, host_lost, depart, cleanup,
  session_status_is_active,
}

-- The connections after the socket's own is taken away, and after the hold is released.
resumed-store : (w : World) (code p : String) → (resume_if_cleared w code p).store ≡ w.store
unfolding resume_if_cleared notify
resumed-store w code p = elim (Bool-cases (clear_pause w.hub code p).0) [
  | inl cleared ↦ rw (cleared, resume_if_cleared)
  | inr held ↦ rw (held, resume_if_cleared)
]

end_session_if_waiting-lobby :
    (w : World) (code : String) (raw : Raw)
    → Dict.get w.store code ≡ some raw
    → is_waiting raw.session.status ≡ true
    → ((end_session_if_waiting w code).0 ≡ ended_waiting)
      × (Dict.get (end_session_if_waiting w code).1.store code ≡ none)
unfolding end_session_if_waiting end_if_waiting_script run_script end_if_waiting_body apply stage_of
    announce_session_end notify
end_session_if_waiting-lobby w code raw e lobby =
    ground (arith, e, lobby, Dict.get-remove_self w.store code)

end_session_if_waiting-live :
    (w : World) (code : String)
    → ((raw : Raw) → Dict.get w.store code ≡ some raw → is_waiting raw.session.status ≡ false)
    → (end_session_if_waiting w code).1.store ≡ w.store
unfolding end_session_if_waiting end_if_waiting_script run_script end_if_waiting_body apply stage_of
end_session_if_waiting-live w code live = elim (Option-cases (Dict.get w.store code)) [
  | inl gone ↦ ground (arith, gone)
  | inr (raw, e) ↦ ground (arith, e, live raw e)
]

host_lost-ended :
    (code p : String) (now : ℕ) (explicit_leave : Bool) (x : HostDisconnectStage × World)
    → x.0 ≡ ended_waiting
    → host_lost code p now explicit_leave x ≡ x.1
unfolding host_lost
host_lost-ended code p now explicit_leave (ended_waiting, w) e = refl
host_lost-ended code p now explicit_leave (session_gone, w) e = cc
host_lost-ended code p now explicit_leave (active, w) e = cc

armed-store : (w : World) (x : Option ℕ × Hub) → (armed w x).1.store ≡ w.store
unfolding armed
armed-store w (none, hub) = refl
armed-store w (some timer, hub) = refl

arm_host-store :
    (w : World) (code p : String) → (arm_host_disconnect_grace w code p).store ≡ w.store
unfolding arm_host_disconnect_grace arm_reconnect_slot_hold notify
arm_host-store w code p =
    let told =
      notify (armed w (arm_grace w.hub code p promotion)).1 code
        (host_reconnecting p promotion_grace_secs) none in
    elim (Bool-cases (armed w (arm_grace w.hub code p promotion)).0) [
      | inl on ↦
          rw (on, arm_host_disconnect_grace)
            (armed-store told (arm_grace told.hub code p reconnect)
              ∙ armed-store w (arm_grace w.hub code p promotion))
      | inr off ↦
          rw (off, arm_host_disconnect_grace) (armed-store w (arm_grace w.hub code p promotion))
    ]

arm_joiner-store :
    (w : World) (code p : String) → (arm_joiner_disconnect_grace w code p).store ≡ w.store
unfolding arm_joiner_disconnect_grace arm_reconnect_slot_hold notify
arm_joiner-store w code p = elim (Bool-cases (armed w (arm_grace w.hub code p reconnect)).0) [
  | inl on ↦ rw (on, arm_joiner_disconnect_grace) (armed-store w (arm_grace w.hub code p reconnect))
  | inr off ↦
      rw (off, arm_joiner_disconnect_grace) (armed-store w (arm_grace w.hub code p reconnect))
]

host_lost-store :
    (code p : String) (now : ℕ) (x : HostDisconnectStage × World)
    → (host_lost code p now false x).store ≡ x.1.store
unfolding host_lost
host_lost-store code p now (ended_waiting, w) = refl
host_lost-store code p now (session_gone, w) = refl
host_lost-store code p now (active, w) = arm_host-store w code p

depart-lobby :
    (w : World) (code p : String) (explicit_leave : Bool) (now : ℕ) (raw : Raw)
    → Dict.get w.store code ≡ some raw
    → is_waiting raw.session.status ≡ true
    → Dict.get (depart w code p true explicit_leave now).store code ≡ none
unfolding depart broadcast_peer_left notify
depart-lobby w code p explicit_leave now raw e lobby =
    let w' = broadcast_peer_left w code p explicit_leave in
    let (stage, gone) = end_session_if_waiting-lobby w' code raw e lobby in
    rw (host_lost-ended code p now explicit_leave (end_session_if_waiting w' code) stage) gone

depart-drop :
    (w : World) (code p : String) (is_host : Bool) (now : ℕ)
    → (is_host ≡ true
        → (raw : Raw) → Dict.get w.store code ≡ some raw
        → is_waiting raw.session.status ≡ false)
    → (depart w code p is_host false now).store ≡ w.store
unfolding depart broadcast_peer_left notify
depart-drop w code p true now live =
    let w' = broadcast_peer_left w code p false in
    host_lost-store code p now (end_session_if_waiting w' code)
    ∙ end_session_if_waiting-live w' code (live refl)
depart-drop w code p false now live = elim (Bool-cases (session_status_is_active w code)) [
  | inl on ↦ rw (on, depart) (arm_joiner-store w code p)
  | inr off ↦ rw (off, depart)
]

-- A socket that opened as the host's ends a session in the lobby whenever it ends, whoever the
-- host is by then and however the player is connected.
pub cleanup-lobby :
    (w : World) (code p : String) (conn_id : ℕ) (explicit_leave : Bool) (now : ℕ) (raw : Raw)
    → Dict.get w.store code ≡ some raw
    → is_waiting raw.session.status ≡ true
    → Dict.get (cleanup w code p conn_id true explicit_leave now).store code ≡ none
unfolding cleanup
cleanup-lobby w code p conn_id explicit_leave now raw e lobby =
    let left = with_hub w (leave_room w.hub code p conn_id).1 in
    elim (Bool-cases (leave_room w.hub code p conn_id).0) [
      | inl was_live ↦
          rw (was_live, cleanup)
            (depart-lobby (resume_if_cleared left code p) code p explicit_leave now raw
              (rw (resumed-store left code p) e) lobby)
      | inr stale ↦ rw (stale, cleanup) (depart-lobby left code p explicit_leave now raw e lobby)
    ]

-- A connection that is lost without a leave changes no key, unless it opened as the host's and
-- the session is in the lobby: the slots of a match are held.
pub cleanup-drop :
    (w : World) (code p : String) (conn_id : ℕ) (is_host : Bool) (now : ℕ)
    → (is_host ≡ true
        → (raw : Raw) → Dict.get w.store code ≡ some raw
        → is_waiting raw.session.status ≡ false)
    → (cleanup w code p conn_id is_host false now).store ≡ w.store
unfolding cleanup
cleanup-drop w code p conn_id is_host now live =
    let left = with_hub w (leave_room w.hub code p conn_id).1 in
    elim (Bool-cases (leave_room w.hub code p conn_id).0) [
      | inl was_live ↦
          rw (was_live, cleanup)
            (depart-drop (resume_if_cleared left code p) code p is_host now
                (λ h raw e. live h raw (rw (sym (resumed-store left code p)) e))
              ∙ resumed-store left code p)
      | inr stale ↦ rw (stale, cleanup) (depart-drop left code p is_host now live)
    ]
