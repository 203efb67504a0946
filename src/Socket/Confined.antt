-- ===== src/Socket/Confined.antt =====
-- What a socket's end and the timers do stays within their session, and keeps the store sound.
use briska_blast.Common.{
  ℕ, String, Bool, false, ◌≡◌, refl, ◌∙◌, Option, none, string_eq, ◌==◌, Bool-cases, Option-cases,
  inl, inr,
}
use briska_blast.Common.Dict
use briska_blast.Session.Data.{Session}
use briska_blast.Session.Store.{serde_encode, Effect, keep, set, del, apply, run_script}
use briska_blast.Session.Lobby.{
  join_body, start_body, transfer_body, end_if_waiting_body, JoinOutcome, StartOutcome,
  TransferOutcome, EndOutcome,
}
use briska_blast.Session.Live.{
  activate_body, promote_body, remove_body, ActivateOutcome, PromoteOutcome, RemoveOutcome,
}
use briska_blast.Session.Valid.{IsSound}
use briska_blast.Session.Steps.{
  Op, create, join, start, transfer, end_if_waiting, activate, promote, remove, delete, perform,
  perform-IsSound, IsCall,
}
use briska_blast.Hub.Data.{Hub, Room, room_at, put_room, GraceKind}
use briska_blast.Hub.Rooms.{leave_room}
use briska_blast.Hub.Rooms.Laws.{room_at-leave_room}
use briska_blast.Protocol.{ServerMsg, match_started}
use briska_blast.Hub.Barrier.{force_match_start, force_in}
use briska_blast.Hub.Pause.{clear_pause, clear_in}
use briska_blast.Hub.Grace.{arm_grace, take_grace, arm_unless, insert_grace, is_present}
use briska_blast.Chat.Capture.{ChatState}
use briska_blast.Protocol.{session_ended}
use briska_blast.Socket.World.{with_chat, end_chat, reply, World, notify, with_store, with_hub}
use briska_blast.Socket.Ops.{
  stage_of, announce_session_end, after_promotion, after_removal, resume_if_cleared,
  activate_session, start_match, end_session_if_waiting, promote_demote_or_end_active,
  connected_others, remove_joiner_on_leave,
}
use briska_blast.Socket.Cleanup.{armed}

-- Other sessions' keys and rooms are as before, and the store is sound if it was.
pub record Confined (code : String) (w w' : World) : Type 0 where
  pub store_kept : (k : String) → (code == k) ≡ false → Dict.get w'.store k ≡ Dict.get w.store k
  pub rooms_kept : (k : String) → (code == k) ≡ false → room_at w'.hub k ≡ room_at w.hub k
  pub sound : IsSound w.store → IsSound w'.store

pub Confined-refl : (code : String) (w : World) → Confined code w w
Confined-refl code w = record { store_kept = λ k h. refl; rooms_kept = λ k h. refl; sound = λ s. s }

pub Confined-trans :
    (code : String) (w x y : World) → Confined code w x → Confined code x y → Confined code w y
Confined-trans code w x y a b = record {
  store_kept = λ k h. b.store_kept k h ∙ a.store_kept k h;
  rooms_kept = λ k h. b.rooms_kept k h ∙ a.rooms_kept k h;
  sound = λ s. b.sound (a.sound s);
}

module _ (code : String) (w : World) where
  apply-other :
      (e : Effect) (k : String)
      → (code == k) ≡ false
      → Dict.get (apply e code w.store) k ≡ Dict.get w.store k
  unfolding apply
  apply-other keep k h = refl
  apply-other (set raw) k h = rw (Dict.get-insert w.store code raw k, h)
  apply-other del k h = rw (Dict.get-remove w.store code k, h)

  run_script-other {ℓ} :
      {O : Type ℓ} (missing : O) (body : Session → O × Effect) (k : String)
      → (code == k) ≡ false
      → Dict.get (run_script missing body code w.store).1 k ≡ Dict.get w.store k
  unfolding run_script
  run_script-other missing body k h = elim (Option-cases (Dict.get w.store code)) [
    | inl gone ↦ rw (gone, run_script)
    | inr (raw, e) ↦ rw (e, run_script) (apply-other (body raw.session).1 k h)
  ]

  -- A change of the room of the session alone.
  pub hub-Confined :
      (hub : Hub)
      → ((k : String) → (code == k) ≡ false → room_at hub k ≡ room_at w.hub k)
      → Confined code w (with_hub w hub)
  hub-Confined hub h = record { store_kept = λ k n. refl; rooms_kept = h; sound = λ s. s }

  pub notify-Confined :
      (msg : ServerMsg) (except : Option String) → Confined code w (notify w code msg except)
  unfolding notify
  notify-Confined msg except = record {
    store_kept = λ k h. refl;
    rooms_kept = λ k h. refl;
    sound = λ s. s;
  }

  pub put_room-other :
      (room : Room) (k : String)
      → (code == k) ≡ false
      → room_at (put_room w.hub code room) k ≡ room_at w.hub k
  put_room-other room k h = rw (Dict.get-insert w.hub.rooms code room k, h)

  pub leave_room-Confined :
      (p : String) (conn_id : ℕ) → Confined code w (with_hub w (leave_room w.hub code p conn_id).1)
  leave_room-Confined p conn_id =
      hub-Confined (leave_room w.hub code p conn_id).1 (room_at-leave_room w.hub code p conn_id)

  clear_pause-Confined : (p : String) → Confined code w (with_hub w (clear_pause w.hub code p).1)
  unfolding clear_pause clear_in
  clear_pause-Confined p = hub-Confined (clear_pause w.hub code p).1 λ k h.
      elim (Option-cases (room_at w.hub code)) [
        | inl gone ↦ rw (gone, clear_pause)
        | inr (room, e) ↦ rw (e, clear_pause) (put_room-other (clear_in room p).1 k h)
      ]

  pub force-Confined : Confined code w (with_hub w (force_match_start w.hub code).1)
  unfolding force_match_start force_in
  force-Confined = hub-Confined (force_match_start w.hub code).1 λ k h.
      elim (Option-cases (room_at w.hub code)) [
        | inl gone ↦ rw (gone, force_match_start)
        | inr (room, e) ↦ rw (e, force_match_start) (put_room-other (force_in room).1 k h)
      ]

  pub arm_grace-Confined :
      (p : String) (kind : GraceKind) → Confined code w (armed w (arm_grace w.hub code p kind)).1
  unfolding arm_grace arm_unless insert_grace armed
  arm_grace-Confined p kind = elim (Bool-cases (is_present w.hub code p)) [
    | inl here ↦ rw (here, arm_grace, armed) (Confined-refl code w)
    | inr gone ↦ rw (gone, arm_grace, armed) (hub-Confined _ λ k h. refl)
  ]

  pub take_grace-Confined :
      (p : String) (kind : GraceKind)
      → Confined code w (with_hub w (take_grace w.hub code p kind).1)
  unfolding take_grace
  take_grace-Confined p kind = hub-Confined _ λ k h. refl

  perform-other :
      (op : Op) (k : String)
      → (code == k) ≡ false
      → Dict.get (perform op code w.store) k ≡ Dict.get w.store k
  unfolding perform
  perform-other (create s ttl) k h = apply-other (set (serde_encode s ttl)) k h
  perform-other (join p now ttl) k h =
      run_script-other JoinOutcome.not_found (join_body p now ttl) k h
  perform-other (start host m n ttl) k h =
      run_script-other StartOutcome.not_found (start_body host m n ttl) k h
  perform-other (transfer a b now ttl) k h =
      run_script-other TransferOutcome.not_found (transfer_body a b now ttl) k h
  perform-other end_if_waiting k h = run_script-other EndOutcome.not_found end_if_waiting_body k h
  perform-other (activate ttl) k h = run_script-other ActivateOutcome.gone (activate_body ttl) k h
  perform-other (promote p l ttl now b) k h =
      run_script-other PromoteOutcome.gone (promote_body p l ttl now b) k h
  perform-other (remove p ttl) k h =
      run_script-other RemoveOutcome.not_found (remove_body p ttl) k h
  perform-other delete k h = apply-other del k h

  -- A script of a history, on the session's own key.
  pub perform-Confined :
      (op : Op) → IsCall op code w.store → Confined code w (with_store w (perform op code w.store))
  perform-Confined op call = record {
    store_kept = perform-other op;
    rooms_kept = λ k h. refl;
    sound = perform-IsSound op code w.store call;
  }

  -- The chat is not what is confined.
  pub chat-Confined : (chat : ChatState) → Confined code w (with_chat w chat)
  chat-Confined chat = record { store_kept = λ k h. refl; rooms_kept = λ k h. refl; sound = λ s. s }

  pub end_chat-Confined : Confined code w (end_chat w code)
  unfolding end_chat
  end_chat-Confined = record { store_kept = λ k h. refl; rooms_kept = λ k h. refl; sound = λ s. s }

  pub reply-Confined : (to : String) (msg : ServerMsg) → Confined code w (reply w code to msg)
  unfolding reply
  reply-Confined to msg = record {
    store_kept = λ k h. refl;
    rooms_kept = λ k h. refl;
    sound = λ s. s;
  }

  -- `DEL`.
  pub del-Confined : Confined code w (with_store w (apply del code w.store))
  unfolding perform
  del-Confined = perform-Confined delete tt

module _ (code : String) where
  pub announce-Confined :
      (w : World) (reason : String) → Confined code w (announce_session_end w code reason)
  unfolding announce_session_end
  announce-Confined w reason =
      Confined-trans code w _ _ (end_chat-Confined code w)
        (notify-Confined code _ (session_ended reason) none)

  after_promotion-Confined :
      (outcome : PromoteOutcome) (w : World) → Confined code w (after_promotion code outcome w)
  unfolding after_promotion
  after_promotion-Confined (PromoteOutcome.promoted new_host) w = notify-Confined code w _ none
  after_promotion-Confined PromoteOutcome.ended w = announce-Confined w "host_disconnect"
  after_promotion-Confined PromoteOutcome.gone w = Confined-refl code w
  after_promotion-Confined PromoteOutcome.not_active w = Confined-refl code w
  after_promotion-Confined PromoteOutcome.not_host w = Confined-refl code w

  after_removal-Confined :
      (outcome : RemoveOutcome) (w : World) → Confined code w (after_removal code outcome w)
  unfolding after_removal
  after_removal-Confined RemoveOutcome.removed w = Confined-refl code w
  after_removal-Confined RemoveOutcome.ended w = announce-Confined w "last_player_left"
  after_removal-Confined RemoveOutcome.not_found w = Confined-refl code w
  after_removal-Confined RemoveOutcome.not_joiner w = Confined-refl code w

  pub promote-Confined :
      (w : World) (p : String) (now : ℕ) (keep_ex_host : Bool)
      → Confined code w (promote_demote_or_end_active w code p now keep_ex_host)
  unfolding promote_demote_or_end_active perform
  promote-Confined w p now b =
      Confined-trans code w _ _
        (perform-Confined code w
          (promote p (connected_others w.hub code p) w.session_ttl_secs now b) tt)
        (after_promotion-Confined _ _)

  pub remove-Confined : (w : World) (p : String) → Confined code w (remove_joiner_on_leave w code p)
  unfolding remove_joiner_on_leave perform
  remove-Confined w p =
      Confined-trans code w _ _ (perform-Confined code w (remove p w.session_ttl_secs) tt)
        (after_removal-Confined _ _)

  stage_of-Confined :
      (outcome : EndOutcome) (w : World) → Confined code w (stage_of code outcome w).1
  unfolding stage_of
  stage_of-Confined EndOutcome.deleted w = announce-Confined w "host_disconnect"
  stage_of-Confined EndOutcome.not_found w = Confined-refl code w
  stage_of-Confined EndOutcome.not_waiting w = Confined-refl code w

  pub end_if_waiting-Confined : (w : World) → Confined code w (end_session_if_waiting w code).1
  unfolding end_session_if_waiting perform
  end_if_waiting-Confined w =
      Confined-trans code w _ _ (perform-Confined code w end_if_waiting tt) (stage_of-Confined _ _)

  pub resume-Confined : (w : World) (p : String) → Confined code w (resume_if_cleared w code p)
  unfolding resume_if_cleared
  resume-Confined w p = elim (Bool-cases (clear_pause w.hub code p).0) [
    | inl cleared ↦
        rw (cleared, resume_if_cleared)
          (Confined-trans code w _ _ (clear_pause-Confined code w p)
            (notify-Confined code _ _ none))
    | inr held ↦ rw (held, resume_if_cleared) (clear_pause-Confined code w p)
  ]

  pub start_match-Confined : (w : World) → Confined code w (start_match w code)
  unfolding start_match activate_session perform
  start_match-Confined w =
      Confined-trans code w _ _ (notify-Confined code w match_started none)
        (perform-Confined code _ (activate w.session_ttl_secs) tt)
