-- ===== src/Socket/Spoken.antt =====
-- What the frames of one player can make the server say.
use briska_blast.Common.{
  String, ◌≡◌, refl, sym, ap, ◌∙◌, Option, none, some, List, [], ◌++◌, All, All-append, string_eq,
  ℤ, is_empty, Bool-cases, Option-cases, inl, inr,
}
use mathlib.Core.List.{append_assoc, append-nil}
use briska_blast.Common.Dict.{Dict}
use briska_blast.Protocol.{
  ClientMsg, identify, leave, report_score, send_chat, client_ready, peer_connection_failed,
  ServerMsg, identified, peer_joined, peer_left, peer_reconnecting, host_changed, host_reconnecting,
  host_reconnected, start_signaling, kicked, chat_warning, chat_body_deleted, match_paused,
  match_resumed, session_ended, score_update, game_over, chat_banned, chat_message, match_started,
  ChatKind,
}
use briska_blast.Chat.Ids.{text_eq}
use briska_blast.Chat.Bans.{trim, lookup, ban}
use briska_blast.Chat.Transcript.{Text}
use briska_blast.Chat.Blacklist.{take, find_matches, matched_words}
use briska_blast.Chat.Blacklist.Words.{active_words}
use briska_blast.Chat.Blacklist.Masked.{mask-find_matches}
use briska_blast.Chat.Blacklist.Censored.{censor}
use briska_blast.Chat.Capture.{codes, capture_player_message}
use briska_blast.Session.Store.{apply, del}
use briska_blast.Hub.Data.{Hub}
use briska_blast.Hub.Rooms.{Delivery, broadcast, send_to}
use briska_blast.Hub.Rooms.Messages.{broadcast-All, send_to-All}
use briska_blast.Hub.Scores.{Report, record_score}
use briska_blast.Hub.Pause.{clear_pause}
use briska_blast.Hub.Barrier.{
  ReadyOutcome, pending, all_ready, already_started, not_seated, record_ready,
}
use briska_blast.Socket.World.{World, notify, reply, with_hub, with_chat, with_store, end_chat}
use briska_blast.Socket.Ops.{
  end_session, announce_session_end, start_match, activate_session, resume_if_cleared,
  resume_countdown_secs,
}
use briska_blast.Socket.Frame.{
  Outside, publish, censor_and_publish, say, announce_winner, after_report, after_ready,
  handle_client_frame, max_chat_len,
}

-- A message that names a sender names this player; a line of chat is a player's, and not a moderator's.
abbrev pub IsFrom : String → ServerMsg → Type 0
IsFrom p (ServerMsg.offer from sdp) = from ≡ p
IsFrom p (ServerMsg.answer from sdp) = from ≡ p
IsFrom p (ServerMsg.ice_candidate from a b c) = from ≡ p
IsFrom p (chat_message m) = (m.from ≡ p) × (m.kind ≡ ChatKind.player)
IsFrom p (identified i) = Unit
IsFrom p (peer_joined a b) = Unit
IsFrom p (peer_left a b) = Unit
IsFrom p (peer_reconnecting a b) = Unit
IsFrom p (host_changed a) = Unit
IsFrom p (host_reconnecting a b) = Unit
IsFrom p (host_reconnected a) = Unit
IsFrom p (start_signaling s) = Unit
IsFrom p (session_ended a) = Unit
IsFrom p (game_over a b) = Unit
IsFrom p (kicked a) = Unit
IsFrom p (score_update s) = Unit
IsFrom p (ServerMsg.time_sync a b) = Unit
IsFrom p (chat_warning a) = Unit
IsFrom p (chat_banned a) = Unit
IsFrom p (chat_body_deleted a) = Unit
IsFrom p match_started = Unit
IsFrom p (match_paused a b c) = Unit
IsFrom p (match_resumed a) = Unit

-- What is sent is added, and is from this player.
abbrev pub Speaks : String → World → World → Type 0
Speaks p w x =
    (added : List Delivery) × (x.sent ≡ w.sent ++ added) × All (λ d. IsFrom p d.msg) added

module _ (p : String) where
  Speaks-none : (w x : World) → x.sent ≡ w.sent → Speaks p w x
  Speaks-none w x e = ([], e ∙ sym (append-nil w.sent), tt)

  Speaks-trans : (w x y : World) → Speaks p w x → Speaks p x y → Speaks p w y
  Speaks-trans w x y (a, e, f) (b, e', g) = (
    a ++ b,
    e' ∙ ap (λ l. l ++ b) e ∙ append_assoc w.sent a b,
    All-append (λ (d : Delivery). IsFrom p d.msg) a b f g,
  )

  notify-Speaks :
      (w : World) (code : String) (msg : ServerMsg) (except : Option String)
      → IsFrom p msg
      → Speaks p w (notify w code msg except)
  unfolding notify
  notify-Speaks w code msg except q = (
    broadcast w.alive w.hub code msg except,
    refl,
    broadcast-All (IsFrom p) w.alive msg q w.hub code except,
  )

  reply-Speaks :
      (w : World) (code to : String) (msg : ServerMsg)
      → IsFrom p msg
      → Speaks p w (reply w code to msg)
  unfolding reply
  reply-Speaks w code to msg q = (
    (send_to w.alive w.hub code to msg).1,
    refl,
    send_to-All (IsFrom p) w.alive msg q w.hub code to,
  )

  end_session-Speaks : (w : World) (code reason : String) → Speaks p w (end_session w code reason)
  unfolding end_session announce_session_end end_chat
  end_session-Speaks w code reason =
      let gone = with_store w (apply del code w.store) in
      notify-Speaks (end_chat gone code) code (session_ended reason) none tt

  announce_winner-Speaks :
      (w : World) (code : String) (scores : Dict String ℤ) (winner : Option String)
      → Speaks p w (announce_winner w code scores winner)
  unfolding announce_winner
  announce_winner-Speaks w code scores none = Speaks-none w w refl
  announce_winner-Speaks w code scores (some winner) =
      Speaks-trans w (notify w code (game_over winner scores) none)
        (end_session (notify w code (game_over winner scores) none) code "game_over")
        (notify-Speaks w code (game_over winner scores) none tt)
        (end_session-Speaks (notify w code (game_over winner scores) none) code "game_over")

  after_report-Speaks :
      (w : World) (code : String) (report : Report) (hub : Hub)
      → Speaks p w (after_report code (report, hub) w)
  unfolding after_report
  after_report-Speaks w code none hub = Speaks-none w (with_hub w hub) refl
  after_report-Speaks w code (some (scores, winner)) hub =
      let shown = notify (with_hub w hub) code (score_update scores) none in
      Speaks-trans w shown (announce_winner shown code scores winner)
        (notify-Speaks (with_hub w hub) code (score_update scores) none tt)
        (announce_winner-Speaks shown code scores winner)

  start_match-Speaks : (w : World) (code : String) → Speaks p w (start_match w code)
  unfolding start_match activate_session
  start_match-Speaks w code = notify-Speaks w code match_started none tt

  resume-Speaks : (w : World) (code q : String) → Speaks p w (resume_if_cleared w code q)
  unfolding resume_if_cleared
  resume-Speaks w code q = elim (Bool-cases (clear_pause w.hub code q).0) [
    | inl cleared ↦
        rw (cleared, resume_if_cleared)
          (notify-Speaks (with_hub w (clear_pause w.hub code q).1) code
            (match_resumed resume_countdown_secs) none tt)
    | inr held ↦
        rw (held, resume_if_cleared) (Speaks-none w (with_hub w (clear_pause w.hub code q).1) refl)
  ]

  after_ready-Speaks :
      (w : World) (code q : String) (outcome : ReadyOutcome) (hub : Hub)
      → Speaks p w (after_ready code q (outcome, hub) w)
  unfolding after_ready
  after_ready-Speaks w code q pending hub = Speaks-none w (with_hub w hub) refl
  after_ready-Speaks w code q not_seated hub = Speaks-none w (with_hub w hub) refl
  after_ready-Speaks w code q all_ready hub = start_match-Speaks (with_hub w hub) code
  after_ready-Speaks w code q already_started hub =
      let resumed = resume_if_cleared (with_hub w hub) code q in
      Speaks-trans w resumed (reply resumed code q match_started)
        (resume-Speaks (with_hub w hub) code q) (reply-Speaks resumed code q match_started tt)

  publish-Speaks :
      (w : World) (code : String) (names : Dict String String) (text : Text) (flagged : List Text)
      (masked : Text)
      → Speaks p w (publish w code p names text flagged masked)
  unfolding publish
  publish-Speaks w code names text flagged masked =
      notify-Speaks
        (with_chat w (capture_player_message w.clock names code p text flagged w.chat).1) code
        (chat_message _) none (refl, refl)

  censor-Speaks :
      (w : World) (code : String) (o : Outside) (text : Text)
      → Speaks p w (censor_and_publish w code p o text)
  unfolding censor_and_publish
  censor-Speaks w code o text =
      let got = active_words o.ticks o.loaded w.chat.words in
      let matches = find_matches o.is_alphanumeric text got.0 in
      let checked = with_chat w (record w.chat { words = got.1 }) in
      rw (mask-find_matches o.is_alphanumeric text got.0, censor_and_publish)
        (publish-Speaks checked code o.names text (matched_words matches) (censor matches 0 text))

  say-Speaks :
      (w : World) (code : String) (o : Outside) (text : Text) → Speaks p w (say w code p o text)
  unfolding say
  say-Speaks w code o text = elim (Bool-cases (is_empty (trim text))) [
    | inl blank ↦ rw blank (Speaks-none w w refl)
    | inr worded ↦ elim (Option-cases (lookup w.chat.bans (codes p))) [
      | inl free ↦ rw (worded, free) (censor-Speaks w code o (take max_chat_len (trim text)))
      | inr (ban, e) ↦ rw (worded, e) (reply-Speaks w code p (chat_banned ban.reason) tt)
    ]
  ]

-- In the messages that one frame of a player makes the server send, each offer, answer, candidate
-- and line of chat names that player as its sender, and no line of chat is a moderator's.
pub handle_client_frame-Speaks :
    (p : String) (w : World) (code : String) (o : Outside) (frame : Option ClientMsg)
    → Speaks p w (handle_client_frame w code p o frame).1
unfolding handle_client_frame
handle_client_frame-Speaks p w code o none = Speaks-none p w w refl
handle_client_frame-Speaks p w code o (some (identify a b c)) = Speaks-none p w w refl
handle_client_frame-Speaks p w code o (some (ClientMsg.offer to sdp)) =
    reply-Speaks p w code to (ServerMsg.offer p sdp) refl
handle_client_frame-Speaks p w code o (some (ClientMsg.answer to sdp)) =
    reply-Speaks p w code to (ServerMsg.answer p sdp) refl
handle_client_frame-Speaks p w code o (some (ClientMsg.ice_candidate to a b c)) =
    reply-Speaks p w code to (ServerMsg.ice_candidate p a b c) refl
handle_client_frame-Speaks p w code o (some (peer_connection_failed a b)) = Speaks-none p w w refl
handle_client_frame-Speaks p w code o (some (report_score scorer points)) =
    after_report-Speaks p w code (record_score w.hub code scorer points).0
      (record_score w.hub code scorer points).1
handle_client_frame-Speaks p w code o (some (ClientMsg.time_sync sent)) =
    reply-Speaks p w code p (ServerMsg.time_sync sent w.clock) tt
handle_client_frame-Speaks p w code o (some (send_chat text)) = say-Speaks p w code o text
handle_client_frame-Speaks p w code o (some client_ready) =
    after_ready-Speaks p w code p (record_ready w.hub code p).0 (record_ready w.hub code p).1
handle_client_frame-Speaks p w code o (some leave) = Speaks-none p w w refl
