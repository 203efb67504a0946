-- ===== src/Socket/Framed.antt =====
-- What a client's frames leave alone, whatever they are.
use briska_blast.Common.{
  String, not, Option, none, some, List, string_eq, ℤ, is_empty, Bool-cases, Option-cases, inl, inr,
  if_both, leb_ℤ, pos, if◌then◌else◌,
}
use briska_blast.Common.Dict.{Dict, contains_key}
use briska_blast.Protocol.{
  ClientMsg, identify, leave, report_score, send_chat, client_ready, peer_connection_failed,
  ServerMsg, score_update, game_over, chat_banned, match_started,
}
use briska_blast.Session.Store.{apply, del}
use briska_blast.Chat.Bans.{trim, lookup}
use briska_blast.Chat.Transcript.{Text}
use briska_blast.Chat.Blacklist.{take, find_matches, matched_words, mask}
use briska_blast.Chat.Blacklist.Words.{active_words}
use briska_blast.Chat.Capture.{codes, capture_player_message}
use briska_blast.Hub.Data.{Hub, Room, room_at, put_room}
use briska_blast.Hub.Scores.{Report, record_score, report_in, accept, credit}
use briska_blast.Hub.Barrier.{
  ReadyOutcome, pending, all_ready, already_started, not_seated, record_ready, ready_in,
}
use briska_blast.Socket.World.{World, notify, with_hub, with_chat, with_store}
use briska_blast.Socket.Ops.{end_session}
use briska_blast.Socket.Frame.{
  Outside, publish, censor_and_publish, say, announce_winner, after_report, after_ready,
  handle_client_frame, max_chat_len,
}
use briska_blast.Socket.Confined.{
  Confined, Confined-refl, Confined-trans, hub-Confined, put_room-other, notify-Confined,
  reply-Confined, chat-Confined, del-Confined, announce-Confined, resume-Confined,
  start_match-Confined,
}

module _ (code : String) where
  report_in-Confined :
      (w : World) (room : Room) (p : String) (points : ℤ)
      → Confined code w (with_hub w (report_in w.hub code room p points).1)
  unfolding report_in accept
  report_in-Confined w room p points =
      let accepted = accept w.hub code (credit room p points) in
      let tested = if leb_ℤ points (pos 0) then (none, w.hub) else accepted in
      let kept = Confined-refl code w in
      let IsKept : Report × Hub → Type 0 = λ x. Confined code w (with_hub w x.1) in
      if_both IsKept (not (contains_key room.senders p)) (none, w.hub) tested kept
        (if_both IsKept (leb_ℤ points (pos 0)) (none, w.hub) accepted kept
          (hub-Confined code w (put_room w.hub code (credit room p points).1)
            λ k h. put_room-other code w (credit room p points).1 k h))

  record_score-Confined :
      (w : World) (p : String) (points : ℤ)
      → Confined code w (with_hub w (record_score w.hub code p points).1)
  unfolding record_score
  record_score-Confined w p points = elim (Option-cases (room_at w.hub code)) [
    | inl gone ↦ rw (gone, record_score) (Confined-refl code w)
    | inr (room, e) ↦ rw (e, record_score) (report_in-Confined w room p points)
  ]

  record_ready-Confined :
      (w : World) (p : String) → Confined code w (with_hub w (record_ready w.hub code p).1)
  unfolding record_ready
  record_ready-Confined w p = elim (Option-cases (room_at w.hub code)) [
    | inl gone ↦ rw (gone, record_ready) (Confined-refl code w)
    | inr (room, e) ↦
        rw (e, record_ready)
          (hub-Confined code w _ λ k h. put_room-other code w (ready_in room p).1 k h)
  ]

  end_session-Confined : (w : World) (reason : String) → Confined code w (end_session w code reason)
  unfolding end_session
  end_session-Confined w reason =
      Confined-trans code w _ _ (del-Confined code w)
        (announce-Confined code (with_store w (apply del code w.store)) reason)

  announce_winner-Confined :
      (w : World) (scores : Dict String ℤ) (winner : Option String)
      → Confined code w (announce_winner w code scores winner)
  unfolding announce_winner
  announce_winner-Confined w scores none = Confined-refl code w
  announce_winner-Confined w scores (some winner) =
      Confined-trans code w _ _ (notify-Confined code w (game_over winner scores) none)
        (end_session-Confined (notify w code (game_over winner scores) none) "game_over")

  after_report-Confined :
      (w : World) (report : Report) (hub : Hub)
      → Confined code w (with_hub w hub)
      → Confined code w (after_report code (report, hub) w)
  unfolding after_report
  after_report-Confined w none hub c = c
  after_report-Confined w (some (scores, winner)) hub c =
      let shown = notify (with_hub w hub) code (score_update scores) none in
      Confined-trans code w (with_hub w hub) _ c (
        Confined-trans code _ shown _
          (notify-Confined code (with_hub w hub) (score_update scores) none)
          (announce_winner-Confined shown scores winner))

  after_ready-Confined :
      (w : World) (p : String) (outcome : ReadyOutcome) (hub : Hub)
      → Confined code w (with_hub w hub)
      → Confined code w (after_ready code p (outcome, hub) w)
  unfolding after_ready
  after_ready-Confined w p pending hub c = c
  after_ready-Confined w p not_seated hub c = c
  after_ready-Confined w p all_ready hub c =
      Confined-trans code w (with_hub w hub) _ c (start_match-Confined code (with_hub w hub))
  after_ready-Confined w p already_started hub c = Confined-trans code w (with_hub w hub) _ c (
      Confined-trans code _ _ _ (resume-Confined code (with_hub w hub) p)
        (reply-Confined code _ p match_started))

  publish-Confined :
      (w : World) (p : String) (names : Dict String String) (text : Text) (flagged : List Text)
      (masked : Text)
      → Confined code w (publish w code p names text flagged masked)
  unfolding publish
  publish-Confined w p names text flagged masked =
      let chat = (capture_player_message w.clock names code p text flagged w.chat).1 in
      Confined-trans code w (with_chat w chat) _ (chat-Confined code w chat)
        (notify-Confined code (with_chat w chat) _ none)

  censor-Confined :
      (w : World) (p : String) (o : Outside) (text : Text)
      → Confined code w (censor_and_publish w code p o text)
  unfolding censor_and_publish
  censor-Confined w p o text =
      let got = active_words o.ticks o.loaded w.chat.words in
      let matches = find_matches o.is_alphanumeric text got.0 in
      let checked = with_chat w (record w.chat { words = got.1 }) in
      elim (Option-cases (mask text matches)) [
        | inl panicked ↦ rw (panicked, censor_and_publish) (chat-Confined code w checked.chat)
        | inr (masked, e) ↦
            rw (e, censor_and_publish)
              (Confined-trans code w checked _ (chat-Confined code w checked.chat)
                (publish-Confined checked p o.names text (matched_words matches) masked))
      ]

  say-Confined :
      (w : World) (p : String) (o : Outside) (text : Text) → Confined code w (say w code p o text)
  unfolding say
  say-Confined w p o text = elim (Bool-cases (is_empty (trim text))) [
    | inl blank ↦ rw blank (Confined-refl code w)
    | inr worded ↦ elim (Option-cases (lookup w.chat.bans (codes p))) [
      | inl free ↦ rw (worded, free) (censor-Confined w p o (take max_chat_len (trim text)))
      | inr (ban, e) ↦ rw (worded, e) (reply-Confined code w p (chat_banned ban.reason))
    ]
  ]

-- Whatever frame a player sends, no other session's key or room is touched, and a sound store
-- stays sound.
pub handle_client_frame-Confined :
    (code : String) (w : World) (p : String) (o : Outside) (frame : Option ClientMsg)
    → Confined code w (handle_client_frame w code p o frame).1
unfolding handle_client_frame
handle_client_frame-Confined code w p o none = Confined-refl code w
handle_client_frame-Confined code w p o (some (identify a b c)) = Confined-refl code w
handle_client_frame-Confined code w p o (some (ClientMsg.offer to sdp)) =
    reply-Confined code w to (ServerMsg.offer p sdp)
handle_client_frame-Confined code w p o (some (ClientMsg.answer to sdp)) =
    reply-Confined code w to (ServerMsg.answer p sdp)
handle_client_frame-Confined code w p o (some (ClientMsg.ice_candidate to a b c)) =
    reply-Confined code w to (ServerMsg.ice_candidate p a b c)
handle_client_frame-Confined code w p o (some (peer_connection_failed a b)) = Confined-refl code w
handle_client_frame-Confined code w p o (some (report_score scorer points)) =
    after_report-Confined code w (record_score w.hub code scorer points).0
      (record_score w.hub code scorer points).1 (record_score-Confined code w scorer points)
handle_client_frame-Confined code w p o (some (ClientMsg.time_sync sent)) =
    reply-Confined code w p (ServerMsg.time_sync sent w.clock)
handle_client_frame-Confined code w p o (some (send_chat text)) = say-Confined code w p o text
handle_client_frame-Confined code w p o (some client_ready) =
    after_ready-Confined code w p (record_ready w.hub code p).0 (record_ready w.hub code p).1
      (record_ready-Confined code w p)
handle_client_frame-Confined code w p o (some leave) = Confined-refl code w
