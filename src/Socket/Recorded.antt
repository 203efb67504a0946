-- ===== src/Socket/Recorded.antt =====
-- What a frame puts on the transcripts: server/src/signaling/ws/frame.rs with
-- server/src/chat/mod.rs.
use briska_blast.Common.{
  String, false, ◌≡◌, refl, ap, ℤ, Option, ◌∙◌, none, some, List, [], ◌∷◌, ◌++◌, string_eq,
  is_empty, arith, Bool-cases, Option-cases, inl, inr,
}
use briska_blast.Common.Dict
use briska_blast.Common.Dict.{Dict}
use briska_blast.Protocol.{
  ClientMsg, identify, leave, report_score, client_ready, peer_connection_failed, game_over,
  score_update, send_chat,
}
use briska_blast.Chat.Ids.{text_eq, Issued, next_id}
use briska_blast.Chat.Bans.{trim, lookup, ban}
use briska_blast.Chat.Transcript.{Text, Transcripts, StoredMessage, lines_of, append}
use briska_blast.Chat.Transcript.Kept.{Op, perform, minting, appending, perform_all, evidence-kept}
use briska_blast.Chat.Transcript.Late.{append-live}
use briska_blast.Chat.Blacklist.{matched_words}
use briska_blast.Chat.Capture.{
  ChatState, Captured, named, codes, name_on_file, capture_player_message, store_line, player_line,
  note_flag,
}
use briska_blast.Socket.World.{World, notify, reply, with_hub}
use briska_blast.Socket.Frame.{
  Outside, publish, say, announce_winner, after_report, after_ready, handle_client_frame,
}
use briska_blast.Chat.Transcript.Logged.{Logged, Logged-refl, Logged-perform, Logged-trans}
use briska_blast.Hub.Data.{Hub}
use briska_blast.Hub.Scores.{Report, record_score}
use briska_blast.Hub.Barrier.{
  ReadyOutcome, pending, all_ready, already_started, not_seated, record_ready,
}
use briska_blast.Socket.Ops.{start_match, activate_session, resume_if_cleared}
use briska_blast.Socket.Logged.{Log, Log-same, end_session-Logged, resume-chat}
use briska_blast.Socket.Said.{said, found_in, checked, counted, say-publish}

store_line-transcripts :
    (now : ℤ) (code p username : String) (text : Text) (words : List Text) (id : Text)
    (chat : ChatState)
    → (store_line now code p username text words id chat).1.transcripts
      ≡ (append code (player_line id p username text words now) now chat.transcripts).1
unfolding store_line note_flag
store_line-transcripts now code p username text [] id chat =
    elim (Option-cases
      (append code (player_line id p username text [] now) now chat.transcripts).0) [
        | inl lost ↦ rw (lost, store_line)
        | inr (sid, e) ↦ rw (e, store_line)
      ]
store_line-transcripts now code p username text (word ∷ words) id chat =
    elim (Option-cases
      (append code (player_line id p username text (word ∷ words) now) now chat.transcripts).0) [
        | inl lost ↦ rw (lost, store_line)
        | inr (sid, e) ↦ rw (e, store_line)
      ]

capture-transcripts :
    (now : ℤ) (names : Dict String String) (code p : String) (text : Text) (words : List Text)
    (chat : ChatState) (i : Issued)
    → (next_id chat.transcripts.body_ids).0 ≡ some i
    → (capture_player_message now names code p text words chat).1.transcripts
      ≡ (append code
          (player_line i.id p (name_on_file names p) text words now)
          now
          (counted chat).transcripts).1
unfolding capture_player_message
capture-transcripts now names code p text words chat i issued =
    let username = name_on_file names p in
    let captured : Option Issued → Captured × ChatState = λ x. elim x [
      | none ↦ (named username, counted chat)
      | some j ↦ store_line now code p username text words j.id (counted chat)
    ] in
    ap (λ x. (captured x).1.transcripts) issued
    ∙ store_line-transcripts now code p username text words i.id (counted chat)

capture-spent :
    (now : ℤ) (names : Dict String String) (code p : String) (text : Text) (words : List Text)
    (chat : ChatState)
    → (next_id chat.transcripts.body_ids).0 ≡ none
    → (capture_player_message now names code p text words chat).1.transcripts
      ≡ (counted chat).transcripts
unfolding capture_player_message
capture-spent now names code p text words chat spent =
    let captured : Option Issued → Captured × ChatState = λ x. elim x [
      | none ↦ (named (name_on_file names p), counted chat)
      | some j ↦ store_line now code p (name_on_file names p) text words j.id (counted chat)
    ] in
    ap (λ x. (captured x).1.transcripts) spent

capture-Logged :
    (now : ℤ) (names : Dict String String) (code p : String) (text : Text) (words : List Text)
    (chat : ChatState)
    → Logged chat.transcripts
        (capture_player_message now names code p text words chat).1.transcripts
unfolding perform
capture-Logged now names code p text words chat =
    let t = chat.transcripts in
    let minted = perform minting t in
    elim (Option-cases (next_id t.body_ids).0) [
      | inl spent ↦
          rw (capture-spent now names code p text words chat spent) (Logged-perform minting t)
      | inr (i, issued) ↦
          let line = player_line i.id p (name_on_file names p) text words now in
          rw (capture-transcripts now names code p text words chat i issued) (
            Logged-trans t minted (perform (appending code line now) minted)
              (Logged-perform minting t) (Logged-perform (appending code line now) minted))
    ]

say-Logged : (w : World) (code p : String) (o : Outside) (text : Text) → Log w (say w code p o text)
unfolding say reply publish notify
say-Logged w code p o text = elim (Bool-cases (is_empty (trim text))) [
  | inl blank ↦ rw blank (Logged-refl w.chat.transcripts)
  | inr worded ↦ elim (Option-cases (lookup w.chat.bans (codes p))) [
    | inl free ↦
        rw (say-publish w code p o text worded free, publish, notify)
          (capture-Logged w.clock o.names code p (said text) (matched_words (found_in w o text))
            (checked w o).chat)
    | inr (ban, e) ↦ rw (worded, e) (Logged-refl w.chat.transcripts)
  ]
]

announce_winner-Logged :
    (w : World) (code : String) (scores : Dict String ℤ) (winner : Option String)
    → Log w (announce_winner w code scores winner)
unfolding announce_winner notify
announce_winner-Logged w code scores none = Logged-refl w.chat.transcripts
announce_winner-Logged w code scores (some winner) =
    end_session-Logged (notify w code (game_over winner scores) none) code "game_over"

after_report-Logged : (w : World) (code : String) (r : Report × Hub) → Log w (after_report code r w)
unfolding after_report notify
after_report-Logged w code (none, hub) = Logged-refl w.chat.transcripts
after_report-Logged w code (some (scores, winner), hub) =
    announce_winner-Logged (notify (with_hub w hub) code (score_update scores) none) code scores
      winner

after_ready-Logged :
    (w : World) (code p : String) (r : ReadyOutcome × Hub) → Log w (after_ready code p r w)
unfolding after_ready start_match activate_session notify reply
after_ready-Logged w code p (pending, hub) = Logged-refl w.chat.transcripts
after_ready-Logged w code p (not_seated, hub) = Logged-refl w.chat.transcripts
after_ready-Logged w code p (all_ready, hub) = Logged-refl w.chat.transcripts
after_ready-Logged w code p (already_started, hub) =
    Log-same w (resume_if_cleared (with_hub w hub) code p) (resume-chat code (with_hub w hub) p)

pub handle_client_frame-Logged :
    (w : World) (code p : String) (o : Outside) (frame : Option ClientMsg)
    → Log w (handle_client_frame w code p o frame).1
unfolding handle_client_frame reply
handle_client_frame-Logged w code p o none = Logged-refl w.chat.transcripts
handle_client_frame-Logged w code p o (some (identify a b c)) = Logged-refl w.chat.transcripts
handle_client_frame-Logged w code p o (some (ClientMsg.offer to sdp)) =
    Logged-refl w.chat.transcripts
handle_client_frame-Logged w code p o (some (ClientMsg.answer to sdp)) =
    Logged-refl w.chat.transcripts
handle_client_frame-Logged w code p o (some (ClientMsg.ice_candidate to a b c)) =
    Logged-refl w.chat.transcripts
handle_client_frame-Logged w code p o (some (peer_connection_failed a b)) =
    Logged-refl w.chat.transcripts
handle_client_frame-Logged w code p o (some (report_score scorer points)) =
    after_report-Logged w code (record_score w.hub code scorer points)
handle_client_frame-Logged w code p o (some (ClientMsg.time_sync sent)) =
    Logged-refl w.chat.transcripts
handle_client_frame-Logged w code p o (some (send_chat text)) = say-Logged w code p o text
handle_client_frame-Logged w code p o (some client_ready) =
    after_ready-Logged w code p (record_ready w.hub code p)
handle_client_frame-Logged w code p o (some leave) = Logged-refl w.chat.transcripts

-- A line by this player, with this text, ends the old lines and stays.
abbrev pub IsOnRecord : String → Text → Text → Transcripts → Transcripts → Type 0
IsOnRecord p text sid t u =
    (line : StoredMessage) × (line.player_id ≡ p)
    × (line.text ≡ text)
    × (more : List StoredMessage) × (lines_of u sid ≡ lines_of t sid ++ line ∷ more)

-- If a player whom no ban names sends a line that is not blank and in which words of the
-- blacklist are found, the session's transcript is live and the sequence of ids is not at its
-- end, then the line as it was written, trimmed and cut to its first 500 characters but not
-- masked, is put on the transcript under the player's number, and stays on it whatever lines,
-- deletions, ends of sessions and sweeps follow.
pub flagged-kept :
    (w : World) (code p : String) (o : Outside) (text : Text) (sid : Text) (i : Issued)
    (ops : List Op)
    → is_empty (trim text) ≡ false
    → lookup w.chat.bans (codes p) ≡ none
    → is_empty (matched_words (found_in w o text)) ≡ false
    → Dict.get w.chat.transcripts.live code ≡ some sid
    → (next_id w.chat.transcripts.body_ids).0 ≡ some i
    → IsOnRecord p (said text) sid w.chat.transcripts (
        perform_all ops (handle_client_frame w code p o (some (send_chat text))).1.chat.transcripts)
unfolding handle_client_frame publish notify player_line lines_of
flagged-kept w code p o text sid i ops worded free hit live issued =
    let words = matched_words (found_in w o text) in
    let line = player_line i.id p (name_on_file o.names p) (said text) words w.clock in
    let t = (counted w.chat).transcripts in
    let (more, e) =
      evidence-kept ops code line w.clock t sid (append-live code line w.clock t sid live)
        (ground (arith, hit)) in
    (
      line,
      refl,
      refl,
      more,
      rw
          (
            say-publish w code p o text worded free,
            publish,
            notify,
            capture-transcripts w.clock o.names code p (said text) words (checked w o).chat i
                issued,
          )
          e,
    )
