-- ===== src/Socket/Frame.antt =====
-- The routing of a client's frames: server/src/signaling/ws/frame.rs, and `speak_as_moderator` of
-- server/src/chat/mod.rs. A frame that cannot be read is `none`; a panic ends the handler with nothing
-- done.
mod Examples
use briska_blast.Common.{
  ℕ, String, Bool, true, false, not, Option, none, some, List, [], ◌∷◌, is_empty, string_eq,
  if◌then◌else◌, ℤ,
}
use briska_blast.Common.Dict.{Dict}
use briska_blast.Protocol.{
  ClientMsg, identify, leave, report_score, send_chat, client_ready, peer_connection_failed,
  ServerMsg, score_update, game_over, chat_banned, chat_message, match_started, ChatKind, player,
  moderator,
}
use briska_blast.Chat.Ids.{Issued, next_id}
use briska_blast.Chat.Bans.{BanEntry, trim, lookup}
use briska_blast.Chat.Transcript.{Text, StoredMessage, MessageKind, append}
use briska_blast.Chat.Blacklist.{take, find_matches, matched_words, mask, Match}
use briska_blast.Chat.Blacklist.Words.{BlacklistEntry, active_words}
use briska_blast.Chat.Capture.{ChatState, Captured, codes, capture_player_message}
use briska_blast.Hub.Data.{Hub}
use briska_blast.Hub.Scores.{Report, record_score}
use briska_blast.Hub.Barrier.{
  ReadyOutcome, pending, all_ready, already_started, not_seated, record_ready,
}
use briska_blast.Socket.World.{World, notify, reply, with_hub, with_chat}
use briska_blast.Socket.Ops.{end_session, start_match, resume_if_cleared}

abbrev pub max_chat_len : ℕ
max_chat_len = 500

-- What a line of chat needs from outside: Unicode's letters and digits, the names on file, the words
-- that a reload reads, and the monotonic clock.
pub record Outside : Type 0 where
  pub is_alphanumeric : ℕ → Bool
  pub names : Dict String String
  pub loaded : Option (List BlacklistEntry)
  pub ticks : ℕ

-- `capture_player_message`, and the broadcast.
unfoldable pub publish :
    World → String → String → Dict String String → Text → List Text → Text → World
unfolding capture_player_message notify
publish w code p names text flagged masked =
    let (captured, chat) = capture_player_message w.clock names code p text flagged w.chat in
    notify (with_chat w chat) code
      (chat_message (record {
        from = p;
        username = captured.username;
        text = masked;
        kind = ChatKind.player;
        body_id = captured.body_id;
      }))
      none

-- A line of a player who is not banned.
unfoldable pub censor_and_publish : World → String → String → Outside → Text → World
unfolding active_words find_matches matched_words mask publish
censor_and_publish w code p o text =
    let (words, cache) = active_words o.ticks o.loaded w.chat.words in
    let matches = find_matches o.is_alphanumeric text words in
    let checked = with_chat w (record w.chat { words = cache }) in
    elim (mask text matches) [
      | none ↦ checked
      | some masked ↦ publish checked code p o.names text (matched_words matches) masked
    ]

unfoldable pub say : World → String → String → Outside → Text → World
unfolding lookup reply censor_and_publish
say w code p o text = if is_empty (trim text) then w else elim (lookup w.chat.bans (codes p)) [
  | some ban ↦ reply w code p (chat_banned ban.reason)
  | none ↦ censor_and_publish w code p o (take max_chat_len (trim text))
]

unfoldable pub announce_winner : World → String → Dict String ℤ → Option String → World
unfolding notify end_session
announce_winner w code scores none = w
announce_winner w code scores (some winner) =
    end_session (notify w code (game_over winner scores) none) code "game_over"

unfoldable pub after_report : String → Report × Hub → World → World
unfolding notify announce_winner
after_report code (none, hub) w = with_hub w hub
after_report code (some (scores, winner), hub) w =
    announce_winner (notify (with_hub w hub) code (score_update scores) none) code scores winner

unfoldable pub after_ready : String → String → ReadyOutcome × Hub → World → World
unfolding start_match resume_if_cleared reply
after_ready code p (pending, hub) w = with_hub w hub
after_ready code p (not_seated, hub) w = with_hub w hub
after_ready code p (all_ready, hub) w = start_match (with_hub w hub) code
after_ready code p (already_started, hub) w =
    reply (resume_if_cleared (with_hub w hub) code p) code p match_started

-- Whether the socket goes on, and the world.
unfoldable pub handle_client_frame :
    World → String → String → Outside → Option ClientMsg → Bool × World
unfolding reply after_report record_score say after_ready record_ready
handle_client_frame w code p o none = (true, w)
handle_client_frame w code p o (some (identify pid token rejoin)) = (true, w)
handle_client_frame w code p o (some (ClientMsg.offer to sdp)) =
    (true, reply w code to (ServerMsg.offer p sdp))
handle_client_frame w code p o (some (ClientMsg.answer to sdp)) =
    (true, reply w code to (ServerMsg.answer p sdp))
handle_client_frame w code p o (some (ClientMsg.ice_candidate to candidate mid line)) =
    (true, reply w code to (ServerMsg.ice_candidate p candidate mid line))
handle_client_frame w code p o (some (peer_connection_failed peer reason)) = (true, w)
handle_client_frame w code p o (some (report_score scorer points)) =
    (true, after_report code (record_score w.hub code scorer points) w)
handle_client_frame w code p o (some (ClientMsg.time_sync sent)) =
    (true, reply w code p (ServerMsg.time_sync sent w.clock))
handle_client_frame w code p o (some (send_chat text)) = (true, say w code p o text)
handle_client_frame w code p o (some client_ready) =
    (true, after_ready code p (record_ready w.hub code p) w)
handle_client_frame w code p o (some leave) = (false, w)

pub record ModeratorMessage : Type 0 where
  pub display_name : String
  pub moderator : String
  pub moderator_sub : String
  pub anonymous : Bool
  pub text : Text

abbrev pub moderator_line : ModeratorMessage → Text → ℤ → StoredMessage
moderator_line msg body_id now = record {
  body_id = body_id;
  kind = MessageKind.moderator;
  player_id = "";
  username = msg.display_name;
  text = msg.text;
  flagged_words = [];
  mod_user = msg.moderator;
  mod_sub = msg.moderator_sub;
  mod_anonymous = msg.anonymous;
  delivered = none;
  at_ms = now;
}

-- The id of the line, empty if it was not stored.
unfoldable pub store_moderator_line :
    ℤ → String → ModeratorMessage → Option Issued → ChatState → Text × ChatState
unfolding append
store_moderator_line now code msg none chat = ([], chat)
store_moderator_line now code msg (some i) chat =
    let (stored, transcripts) = append code (moderator_line msg i.id now) now chat.transcripts in
    (elim stored [ none ↦ [] | some sid ↦ i.id ], record chat { transcripts = transcripts })

unfoldable pub speak_as_moderator : World → String → ModeratorMessage → World
unfolding next_id store_moderator_line notify
speak_as_moderator w code msg =
    let (issued, ids) = next_id w.chat.transcripts.body_ids in
    let counted : ChatState = record w.chat {
      transcripts = record w.chat.transcripts { body_ids = ids };
    } in
    let (body_id, chat) = store_moderator_line w.clock code msg issued counted in
    notify (with_chat w chat) code
      (chat_message (record {
        from = "";
        username = msg.display_name;
        text = msg.text;
        kind = ChatKind.moderator;
        body_id = body_id;
      }))
      none
