-- ===== src/Moderation/Press.antt =====
-- One press of a moderator's tool, and what is written for a target: parts of `apply` of
-- server/src/admin/chatmod/player.rs. The fields of the form come trimmed and split.
use briska_blast.Common.{
  ℕ, zero, suc, String, Bool, true, false, ◌||◌, Option, none, some, List, [], ◌∷◌, ◌==◌, string_eq,
  is_empty, keep, any, contains, if◌then◌else◌, ℤ,
}
use briska_blast.Common.Dict
use briska_blast.Common.Dict.{Dict}
use briska_blast.Protocol.{ServerMsg, chat_warning, chat_banned}
use briska_blast.Session.Data.{contains_player}
use briska_blast.Session.Store.{decode}
use briska_blast.Chat.Ids.{Issued, text_eq, next_id}
use briska_blast.Chat.Bans.{BanEntry, number_or_zero, parse_u64}
use briska_blast.Chat.Transcript.{
  Text, MessageKind, StoredMessage, Transcripts, lines_of, len, append,
}
use briska_blast.Chat.Audit.{
  AuditRecord, audit_list_name, by_moderator, with_target, with_words, with_delivery, with_list,
  with_snapshot, in_full,
}
use briska_blast.Chat.Capture.{codes, name_on_file}
use briska_blast.Players.Numbers.{text_leb}
use briska_blast.Socket.World.{World}
use briska_blast.Socket.Frame.{max_chat_len}

-- `AdminSession`, with the label of its role.
pub record AdminSession : Type 0 where
  pub username : String
  pub sub : String
  pub role_label : String

pub record WarnForm : Type 0 where
  pub targets : List String
  pub body_ids : List Text
  pub reason : String

pub data Action : Type 0 where
  warn : Bool → Action
  ban_user : Action

abbrev pub is_ban : Action → Bool
is_ban (warn delete) = false
is_ban ban_user = true

abbrev pub label : Action → String
label (warn true) = "Warn + Delete"
label (warn false) = "Warn"
label ban_user = "Ban"

abbrev pub transcript_kind : Action → MessageKind
transcript_kind (warn delete) = MessageKind.warning
transcript_kind ban_user = MessageKind.ban

abbrev pub frame : Action → String → ServerMsg
frame (warn delete) reason = chat_warning reason
frame ban_user reason = chat_banned reason

abbrev pub deletes : Action → Bool
deletes (warn delete) = delete
deletes ban_user = false

-- `chars().take(n)`.
abbrev pub take_chars : ℕ → String → String
take_chars zero s = ""
take_chars (suc n) String.[] = ""
take_chars (suc n) (String.◌∷◌ c s) = String.◌∷◌ c (take_chars n s)

-- Why nothing was done.
pub data Refusal : Type 0 where
  no_session no_reason no_target none_ticked no_history not_its_bodies no_valid_target : Refusal

-- The players that the reply names.
pub record Summary : Type 0 where
  pub delivered_to : List String
  pub undelivered : List String
  pub already : List String

abbrev pub nobody : Summary
nobody = record { delivered_to = []; undelivered = []; already = [] }

-- `known`: the sender of the last line with this id.
unfoldable pub sender_of_body : List StoredMessage → Text → Option String
sender_of_body [] id = none
sender_of_body (m ∷ l) id = elim (sender_of_body l id) [
  | some p ↦ some p
  | none ↦ if m.body_id == id then some m.player_id else none
]

abbrev pub is_known : List StoredMessage → Text → Bool
unfolding sender_of_body
is_known lines id = elim (sender_of_body lines id) [ none ↦ false | some p ↦ true ]

unfoldable pub known_bodies : List StoredMessage → List Text → List Text
known_bodies lines selected = keep (is_known lines) selected

abbrev pub is_from : List StoredMessage → String → Text → Bool
unfolding sender_of_body
is_from lines p id = elim (sender_of_body lines id) [ none ↦ false | some q ↦ q == p ]

-- The bodies that this player sent.
unfoldable pub covered_by : List StoredMessage → List Text → String → List Text
covered_by lines bodies p = keep (is_from lines p) bodies

-- A `BTreeSet` in order.
unfoldable pub set_insert : Text → List Text → List Text
set_insert w [] = w ∷ []
set_insert w (x ∷ l) =
    let rest = set_insert w l in
    if w == x then x ∷ l else if text_leb w x then w ∷ x ∷ l else x ∷ rest

unfoldable pub insert_all : List Text → List Text → List Text
unfolding set_insert
insert_all [] l = l
insert_all (w ∷ ws) l = set_insert w (insert_all ws l)

-- The words that fired on these bodies.
unfoldable pub words_on : List StoredMessage → List Text → List Text
unfolding insert_all
words_on [] covered = []
words_on (m ∷ l) covered =
    let rest = words_on l covered in
    if contains covered m.body_id then insert_all m.flagged_words rest else rest

-- Seated now, or on record as having spoken.
abbrev pub has_spoken : List StoredMessage → String → Bool
has_spoken lines p = any (λ m. m.player_id == p) lines

abbrev pub is_seated : World → String → String → Bool
is_seated w code p = elim (Dict.get w.store code) [
  | none ↦ false
  | some raw ↦ elim (decode raw) [ none ↦ false | some s ↦ contains_player s p ]
]

abbrev pub is_target : World → String → List StoredMessage → String → Bool
is_target w code lines p = is_seated w code p || has_spoken lines p

-- What one press shares between its targets.
pub record Press : Type 0 where
  pub session : AdminSession
  pub action : Action
  pub code : String
  pub reason : String
  pub sid : Text
  pub lines : List StoredMessage
  pub bodies : List Text
  pub cut_index : ℕ
  pub names : Dict String String

unfoldable pub ban_entry : Press → String → List Text → ℤ → BanEntry
ban_entry press p words now = record {
  player_id = number_or_zero (codes p);
  username = name_on_file press.names p;
  reason = press.reason;
  words = words;
  banned_by = press.session.username;
  banned_sub = press.session.sub;
  at_ms = now;
  sid = press.sid;
  cut_index = press.cut_index;
}

-- `next_body_id(…).unwrap_or_default()`.
abbrev pub id_or_empty : Option Issued → Text
id_or_empty none = []
id_or_empty (some i) = i.id

unfoldable pub echo_line : Press → String → Bool → Text → ℤ → StoredMessage
echo_line press p delivered body_id now = record {
  body_id = body_id;
  kind = transcript_kind press.action;
  player_id = p;
  username = name_on_file press.names p;
  text = codes press.reason;
  flagged_words = [];
  mod_user = press.session.username;
  mod_sub = press.session.sub;
  mod_anonymous = false;
  delivered = some delivered;
  at_ms = now;
}

-- The echo on the transcript, if there is one.
unfoldable pub echo : Press → String → Bool → ℤ → Transcripts → Transcripts
unfolding next_id echo_line append
echo press p delivered now t =
    let (issued, ids) = next_id t.body_ids in
    let line = echo_line press p delivered (id_or_empty issued) now in
    let echoed = (append press.code line now (record t { body_ids = ids })).1 in
    if is_empty press.sid then t else echoed

unfoldable pub action_record : Press → String → Bool → List Text → List Text → ℤ → AuditRecord
unfolding by_moderator parse_u64
action_record press p delivered covered words now =
    let r = with_delivery delivered (
      with_words words (
        with_target (name_on_file press.names p) (parse_u64 (codes p)) (
          by_moderator now press.session.username press.session.sub press.session.role_label
            (label press.action) press.reason))) in
    let listed = if is_ban press.action then with_list audit_list_name r else r in
    let pinned = with_snapshot press.sid press.cut_index covered listed in
    if is_empty press.sid then listed else if is_ban press.action then in_full pinned else pinned

-- `live_sid(…).unwrap_or_default()`.
abbrev pub live_sid : World → String → Text
live_sid w code = elim (Dict.get w.chat.transcripts.live code) [ none ↦ [] | some sid ↦ sid ]

abbrev pub lines_at : World → Text → List StoredMessage
unfolding lines_of
lines_at w sid = if is_empty sid then [] else lines_of w.chat.transcripts sid

unfoldable pub press_of :
    Dict String String → AdminSession → Action → String → WarnForm → World → Press
unfolding known_bodies len
press_of names session action code form w =
    let sid = live_sid w code in
    record {
      session = session;
      action = action;
      code = code;
      reason = take_chars max_chat_len form.reason;
      sid = sid;
      lines = lines_at w sid;
      bodies = known_bodies (lines_at w sid) form.body_ids;
      cut_index = if is_empty sid then 0 else len w.chat.transcripts sid;
      names = names;
    }
