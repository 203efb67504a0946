-- ===== src/Chat/Capture.antt =====
-- What becomes of a line of chat on the server: `capture_player_message` of server/src/chat/mod.rs, and
-- the moderation's state. `names` are the display names on file, `now` is the clock's reading.
use Prim.Native.Char.{code}
use briska_blast.Common.{ℕ, String, false, none, some, List, [], ◌∷◌, string_eq, ℤ, pos}
use briska_blast.Common.Dict
use briska_blast.Common.Dict.{Dict}
use briska_blast.Chat.Ids.{text_eq, next_id}
use briska_blast.Chat.Bans.{Bans, parse_u64}
use briska_blast.Chat.Transcript.{Text, Transcripts, StoredMessage, MessageKind, append, len}
use briska_blast.Chat.Audit.{
  AuditLog, AuditRecord, AuditCategory, empty_shelf, by_system, with_target, with_words,
  with_snapshot, word_filter_source, write,
}
use briska_blast.Chat.Blacklist.Words.{BlacklistCache}

-- The keys of the chat, and the cached words.
pub record ChatState : Type 0 where
  pub transcripts : Transcripts
  pub audit : AuditLog
  pub bans : Bans
  pub words : BlacklistCache

-- Before any chat.
abbrev pub quiet : ChatState
quiet = record {
  transcripts = record {
    live = Dict.empty;
    lines = Dict.empty;
    meta = Dict.empty;
    deleted = Dict.empty;
    retained = Dict.empty;
    flagged = Dict.empty;
    archives = Dict.empty;
    body_ids = record { counter = pos 0; epoch = none };
  };
  audit = record {
    records = Dict.empty;
    player_shelf = empty_shelf;
    word_shelf = empty_shelf;
    list_shelf = empty_shelf;
    system_shelf = empty_shelf;
    ids = record { counter = pos 0; epoch = none };
  };
  bans = Dict.empty;
  words = record { words = []; loaded_at = none };
}

-- The characters of a text.
abbrev pub codes : String → Text
codes String.[] = []
codes (String.◌∷◌ c s) = code c ∷ codes s

abbrev pub name_on_file : Dict String String → String → String
name_on_file names p = elim (Dict.get names p) [ none ↦ "" | some name ↦ name ]

pub record Captured : Type 0 where
  pub username : String
  pub body_id : Text

-- `Captured::named`.
abbrev pub named : String → Captured
named username = record { username = username; body_id = [] }

unfoldable pub player_line : Text → String → String → Text → List Text → ℤ → StoredMessage
player_line body_id p username text flagged_words now = record {
  body_id = body_id;
  kind = MessageKind.player;
  player_id = p;
  username = username;
  text = text;
  flagged_words = flagged_words;
  mod_user = "";
  mod_sub = "";
  mod_anonymous = false;
  delivered = none;
  at_ms = now;
}

unfoldable pub flag_record : ℤ → String → String → List Text → Text → ℕ → Text → AuditRecord
unfolding by_system parse_u64
flag_record now username p flagged_words sid cut_index body_id =
    with_snapshot sid cut_index (body_id ∷ []) (
      with_words flagged_words (
        with_target username (parse_u64 (codes p))
          (by_system now word_filter_source "Flag Word" "Matched blacklist")))

-- Once the line is stored.
unfoldable pub note_flag : ℤ → String → String → List Text → Text → Text → ChatState → ChatState
unfolding flag_record write len
note_flag now username p [] sid body_id chat = chat
note_flag now username p (word ∷ words) sid body_id chat = record chat {
  audit =
      write AuditCategory.system
        (flag_record now username p (word ∷ words) sid (len chat.transcripts sid) body_id)
        chat.audit;
}

unfoldable pub store_line :
    ℤ → String → String → String → Text → List Text → Text → ChatState → Captured × ChatState
unfolding player_line append note_flag
store_line now code p username text flagged_words body_id chat =
    let line = player_line body_id p username text flagged_words now in
    let (stored, transcripts) = append code line now chat.transcripts in
    let chat' = record chat { transcripts = transcripts } in
    elim stored [
      | none ↦ (named username, chat')
      | some sid ↦ (
        record { username = username; body_id = body_id },
        note_flag now username p flagged_words sid body_id chat',
      )
    ]

unfoldable pub capture_player_message :
    ℤ → Dict String String → String → String → Text → List Text → ChatState → Captured × ChatState
unfolding next_id store_line
capture_player_message now names code p text flagged_words chat =
    let username = name_on_file names p in
    let (issued, ids) = next_id chat.transcripts.body_ids in
    let counted : ChatState = record chat {
      transcripts = record chat.transcripts { body_ids = ids };
    } in
    elim issued [
      | none ↦ (named username, counted)
      | some i ↦ store_line now code p username text flagged_words i.id counted
    ]
