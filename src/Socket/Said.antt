-- ===== src/Socket/Said.antt =====
-- What becomes of a line that a player sends: `send_chat` of server/src/signaling/ws/frame.rs, with the
-- bans of server/src/chat/mod.rs and the masks of server/src/chat/blacklist.rs.
use briska_blast.Common.{
  String, true, false, ◌≡◌, refl, sym, ℤ, none, some, List, ◌++◌, string_eq, is_empty, ◌⊎◌, arith,
  Bool-cases, Option-cases, inl, inr, contains,
}
use briska_blast.Common.Dict.{Dict}
use briska_blast.Protocol.{send_chat, chat_banned, chat_message, ChatKind}
use briska_blast.Chat.Ids.{text_eq, next_id}
use briska_blast.Chat.Bans.{BanEntry, Bans, trim, lookup, ban, normalize_id}
use briska_blast.Chat.Bans.Listed.{is_banned, ban-is_banned}
use briska_blast.Chat.Transcript.{Text, append}
use briska_blast.Chat.Blacklist.{Match, take, find_matches, matched_words}
use briska_blast.Chat.Blacklist.Words.{active_words}
use briska_blast.Chat.Blacklist.Masked.{mask-find_matches}
use briska_blast.Chat.Blacklist.Censored.{censor}
use briska_blast.Chat.Capture.{
  ChatState, codes, name_on_file, capture_player_message, store_line, player_line,
}
use briska_blast.Hub.Rooms.{broadcast, send_to}
use briska_blast.Socket.World.{World, notify, reply, with_chat}
use briska_blast.Socket.Frame.{
  Outside, publish, censor_and_publish, say, handle_client_frame, max_chat_len,
}

-- The world once these keys are banned.
abbrev pub after_ban : World → List Text → BanEntry → World
after_ban w ids entry = with_chat w (record w.chat { bans = (ban ids entry w.chat.bans).1 })

lookup-is_banned :
    (bans : Bans) (id : Text)
    → is_banned bans id ≡ true
    → (e : BanEntry) × (lookup bans id ≡ some e)
lookup-is_banned bans id h = elim (Option-cases (lookup bans id)) [
  | inl free ↦ absurd (ground (arith, h, free))
  | inr (e, at) ↦ (e, at)
]

-- A banned player's line, blank or not, changes nothing of the chat, and makes the server send nothing
-- but that player's notice of the ban.
abbrev pub IsSilenced : World → String → String → World → Type 0
IsSilenced w code p x =
    (x.chat ≡ w.chat)
    × ((x.sent ≡ w.sent)
        ⊎ ((reason : String) × (x.sent
              ≡ w.sent ++ (send_to w.alive w.hub code p (chat_banned reason)).1)))

pub say-IsSilenced :
    (w : World) (code p : String) (o : Outside) (text : Text)
    → is_banned w.chat.bans (codes p) ≡ true
    → IsSilenced w code p (say w code p o text)
unfolding say reply
say-IsSilenced w code p o text h =
    let (e, at) = lookup-is_banned w.chat.bans (codes p) h in
    elim (Bool-cases (is_empty (trim text))) [
      | inl blank ↦ rw blank (refl, inl refl)
      | inr worded ↦ rw (worded, at) (refl, inr (e.reason, refl))
    ]

-- After a ban that names a player under any spelling of the number, a line that the player sends
-- changes nothing of the chat's state, and makes the server send at most the notice of the ban,
-- to that player.
pub ban-IsSilenced :
    (w : World) (code p : String) (o : Outside) (text : Text) (ids : List Text) (entry : BanEntry)
    (raw key : Text)
    → contains ids raw ≡ true
    → normalize_id raw ≡ some key
    → normalize_id (codes p) ≡ some key
    → IsSilenced
        (after_ban w ids entry)
        code
        p
        (handle_client_frame (after_ban w ids entry) code p o (some (send_chat text))).1
unfolding handle_client_frame
ban-IsSilenced w code p o text ids entry raw key c n m =
    say-IsSilenced (after_ban w ids entry) code p o text
      (ban-is_banned ids entry w.chat.bans raw (codes p) key c n m)

-- The words at the time of a line, and what is found in it.
abbrev pub said : Text → Text
said text = take max_chat_len (trim text)

abbrev pub found_in : World → Outside → Text → List Match
found_in w o text =
    find_matches o.is_alphanumeric (said text) (active_words o.ticks o.loaded w.chat.words).0

abbrev pub checked : World → Outside → World
checked w o = with_chat w (record w.chat { words = (active_words o.ticks o.loaded w.chat.words).1 })

pub say-publish :
    (w : World) (code p : String) (o : Outside) (text : Text)
    → is_empty (trim text) ≡ false
    → lookup w.chat.bans (codes p) ≡ none
    → say w code p o text
      ≡ publish
          (checked w o)
          code
          p
          o.names
          (said text)
          (matched_words (found_in w o text))
          (censor (found_in w o text) 0 (said text))
unfolding say censor_and_publish
say-publish w code p o text worded free = rw (
  worded,
  free,
  censor_and_publish,
  mask-find_matches o.is_alphanumeric (said text) (active_words o.ticks o.loaded w.chat.words).0,
)

store_line-username :
    (now : ℤ) (code p username : String) (text : Text) (words : List Text) (id : Text)
    (chat : ChatState)
    → (store_line now code p username text words id chat).0.username ≡ username
unfolding store_line
store_line-username now code p username text words id chat =
    elim (Option-cases
      (append code (player_line id p username text words now) now chat.transcripts).0) [
        | inl lost ↦ rw (lost, store_line)
        | inr (sid, e) ↦ rw (e, store_line)
      ]

abbrev pub counted : ChatState → ChatState
counted chat = record chat {
  transcripts = record chat.transcripts { body_ids = (next_id chat.transcripts.body_ids).1 };
}

capture-username :
    (now : ℤ) (names : Dict String String) (code p : String) (text : Text) (words : List Text)
    (chat : ChatState)
    → (capture_player_message now names code p text words chat).0.username ≡ name_on_file names p
unfolding capture_player_message
capture-username now names code p text words chat =
    elim (Option-cases (next_id chat.transcripts.body_ids).0) [
      | inl spent ↦ rw (spent, capture_player_message)
      | inr (i, e) ↦
          rw (e, capture_player_message)
            (store_line-username now code p (name_on_file names p) text words i.id (counted chat))
    ]

-- A line that is not blank, of a player whom no ban names, is broadcast to the room once, from
-- that player under the name on file, as the first 500 characters of the trimmed text with each
-- character inside a found match replaced by `#`.
pub say-censored :
    (w : World) (code p : String) (o : Outside) (text : Text)
    → is_empty (trim text) ≡ false
    → lookup w.chat.bans (codes p) ≡ none
    → (id : Text) × ((handle_client_frame w code p o (some (send_chat text))).1.sent
        ≡ w.sent
          ++ broadcast w.alive w.hub code
              (chat_message (record {
                from = p;
                username = name_on_file o.names p;
                text = censor (found_in w o text) 0 (said text);
                kind = ChatKind.player;
                body_id = id;
              }))
              none)
unfolding handle_client_frame publish notify
say-censored w code p o text worded free =
    let words = matched_words (found_in w o text) in
    let captured =
      (capture_player_message w.clock o.names code p (said text) words (checked w o).chat).0 in
    (
      captured.body_id,
      rw (
        say-publish w code p o text worded free,
        sym (capture-username w.clock o.names code p (said text) words (checked w o).chat),
        publish,
        notify,
      ),
    )
