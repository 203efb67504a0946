-- ===== src/Socket/Frame/Examples.antt =====
-- Concrete cases.
use briska_blast.Common.{none, some, ◌++◌, ◌≡◌, refl, string_eq}
use briska_blast.Protocol.{ClientMsg, send_chat, chat_message, ChatKind}
use briska_blast.Chat.Ids.{text_eq}
use briska_blast.Chat.Transcript.{Text}
use briska_blast.Chat.Blacklist.Censored.{censor}
use briska_blast.Chat.Capture.{name_on_file}
use briska_blast.Hub.Rooms.{broadcast}
use briska_blast.Socket.Confined.{Confined}
use briska_blast.Socket.Frame.{handle_client_frame}
use briska_blast.Socket.Framed.{handle_client_frame-Confined}
use briska_blast.Socket.Spoken.{Speaks, handle_client_frame-Speaks}
use briska_blast.Socket.Said.{said, found_in, say-censored}
use briska_blast.Socket.Scene.{world, outside, text, free}

handle_client_frame-Confined_example :
    Confined "ABC" world (handle_client_frame world "ABC" "1" outside (some (send_chat text))).1
handle_client_frame-Confined_example =
    handle_client_frame-Confined "ABC" world "1" outside (some (send_chat text))

handle_client_frame-Speaks_example :
    Speaks "1" world
      (handle_client_frame world "ABC" "1" outside (some (ClientMsg.offer "2" "sdp"))).1
handle_client_frame-Speaks_example =
    handle_client_frame-Speaks "1" world "ABC" outside (some (ClientMsg.offer "2" "sdp"))

say-censored_example :
    (id : Text) × ((handle_client_frame world "ABC" "1" outside (some (send_chat text))).1.sent
      ≡ world.sent
        ++ broadcast world.alive world.hub "ABC"
            (chat_message (record {
              from = "1";
              username = name_on_file outside.names "1";
              text = censor (found_in world outside text) 0 (said text);
              kind = ChatKind.player;
              body_id = id;
            }))
            none)
say-censored_example = say-censored world "ABC" "1" outside text refl free
