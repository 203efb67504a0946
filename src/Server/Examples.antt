-- ===== src/Server/Examples.antt =====
-- Concrete cases.
use briska_blast.Common.{List, String, true, some, [], ◌∷◌, refl, pos, string_eq, arith}
use briska_blast.Common.Dict
use briska_blast.Common.Dict.{Dict}
use briska_blast.Protocol.{send_chat}
use briska_blast.Chat.Ids.{text_eq}
use briska_blast.Chat.Transcript.{Text}
use briska_blast.Socket.Said.{said}
use briska_blast.Socket.Recorded.{IsOnRecord}
use briska_blast.Socket.Scene.{
  no_keys, sid, no_pointers, world, outside, text, free, first_id, issued, hit,
}
use briska_blast.Chat.Transcript.{lines_of, marks_of, DeletionMark}
use briska_blast.Chat.Transcript.Held.{IsHeld, del_transcript_of, del_live_of}
use briska_blast.Chat.Transcript.Pushed.{IsExact, is_retained, has_marks}
use briska_blast.Socket.Steps.{closed, promotion_due}
use briska_blast.Hub.Data.{empty}
use briska_blast.Server.Evidence.{
  changed, Step, framed, happening, swept, ticked, serve_all, take_turns, Turn, whole, command,
  take_turns-IsMarked, flagged-survives,
}

abbrev same_hash : String → String
same_hash token = token

-- The line, the end of the host's socket, a promotion that is due, and a sweep.
abbrev later : List Step
later =
    happening "ABC" (closed "2" 1 true true 20)
    ∷ happening "ABC" (promotion_due "2" 50)
    ∷ ticked (pos 60)
    ∷ changed no_keys empty
    ∷ swept
    ∷ []

abbrev no_marks : Dict Text DeletionMark
no_marks = Dict.empty

world-IsExact : IsExact world.chat.transcripts
unfolding lines_of is_retained has_marks marks_of
world-IsExact s = grind (arith, Dict.dict_laws, Dict.is_empty-empty no_marks refl)

-- The line comes after an end's check, and before its deletes.
abbrev late : List Turn
late =
    whole (framed "ABC" "1" outside (some (send_chat text)))
    ∷ command (del_transcript_of sid)
    ∷ command (del_live_of "ABC")
    ∷ whole swept
    ∷ []

take_turns-IsMarked_example :
    IsExact (serve_all same_hash later world).chat.transcripts
    × IsHeld (take_turns same_hash late world).chat.transcripts
take_turns-IsMarked_example = take_turns-IsMarked same_hash later late world world-IsExact

flagged-survives_example :
    IsOnRecord "1"
      (said text)
      sid
      world.chat.transcripts
      (serve_all same_hash
        (framed "ABC" "1" outside (some (send_chat text)) ∷ later)
        world).chat.transcripts
flagged-survives_example =
    flagged-survives same_hash world "ABC" "1" outside text sid first_id later refl free hit
      (Dict.get-insert_self no_pointers "ABC" sid) issued
