-- ===== src/Chat/Transcript/Examples.antt =====
-- Concrete cases.
use briska_blast.Common.{
  String, false, none, some, List, [], ◌∷◌, ◌≡◌, refl, pos, true, string_eq, arith,
}
use briska_blast.Common.Dict
use briska_blast.Common.Dict.{Dict}
use briska_blast.Chat.Ids.{text_eq}
use briska_blast.Chat.Transcript.{
  Text, MessageKind, StoredMessage, Transcripts, lines_of, append, sid_for, push_to,
  settle_instance, forget_code,
}
use briska_blast.Chat.Transcript.Pushed.{is_retained}
use briska_blast.Chat.Transcript.Late.{late_line-lost}

abbrev sid : Text
sid = 99 ∷ []

abbrev no_pointers : Dict String Text
no_pointers = Dict.empty

-- A session "ABC" whose instance is live, with nothing said.
abbrev opened : Transcripts
opened = record {
  live = Dict.insert no_pointers "ABC" sid;
  lines = Dict.empty;
  meta = Dict.empty;
  deleted = Dict.empty;
  retained = Dict.empty;
  flagged = Dict.empty;
  archives = Dict.empty;
  body_ids = record { counter = pos 0; epoch = none };
}

abbrev line : List Text → StoredMessage
line flagged_words = record {
  body_id = 97 ∷ [];
  kind = MessageKind.player;
  player_id = "1";
  username = "Ann";
  text = 120 ∷ [];
  flagged_words = flagged_words;
  mod_user = "";
  mod_sub = "";
  mod_anonymous = false;
  delivered = none;
  at_ms = pos 5;
}

abbrev flagged : StoredMessage
flagged = line ((120 ∷ []) ∷ [])

opened_live : Dict.get opened.live "ABC" ≡ some sid
opened_live = Dict.get-insert_self no_pointers "ABC" sid

appended : (append "ABC" flagged (pos 7) opened).0 ≡ some sid
unfolding append sid_for push_to
appended = ground (arith, opened_live)

no_line : is_retained opened sid ≡ false
unfolding is_retained
no_line = grind (arith, Dict.dict_laws)

late_line-lost_example :
    ((append "ABC" flagged (pos 7) opened).0 ≡ some sid)
    × (is_retained (append "ABC" flagged (pos 7) opened).1 sid ≡ true)
    × (lines_of
          (forget_code "ABC" (
            settle_instance
              (is_retained opened sid)
              sid
              (pos 9)
              (append "ABC" flagged (pos 7) opened).1))
          sid
        ≡ [])
late_line-lost_example =
    late_line-lost "ABC" flagged (pos 7) (pos 9) opened sid opened_live no_line refl
