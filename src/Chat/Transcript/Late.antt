-- ===== src/Chat/Transcript/Late.antt =====
-- A line that comes while its session ends: `append` and `on_session_end` of
-- server/src/chat/transcript.rs, each with its reads and its writes apart.
use briska_blast.Common.{◌≡◌, String, true, false, some, [], string_eq, ℤ, arith}
use briska_blast.Common.Dict
use briska_blast.Chat.Ids.{text_eq}
use briska_blast.Chat.Transcript.{
  Text, StoredMessage, Transcripts, lines_of, append, sid_for, push_to, settle_instance, discard,
  forget_code,
}
use briska_blast.Chat.Transcript.Kept.{push_to-evidence}
use briska_blast.Chat.Transcript.Pushed.{is_evidence, is_retained}

discard-lines :
    (code : String) (sid : Text) (t : Transcripts)
    → lines_of (forget_code code (discard sid t)) sid ≡ []
unfolding discard lines_of
discard-lines code sid t = rw (Dict.get-remove_self t.lines sid, lines_of)

pub append-live :
    (code : String) (msg : StoredMessage) (now : ℤ) (t : Transcripts) (sid : Text)
    → Dict.get t.live code ≡ some sid
    → (append code msg now t).0 ≡ some sid
unfolding append sid_for push_to
append-live code msg now t sid live = ground (arith, live)

append-retained :
    (code : String) (msg : StoredMessage) (now : ℤ) (t : Transcripts) (sid : Text)
    → (append code msg now t).0 ≡ some sid
    → is_evidence msg ≡ true
    → is_retained (append code msg now t).1 sid ≡ true
unfolding append
append-retained code msg now t sid h ev =
    let got = sid_for code now t in (push_to-evidence got.0 msg got.1 sid h ev).0

-- If an end of a session has found its transcript not retained, and a line to be kept is appended
-- before the deletes, the append reports the transcript it put the line on and marks that as
-- retained, and the deletes leave no line of it.
pub late_line-lost :
    (code : String) (msg : StoredMessage) (now later : ℤ) (t : Transcripts) (sid : Text)
    → Dict.get t.live code ≡ some sid
    → is_retained t sid ≡ false
    → is_evidence msg ≡ true
    → ((append code msg now t).0 ≡ some sid)
      × (is_retained (append code msg now t).1 sid ≡ true)
      × (lines_of
            (forget_code code
              (settle_instance (is_retained t sid) sid later (append code msg now t).1))
            sid
          ≡ [])
unfolding settle_instance
late_line-lost code msg now later t sid live out ev =
    let stored = append-live code msg now t sid live in
    (
      stored,
      append-retained code msg now t sid stored ev,
      rw (out, settle_instance) (discard-lines code sid (append code msg now t).1),
    )
