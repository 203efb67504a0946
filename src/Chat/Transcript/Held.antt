-- ===== src/Chat/Transcript/Held.antt =====
-- What holds of the transcripts whatever comes between the commands of an end of a session:
-- `append` and `on_session_end` of server/src/chat/transcript.rs, command by command.
use briska_blast.Common.{
  ◌≡◌, refl, ap, ◌∙◌, String, Bool, true, false, ◌||◌, some, ◌++◌, [], ◌∷◌, ◌==◌, ==_iff, string_eq,
  any, ℤ, arith, Bool-cases, Option-cases, inl, inr, Option, none, List, keep, not,
}
use briska_blast.Common.Dict
use briska_blast.Chat.Ids.{text_eq}
use briska_blast.Chat.Transcript.{
  Text, StoredMessage, DeletionMark, Transcripts, lines_of, marks_of, sid_for, push_line, push_to,
  append, mark_each, mark_deleted, archive, discard, settle_instance, forget_code, on_session_end,
  end_each, sweep_orphans, del_transcript, del_meta, del_deleted, srem_flagged,
}
use briska_blast.Chat.Transcript.Kept.{
  Op, appending, marking, ending, sweeping, minting, perform, perform_all,
}
use briska_blast.Chat.Transcript.Marked.{archive-SameLines, empty_marks}
use briska_blast.Chat.Transcript.Pushed.{
  is_evidence, has_marks, is_retained, IsExact, SameLines, sid_for-SameLines, any-append,
  lines_of-push_line, retained-push_line, has_marks-push_line,
}

-- A transcript with a line of evidence, or a mark, is retained.
abbrev pub IsHeld : Transcripts → Type 0
IsHeld t =
    (sid : Text)
    → any is_evidence (lines_of t sid) || has_marks t sid ≡ true
    → is_retained t sid ≡ true

-- One command: of the end of a session, or the transaction of an append that has its transcript.
pub data Command : Type 0 where
  del_transcript_of del_meta_of del_deleted_of srem_flagged_of : Text → Command
  archive_of : Text → ℤ → Command
  del_live_of : String → Command
  push_line_of : Text → StoredMessage → Command

unfoldable pub run : Command → Transcripts → Transcripts
unfolding archive push_line
run (del_transcript_of sid) t = del_transcript sid t
run (del_meta_of sid) t = del_meta sid t
run (del_deleted_of sid) t = del_deleted sid t
run (srem_flagged_of sid) t = srem_flagged sid t
run (archive_of sid now) t = archive sid now t
run (del_live_of code) t = forget_code code t
run (push_line_of sid msg) t = push_line sid msg t

pub IsExact-IsHeld : (t : Transcripts) → IsExact t → IsHeld t
IsExact-IsHeld t x sid h = x sid ∙ h

SameLines-IsHeld : (t u : Transcripts) → SameLines t u → IsHeld t → IsHeld u
unfolding lines_of is_retained has_marks
SameLines-IsHeld t u s x sid = rw (s.lines, s.deleted, s.retained) (x sid)

push_line-IsHeld :
    (sid : Text) (msg : StoredMessage) (t : Transcripts) → IsHeld t → IsHeld (push_line sid msg t)
push_line-IsHeld sid msg t x j h = elim (Bool-cases (sid == j)) [
  | inl own ↦
      let same = (==_iff sid j).0 own in
      let added : lines_of (push_line sid msg t) j ≡ lines_of t j ++ msg ∷ [] =
        lines_of-push_line sid j msg t ∙ rw (own, same) refl in
      ground (
        arith,
        own,
        h,
        x j,
        retained-push_line sid j msg t,
        ap (any is_evidence) added,
        any-append is_evidence (lines_of t j) (msg ∷ []),
        has_marks-push_line sid j msg t,
      )
  | inr other ↦
      let kept : lines_of (push_line sid msg t) j ≡ lines_of t j =
        lines_of-push_line sid j msg t ∙ rw other refl in
      ground (
        arith,
        other,
        h,
        x j,
        retained-push_line sid j msg t,
        ap (any is_evidence) kept,
        has_marks-push_line sid j msg t,
      )
]

push_to-IsHeld :
    (got : Option Text) (msg : StoredMessage) (t : Transcripts)
    → IsHeld t
    → IsHeld (push_to got msg t).1
unfolding push_to
push_to-IsHeld none msg t x = x
push_to-IsHeld (some sid) msg t x = push_line-IsHeld sid msg t x

append-IsHeld :
    (code : String) (msg : StoredMessage) (now : ℤ) (t : Transcripts)
    → IsHeld t
    → IsHeld (append code msg now t).1
unfolding append
append-IsHeld code msg now t x =
    let got = sid_for code now t in
    push_to-IsHeld got.0 msg got.1 (SameLines-IsHeld t got.1 (sid_for-SameLines code now t) x)

mark_deleted-IsHeld :
    (sid : Text) (ids : List Text) (mark : DeletionMark) (t : Transcripts)
    → IsHeld t
    → IsHeld (mark_deleted sid ids mark t)
unfolding mark_deleted is_retained lines_of has_marks marks_of
mark_deleted-IsHeld sid [] mark t x j h = x j h
mark_deleted-IsHeld sid (id ∷ ids) mark t x j h = elim (Bool-cases (sid == j)) [
  | inl own ↦ ground (arith, own, Dict.contains_key-insert t.retained sid tt j)
  | inr other ↦ ground (
    arith,
    other,
    h,
    x j,
    Dict.contains_key-insert t.retained sid tt j,
    Dict.get-insert t.deleted sid (mark_each (id ∷ ids) mark (marks_of t sid)) j,
  )
]

pub run-IsHeld : (c : Command) (t : Transcripts) → IsHeld t → IsHeld (run c t)
unfolding run lines_of is_retained has_marks marks_of
run-IsHeld (del_transcript_of sid) t x j h =
    ground (arith, h, x j, Dict.get-remove t.lines sid j, ==_iff sid j)
run-IsHeld (del_meta_of sid) t x j h = x j h
run-IsHeld (del_deleted_of sid) t x j h =
    ground (arith, h, x j, Dict.get-remove t.deleted sid j, ==_iff sid j, empty_marks)
run-IsHeld (srem_flagged_of sid) t x j h = x j h
run-IsHeld (archive_of sid now) t x j h =
    SameLines-IsHeld t (archive sid now t) (archive-SameLines sid now t) x j h
run-IsHeld (del_live_of code) t x j h = x j h
run-IsHeld (push_line_of sid msg) t x j h = push_line-IsHeld sid msg t x j h

-- An end of a session is its commands.
settle-IsHeld :
    (held : Bool) (sid : Text) (now : ℤ) (t : Transcripts)
    → IsHeld t
    → IsHeld (settle_instance held sid now t)
unfolding settle_instance discard run
settle-IsHeld true sid now t x = run-IsHeld (archive_of sid now) t x
settle-IsHeld false sid now t x =
    let a = del_transcript sid t in
    let b = del_meta sid a in
    let c = del_deleted sid b in
    run-IsHeld (srem_flagged_of sid) c (
      run-IsHeld (del_deleted_of sid) b
        (run-IsHeld (del_meta_of sid) a (run-IsHeld (del_transcript_of sid) t x)))

on_session_end-IsHeld :
    (code : String) (now : ℤ) (t : Transcripts) → IsHeld t → IsHeld (on_session_end code now t)
unfolding on_session_end run
on_session_end-IsHeld code now t x = elim (Option-cases (Dict.get t.live code)) [
  | inl quiet ↦ rw (quiet, on_session_end) x
  | inr (sid, e) ↦
      let held = Dict.contains_key t.retained sid in
      rw (e, on_session_end)
        (run-IsHeld (del_live_of code) (settle_instance held sid now t)
          (settle-IsHeld held sid now t x))
]

end_each-IsHeld :
    (codes : List String) (now : ℤ) (t : Transcripts) → IsHeld t → IsHeld (end_each codes now t)
unfolding end_each
end_each-IsHeld [] now t x = x
end_each-IsHeld (code ∷ codes) now t x =
    end_each-IsHeld codes now (on_session_end code now t) (on_session_end-IsHeld code now t x)

perform-IsHeld : (op : Op) (t : Transcripts) → IsHeld t → IsHeld (perform op t)
unfolding perform sweep_orphans has_marks is_retained
perform-IsHeld (appending code msg now) t x = append-IsHeld code msg now t x
perform-IsHeld (marking sid ids mark) t x = mark_deleted-IsHeld sid ids mark t x
perform-IsHeld (ending code now) t x = on_session_end-IsHeld code now t x
perform-IsHeld (sweeping store now) t x =
    end_each-IsHeld (keep (λ code. not (Dict.contains_key store code)) (Dict.keys t.live)) now t x
perform-IsHeld minting t x = x

pub perform_all-IsHeld : (ops : List Op) (t : Transcripts) → IsHeld t → IsHeld (perform_all ops t)
unfolding perform_all
perform_all-IsHeld [] t x = x
perform_all-IsHeld (op ∷ ops) t x = perform_all-IsHeld ops (perform op t) (perform-IsHeld op t x)
