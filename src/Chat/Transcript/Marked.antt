-- ===== src/Chat/Transcript/Marked.antt =====
-- What marks of deletions, and the writes of an end of a session, do to what is retained: `mark_deleted`
-- and `on_session_end` of server/src/chat/transcript.rs.
use briska_blast.Common.{
  ◌≡◌, refl, sym, String, true, false, Option, none, some, List, [], ◌∷◌, ==_iff, string_eq, ℤ,
  arith, Bool-cases, inl, inr,
}
use mathlib.Core.List.{append-nil}
use briska_blast.Common.Dict
use briska_blast.Common.Dict.{Dict}
use briska_blast.Chat.Ids.{text_eq}
use briska_blast.Chat.Transcript.{
  Text, StoredMessage, DeletionMark, Transcripts, lines_of, marks_of, sid_for, push_to, append,
  mark_each, mark_deleted, archive, discard, forget_code,
}
use briska_blast.Chat.Transcript.Pushed.{
  has_marks, is_retained, IsExact, IsExact, Keeps, Keeps-refl, Keeps-trans, SameLines,
  SameLines-Keeps, SameLines-IsExact, sid_for-SameLines, push_line-Keeps, push_line-IsExact,
}

abbrev no_marks : Dict Text DeletionMark
no_marks = Dict.empty

insert-some :
    (marks : Dict Text DeletionMark) (id : Text) (mark : DeletionMark)
    → Dict.is_empty (Dict.insert marks id mark) ≡ false
insert-some marks id mark = elim (Bool-cases (Dict.is_empty (Dict.insert marks id mark))) [
  | inr some_there ↦ some_there
  | inl none_there ↦ cc (
    Dict.is_empty-get (Dict.insert marks id mark) id none_there,
    Dict.get-insert_self marks id mark,
  )
]

pub empty_marks : Dict.is_empty no_marks ≡ true
empty_marks = Dict.is_empty-empty no_marks refl

push_to-Keeps :
    (sid : Option Text) (j : Text) (msg : StoredMessage) (t : Transcripts)
    → Keeps j t (push_to sid msg t).1
unfolding push_to
push_to-Keeps none j msg t = Keeps-refl j t
push_to-Keeps (some sid) j msg t = push_line-Keeps sid j msg t

push_to-IsExact :
    (sid : Option Text) (msg : StoredMessage) (t : Transcripts)
    → IsExact t
    → IsExact (push_to sid msg t).1
unfolding push_to
push_to-IsExact none msg t x = x
push_to-IsExact (some sid) msg t x = push_line-IsExact sid msg t x

pub append-Keeps :
    (j : Text) (code : String) (msg : StoredMessage) (now : ℤ) (t : Transcripts)
    → Keeps j t (append code msg now t).1
unfolding append
append-Keeps j code msg now t =
    let got = sid_for code now t in
    Keeps-trans j t got.1 _ (SameLines-Keeps j t got.1 (sid_for-SameLines code now t))
      (push_to-Keeps got.0 j msg got.1)

pub append-IsExact :
    (code : String) (msg : StoredMessage) (now : ℤ) (t : Transcripts)
    → IsExact t
    → IsExact (append code msg now t).1
unfolding append
append-IsExact code msg now t x =
    let got = sid_for code now t in
    push_to-IsExact got.0 msg got.1 (SameLines-IsExact t got.1 (sid_for-SameLines code now t) x)

mark_each-some :
    (ids : List Text) (mark : DeletionMark) (marks : Dict Text DeletionMark)
    → Dict.is_empty marks ≡ false
    → Dict.is_empty (mark_each ids mark marks) ≡ false
unfolding mark_each
mark_each-some [] mark marks h = h
mark_each-some (id ∷ ids) mark marks h =
    mark_each-some ids mark (Dict.insert marks id mark) (insert-some marks id mark)

pub mark_deleted-Keeps :
    (sid j : Text) (ids : List Text) (mark : DeletionMark) (t : Transcripts)
    → Keeps j t (mark_deleted sid ids mark t)
unfolding mark_deleted is_retained lines_of
mark_deleted-Keeps sid j [] mark t = Keeps-refl j t
mark_deleted-Keeps sid j (id ∷ ids) mark t =
    λ h. (ground (arith, h, Dict.contains_key-insert t.retained sid tt j), [], sym (append-nil _))

pub mark_deleted-IsExact :
    (sid : Text) (ids : List Text) (mark : DeletionMark) (t : Transcripts)
    → IsExact t
    → IsExact (mark_deleted sid ids mark t)
unfolding mark_deleted is_retained lines_of has_marks mark_each marks_of
mark_deleted-IsExact sid [] mark t x j = x j
mark_deleted-IsExact sid (id ∷ ids) mark t x j =
    let marks = mark_each (id ∷ ids) mark (marks_of t sid) in
    ground (
      arith,
      x j,
      Dict.contains_key-insert t.retained sid tt j,
      Dict.get-insert t.deleted sid marks j,
      mark_each-some ids mark (Dict.insert (marks_of t sid) id mark)
          (insert-some (marks_of t sid) id mark),
    )

pub archive-SameLines : (sid : Text) (now : ℤ) (t : Transcripts) → SameLines t (archive sid now t)
unfolding archive
archive-SameLines sid now t = record { lines = refl; deleted = refl; retained = refl }

pub discard-Keeps :
    (sid j : Text) (t : Transcripts) → is_retained t sid ≡ false → Keeps j t (discard sid t)
unfolding discard lines_of is_retained
discard-Keeps sid j t out h = (
  h,
  [],
  ground (arith, h, out, append-nil (lines_of t j), Dict.get-remove t.lines sid j, ==_iff sid j),
)

pub discard-IsExact :
    (sid : Text) (t : Transcripts) → is_retained t sid ≡ false → IsExact t → IsExact (discard sid t)
unfolding discard lines_of is_retained has_marks marks_of
discard-IsExact sid t out x j = ground (
  arith,
  out,
  x j,
  Dict.get-remove t.lines sid j,
  Dict.get-remove t.deleted sid j,
  ==_iff sid j,
  empty_marks,
)

pub forget-SameLines : (code : String) (t : Transcripts) → SameLines t (forget_code code t)
forget-SameLines code t = record { lines = refl; deleted = refl; retained = refl }
