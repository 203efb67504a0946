-- ===== src/Chat/Transcript/Pushed.antt =====
-- Which instances are retained, and what the write of a line does to that: `sid_for` and `append` of
-- server/src/chat/transcript.rs.
use briska_blast.Common.{
  ◌≡◌, refl, sym, ap, ◌∙◌, String, Bool, true, not, ◌&&◌, ◌||◌, Option, none, some, List, [], ◌∷◌,
  ◌++◌, ◌==◌, ==_iff, string_eq, any, if◌then◌else◌, ℤ, arith, Bool-cases, Option-cases, inl, inr,
}
use mathlib.Core.List.{append_assoc, append-nil}
use briska_blast.Common.Dict
use briska_blast.Common.Dict.{Dict}
use briska_blast.Chat.Ids.{Issued, text_eq, next_id}
use briska_blast.Chat.Transcript.{
  Text, StoredMessage, Transcripts, is_flagged, is_player, lines_of, marks_of, claim, claim_issued,
  sid_for, push_line,
}

-- A line that is to outlive its session.
abbrev pub is_evidence : StoredMessage → Bool
is_evidence msg = is_flagged msg || not (is_player msg.kind)

unfoldable pub has_marks : Transcripts → Text → Bool
unfolding marks_of
has_marks t sid = not (Dict.is_empty (marks_of t sid))

unfoldable pub is_retained : Transcripts → Text → Bool
is_retained t sid = Dict.contains_key t.retained sid

-- An instance is retained exactly when it has a line of evidence, or a mark.
abbrev pub IsExact : Transcripts → Type 0
IsExact t = (sid : Text) → is_retained t sid ≡ any is_evidence (lines_of t sid) || has_marks t sid

-- A retained instance stays so, and its lines are only added to.
abbrev pub Keeps : Text → Transcripts → Transcripts → Type 0
Keeps sid t u =
    is_retained t sid ≡ true
    → (is_retained u sid ≡ true)
      × (more : List StoredMessage) × (lines_of u sid ≡ lines_of t sid ++ more)

pub Keeps-refl : (sid : Text) (t : Transcripts) → Keeps sid t t
Keeps-refl sid t h = (h, [], sym (append-nil _))

pub Keeps-trans : (sid : Text) (t u v : Transcripts) → Keeps sid t u → Keeps sid u v → Keeps sid t v
Keeps-trans sid t u v f g h =
    let (ru, more, e) = f h in
    let (rv, rest, e') = g ru in
    (rv, more ++ rest, e' ∙ ap (λ l. l ++ rest) e ∙ append_assoc (lines_of t sid) more rest)

-- Nothing that an instance has changes.
pub record SameLines (t u : Transcripts) : Type 0 where
  pub lines : u.lines ≡ t.lines
  pub deleted : u.deleted ≡ t.deleted
  pub retained : u.retained ≡ t.retained

pub SameLines-Keeps : (sid : Text) (t u : Transcripts) → SameLines t u → Keeps sid t u
unfolding lines_of is_retained
SameLines-Keeps sid t u s h = rw (s.lines, s.retained) (Keeps-refl sid t h)

pub SameLines-lines :
    (sid : Text) (t u : Transcripts) → SameLines t u → lines_of u sid ≡ lines_of t sid
unfolding lines_of
SameLines-lines sid t u s = rw s.lines

pub SameLines-IsExact : (t u : Transcripts) → SameLines t u → IsExact t → IsExact u
unfolding lines_of is_retained has_marks
SameLines-IsExact t u s x sid = rw (s.lines, s.deleted, s.retained) (x sid)

claim-SameLines :
    (code : String) (candidate : Text) (now : ℤ) (t : Transcripts)
    → SameLines t (claim code candidate now t).1
unfolding claim
claim-SameLines code candidate now t = elim (Option-cases (Dict.get t.live code)) [
  | inl new ↦ rw (new, claim) (record { lines = refl; deleted = refl; retained = refl })
  | inr (sid, e) ↦ rw (e, claim) (record { lines = refl; deleted = refl; retained = refl })
]

claim_issued-SameLines :
    (code : String) (issued : Option Issued) (now : ℤ) (t : Transcripts)
    → SameLines t (claim_issued code issued now t).1
unfolding claim_issued
claim_issued-SameLines code none now t = record { lines = refl; deleted = refl; retained = refl }
claim_issued-SameLines code (some i) now t = claim-SameLines code i.id now t

pub sid_for-SameLines :
    (code : String) (now : ℤ) (t : Transcripts) → SameLines t (sid_for code now t).1
unfolding sid_for
sid_for-SameLines code now t = elim (Option-cases (Dict.get t.live code)) [
  | inl new ↦
      let ids = next_id t.body_ids in
      let s = claim_issued-SameLines code ids.0 now (record t { body_ids = ids.1 }) in
      rw (new, sid_for) (record { lines = s.lines; deleted = s.deleted; retained = s.retained })
  | inr (sid, e) ↦ rw (e, sid_for) (record { lines = refl; deleted = refl; retained = refl })
]

pub any-append :
    (f : StoredMessage → Bool) (xs ys : List StoredMessage)
    → any f (xs ++ ys) ≡ any f xs || any f ys
any-append f [] ys = refl
any-append f (x ∷ xs) ys = ground (arith, any-append f xs ys)

-- What `push_line` does to an instance.
pub lines_of-push_line :
    (sid j : Text) (msg : StoredMessage) (t : Transcripts)
    → lines_of (push_line sid msg t) j
      ≡ (if sid == j then lines_of t sid ++ msg ∷ [] else lines_of t j)
unfolding push_line lines_of
lines_of-push_line sid j msg t =
    ground (arith, Dict.get-insert t.lines sid (lines_of t sid ++ msg ∷ []) j)

pub retained-push_line :
    (sid j : Text) (msg : StoredMessage) (t : Transcripts)
    → is_retained (push_line sid msg t) j ≡ is_retained t j || (sid == j && is_evidence msg)
unfolding push_line is_retained
retained-push_line sid j msg t = ground (arith, Dict.contains_key-insert t.retained sid tt j)

pub has_marks-push_line :
    (sid j : Text) (msg : StoredMessage) (t : Transcripts)
    → has_marks (push_line sid msg t) j ≡ has_marks t j
unfolding push_line has_marks
has_marks-push_line sid j msg t = ground arith

pub push_line-Keeps :
    (sid j : Text) (msg : StoredMessage) (t : Transcripts) → Keeps j t (push_line sid msg t)
push_line-Keeps sid j msg t h = elim (Bool-cases (sid == j)) [
  | inl own ↦ (
    ground (arith, h, retained-push_line sid j msg t),
    msg ∷ [],
    ground (arith, own, lines_of-push_line sid j msg t, ==_iff sid j),
  )
  | inr other ↦ (
    ground (arith, h, retained-push_line sid j msg t),
    [],
    lines_of-push_line sid j msg t ∙ rw other (sym (append-nil _)),
  )
]

pub push_line-IsExact :
    (sid : Text) (msg : StoredMessage) (t : Transcripts) → IsExact t → IsExact (push_line sid msg t)
push_line-IsExact sid msg t x j = elim (Bool-cases (sid == j)) [
  | inl own ↦
      let same = (==_iff sid j).0 own in
      let added : lines_of (push_line sid msg t) j ≡ lines_of t j ++ msg ∷ [] =
        lines_of-push_line sid j msg t ∙ rw (own, same) refl in
      ground (
        arith,
        own,
        x j,
        retained-push_line sid j msg t,
        ap (any is_evidence) added,
        any-append is_evidence (lines_of t j) (msg ∷ []),
        has_marks-push_line sid j msg t,
      )
  | inr other ↦
      let kept : lines_of (push_line sid msg t) j ≡ lines_of t j =
        lines_of-push_line sid j msg t ∙ rw other refl in
      ground (
        arith,
        other,
        x j,
        retained-push_line sid j msg t,
        ap (any is_evidence) kept,
        has_marks-push_line sid j msg t,
      )
]
