-- ===== src/Chat/Transcript/Kept.antt =====
-- What the transcripts keep, whatever lines, marks, ends of sessions and sweeps there are.
use briska_blast.Common.{
  ◌≡◌, refl, ap, ◌∙◌, String, true, not, Option, none, some, List, [], ◌∷◌, ◌++◌, ==_iff, string_eq,
  keep, ℤ, arith, Bool-cases, Option-cases, inl, inr,
}
use mathlib.Core.List.{append_assoc}
use briska_blast.Common.Dict
use briska_blast.Common.Dict.{Dict}
use briska_blast.Chat.Ids.{text_eq, next_id}
use briska_blast.Session.Store.{Store}
use briska_blast.Chat.Transcript.{
  Text, StoredMessage, DeletionMark, Transcripts, lines_of, sid_for, push_to, append, mark_deleted,
  archive, settle_instance, forget_code, on_session_end, end_each, sweep_orphans,
}
use briska_blast.Chat.Transcript.Marked.{
  append-Keeps, append-IsExact, mark_deleted-Keeps, mark_deleted-IsExact, archive-SameLines,
  discard-Keeps, discard-IsExact, forget-SameLines,
}
use briska_blast.Chat.Transcript.Pushed.{
  is_evidence, is_retained, IsExact, IsExact, Keeps, Keeps-trans, SameLines, SameLines-Keeps,
  SameLines-lines, SameLines-IsExact, sid_for-SameLines, lines_of-push_line, retained-push_line,
}

-- What a step has to do.
record IsSafe (t u : Transcripts) : Type 0 where
  keeps : (j : Text) → Keeps j t u
  exact : IsExact t → IsExact u

SameLines-IsSafe : (t u : Transcripts) → SameLines t u → IsSafe t u
SameLines-IsSafe t u s = record {
  keeps = λ j. SameLines-Keeps j t u s;
  exact = SameLines-IsExact t u s;
}

IsSafe-trans : (t u v : Transcripts) → IsSafe t u → IsSafe u v → IsSafe t v
IsSafe-trans t u v f g = record {
  keeps = λ j. Keeps-trans j t u v (f.keeps j) (g.keeps j);
  exact = λ x. g.exact (f.exact x);
}

settle-IsSafe :
    (sid : Text) (now : ℤ) (t : Transcripts)
    → IsSafe t (settle_instance (is_retained t sid) sid now t)
unfolding settle_instance
settle-IsSafe sid now t = elim (Bool-cases (is_retained t sid)) [
  | inl held ↦
      rw (held, settle_instance)
        (SameLines-IsSafe t (archive sid now t) (archive-SameLines sid now t))
  | inr out ↦
      rw (out, settle_instance)
        (record { keeps = λ j. discard-Keeps sid j t out; exact = discard-IsExact sid t out })
]

on_session_end-IsSafe :
    (code : String) (now : ℤ) (t : Transcripts) → IsSafe t (on_session_end code now t)
unfolding on_session_end is_retained
on_session_end-IsSafe code now t = elim (Option-cases (Dict.get t.live code)) [
  | inl quiet ↦
      rw (quiet, on_session_end)
        (SameLines-IsSafe t t (record { lines = refl; deleted = refl; retained = refl }))
  | inr (sid, e) ↦
      let u = settle_instance (is_retained t sid) sid now t in
      rw (e, on_session_end)
        (IsSafe-trans t u (forget_code code u) (settle-IsSafe sid now t)
          (SameLines-IsSafe u (forget_code code u) (forget-SameLines code u)))
]

end_each-IsSafe :
    (codes : List String) (now : ℤ) (t : Transcripts) → IsSafe t (end_each codes now t)
unfolding end_each
end_each-IsSafe [] now t =
    SameLines-IsSafe t t (record { lines = refl; deleted = refl; retained = refl })
end_each-IsSafe (code ∷ codes) now t =
    IsSafe-trans t (on_session_end code now t) _ (on_session_end-IsSafe code now t)
      (end_each-IsSafe codes now (on_session_end code now t))

pub data Op : Type 0 where
  appending : String → StoredMessage → ℤ → Op
  marking : Text → List Text → DeletionMark → Op
  ending : String → ℤ → Op
  sweeping : Store → ℤ → Op
  minting : Op

unfoldable pub perform : Op → Transcripts → Transcripts
unfolding append mark_deleted on_session_end sweep_orphans
perform (appending code msg now) t = (append code msg now t).1
perform (marking sid ids mark) t = mark_deleted sid ids mark t
perform (ending code now) t = on_session_end code now t
perform (sweeping store now) t = (sweep_orphans store now t).1
perform minting t = record t { body_ids = (next_id t.body_ids).1 }

perform-IsSafe : (op : Op) (t : Transcripts) → IsSafe t (perform op t)
unfolding perform sweep_orphans
perform-IsSafe (appending code msg now) t = record {
  keeps = λ j. append-Keeps j code msg now t;
  exact = append-IsExact code msg now t;
}
perform-IsSafe (marking sid ids mark) t = record {
  keeps = λ j. mark_deleted-Keeps sid j ids mark t;
  exact = mark_deleted-IsExact sid ids mark t;
}
perform-IsSafe (ending code now) t = on_session_end-IsSafe code now t
perform-IsSafe (sweeping store now) t =
    end_each-IsSafe (keep (λ code. not (Dict.contains_key store code)) (Dict.keys t.live)) now t
perform-IsSafe minting t =
    SameLines-IsSafe t (record t { body_ids = (next_id t.body_ids).1 })
      (record { lines = refl; deleted = refl; retained = refl })

unfoldable pub perform_all : List Op → Transcripts → Transcripts
unfolding perform
perform_all [] t = t
perform_all (op ∷ ops) t = perform_all ops (perform op t)

perform_all-IsSafe : (ops : List Op) (t : Transcripts) → IsSafe t (perform_all ops t)
unfolding perform_all
perform_all-IsSafe [] t =
    SameLines-IsSafe t t (record { lines = refl; deleted = refl; retained = refl })
perform_all-IsSafe (op ∷ ops) t =
    IsSafe-trans t (perform op t) _ (perform-IsSafe op t) (perform_all-IsSafe ops (perform op t))

-- Lines, deletions, ends of sessions and sweeps, in any order, keep this of every transcript: it
-- is marked as retained exactly when it holds a flagged line, a line that is not a player's, or a
-- mark of a deletion.
pub perform_all-IsExact :
    (ops : List Op) (t : Transcripts) → IsExact t → IsExact (perform_all ops t)
perform_all-IsExact ops t x = (perform_all-IsSafe ops t).exact x

pub push_to-evidence :
    (got : Option Text) (msg : StoredMessage) (t : Transcripts) (sid : Text)
    → (push_to got msg t).0 ≡ some sid
    → is_evidence msg ≡ true
    → (is_retained (push_to got msg t).1 sid ≡ true)
      × (lines_of (push_to got msg t).1 sid ≡ lines_of t sid ++ msg ∷ [])
unfolding push_to
push_to-evidence none msg t sid h ev = cc
push_to-evidence (some s) msg t sid h ev =
    let same : s ≡ sid = ground (arith, h) in
    (
      ground (arith, same, ev, retained-push_line s sid msg t, ==_iff s sid),
      ground (arith, same, lines_of-push_line s sid msg t, ==_iff s sid),
    )

-- A flagged line, or one that is not a player's, once `append` has put it on a transcript, stays
-- there after the lines that were before it, whatever lines, deletions, ends of sessions and
-- sweeps follow.
pub evidence-kept :
    (ops : List Op) (code : String) (msg : StoredMessage) (now : ℤ) (t : Transcripts) (sid : Text)
    → (append code msg now t).0 ≡ some sid
    → is_evidence msg ≡ true
    → (more : List StoredMessage) × (lines_of (perform_all ops (append code msg now t).1) sid
        ≡ lines_of t sid ++ msg ∷ more)
unfolding append
evidence-kept ops code msg now t sid h ev =
    let got = sid_for code now t in
    let (held, added) = push_to-evidence got.0 msg got.1 sid h ev in
    let (still, more, e) = (perform_all-IsSafe ops (append code msg now t).1).keeps sid held in
    let same : lines_of got.1 sid ≡ lines_of t sid =
      SameLines-lines sid t got.1 (sid_for-SameLines code now t) in
    (
      more,
      e
          ∙ ap (λ l. l ++ more) (added ∙ ap (λ l. l ++ msg ∷ []) same)
          ∙ append_assoc (lines_of t sid) (msg ∷ []) more,
    )
