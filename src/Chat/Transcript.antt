-- ===== src/Chat/Transcript.antt =====
-- Chat transcripts: server/src/chat/transcript.rs. A sid and a body id are the lists of their
-- characters; `now` is the clock's reading. Every stored line is taken to be one that `append` wrote.
pub mod Pushed
pub mod Marked
pub mod Kept
pub mod Held
pub mod Late
pub mod Logged
mod Examples
use briska_blast.Common.{
  ℕ, zero, suc, ◌+◌, ◌-◌, nat_eq, String, Bool, true, false, not, ◌&&◌, ◌||◌, Option, none, some,
  List, [], ◌∷◌, ◌++◌, ◌==◌, string_eq, is_empty, keep, length, if◌then◌else◌, ℤ,
}
use briska_blast.Common.Dict
use briska_blast.Common.Dict.{Dict}
use briska_blast.Chat.Ids.{Sequence, Issued, text_eq, next_id}
use briska_blast.Session.Store.{Store}

abbrev pub Text : Type 0
Text = List ℕ

pub data MessageKind : Type 0 where
  player moderator warning ban : MessageKind

pub record StoredMessage : Type 0 where
  pub body_id : Text
  pub kind : MessageKind
  pub player_id : String
  pub username : String
  pub text : Text
  pub flagged_words : List Text
  pub mod_user : String
  pub mod_sub : String
  pub mod_anonymous : Bool
  pub delivered : Option Bool
  pub at_ms : ℤ

abbrev pub is_flagged : StoredMessage → Bool
is_flagged msg = not (is_empty msg.flagged_words)

abbrev pub is_player : MessageKind → Bool
is_player MessageKind.player = true
is_player MessageKind.moderator = false
is_player MessageKind.warning = false
is_player MessageKind.ban = false

pub record DeletionMark : Type 0 where
  pub mod_user : String
  pub mod_sub : String
  pub reason : String
  pub at_ms : ℤ

pub record TranscriptMeta : Type 0 where
  pub sid : Text
  pub code : String
  pub started_at_ms : ℤ
  pub ended_at_ms : Option ℤ

abbrev pub Members : Type 0
Members = Dict Text (Unit {0})

-- `chat:live:*`, `chat:transcript:*`, `chat:meta:*`, `chat:deleted:*`, `chat:retained`,
-- `chat:flagged`, `chat:archives` and the sequence of body ids.
pub record Transcripts : Type 0 where
  pub live : Dict String Text
  pub lines : Dict Text (List StoredMessage)
  pub meta : Dict Text TranscriptMeta
  pub deleted : Dict Text (Dict Text DeletionMark)
  pub retained : Members
  pub flagged : Members
  pub archives : Dict Text ℤ
  pub body_ids : Sequence

-- `LRANGE 0 -1`, and `RPUSH`.
unfoldable pub lines_of : Transcripts → Text → List StoredMessage
lines_of t sid = elim (Dict.get t.lines sid) [ none ↦ [] | some l ↦ l ]

unfoldable pub marks_of : Transcripts → Text → Dict Text DeletionMark
marks_of t sid = elim (Dict.get t.deleted sid) [ none ↦ Dict.empty | some marks ↦ marks ]

-- `SET NX` of the pointer, and the metadata of the one who wins.
unfoldable pub claim : String → Text → ℤ → Transcripts → Text × Transcripts
claim code candidate now t = elim (Dict.get t.live code) [
  | some existing ↦ (existing, t)
  | none ↦ (
    candidate,
    record t {
      live = Dict.insert t.live code candidate;
      meta =
          Dict.insert t.meta candidate
            (record { sid = candidate; code = code; started_at_ms = now; ended_at_ms = none });
    },
  )
]

unfoldable pub claim_issued : String → Option Issued → ℤ → Transcripts → Option Text × Transcripts
unfolding claim
claim_issued code none now t = (none, t)
claim_issued code (some i) now t = let (sid, t') = claim code i.id now t in (some sid, t')

-- None if no id can be issued.
unfoldable pub sid_for : String → ℤ → Transcripts → Option Text × Transcripts
unfolding next_id claim_issued
sid_for code now t = elim (Dict.get t.live code) [
  | some existing ↦ (some existing, t)
  | none ↦
      let (issued, ids) = next_id t.body_ids in
      claim_issued code issued now (record t { body_ids = ids })
]

-- The transaction of `append`.
unfoldable pub push_line : Text → StoredMessage → Transcripts → Transcripts
unfolding lines_of
push_line sid msg t =
    let pushed = record t { lines = Dict.insert t.lines sid (lines_of t sid ++ msg ∷ []) } in
    if is_flagged msg
    then record pushed {
      flagged = Dict.insert t.flagged sid tt;
      retained = Dict.insert t.retained sid tt;
    }
    else if not (is_player msg.kind)
    then record pushed { retained = Dict.insert t.retained sid tt }
    else pushed

unfoldable pub push_to : Option Text → StoredMessage → Transcripts → Option Text × Transcripts
unfolding push_line
push_to none msg t = (none, t)
push_to (some sid) msg t = (some sid, push_line sid msg t)

unfoldable pub append : String → StoredMessage → ℤ → Transcripts → Option Text × Transcripts
unfolding sid_for push_to
append code msg now t = let (sid, t') = sid_for code now t in push_to sid msg t'

unfoldable pub mark_each :
    List Text → DeletionMark → Dict Text DeletionMark → Dict Text DeletionMark
mark_each [] mark marks = marks
mark_each (body_id ∷ ids) mark marks = mark_each ids mark (Dict.insert marks body_id mark)

unfoldable pub mark_deleted : Text → List Text → DeletionMark → Transcripts → Transcripts
unfolding mark_each marks_of
mark_deleted sid [] mark t = t
mark_deleted sid (body_id ∷ ids) mark t = record t {
  deleted = Dict.insert t.deleted sid (mark_each (body_id ∷ ids) mark (marks_of t sid));
  retained = Dict.insert t.retained sid tt;
}

-- `LLEN`.
unfoldable pub len : Transcripts → Text → ℕ
unfolding lines_of
len t sid = length (lines_of t sid)

-- A list less its first elements.
unfoldable pub skip : {A : Type 0} → ℕ → List A → List A
skip zero l = l
skip (suc n) [] = []
skip (suc n) (x ∷ l) = skip n l

-- `LRANGE -n -1`: the last `n` lines, all of them if there are fewer. A start of `-0` is the first.
unfoldable pub tail : Transcripts → Text → ℕ → List StoredMessage
unfolding skip len
tail t sid n = if n == 0 then lines_of t sid else skip (len t sid - n) (lines_of t sid)

abbrev pub with_end :
    ℤ → Option TranscriptMeta → Text → Dict Text TranscriptMeta → Dict Text TranscriptMeta
with_end now none sid metas = metas
with_end now (some m) sid metas = Dict.insert metas sid (record m { ended_at_ms = some now })

unfoldable pub archive : Text → ℤ → Transcripts → Transcripts
archive sid now t = record t {
  meta = with_end now (Dict.get t.meta sid) sid t.meta;
  archives = Dict.insert t.archives sid now;
}

-- The commands of an end that finds its instance not retained, in the order of `discard`.
abbrev pub del_transcript : Text → Transcripts → Transcripts
del_transcript sid t = record t { lines = Dict.remove t.lines sid }

abbrev pub del_meta : Text → Transcripts → Transcripts
del_meta sid t = record t { meta = Dict.remove t.meta sid }

abbrev pub del_deleted : Text → Transcripts → Transcripts
del_deleted sid t = record t { deleted = Dict.remove t.deleted sid }

abbrev pub srem_flagged : Text → Transcripts → Transcripts
srem_flagged sid t = record t { flagged = Dict.remove t.flagged sid }

unfoldable pub discard : Text → Transcripts → Transcripts
discard sid t = srem_flagged sid (del_deleted sid (del_meta sid (del_transcript sid t)))

-- What the answer to `is_retained` leads to.
unfoldable pub settle_instance : Bool → Text → ℤ → Transcripts → Transcripts
unfolding archive discard
settle_instance true sid now t = archive sid now t
settle_instance false sid now t = discard sid t

abbrev pub forget_code : String → Transcripts → Transcripts
forget_code code t = record t { live = Dict.remove t.live code }

-- With no other caller between its reads and its writes; `Held` takes its commands one by one.
unfoldable pub on_session_end : String → ℤ → Transcripts → Transcripts
unfolding settle_instance
on_session_end code now t = elim (Dict.get t.live code) [
  | none ↦ t
  | some sid ↦ forget_code code (settle_instance (Dict.contains_key t.retained sid) sid now t)
]

unfoldable pub end_each : List String → ℤ → Transcripts → Transcripts
unfolding on_session_end
end_each [] now t = t
end_each (code ∷ codes) now t = end_each codes now (on_session_end code now t)

-- The pointers whose session is gone; how many there were.
unfoldable pub sweep_orphans : Store → ℤ → Transcripts → ℕ × Transcripts
unfolding end_each
sweep_orphans store now t =
    let orphans = keep (λ code. not (Dict.contains_key store code)) (Dict.keys t.live) in
    (length orphans, end_each orphans now t)
