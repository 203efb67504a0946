-- ===== src/Moderation/Player.antt =====
-- A moderator's warning, deletion or ban: `apply` of server/src/admin/chatmod/player.rs, with
-- `resolve_live_session` of admin/chatmod_data.rs. The session's code comes in capital letters, and the
-- form's fields come trimmed and split. The names on file are given, and Redis does not fail.
use briska_blast.Common.{
  ℕ, String, not, ◌&&◌, Option, inl, inr, ◌⊎◌, none, some, List, [], ◌∷◌, ◌++◌, ◌==◌, string_eq,
  is_empty, keep, if◌then◌else◌,
}
use briska_blast.Common.Dict
use briska_blast.Common.Dict.{Dict}
use briska_blast.Protocol.{chat_body_deleted}
use briska_blast.Chat.Ids.{text_eq}
use briska_blast.Chat.Bans.{Bans, ban}
use briska_blast.Chat.Transcript.{Text, DeletionMark, mark_deleted}
use briska_blast.Chat.Audit.{AuditCategory, write}
use briska_blast.Chat.Capture.{codes}
use briska_blast.Socket.World.{World, notify, reply, with_chat}
use briska_blast.Hub.Rooms.{send_to}
use briska_blast.Moderation.Press.{
  Action, AdminSession, Press, Refusal, Summary, WarnForm, action_record, ban_entry, covered_by,
  deletes, echo, frame, is_ban, is_target, no_history, no_reason, no_session, no_target,
  no_valid_target, nobody, none_ticked, not_its_bodies, press_of, words_on,
}

-- The notice, the echo and the record.
unfoldable pub act : Press → String → List Text → List Text → Summary → World → Summary × World
unfolding reply send_to echo action_record write
act press p covered words summary w =
    let delivered = (send_to w.alive w.hub press.code p (frame press.action press.reason)).0 in
    let told = reply w press.code p (frame press.action press.reason) in
    let transcripts = echo press p delivered w.clock w.chat.transcripts in
    let audit =
      write AuditCategory.player (action_record press p delivered covered words w.clock)
        w.chat.audit in
    (
      if delivered
          then record summary { delivered_to = summary.delivered_to ++ p ∷ [] }
          else record summary { undelivered = summary.undelivered ++ p ∷ [] },
      with_chat told (record w.chat { transcripts = transcripts; audit = audit }),
    )

-- What the entry in the bans leads to.
unfoldable pub after_entry :
    Press
    → String
    → List Text
    → List Text
    → Summary
    → World
    → List (List ℕ)
    → Bans
    → Summary × World
unfolding act
after_entry press p covered words summary w [] bans = (
  record summary { already = summary.already ++ p ∷ [] },
  with_chat w (record w.chat { bans = bans }),
)
after_entry press p covered words summary w (key ∷ keys) bans =
    act press p covered words summary (with_chat w (record w.chat { bans = bans }))

unfoldable pub act_on : Press → String → Summary → World → Summary × World
unfolding covered_by words_on ban ban_entry after_entry act
act_on press p summary w =
    let covered = covered_by press.lines press.bodies p in
    let words = words_on press.lines covered in
    let (outcome, bans) = ban (codes p ∷ []) (ban_entry press p words w.clock) w.chat.bans in
    if is_ban press.action
    then after_entry press p covered words summary w outcome.banned bans
    else act press p covered words summary w

unfoldable pub act_on_all : Press → List String → Summary → World → Summary × World
unfolding act_on
act_on_all press [] summary w = (summary, w)
act_on_all press (p ∷ ps) summary w =
    let (summary', w') = act_on press p summary w in act_on_all press ps summary' w'

unfoldable pub withdraw : String → List Text → World → World
unfolding notify
withdraw code [] w = w
withdraw code (id ∷ ids) w = withdraw code ids (notify w code (chat_body_deleted id) none)

-- The marks and the broadcasts of a deletion.
unfoldable pub delete_bodies : Press → World → World
unfolding mark_deleted withdraw
delete_bodies press w =
    let mark : DeletionMark = record {
      mod_user = press.session.username;
      mod_sub = press.session.sub;
      reason = press.reason;
      at_ms = w.clock;
    } in
    let transcripts = mark_deleted press.sid press.bodies mark w.chat.transcripts in
    withdraw press.code press.bodies (with_chat w (record w.chat { transcripts = transcripts }))

abbrev pub Answer : Type 0
Answer = Refusal ⊎ (Summary × List String)

-- Once there is somebody to act on; `strangers` are reported.
unfoldable pub carry_out : Press → List String → List String → World → Answer × World
unfolding delete_bodies act_on_all
carry_out press [] strangers w = (inl no_valid_target, w)
carry_out press (p ∷ ps) strangers w =
    let start = if deletes press.action then delete_bodies press w else w in
    let (summary, w') = act_on_all press (p ∷ ps) nobody start in (inr (summary, strangers), w')

-- The checks before anything is written.
unfoldable pub refusal : Press → WarnForm → World → Option Refusal
refusal press form w =
    if not (Dict.contains_key w.store press.code)
    then some no_session
    else if form.reason == ""
    then some no_reason
    else if is_empty form.targets
    then some no_target
    else if deletes press.action && is_empty form.body_ids
    then some none_ticked
    else if deletes press.action && is_empty press.sid
    then some no_history
    else if deletes press.action && is_empty press.bodies
    then some not_its_bodies
    else none

unfoldable pub apply :
    Dict String String → AdminSession → Action → String → WarnForm → World → Answer × World
unfolding press_of refusal carry_out
apply names session action code form w =
    let press = press_of names session action code form w in
    elim (refusal press form w) [
      | some r ↦ (inl r, w)
      | none ↦
          carry_out press (keep (is_target w code press.lines) form.targets)
            (keep (λ p. not (is_target w code press.lines p)) form.targets) w
    ]
