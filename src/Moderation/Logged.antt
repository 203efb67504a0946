-- ===== src/Moderation/Logged.antt =====
-- What a press leaves alone, and what it puts on the transcripts: `apply` of
-- server/src/admin/chatmod/player.rs.
use briska_blast.Common.{
  String, Bool, not, ◌≡◌, refl, ◌∙◌, none, List, [], ◌∷◌, keep, Option-cases, inl, inr, is_empty,
  if_both, if◌then◌else◌, ℤ,
}
use briska_blast.Common.Dict.{Dict}
use briska_blast.Protocol.{chat_body_deleted}
use briska_blast.Chat.Ids.{next_id}
use briska_blast.Chat.Bans.{Bans, ban}
use briska_blast.Chat.Transcript.{Text, Transcripts, DeletionMark}
use briska_blast.Chat.Transcript.Kept.{perform, minting, appending, marking}
use briska_blast.Chat.Transcript.Logged.{Logged, Logged-refl, Logged-perform, Logged-trans}
use briska_blast.Chat.Capture.{codes}
use briska_blast.Socket.World.{World, notify, reply, with_chat}
use briska_blast.Moderation.Press.{
  Press, Action, is_ban, deletes, AdminSession, WarnForm, Refusal, Summary, nobody, press_of,
  ban_entry, covered_by, words_on, is_target, id_or_empty, echo_line, echo,
}
use briska_blast.Moderation.Player.{
  act, after_entry, act_on, act_on_all, withdraw, delete_bodies, carry_out, refusal, apply,
}
use briska_blast.Moderation.Banned.{apply-carry_out}

-- No key of a session and no room changes, and the transcripts change by operations of theirs.
pub record IsChatOnly (w x : World) : Type 0 where
  pub store_kept : x.store ≡ w.store
  pub hub_kept : x.hub ≡ w.hub
  pub logged : Logged w.chat.transcripts x.chat.transcripts

IsChatOnly-refl : (w : World) → IsChatOnly w w
IsChatOnly-refl w = record {
  store_kept = refl;
  hub_kept = refl;
  logged = Logged-refl w.chat.transcripts;
}

IsChatOnly-trans : (w x y : World) → IsChatOnly w x → IsChatOnly x y → IsChatOnly w y
IsChatOnly-trans w x y a b = record {
  store_kept = b.store_kept ∙ a.store_kept;
  hub_kept = b.hub_kept ∙ a.hub_kept;
  logged = Logged-trans w.chat.transcripts x.chat.transcripts y.chat.transcripts a.logged b.logged;
}

echo-Logged :
    (press : Press) (p : String) (delivered : Bool) (now : ℤ) (t : Transcripts)
    → Logged t (echo press p delivered now t)
unfolding echo perform
echo-Logged press p delivered now t =
    let line = echo_line press p delivered (id_or_empty (next_id t.body_ids).0) now in
    let minted = perform minting t in
    let added = perform (appending press.code line now) minted in
    if_both (Logged t) (is_empty press.sid) t added (Logged-refl t) (
      Logged-trans t minted added (Logged-perform minting t)
        (Logged-perform (appending press.code line now) minted))

module _ (press : Press) where
  act-IsChatOnly :
      (p : String) (covered words : List Text) (s : Summary) (w : World)
      → IsChatOnly w (act press p covered words s w).1
  unfolding act reply
  act-IsChatOnly p covered words s w = record {
    store_kept = refl;
    hub_kept = refl;
    logged = echo-Logged press p _ w.clock w.chat.transcripts;
  }

  after_entry-IsChatOnly :
      (p : String) (covered words : List Text) (s : Summary) (w : World) (keys : List Text)
      (bans : Bans)
      → IsChatOnly w (after_entry press p covered words s w keys bans).1
  unfolding after_entry
  after_entry-IsChatOnly p covered words s w [] bans = record {
    store_kept = refl;
    hub_kept = refl;
    logged = Logged-refl w.chat.transcripts;
  }
  after_entry-IsChatOnly p covered words s w (key ∷ keys) bans =
      let listed = with_chat w (record w.chat { bans = bans }) in
      let acted = act-IsChatOnly p covered words s listed in
      record { store_kept = acted.store_kept; hub_kept = acted.hub_kept; logged = acted.logged }

  act_on-IsChatOnly : (p : String) (s : Summary) (w : World) → IsChatOnly w (act_on press p s w).1
  unfolding act_on
  act_on-IsChatOnly p s w =
      let covered = covered_by press.lines press.bodies p in
      let words = words_on press.lines covered in
      let (outcome, bans) = ban (codes p ∷ []) (ban_entry press p words w.clock) w.chat.bans in
      if_both (λ (x : Summary × World). IsChatOnly w x.1) (is_ban press.action)
        (after_entry press p covered words s w outcome.banned bans) (act press p covered words s w)
        (after_entry-IsChatOnly p covered words s w outcome.banned bans)
        (act-IsChatOnly p covered words s w)

  act_on_all-IsChatOnly :
      (ps : List String) (s : Summary) (w : World) → IsChatOnly w (act_on_all press ps s w).1
  unfolding act_on_all
  act_on_all-IsChatOnly [] s w = IsChatOnly-refl w
  act_on_all-IsChatOnly (p ∷ ps) s w =
      let (s', w') = act_on press p s w in
      IsChatOnly-trans w w' (act_on_all press ps s' w').1 (act_on-IsChatOnly p s w)
        (act_on_all-IsChatOnly ps s' w')

  withdraw-IsChatOnly : (ids : List Text) (w : World) → IsChatOnly w (withdraw press.code ids w)
  unfolding withdraw notify
  withdraw-IsChatOnly [] w = IsChatOnly-refl w
  withdraw-IsChatOnly (id ∷ ids) w =
      let rest = withdraw-IsChatOnly ids (notify w press.code (chat_body_deleted id) none) in
      record { store_kept = rest.store_kept; hub_kept = rest.hub_kept; logged = rest.logged }

  delete_bodies-IsChatOnly : (w : World) → IsChatOnly w (delete_bodies press w)
  unfolding delete_bodies perform
  delete_bodies-IsChatOnly w =
      let mark : DeletionMark = record {
        mod_user = press.session.username;
        mod_sub = press.session.sub;
        reason = press.reason;
        at_ms = w.clock;
      } in
      let op = marking press.sid press.bodies mark in
      let marked = with_chat w (record w.chat { transcripts = perform op w.chat.transcripts }) in
      IsChatOnly-trans w marked (delete_bodies press w)
        (record {
          store_kept = refl;
          hub_kept = refl;
          logged = Logged-perform op w.chat.transcripts;
        })
        (withdraw-IsChatOnly press.bodies marked)

  carry_out-IsChatOnly :
      (ps strangers : List String) (w : World) → IsChatOnly w (carry_out press ps strangers w).1
  unfolding carry_out
  carry_out-IsChatOnly [] strangers w = IsChatOnly-refl w
  carry_out-IsChatOnly (p ∷ ps) strangers w =
      let start = if deletes press.action then delete_bodies press w else w in
      IsChatOnly-trans w start (act_on_all press (p ∷ ps) nobody start).1
        (if_both (IsChatOnly w) (deletes press.action) (delete_bodies press w) w
          (delete_bodies-IsChatOnly w) (IsChatOnly-refl w))
        (act_on_all-IsChatOnly (p ∷ ps) nobody start)

carry_out-refused :
    (press : Press) (ps strangers : List String) (w : World) (r : Refusal)
    → (carry_out press ps strangers w).0 ≡ inl r
    → (carry_out press ps strangers w).1 ≡ w
unfolding carry_out
carry_out-refused press [] strangers w r h = refl
carry_out-refused press (p ∷ ps) strangers w r h = cc

-- A press of a moderator's tool changes no key of a session and no room, and changes the
-- transcripts by operations of the transcript module alone; and one that is refused changes
-- nothing at all.
pub apply-IsChatOnly :
    (names : Dict String String) (session : AdminSession) (action : Action) (code : String)
    (form : WarnForm) (w : World)
    → IsChatOnly w (apply names session action code form w).1
      × ((r : Refusal)
          → (apply names session action code form w).0 ≡ inl r
          → (apply names session action code form w).1 ≡ w)
unfolding apply
apply-IsChatOnly names session action code form w =
    let press = press_of names session action code form w in
    elim (Option-cases (refusal press form w)) [
      | inr (r, e) ↦ rw (e, apply) (IsChatOnly-refl w, λ r' h. refl)
      | inl fine ↦
          let f = is_target w code press.lines in
          let ps = keep f form.targets in
          let out = keep (λ q. not (f q)) form.targets in
          rw (apply-carry_out names session action code form w fine)
            (carry_out-IsChatOnly press ps out w, carry_out-refused press ps out w)
    ]
