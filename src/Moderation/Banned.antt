-- ===== src/Moderation/Banned.antt =====
-- Whom a press bans, and what it leaves alone: `apply` of server/src/admin/chatmod/player.rs.
use briska_blast.Common.{
  String, Bool, true, not, ◌≡◌, refl, ap, ◌∙◌, none, some, List, [], ◌∷◌, ◌==◌, ==_iff, string_eq,
  keep, contains, arith, Bool-cases, Option-cases, inl, inr, if◌then◌else◌,
}
use briska_blast.Common.Dict.{Dict}
use briska_blast.Protocol.{send_chat}
use briska_blast.Chat.Ids.{text_eq}
use briska_blast.Chat.Bans.{Bans, BanEntry, ban, lookup, normalize_id}
use briska_blast.Chat.Bans.Listed.{is_banned, ban-is_banned, ban-keeps}
use briska_blast.Chat.Transcript.{Text}
use briska_blast.Chat.Capture.{codes}
use briska_blast.Socket.World.{World, reply}
use briska_blast.Socket.Frame.{Outside, handle_client_frame}
use briska_blast.Socket.Said.{IsSilenced, say-IsSilenced}
use briska_blast.Moderation.Press.{
  Press, Action, ban_user, is_ban, deletes, AdminSession, WarnForm, Summary, nobody, press_of,
  ban_entry, covered_by, words_on, is_target,
}
use briska_blast.Moderation.Player.{
  act, after_entry, act_on, act_on_all, delete_bodies, carry_out, refusal, apply,
}

ban-is_banned_kept :
    (ids : List Text) (entry : BanEntry) (bans : Bans) (id : Text)
    → is_banned bans id ≡ true
    → is_banned (ban ids entry bans).1 id ≡ true
ban-is_banned_kept ids entry bans id h = elim (Option-cases (lookup bans id)) [
  | inl free ↦ absurd (ground (arith, h, free))
  | inr (e, at) ↦ ground (arith, ban-keeps ids entry bans id e at)
]

after_entry-bans :
    (press : Press) (p : String) (covered words : List Text) (s : Summary) (w : World)
    (keys : List Text) (bans : Bans)
    → (after_entry press p covered words s w keys bans).1.chat.bans ≡ bans
unfolding after_entry act reply
after_entry-bans press p covered words s w [] bans = refl
after_entry-bans press p covered words s w (key ∷ keys) bans = refl

module _ (press : Press) (bans_them : is_ban press.action ≡ true) where
  act_on-bans :
      (p : String) (s : Summary) (w : World)
      → (entry : BanEntry) × ((act_on press p s w).1.chat.bans
          ≡ (ban (codes p ∷ []) entry w.chat.bans).1)
  unfolding act_on
  act_on-bans p s w =
      let covered = covered_by press.lines press.bodies p in
      let words = words_on press.lines covered in
      let entry = ban_entry press p words w.clock in
      let (outcome, bans) = ban (codes p ∷ []) entry w.chat.bans in
      (
        entry,
        rw (bans_them, act_on) (after_entry-bans press p covered words s w outcome.banned bans),
      )

  act_on-is_banned_kept :
      (p : String) (s : Summary) (w : World) (id : Text)
      → is_banned w.chat.bans id ≡ true
      → is_banned (act_on press p s w).1.chat.bans id ≡ true
  act_on-is_banned_kept p s w id h =
      let (entry, e) = act_on-bans p s w in
      rw e (ban-is_banned_kept (codes p ∷ []) entry w.chat.bans id h)

  act_on_all-is_banned_kept :
      (ps : List String) (s : Summary) (w : World) (id : Text)
      → is_banned w.chat.bans id ≡ true
      → is_banned (act_on_all press ps s w).1.chat.bans id ≡ true
  unfolding act_on_all
  act_on_all-is_banned_kept [] s w id h = h
  act_on_all-is_banned_kept (p ∷ ps) s w id h =
      act_on_all-is_banned_kept ps (act_on press p s w).0 (act_on press p s w).1 id
        (act_on-is_banned_kept p s w id h)

  act_on-is_banned :
      (p : String) (s : Summary) (w : World) (id key : Text)
      → normalize_id (codes p) ≡ some key
      → normalize_id id ≡ some key
      → is_banned (act_on press p s w).1.chat.bans id ≡ true
  act_on-is_banned p s w id key n m =
      let (entry, e) = act_on-bans p s w in
      rw e (
        ban-is_banned (codes p ∷ []) entry w.chat.bans (codes p) id key
          (ground (arith, ==_iff (codes p) (codes p))) n m)

  act_on_all-is_banned :
      (ps : List String) (s : Summary) (w : World) (p : String) (id key : Text)
      → contains ps p ≡ true
      → normalize_id (codes p) ≡ some key
      → normalize_id id ≡ some key
      → is_banned (act_on_all press ps s w).1.chat.bans id ≡ true
  unfolding act_on_all
  act_on_all-is_banned [] s w p id key c n m = cc
  act_on_all-is_banned (q ∷ ps) s w p id key c n m =
      let (s', w') = act_on press q s w in
      elim (Bool-cases (q == p)) [
        | inl same ↦
            let e : q ≡ p = (==_iff q p).0 same in
            act_on_all-is_banned_kept ps s' w' id
              (act_on-is_banned q s w id key (ap (λ x. normalize_id (codes x)) e ∙ n) m)
        | inr other ↦ act_on_all-is_banned ps s' w' p id key (ground (arith, c, other)) n m
      ]

module _ (f : String → Bool) where
  contains-keep :
      (l : List String) (p : String)
      → contains l p ≡ true
      → f p ≡ true
      → contains (keep f l) p ≡ true
  contains-keep [] p c h = cc
  contains-keep (q ∷ l) p c h = elim (Bool-cases (q == p)) [
    | inl same ↦
        let taken : f q ≡ true = ap f ((==_iff q p).0 same) ∙ h in ground (arith, taken, same)
    | inr other ↦
        let later = contains-keep l p (ground (arith, c, other)) h in
        elim (Bool-cases (f q)) [
          | inl taken ↦ ground (arith, taken, other, later)
          | inr left ↦ ground (arith, left, later)
        ]
  ]

carry_out-is_banned :
    (press : Press) (ps strangers : List String) (w : World) (p : String) (id key : Text)
    → is_ban press.action ≡ true
    → contains ps p ≡ true
    → normalize_id (codes p) ≡ some key
    → normalize_id id ≡ some key
    → is_banned (carry_out press ps strangers w).1.chat.bans id ≡ true
unfolding carry_out
carry_out-is_banned press [] strangers w p id key b c n m = cc
carry_out-is_banned press (q ∷ ps) strangers w p id key b c n m =
    act_on_all-is_banned press b (q ∷ ps) nobody
      (if deletes press.action then delete_bodies press w else w) p id key c n m

pub apply-carry_out :
    (names : Dict String String) (session : AdminSession) (action : Action) (code : String)
    (form : WarnForm) (w : World)
    → refusal (press_of names session action code form w) form w ≡ none
    → apply names session action code form w
      ≡ carry_out
          (press_of names session action code form w)
          (keep (is_target w code (press_of names session action code form w).lines) form.targets)
          (keep
            (λ q. not (is_target w code (press_of names session action code form w).lines q))
            form.targets)
          w
unfolding apply
apply-carry_out names session action code form w fine = rw (fine, apply)

apply-is_banned :
    (names : Dict String String) (session : AdminSession) (code : String) (form : WarnForm)
    (w : World) (p : String) (id key : Text)
    → refusal (press_of names session ban_user code form w) form w ≡ none
    → contains form.targets p ≡ true
    → is_target w code (press_of names session ban_user code form w).lines p ≡ true
    → normalize_id (codes p) ≡ some key
    → normalize_id id ≡ some key
    → is_banned (apply names session ban_user code form w).1.chat.bans id ≡ true
unfolding press_of
apply-is_banned names session code form w p id key fine c target n m =
    let press = press_of names session ban_user code form w in
    let f = is_target w code press.lines in
    rw (apply-carry_out names session ban_user code form w fine) (
      carry_out-is_banned press (keep f form.targets) (keep (λ q. not (f q)) form.targets) w p id
        key refl (contains-keep f form.targets p c target) n m)

-- After a press of the ban button that the checks let through, for each target whose id is a
-- number and who is seated in the session or has spoken in it: a line that the player sends to
-- any room, under any spelling of the number, changes nothing of the chat's state, and makes the
-- server send at most the notice of the ban, to that player.
pub apply-IsSilenced :
    (names : Dict String String) (session : AdminSession) (code : String) (form : WarnForm)
    (w : World) (p q : String) (key : Text) (room : String) (o : Outside) (text : Text)
    → refusal (press_of names session ban_user code form w) form w ≡ none
    → contains form.targets p ≡ true
    → is_target w code (press_of names session ban_user code form w).lines p ≡ true
    → normalize_id (codes p) ≡ some key
    → normalize_id (codes q) ≡ some key
    → IsSilenced
        (apply names session ban_user code form w).1
        room
        q
        (handle_client_frame
          (apply names session ban_user code form w).1
          room
          q
          o
          (some (send_chat text))).1
unfolding handle_client_frame
apply-IsSilenced names session code form w p q key room o text fine c target n m =
    say-IsSilenced (apply names session ban_user code form w).1 room q o text
      (apply-is_banned names session code form w p (codes q) key fine c target n m)
