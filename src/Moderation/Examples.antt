-- ===== src/Moderation/Examples.antt =====
-- Concrete cases.
use briska_blast.Common.{inl, true, false, none, some, [], ◌∷◌, ◌≡◌, refl, string_eq, arith}
use briska_blast.Common.Dict
use briska_blast.Common.Dict.{Dict}
use briska_blast.Protocol.{send_chat}
use briska_blast.Chat.Ids.{text_eq}
use briska_blast.Socket.Frame.{handle_client_frame}
use briska_blast.Socket.Said.{IsSilenced}
use briska_blast.Session.Store.{decode}
use briska_blast.Session.Data.{contains_player}
use briska_blast.Moderation.Press.{
  AdminSession, WarnForm, ban_user, warn, Refusal, press_of, is_target,
}
use briska_blast.Moderation.Player.{refusal, apply}
use briska_blast.Moderation.Banned.{apply-IsSilenced}
use briska_blast.Moderation.Logged.{IsChatOnly, apply-IsChatOnly}
use briska_blast.Socket.Scene.{no_keys, stored, world, outside, text, no_names, one, one_key}

abbrev moderator : AdminSession
moderator = record { username = "mod"; sub = "m"; role_label = "Moderator" }

abbrev form : WarnForm
form = record { targets = "1" ∷ []; body_ids = []; reason = "spam" }

accepted : refusal (press_of no_names moderator ban_user "ABC" form world) form world ≡ none
unfolding refusal press_of
accepted = ground (arith, Dict.get-insert_self no_keys "ABC" stored)

seated :
    is_target world "ABC" (press_of no_names moderator ban_user "ABC" form world).lines "1" ≡ true
unfolding decode contains_player press_of
seated = ground (arith, Dict.get-insert_self no_keys "ABC" stored)

apply-IsSilenced_example :
    IsSilenced
      (apply no_names moderator ban_user "ABC" form world).1
      "ABC"
      "1"
      (handle_client_frame
        (apply no_names moderator ban_user "ABC" form world).1
        "ABC"
        "1"
        outside
        (some (send_chat text))).1
apply-IsSilenced_example =
    apply-IsSilenced no_names moderator "ABC" form world "1" "1" one "ABC" outside text accepted
      refl seated one_key one_key

apply-IsChatOnly_example :
    IsChatOnly world (apply no_names moderator (warn false) "ABC" form world).1
    × ((r : Refusal)
        → (apply no_names moderator (warn false) "ABC" form world).0 ≡ inl r
        → (apply no_names moderator (warn false) "ABC" form world).1 ≡ world)
apply-IsChatOnly_example = apply-IsChatOnly no_names moderator (warn false) "ABC" form world
