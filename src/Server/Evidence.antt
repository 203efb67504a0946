-- ===== src/Server/Evidence.antt =====
-- Frames, ends of sockets, timers, closed sessions, the tools and lines of moderators, and sweeps, in
-- any order: what the transcripts keep of server/src/chat/transcript.rs.
use briska_blast.Common.{
  String, Bool, false, ◌≡◌, Option, none, some, List, [], ◌∷◌, string_eq, ℤ, is_empty, Result, ok,
  err,
}
use briska_blast.Common.Dict
use briska_blast.Common.Dict.{Dict}
use briska_blast.Protocol.{ClientMsg, send_chat}
use briska_blast.Session.Store.{Store, apply, del}
use briska_blast.Session.Host.{Players, AppError}
use briska_blast.Chat.Ids.{text_eq, Issued, next_id}
use briska_blast.Chat.Bans.{trim, lookup}
use briska_blast.Chat.Transcript.{Text, sweep_orphans}
use briska_blast.Chat.Transcript.Kept.{
  perform, minting, appending, sweeping, ending, perform_all-IsExact,
}
use briska_blast.Chat.Transcript.Pushed.{IsExact}
use briska_blast.Chat.Transcript.Held.{
  IsHeld, Command, run, run-IsHeld, perform_all-IsHeld, IsExact-IsHeld,
}
use briska_blast.Chat.Transcript.Logged.{Logged, Logged-refl, Logged-perform, Logged-trans}
use briska_blast.Chat.Blacklist.{matched_words}
use briska_blast.Chat.Capture.{ChatState, codes}
use briska_blast.Hub.Data.{Hub}
use briska_blast.Socket.World.{with_hub, World, notify, with_chat, with_store, end_chat}
use briska_blast.Socket.Frame.{
  Outside, handle_client_frame, ModeratorMessage, moderator_line, store_moderator_line,
  speak_as_moderator,
}
use briska_blast.Socket.Steps.{Event, happen}
use briska_blast.Socket.Logged.{Log, happen-Logged}
use briska_blast.Socket.Said.{said, found_in}
use briska_blast.Socket.Recorded.{IsOnRecord, flagged-kept, handle_client_frame-Logged}
use briska_blast.Api.Requests.{check_close, close_session}
use briska_blast.Moderation.Press.{Action, AdminSession, WarnForm}
use briska_blast.Moderation.Player
use briska_blast.Moderation.Logged.{apply-IsChatOnly}

-- What a request to close a session brings along, with what its read found.
pub record Closing : Type 0 where
  pub players : Players
  pub rate_ok : Bool
  pub player_id : String
  pub token : String
  pub read : Store

-- The last is any other request: whatever it makes of the keys and the rooms.
pub data Step : Type 0 where
  happening : String → Event → Step
  framed : String → String → Outside → Option ClientMsg → Step
  closing : String → Closing → Step
  pressed : Dict String String → AdminSession → Action → String → WarnForm → Step
  spoken : String → ModeratorMessage → Step
  swept : Step
  ticked : ℤ → Step
  changed : Store → Hub → Step

module _ (hash_token : String → String) where
  unfoldable pub serve : Step → World → World
  unfolding happen handle_client_frame close_session Player.apply speak_as_moderator sweep_orphans
  serve (happening code e) w = happen w code e
  serve (framed code p o frame) w = (handle_client_frame w code p o frame).1
  serve (closing code c) w =
      (close_session hash_token c.players c.rate_ok code c.player_id c.token c.read w).1
  serve (pressed names session action code form) w =
      (Player.apply names session action code form w).1
  serve (spoken code msg) w = speak_as_moderator w code msg
  serve swept w =
      with_chat w
        (record w.chat { transcripts = (sweep_orphans w.store w.clock w.chat.transcripts).1 })
  serve (ticked now) w = record w { clock = now }
  serve (changed store hub) w = with_hub (with_store w store) hub

  unfoldable pub serve_all : List Step → World → World
  unfolding serve
  serve_all [] w = w
  serve_all (step ∷ steps) w = serve_all steps (serve step w)

  close-Logged : (w : World) (code : String) (c : Closing) → Log w (serve (closing code c) w)
  unfolding serve close_session end_chat perform
  close-Logged w code c =
      let answer : Result (Unit {0}) AppError → Result (Unit {0}) AppError × World = λ r. elim r [
        | err e ↦ (err e, w)
        | ok u ↦ (ok tt, end_chat (with_store w (apply del code w.store)) code)
      ] in
      elim (check_close hash_token c.players c.rate_ok code c.player_id c.token c.read)
        as (λ r. Log w (answer r).1) [
          | err e ↦ Logged-refl w.chat.transcripts
          | ok u ↦ Logged-perform (ending code w.clock) w.chat.transcripts
        ]

  store_line-Logged :
      (now : ℤ) (code : String) (msg : ModeratorMessage) (issued : Option Issued) (chat : ChatState)
      → Logged chat.transcripts (store_moderator_line now code msg issued chat).1.transcripts
  unfolding store_moderator_line perform
  store_line-Logged now code msg none chat = Logged-refl chat.transcripts
  store_line-Logged now code msg (some i) chat =
      Logged-perform (appending code (moderator_line msg i.id now) now) chat.transcripts

  speak-Logged :
      (w : World) (code : String) (msg : ModeratorMessage) → Log w (speak_as_moderator w code msg)
  unfolding speak_as_moderator notify perform
  speak-Logged w code msg =
      let minted = perform minting w.chat.transcripts in
      let counted : ChatState = record w.chat { transcripts = minted } in
      let issued = (next_id w.chat.transcripts.body_ids).0 in
      Logged-trans w.chat.transcripts minted
        (store_moderator_line w.clock code msg issued counted).1.transcripts
        (Logged-perform minting w.chat.transcripts)
        (store_line-Logged w.clock code msg issued counted)

  serve-Logged : (step : Step) (w : World) → Log w (serve step w)
  unfolding serve perform
  serve-Logged (happening code e) w = happen-Logged w code e
  serve-Logged (framed code p o frame) w = handle_client_frame-Logged w code p o frame
  serve-Logged (closing code c) w = close-Logged w code c
  serve-Logged (pressed names session action code form) w =
      (apply-IsChatOnly names session action code form w).0.logged
  serve-Logged (spoken code msg) w = speak-Logged w code msg
  serve-Logged swept w = Logged-perform (sweeping w.store w.clock) w.chat.transcripts
  serve-Logged (ticked now) w = Logged-refl w.chat.transcripts
  serve-Logged (changed store hub) w = Logged-refl w.chat.transcripts

  serve_all-Logged : (steps : List Step) (w : World) → Log w (serve_all steps w)
  unfolding serve_all
  serve_all-Logged [] w = Logged-refl w.chat.transcripts
  serve_all-Logged (step ∷ steps) w =
      let next = serve step w in
      Logged-trans w.chat.transcripts next.chat.transcripts (serve_all steps next).chat.transcripts
        (serve-Logged step w) (serve_all-Logged steps next)

-- A whole step, or one command of a handler whose other commands come earlier or later.
pub data Turn : Type 0 where
  whole : Step → Turn
  command : Command → Turn

unfoldable pub take_turns : (String → String) → List Turn → World → World
unfolding serve run
take_turns hash_token [] w = w
take_turns hash_token (whole step ∷ turns) w = take_turns hash_token turns (serve hash_token step w)
take_turns hash_token (command c ∷ turns) w =
    take_turns hash_token turns
      (with_chat w (record w.chat { transcripts = run c w.chat.transcripts }))

take_turns-IsHeld :
    (hash_token : String → String) (turns : List Turn) (w : World)
    → IsHeld w.chat.transcripts
    → IsHeld (take_turns hash_token turns w).chat.transcripts
unfolding take_turns
take_turns-IsHeld hash_token [] w x = x
take_turns-IsHeld hash_token (whole step ∷ turns) w x =
    let (ops, e) = serve-Logged hash_token step w in
    take_turns-IsHeld hash_token turns (serve hash_token step w)
      (rw e (perform_all-IsHeld ops w.chat.transcripts x))
take_turns-IsHeld hash_token (command c ∷ turns) w x =
    take_turns-IsHeld hash_token turns
      (with_chat w (record w.chat { transcripts = run c w.chat.transcripts }))
      (run-IsHeld c w.chat.transcripts x)

-- From transcripts each marked as retained exactly when it holds a flagged line, a line that is
-- not a player's, or a mark of a deletion: frames, ends of sockets, timers, closed sessions,
-- tools and lines of moderators, sweeps, and changes of the keys and rooms by other requests, in
-- any order, keep that, as long as nothing comes between the commands of one end of a session;
-- and when single commands of ends, and the writes of lines whose transcript was found earlier,
-- do come at any other places among them, every transcript that holds such a line or mark is
-- still marked as retained.
pub take_turns-IsMarked :
    (hash_token : String → String) (steps : List Step) (turns : List Turn) (w : World)
    → IsExact w.chat.transcripts
    → IsExact (serve_all hash_token steps w).chat.transcripts
      × IsHeld (take_turns hash_token turns w).chat.transcripts
take_turns-IsMarked hash_token steps turns w x =
    let (ops, e) = serve_all-Logged hash_token steps w in
    (
      rw e (perform_all-IsExact ops w.chat.transcripts x),
      take_turns-IsHeld hash_token turns w (IsExact-IsHeld w.chat.transcripts x),
    )

-- If a player whom no ban names sends a line that is not blank and in which words of the
-- blacklist are found, the session's transcript is live and the sequence of ids is not at its
-- end, then the line as it was written, trimmed and cut to its first 500 characters but not
-- masked, is put on the transcript under the player's number, and stays on it through whatever
-- frames, ends of sockets, timers, closed sessions, tools and lines of moderators, sweeps, and
-- changes of the keys and rooms by other requests follow.
pub flagged-survives :
    (hash_token : String → String) (w : World) (code p : String) (o : Outside) (text : Text)
    (sid : Text) (i : Issued) (steps : List Step)
    → is_empty (trim text) ≡ false
    → lookup w.chat.bans (codes p) ≡ none
    → is_empty (matched_words (found_in w o text)) ≡ false
    → Dict.get w.chat.transcripts.live code ≡ some sid
    → (next_id w.chat.transcripts.body_ids).0 ≡ some i
    → IsOnRecord p
        (said text)
        sid
        w.chat.transcripts
        (serve_all hash_token (framed code p o (some (send_chat text)) ∷ steps) w).chat.transcripts
unfolding serve_all serve
flagged-survives hash_token w code p o text sid i steps worded free hit live issued =
    let (ops, e) =
      serve_all-Logged hash_token steps
        (handle_client_frame w code p o (some (send_chat text))).1 in
    rw e (flagged-kept w code p o text sid i ops worded free hit live issued)
