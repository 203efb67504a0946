-- ===== src/Players/Stages.antt =====
-- Deletions in flight: the check, the `DEL` and the `ZADD` of `delete_user` of
-- server/src/admin/users.rs, with registrations, changes of names and of flags, and deletions of
-- other ids between them.
use briska_blast.Common.{
  ℕ, ◌≡◌, refl, String, Bool, true, false, Option, some, List, [], ◌∷◌, string_eq, result-cases,
  inl, inr, Result, ok, err, if◌then◌else◌, if_both,
}
use briska_blast.Common.Dict
use briska_blast.Common.Dict.{Dict}
use briska_blast.Chat.Ids.{text_eq}
use briska_blast.Chat.Bans.{trim}
use briska_blast.Session.Host.{AppError}
use briska_blast.Players.Accounts.{
  Registry, rename, update_username, check_player, save_flags, save_dev_flags, known_ids, wipe,
  recycle, check_delete, delete_user, NameAnswer, stored_name, DeleteOutcome,
}
use briska_blast.Players.Registered.{IsIssued}
use briska_blast.Players.Issued.{Request, registering, renaming, flagging, serve}
use briska_blast.Players.Spare.{IsSparing, same-IsSparing, register-IsSparing}

-- Whether the `DEL` is done.
pub data Stage : Type 0 where
  checked wiped : Stage

-- The registry, and the deletions in flight by their ids.
pub record Desk : Type 0 where
  pub registry : Registry
  pub in_flight : Dict (List ℕ) Stage

-- Another request, or one of the commands of a deletion.
pub data Turn : Type 0 where
  serving : Request → Turn
  checking : Bool → List ℕ → Turn
  wiping recycling : List ℕ → Turn

-- A deletion begins only if none of the same id is in flight.
unfoldable pub begin_delete : Result (List ℕ) DeleteOutcome → Desk → Desk
begin_delete (err e) d = d
begin_delete (ok id) d =
    if Dict.contains_key d.in_flight id
    then d
    else record d { in_flight = Dict.insert d.in_flight id checked }

unfoldable pub wipe_at : Option Stage → List ℕ → Desk → Desk
unfolding wipe
wipe_at (some checked) id d = record {
  registry = wipe id d.registry;
  in_flight = Dict.insert d.in_flight id wiped;
}
wipe_at _ id d = d

unfoldable pub recycle_at : Option Stage → List ℕ → Desk → Desk
unfolding recycle
recycle_at (some wiped) id d = record {
  registry = recycle id d.registry;
  in_flight = Dict.remove d.in_flight id;
}
recycle_at _ id d = d

unfoldable pub take : (String → String) → Turn → Desk → Desk
unfolding serve check_delete begin_delete wipe_at recycle_at
take hash_token (serving q) d = record d { registry = serve hash_token q d.registry }
take hash_token (checking is_admin id) d = begin_delete (check_delete is_admin id d.registry) d
take hash_token (wiping id) d = wipe_at (Dict.get d.in_flight id) id d
take hash_token (recycling id) d = recycle_at (Dict.get d.in_flight id) id d

abbrev pub take_all : (String → String) → List Turn → Desk → Desk
take_all hash_token [] d = d
take_all hash_token (t ∷ ts) d = take_all hash_token ts (take hash_token t d)

-- The three commands of a deletion, with one request before each of the last two, are `delete_user`.
take-delete_user :
    (hash_token : String → String) (is_admin : Bool) (id i : List ℕ) (q q' : Request) (d : Desk)
    → check_delete is_admin id d.registry ≡ ok i
    → Dict.contains_key d.in_flight i ≡ false
    → (take_all hash_token
        (checking is_admin id ∷ serving q ∷ wiping i ∷ serving q' ∷ recycling i ∷ [])
        d).registry
      ≡ (delete_user is_admin id (serve hash_token q) (serve hash_token q') d.registry).1
unfolding take delete_user begin_delete wipe_at recycle_at
take-delete_user hash_token is_admin id i q q' d passed free =
    let begun = Dict.insert d.in_flight i checked in
    rw (passed, begin_delete, delete_user)
      (rw (free, begin_delete)
        (rw (Dict.get-insert_self d.in_flight i checked, wipe_at)
          (rw (Dict.get-insert_self begun i wiped, recycle_at) refl)))

rename-IsSparing : (pid name : List ℕ) (r : Registry) → IsSparing r (rename pid name r).1
unfolding rename
rename-IsSparing pid name r =
    if_both (λ (a : Result NameAnswer AppError × Registry). IsSparing r a.1) _
      (ok (false, stored_name r pid), r) _ (same-IsSparing r r refl refl refl)
      (same-IsSparing r (record r { username = Dict.insert r.username pid name }) refl refl refl)

update_username-IsSparing :
    (hash_token : String → String) (rate_ok : Bool) (pid : List ℕ) (token : String) (name : List ℕ)
    (r : Registry)
    → IsSparing r (update_username hash_token rate_ok pid token name r).1
unfolding update_username
update_username-IsSparing hash_token false pid token name r = same-IsSparing r r refl refl refl
update_username-IsSparing hash_token true pid token name r =
    elim (result-cases (check_player hash_token r pid token)) [
      | inr (e, bad) ↦ rw (bad, update_username) (same-IsSparing r r refl refl refl)
      | inl (u, good) ↦ rw (good, update_username) (rename-IsSparing pid (trim name) r)
    ]

save_flags-IsSparing :
    (checked_ids : List ℕ → Bool) (ids : List (List ℕ)) (r s : Registry)
    → IsSparing r s
    → IsSparing r (save_flags checked_ids ids s)
unfolding save_flags
save_flags-IsSparing f [] r s g = g
save_flags-IsSparing f (id ∷ ids) r s g = save_flags-IsSparing f ids r _ (
    if_both (IsSparing r) (Dict.contains_key s.token_hash id)
      (record s { dev_flag = Dict.insert s.dev_flag id (if f id then "true" else "false") }) s
      (record { keeps = g.keeps; spares = g.spares }) g)

pub serve-IsSparing :
    (hash_token : String → String) (q : Request) (r : Registry)
    → IsIssued r
    → IsSparing r (serve hash_token q r)
unfolding serve save_dev_flags
serve-IsSparing hash_token (registering rate_ok drawn req) r g =
    register-IsSparing hash_token rate_ok drawn req r g
serve-IsSparing hash_token (renaming rate_ok pid token name) r g =
    update_username-IsSparing hash_token rate_ok pid token name r
serve-IsSparing hash_token (flagging is_admin f known) r g =
    if_both (IsSparing r) is_admin _ r
      (save_flags-IsSparing f (known_ids known) r r (same-IsSparing r r refl refl refl))
      (same-IsSparing r r refl refl refl)
