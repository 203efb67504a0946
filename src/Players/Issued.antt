-- ===== src/Players/Issued.antt =====
-- Whatever accounts come and are renamed: a number has one player at most, and is not in the pool
-- while it has one.
use briska_blast.Common.{
  ℕ, refl, String, Bool, true, false, List, [], ◌∷◌, if◌then◌else◌, arith, Result-cases, if_both,
  inl, inr, Result, ok, string_eq,
}
use briska_blast.Common.Dict
use briska_blast.Common.Dict.{Dict}
use briska_blast.Chat.Ids.{text_eq}
use briska_blast.Chat.Bans.{trim}
use briska_blast.Session.Host.{AppError}
use briska_blast.Players.Accounts.{
  Registry, RegisterRequest, register, rename, check_player, update_username, NameAnswer,
  stored_name, save_flags, save_dev_flags, known_ids,
}
use briska_blast.Players.Registered.{IsIssued, same-IsIssued, register-Answers, Answers-IsIssued}

rename-IsIssued : (pid name : List ℕ) (r : Registry) → IsIssued r → IsIssued (rename pid name r).1
unfolding rename
rename-IsIssued pid name r g =
    if_both (λ (a : Result NameAnswer AppError × Registry). IsIssued a.1) _
      (ok (false, stored_name r pid), r) _ g
      (same-IsIssued r (record r { username = Dict.insert r.username pid name }) refl refl refl g)

update_username-IsIssued :
    (hash_token : String → String) (rate_ok : Bool) (pid : List ℕ) (token : String) (name : List ℕ)
    (r : Registry)
    → IsIssued r
    → IsIssued (update_username hash_token rate_ok pid token name r).1
unfolding update_username
update_username-IsIssued hash_token false pid token name r g = g
update_username-IsIssued hash_token true pid token name r g =
    elim (Result-cases (check_player hash_token r pid token)) [
      | inr (e, bad) ↦ rw (bad, update_username) g
      | inl good ↦ rw (good, update_username) (rename-IsIssued pid (trim name) r g)
    ]

save_flags-IsIssued :
    (checked : List ℕ → Bool) (ids : List (List ℕ)) (r : Registry)
    → IsIssued r
    → IsIssued (save_flags checked ids r)
unfolding save_flags
save_flags-IsIssued checked [] r g = g
save_flags-IsIssued checked (id ∷ ids) r g = save_flags-IsIssued checked ids _ (
    if_both IsIssued (Dict.contains_key r.token_hash id) _ r
      (same-IsIssued r
        (record r { dev_flag = Dict.insert r.dev_flag id (if checked id then "true" else "false") })
        refl refl refl g)
      g)

pub data Request : Type 0 where
  registering : Bool → String → RegisterRequest → Request
  renaming : Bool → List ℕ → String → List ℕ → Request
  flagging : Bool → (List ℕ → Bool) → List ℕ → Request

unfoldable pub serve : (String → String) → Request → Registry → Registry
unfolding register update_username save_dev_flags
serve hash_token (registering rate_ok drawn req) r = (register hash_token rate_ok drawn req r).1
serve hash_token (renaming rate_ok pid token name) r =
    (update_username hash_token rate_ok pid token name r).1
serve hash_token (flagging is_admin checked known) r = save_dev_flags is_admin checked known r

pub serve-IsIssued :
    (hash_token : String → String) (q : Request) (r : Registry)
    → IsIssued r
    → IsIssued (serve hash_token q r)
unfolding serve save_dev_flags
serve-IsIssued hash_token (registering rate_ok drawn req) r g =
    Answers-IsIssued hash_token r (register hash_token rate_ok drawn req r) g
      (register-Answers hash_token rate_ok drawn req r g)
serve-IsIssued hash_token (renaming rate_ok pid token name) r g =
    update_username-IsIssued hash_token rate_ok pid token name r g
serve-IsIssued hash_token (flagging is_admin checked known) r g =
    if_both IsIssued is_admin _ r (save_flags-IsIssued checked (known_ids known) r g) g

abbrev pub serve_all : (String → String) → List Request → Registry → Registry
serve_all hash_token [] r = r
serve_all hash_token (q ∷ qs) r = serve_all hash_token qs (serve hash_token q r)

pub serve_all-IsIssued :
    (hash_token : String → String) (qs : List Request) (r : Registry)
    → IsIssued r
    → IsIssued (serve_all hash_token qs r)
serve_all-IsIssued hash_token [] r g = g
serve_all-IsIssued hash_token (q ∷ qs) r g =
    serve_all-IsIssued hash_token qs (serve hash_token q r) (serve-IsIssued hash_token q r g)

abbrev pub new_registry : Registry
new_registry = record {
  token_hash = Dict.empty;
  username = Dict.empty;
  dev_flag = Dict.empty;
  bans = Dict.empty;
  freelist = [];
  counter = 0;
}

pub new_registry-IsIssued : IsIssued new_registry
new_registry-IsIssued = record {
  pool = record { counted = omega arith; entries = tt };
  number = λ id there. absurd (ground (arith, there, Dict.get-empty {V = String} id));
}
