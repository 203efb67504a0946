-- ===== src/Players/Accounts.antt =====
-- `register` of server/src/api/register.rs, `update_username` of api/me.rs, and `delete_user` and
-- `save_dev_flags` of admin/users.rs. An id and a name are the lists of their characters. The hash of a
-- token, the token that is drawn, and the answers of the limiter and of the role check are given.
use briska_blast.Common.{
  ℕ, String, Bool, true, false, not, ◌&&◌, ◌||◌, Option, none, some, List, [], ◌∷◌, ◌==◌, nat_eq,
  string_eq, ltb, is_empty, length, keep, if◌then◌else◌, Result, ok, err, ensure,
}
use briska_blast.Common.Dict
use briska_blast.Common.Dict.{Dict}
use briska_blast.Chat.Ids.{text_eq}
use briska_blast.Chat.Bans.{Bans, trim, from_counter, parse_u64, clear}
use briska_blast.Session.Host.{AppError, unauthorized, too_many_requests, bad_request, internal}
use briska_blast.Players.Numbers.{Member, allocate_player_number, zadd}

-- The keys `player:{id}:token_hash`, `:username` and `:dev_flag`, the bans, the pool and the counter.
pub record Registry : Type 0 where
  pub token_hash : Dict (List ℕ) String
  pub username : Dict (List ℕ) (List ℕ)
  pub dev_flag : Dict (List ℕ) String
  pub bans : Bans
  pub freelist : List Member
  pub counter : ℕ

pub record RegisterRequest : Type 0 where
  pub username : List ℕ
  pub prior_player_id : Option (List ℕ)
  pub prior_secret_token : Option String

pub record RegisterResponse : Type 0 where
  pub player_id : List ℕ
  pub secret_token : String
  pub username : List ℕ
  pub dev_flag : Bool

abbrev pub max_username_len : ℕ
max_username_len = 20

abbrev pub is_bad_name : List ℕ → Bool
is_bad_name name = is_empty name || ltb max_username_len (length name)

-- The identity that the launcher still holds, if its token is the one on file.
unfoldable pub prior_matches : (String → String) → Registry → List ℕ → String → Bool
prior_matches hash_token r pid token =
    not (is_empty pid)
    && (not (token == "")
        && (elim (Dict.get r.token_hash pid) [ none ↦ false | some h ↦ h == hash_token token ]))

unfoldable pub reused : (String → String) → Registry → RegisterRequest → Option (List ℕ × String)
unfolding prior_matches
reused hash_token r req = elim req.prior_player_id [
  | none ↦ none
  | some pid ↦ elim req.prior_secret_token [
    | none ↦ none
    | some token ↦ if prior_matches hash_token r pid token then some (pid, token) else none
  ]
]

-- A new id, with the hash of the token drawn for it.
unfoldable pub issue_id : (String → String) → String → Registry → Option (List ℕ × Registry)
unfolding allocate_player_number from_counter
issue_id hash_token drawn r = elim (allocate_player_number r.freelist r.counter) [
  | none ↦ none
  | some (number, pool, counter) ↦ some (
    from_counter number,
    record r {
      token_hash = Dict.insert r.token_hash (from_counter number) (hash_token drawn);
      freelist = pool;
      counter = counter;
    },
  )
]

unfoldable pub identity_for :
    (String → String) → String → Registry → RegisterRequest → Option (List ℕ × String × Registry)
unfolding reused issue_id
identity_for hash_token drawn r req = elim (reused hash_token r req) [
  | some (pid, token) ↦ some (pid, token, r)
  | none ↦ elim (issue_id hash_token drawn r) [
    | none ↦ none
    | some (pid, r') ↦ some (pid, drawn, r')
  ]
]

abbrev pub has_flag : Registry → List ℕ → Bool
has_flag r pid = elim (Dict.get r.dev_flag pid) [ none ↦ false | some flag ↦ flag == "true" ]

unfoldable pub answer_register :
    List ℕ
    → Option (List ℕ × String × Registry)
    → Registry
    → Result RegisterResponse AppError × Registry
answer_register name none r = (err internal, r)
answer_register name (some (pid, token, r')) r = (
  ok (record {
    player_id = pid;
    secret_token = token;
    username = name;
    dev_flag = has_flag r' pid;
  }),
  record r' { username = Dict.insert r'.username pid name },
)

unfoldable pub register :
    (String → String)
    → Bool
    → String
    → RegisterRequest
    → Registry
    → Result RegisterResponse AppError × Registry
unfolding identity_for answer_register
register hash_token rate_ok drawn req r =
    if not rate_ok
    then (err too_many_requests, r)
    else if is_bad_name (trim req.username)
    then (err (bad_request "invalid username"), r)
    else answer_register (trim req.username) (identity_for hash_token drawn r req) r

-- `validate_player` on these keys.
unfoldable pub check_player :
    (String → String) → Registry → List ℕ → String → Result (Unit {0}) AppError
check_player hash_token r pid token = elim (Dict.get r.token_hash pid) [
  | none ↦ err unauthorized
  | some h ↦ ensure (hash_token token == h) unauthorized
]

abbrev pub stored_name : Registry → List ℕ → List ℕ
stored_name r pid = elim (Dict.get r.username pid) [ none ↦ [] | some name ↦ name ]

-- Whether the name was taken, and the name on file then.
abbrev pub NameAnswer : Type 0
NameAnswer = Bool × List ℕ

unfoldable pub rename : List ℕ → List ℕ → Registry → Result NameAnswer AppError × Registry
rename pid name r =
    if is_bad_name name
    then (ok (false, stored_name r pid), r)
    else (ok (true, name), record r { username = Dict.insert r.username pid name })

unfoldable pub update_username :
    (String → String)
    → Bool
    → List ℕ
    → String
    → List ℕ
    → Registry
    → Result NameAnswer AppError × Registry
unfolding check_player rename
update_username hash_token rate_ok pid token name r =
    if not rate_ok then (err too_many_requests, r) else elim (check_player hash_token r pid token) [
      | err e ↦ (err e, r)
      | ok u ↦ rename pid (trim name) r
    ]

pub data DeleteOutcome : Type 0 where
  forbidden missing_id no_such_user deleted : DeleteOutcome

-- `DEL` of the three keys, the ban, and `ZADD` of the number.
unfoldable pub wipe : List ℕ → Registry → Registry
unfolding clear
wipe id r = record r {
  token_hash = Dict.remove r.token_hash id;
  username = Dict.remove r.username id;
  dev_flag = Dict.remove r.dev_flag id;
  bans = clear r.bans id;
}

unfoldable pub recycle : List ℕ → Registry → Registry
unfolding parse_u64 zadd
recycle id r = elim (parse_u64 id) [
  | none ↦ r
  | some number ↦ record r { freelist = zadd number r.freelist }
]

-- What is tested before the `DEL`: the id that is then deleted, or the refusal.
unfoldable pub check_delete : Bool → List ℕ → Registry → Result (List ℕ) DeleteOutcome
check_delete is_admin id r =
    if not is_admin
    then err forbidden
    else if is_empty (trim id)
    then err missing_id
    else if Dict.contains_key r.token_hash (trim id)
    then ok (trim id)
    else err no_such_user

-- `before_wipe` and `before_recycle` are what other requests make of the keys before the `DEL` and
-- before the `ZADD`.
unfoldable pub delete_user :
    Bool
    → List ℕ
    → (Registry → Registry)
    → (Registry → Registry)
    → Registry
    → DeleteOutcome × Registry
unfolding check_delete wipe recycle
delete_user is_admin id before_wipe before_recycle found = elim (check_delete is_admin id found) [
  | err e ↦ (e, found)
  | ok i ↦ (deleted, recycle i (before_recycle (wipe i (before_wipe found))))
]

-- `split(',')`: the part before the first comma, and the parts after it.
unfoldable pub split_commas : List ℕ → List ℕ × List (List ℕ)
split_commas [] = ([], [])
split_commas (c ∷ cs) =
    let (part, parts) = split_commas cs in if c == 44 then ([], part ∷ parts) else (c ∷ part, parts)

abbrev pub known_ids : List ℕ → List (List ℕ)
unfolding split_commas
known_ids text =
    let (part, parts) = split_commas text in keep (λ p. not (is_empty p)) (part ∷ parts)

-- `checked` tells which boxes of the form are on.
unfoldable pub save_flags : (List ℕ → Bool) → List (List ℕ) → Registry → Registry
save_flags checked [] r = r
save_flags checked (id ∷ ids) r = save_flags checked ids (
    if Dict.contains_key r.token_hash id
    then record r { dev_flag = Dict.insert r.dev_flag id (if checked id then "true" else "false") }
    else r)

unfoldable pub save_dev_flags : Bool → (List ℕ → Bool) → List ℕ → Registry → Registry
unfolding save_flags
save_dev_flags is_admin checked known r =
    if is_admin then save_flags checked (known_ids known) r else r
