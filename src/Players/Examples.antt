-- ===== src/Players/Examples.antt =====
-- Tests, and concrete cases.
use briska_blast.Common.{ℕ, String, true, none, some, List, [], ◌∷◌, ◌≡◌, refl, arith}
use briska_blast.Common.Dict
use briska_blast.Common.Dict.{Dict}
use briska_blast.Chat.Ids.{text_eq}
use briska_blast.Chat.Bans.{from_counter}
use briska_blast.Players.Numbers.{allocate_player_number}
use briska_blast.Players.Accounts.{Registry, RegisterRequest, issue_id, register, wipe, recycle}
use briska_blast.Players.Issued.{
  registering, serve, serve_all, new_registry, serve_all-IsIssued, new_registry-IsIssued,
}
use briska_blast.Players.Registered.{Answers}
use briska_blast.Players.Stages.{Turn, serving, checking, wiping, recycling, take_all}
use briska_blast.Players.Orderly.{IsOrderly, new_desk, take_all-fresh}
use briska_blast.Players.Shared.{late_recycle-shared}

-- The lowest number goes first, also before a shorter text.
lowest_first :
    allocate_player_number ((49 ∷ 48 ∷ [], 10) ∷ (57 ∷ [], 9) ∷ []) 12
    ≡ some (9, (49 ∷ 48 ∷ [], 10) ∷ [], 12)
unfolding allocate_player_number
lowest_first = refl

abbrev same_hash : String → String
same_hash token = token

abbrev ann : RegisterRequest
ann = record { username = 32 ∷ 65 ∷ []; prior_player_id = none; prior_secret_token = none }

-- Ann registers and is deleted, and another registers before the number is recycled.
abbrev turns : List Turn
turns =
    serving (registering true "a" ann)
    ∷ checking true (from_counter 1)
    ∷ wiping (from_counter 1)
    ∷ serving (registering true "c" ann)
    ∷ recycling (from_counter 1)
    ∷ []

take_all-fresh_example :
    IsOrderly (take_all same_hash turns new_desk)
    × Answers same_hash
        (take_all same_hash turns new_desk).registry
        (register same_hash true "b" ann (take_all same_hash turns new_desk).registry)
take_all-fresh_example = take_all-fresh same_hash turns true "b" ann

abbrev no_hashes : Dict (List ℕ) String
no_hashes = Dict.empty

abbrev one : Registry
one = serve_all same_hash (registering true "a" ann ∷ []) new_registry

on_file : Dict.contains_key one.token_hash (from_counter 1) ≡ true
unfolding serve register issue_id
on_file = ground (arith, Dict.get-insert_self no_hashes (from_counter 1) "a")

none_free : one.freelist ≡ []
unfolding serve register issue_id
none_free = refl

late_recycle-shared_example :
    (s : Registry) × (s' : Registry) × (issue_id same_hash "b"
        (recycle (from_counter 1) (wipe (from_counter 1) (wipe (from_counter 1) one)))
      ≡ some (from_counter 1, s))
    × (issue_id same_hash "c" (recycle (from_counter 1) s) ≡ some (from_counter 1, s'))
    × (Dict.get s.token_hash (from_counter 1) ≡ some "b")
    × (Dict.get s'.token_hash (from_counter 1) ≡ some "c")
late_recycle-shared_example =
    late_recycle-shared same_hash "b" "c" one (from_counter 1)
      (serve_all-IsIssued same_hash (registering true "a" ann ∷ []) new_registry
        new_registry-IsIssued)
      on_file none_free
