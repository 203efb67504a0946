-- ===== src/Session/Hosting.antt =====
-- What `POST /host` writes is what the histories of the store assume of it.
use briska_blast.Common.{
  ℕ, ◌≡◌, ◌≤◌, ◌↔◌, refl, String, Bool, true, false, none, some, List, [], ◌∷◌, any, not, string_eq,
  ==_iff, arith, ok, map_err, map_err-ok, >>_ok, ◌>>◌, Option-cases, Result-cases, subst, ◌⊎◌,
  Bool-cases, inl, inr,
}
use briska_blast.Common.Dict
use briska_blast.Settings.Mode.{
  GameMode, extended, validate_player_count, validate_player_count_iff, bounds_for,
}
use briska_blast.Settings.Win
use briska_blast.Settings.Spawn
use briska_blast.Settings.Loot
use briska_blast.Session.Store.{Store, serde_encode, decode, apply}
use briska_blast.Session.Valid.{HasSettings}
use briska_blast.Session.Host.{
  HostRequest, Players, invalid_player_count, invalid_win_condition, invalid_spawn_settings,
  invalid_loot_settings, validate_player, free_code, new_session, check_host, host,
}
use briska_blast.Session.Steps.{create, perform, IsCall}

-- A request in range, of a player whose token is on file.
abbrev pub Accepts : (String → String) → Players → HostRequest → Type 0
Accepts hash_token players body =
    HasSettings (new_session body "")
    × (Dict.get players body.player_id ≡ some (hash_token body.secret_token))

pub validate_player_iff :
    (hash_token : String → String) (players : Players) (p token : String)
    → (validate_player hash_token players p token ≡ ok tt)
      ↔ (Dict.get players p ≡ some (hash_token token))
unfolding validate_player
validate_player_iff hash_token players p token = elim (Option-cases (Dict.get players p)) [
  | inl gone ↦ ground (arith, gone)
  | inr (h, e) ↦ ground (arith, e, ==_iff (hash_token token) h)
]

check_host_iff :
    (hash_token : String → String) (players : Players) (body : HostRequest)
    → (check_host hash_token players true body ≡ ok tt) ↔ Accepts hash_token players body
unfolding check_host
check_host_iff hash_token players body = ground (
  arith,
  >>_ok (map_err invalid_player_count (validate_player_count body.gamemode body.player_count))
      (map_err invalid_win_condition (Win.validate body.win_condition)
        >> (map_err invalid_spawn_settings (Spawn.validate body.spawn_settings)
            >> (map_err invalid_loot_settings (Loot.validate body.loot_settings)
                >> validate_player hash_token players body.player_id body.secret_token)))
      tt,
  >>_ok (map_err invalid_win_condition (Win.validate body.win_condition))
      (map_err invalid_spawn_settings (Spawn.validate body.spawn_settings)
        >> (map_err invalid_loot_settings (Loot.validate body.loot_settings)
            >> validate_player hash_token players body.player_id body.secret_token))
      tt,
  >>_ok (map_err invalid_spawn_settings (Spawn.validate body.spawn_settings))
      (map_err invalid_loot_settings (Loot.validate body.loot_settings)
        >> validate_player hash_token players body.player_id body.secret_token)
      tt,
  >>_ok (map_err invalid_loot_settings (Loot.validate body.loot_settings))
      (validate_player hash_token players body.player_id body.secret_token) tt,
  map_err-ok invalid_player_count (validate_player_count body.gamemode body.player_count) tt,
  map_err-ok invalid_win_condition (Win.validate body.win_condition) tt,
  map_err-ok invalid_spawn_settings (Spawn.validate body.spawn_settings) tt,
  map_err-ok invalid_loot_settings (Loot.validate body.loot_settings) tt,
  validate_player_count_iff body.gamemode body.player_count,
  Win.validate_iff body.win_condition,
  Spawn.validate_iff body.spawn_settings,
  Loot.validate_iff body.loot_settings,
  validate_player_iff hash_token players body.player_id body.secret_token,
)

-- Nothing passes once the caller's rate is exceeded.
check_host-rate :
    (hash_token : String → String) (players : Players) (rate_ok : Bool) (body : HostRequest)
    → check_host hash_token players rate_ok body ≡ ok tt
    → rate_ok ≡ true
unfolding check_host
check_host-rate hash_token players true body h = refl
check_host-rate hash_token players false body h = cc

-- The code is one of those drawn, and was free when that draw asked.
abbrev pub WasFree : String → List (Store × String) → Type 0
WasFree code [] = ⊥
WasFree code ((found, c) ∷ draws) = ((c ≡ code) × (Dict.get found code ≡ none)) ⊎ WasFree code draws

free_code-WasFree :
    (draws : List (Store × String)) (code : String)
    → free_code draws ≡ some code
    → WasFree code draws
unfolding free_code
free_code-WasFree [] code h = cc
free_code-WasFree ((found, c) ∷ draws) code h = elim (Bool-cases (Dict.contains_key found c)) [
  | inl taken ↦ inr (free_code-WasFree draws code (ground (arith, taken, h)))
  | inr free ↦ inl (ground (arith, free, h))
]

free_code-some :
    (draws : List (Store × String))
    → any (λ d. not (Dict.contains_key d.0 d.1)) draws ≡ true
    → (code : String) × (free_code draws ≡ some code)
unfolding free_code
free_code-some [] h = cc
free_code-some ((found, c) ∷ draws) h = elim (Bool-cases (Dict.contains_key found c)) [
  | inl taken ↦
      let (code, e) = free_code-some draws (ground (arith, taken)) in
      (code, ground (arith, taken, e))
  | inr free ↦ (c, ground (arith, free))
]

bounds_for-two : (mode : GameMode) → 2 ≤ (bounds_for mode).0
unfolding bounds_for
bounds_for-two extended = omega arith

-- If a session is created, whatever other requests do between the draws and the write: the
-- request is in range and its player has that token, the code was free when it was drawn, and the
-- write is that of this session over whatever the key holds by then; it is a call of a history,
-- the creation of a valid session of the lobby, exactly if the key is still free.
pub host-IsCall :
    (hash_token : String → String) (players : Players) (rate_ok : Bool)
    (draws : List (Store × String)) (ttl : ℕ) (body : HostRequest) (store after : Store)
    (code : String)
    → host hash_token players rate_ok draws ttl body store ≡ some (ok code, after)
    → Accepts hash_token players body
      × WasFree code draws
      × (after ≡ perform (create (new_session body code) ttl) code store)
      × (IsCall (create (new_session body code) ttl) code store ↔ (Dict.get store code ≡ none))
unfolding host perform apply decode
host-IsCall hash_token players rate_ok draws ttl body store after code h =
    elim (Result-cases (check_host hash_token players rate_ok body)) [
      | inr (e, refused) ↦ absurd (ground (arith, refused))
      | inl passed ↦ elim (Option-cases (free_code draws)) [
        | inl none_free ↦ absurd (ground (arith, passed, none_free))
        | inr (c, e) ↦
            let same : c ≡ code = ground (arith, passed, e) in
            let accepted = (check_host_iff hash_token players body).0 (
              subst (λ b. check_host hash_token players b body ≡ ok tt)
                (check_host-rate hash_token players rate_ok body passed) passed) in
            (
              accepted,
              free_code-WasFree draws code (ground (arith, e, same)),
              ground (arith, passed, e, same),
              (
                λ call. call.1,
                λ still_free. (
                  record {
                    readable = refl;
                    named = refl;
                    valid = record {
                      distinct = (refl, tt);
                      capacity = omega (arith, bounds_for-two body.gamemode, accepted.0.0);
                      lobby_seats = λ _. refl;
                      match_seats = λ w. cc;
                      settings = accepted.0;
                    };
                  },
                  still_free,
                ),
              ),
            )
      ]
    ]

-- Such a request is granted once one of the codes that are drawn is free.
pub host-some :
    (hash_token : String → String) (players : Players) (draws : List (Store × String)) (ttl : ℕ)
    (body : HostRequest) (store : Store)
    → Accepts hash_token players body
    → any (λ d. not (Dict.contains_key d.0 d.1)) draws ≡ true
    → (code : String) × (after : Store) × (host hash_token players true draws ttl body store
        ≡ some (ok code, after))
unfolding host
host-some hash_token players draws ttl body store a free =
    let (code, e) = free_code-some draws free in
    (
      code,
      Dict.insert store code (serde_encode (new_session body code) ttl),
      rw ((check_host_iff hash_token players body).1 a, host) (rw e refl),
    )
