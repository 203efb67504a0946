-- ===== src/Api/Answers.antt =====
-- What an answer tells of the session, and that a refused request changes nothing.
use briska_blast.Common.{
  ℕ, ◌+◌, ◌≤◌, ◌≡◌, refl, ap, subst, String, Bool, true, false, some, List, [], ◌∷◌, ◌++◌, length,
  contains, contains-append, string_eq, ◌==◌, ==_iff, arith, ok, err, Result-cases, Option-cases,
  Bool-cases, inl, inr, ◌⊎◌, is_empty, leb, length-append,
}
use briska_blast.Common.Dict
use briska_blast.Session.Data.{
  Session, SessionStatus, JoinerEntry, is_joiner, ids, members, is_waiting, u8_max,
  current_player_count,
}
use briska_blast.Session.Store.{
  Store, Raw, decode, deserialize_seat_order, cjson_encode, run_script, Effect, set, keep, apply,
}
use briska_blast.Session.Lobby.{JoinOutcome, join_script, join_body, push_joiner, entry}
use briska_blast.Session.Rosters.{ids-snoc}
use briska_blast.Session.Host.{AppError, Players, not_found, conflict, session_full}
use briska_blast.Socket.World.{World}
use briska_blast.Api.Requests.{
  admit, JoinResponse, join_response, answer_join, join, load_session, SessionPollResponse,
  get_session,
}

-- The session that a join stores, as it is read back.
abbrev joined : Session → String → ℕ → ℕ → Session
joined s p now ttl = record (push_joiner s p now) {
  seat_order = deserialize_seat_order (cjson_encode (push_joiner s p now) ttl);
}

is_empty_snoc :
    (s : Session) (p : String) (now : ℕ) → is_empty (push_joiner s p now).joiners ≡ false
is_empty_snoc s p now = go s.joiners
  where
    go : (js : List JoinerEntry) → is_empty (js ++ entry p now ∷ []) ≡ false
    go [] = refl
    go (j ∷ js) = refl

decode-joined :
    (s : Session) (p : String) (now ttl : ℕ)
    → decode (cjson_encode (push_joiner s p now) ttl) ≡ some (joined s p now ttl)
unfolding decode
decode-joined s p now ttl = ground (arith, is_empty_snoc s p now)

-- The ways in which the join's body ends: a refusal that writes nothing, or the new member.
abbrev Joins : String → ℕ → ℕ → Session → JoinOutcome × Effect → Type 0
Joins p now ttl s (outcome, effect) =
    ((e : AppError) × (answer_join outcome ≡ err e) × (effect ≡ keep))
    ⊎ ((1 + length (push_joiner s p now).joiners ≤ s.player_count)
        × (outcome ≡ JoinOutcome.ok (cjson_encode (push_joiner s p now) ttl))
        × (effect ≡ set (cjson_encode (push_joiner s p now) ttl)))

join_body-Joins :
    (p : String) (now ttl : ℕ) (s : Session) → Joins p now ttl s (join_body p now ttl s)
unfolding join_body answer_join
join_body-Joins p now ttl s = elim (Bool-cases (is_waiting s.status)) [
  | inr late ↦ inl (conflict "session_already_active", ground (arith, late), ground (arith, late))
  | inl lobby ↦ elim (Bool-cases (s.host_player_id == p)) [
    | inl own ↦
        inl (
          conflict "cannot_join_own_session",
          ground (arith, lobby, own),
          ground (arith, lobby, own),
        )
    | inr other ↦ elim (Bool-cases (is_joiner s.joiners p)) [
      | inl again ↦ inl (
        conflict "already_joined",
        ground (arith, lobby, other, again),
        ground (arith, lobby, other, again),
      )
      | inr new ↦ elim (Bool-cases (leb s.player_count (1 + length s.joiners))) [
        | inl full ↦ inl (
          session_full s.player_count,
          ground (arith, lobby, other, new, full),
          ground (arith, lobby, other, new, full),
        )
        | inr room ↦ inr (
          ground (arith, room, length-append s.joiners (entry p now ∷ [])),
          ground (arith, lobby, other, new, room),
          ground (arith, lobby, other, new, room),
        )
      ]
    ]
  ]
]

-- The same of the script, with what the handler makes of it.
Joined : String → ℕ → ℕ → String → Store → JoinOutcome × Store → Type 0
Joined p now ttl code store (outcome, after) =
    ((e : AppError) × (answer_join outcome ≡ err e) × (after ≡ store))
    ⊎ ((raw : Raw) × (Dict.get store code ≡ some raw)
        × (1 + length (push_joiner raw.session p now).joiners ≤ raw.session.player_count)
        × (answer_join outcome ≡ ok (join_response (joined raw.session p now ttl)))
        × (after ≡ Dict.insert store code (cjson_encode (push_joiner raw.session p now) ttl)))

join_script-Joined :
    (p : String) (now ttl : ℕ) (code : String) (store : Store)
    → Joined p now ttl code store (join_script p now ttl code store)
unfolding join_script run_script answer_join apply Joined
join_script-Joined p now ttl code store = elim (Option-cases (Dict.get store code)) [
  | inl gone ↦ rw (gone, join_script, run_script) (inl (not_found, refl, refl))
  | inr (raw, e) ↦
      rw (e, join_script, run_script)
        (elim (join_body-Joins p now ttl raw.session) [
          | inl (x, refused, kept) ↦ inl (x, refused, ground (arith, kept))
          | inr (room, taken, wrote) ↦ inr (
            raw,
            refl,
            room,
            ground (arith, taken, decode-joined raw.session p now ttl),
            ground (arith, wrote),
          )
        ])
]

-- An answer tells the settings, the capacity, the players and the joiners of a session.
pub record IsAnswer (r : JoinResponse) (s : Session) : Type 0 where
  pub gamemode : r.gamemode ≡ s.gamemode
  pub win_condition : r.win_condition ≡ s.win_condition
  pub spawn_settings : r.spawn_settings ≡ s.spawn_settings
  pub loot_settings : r.loot_settings ≡ s.loot_settings
  pub player_count : r.player_count ≡ s.player_count
  pub current_player_count : r.current_player_count ≡ 1 + length s.joiners
  pub joiners : r.joiners ≡ ids s.joiners

join_response-IsAnswer :
    (s : Session)
    → s.player_count ≤ u8_max
    → 1 + length s.joiners ≤ s.player_count
    → IsAnswer (join_response s) s
unfolding current_player_count
join_response-IsAnswer s byte room = record {
  gamemode = refl;
  win_condition = refl;
  spawn_settings = refl;
  loot_settings = refl;
  player_count = refl;
  current_player_count = omega (arith, byte, room);
  joiners = refl;
}

-- A join that is granted, on a key whose capacity is a byte, has made the player a member of the
-- session that is then stored, within the capacity; it answers with that session's settings and
-- capacity, one player more than it has joiners, and the ids of the joiners, the player's among
-- them; and a poll that follows answers with these same values, and the status of that session.
pub join-get_session :
    (hash_token : String → String) (players : Players) (rate_ok : Bool) (code p token : String)
    (now : ℕ) (w : World) (r : JoinResponse)
    → ((raw : Raw) → Dict.get w.store code ≡ some raw → raw.session.player_count ≤ u8_max)
    → (join hash_token players rate_ok code p token now w).0 ≡ ok r
    → (s : Session) × (load_session
          (join hash_token players rate_ok code p token now w).1.store
          code
        ≡ ok s)
      × (contains (members s) p ≡ true)
      × (1 + length s.joiners ≤ s.player_count)
      × IsAnswer r s
      × (contains r.joiners p ≡ true)
      × (get_session true code (join hash_token players rate_ok code p token now w).1
          ≡ ok (record {
            status = s.status;
            gamemode = r.gamemode;
            win_condition = r.win_condition;
            spawn_settings = r.spawn_settings;
            loot_settings = r.loot_settings;
            player_count = r.player_count;
            current_player_count = r.current_player_count;
            joiner_player_ids = r.joiners;
          }))
unfolding join load_session get_session Joined
join-get_session hash_token players rate_ok code p token now w r bytes h =
    elim (Result-cases (admit hash_token players rate_ok p token)) [
      | inr (x, refused) ↦ absurd (ground (arith, refused))
      | inl passed ↦ elim (join_script-Joined p now w.session_ttl_secs code w.store) [
        | inl (x, refused, kept) ↦ absurd (ground (arith, passed, refused))
        | inr (raw, there, room, answered, wrote) ↦
            let s = joined raw.session p now w.session_ttl_secs in
            let after = (join hash_token players rate_ok code p token now w).1 in
            let same : join_response s ≡ r = ground (arith, passed, answered, h) in
            let loaded : load_session after.store code ≡ ok s =
              rw (passed, join) (loaded_after raw.session _ wrote) in
            (
              s,
              loaded,
              ground (
                arith,
                ids-snoc raw.session.joiners p now,
                contains-append (ids raw.session.joiners) (p ∷ []) p,
                ==_iff p p,
              ),
              room,
              subst (λ x. IsAnswer x s) same (join_response-IsAnswer s (bytes raw there) room),
              subst (λ x. contains x.joiners p ≡ true) same
                  (ground (
                    arith,
                    ids-snoc raw.session.joiners p now,
                    contains-append (ids raw.session.joiners) (p ∷ []) p,
                    ==_iff p p,
                  )),
              rw (loaded, get_session) (ap (λ x. ok (poll_of s.status x)) same),
            )
      ]
    ]
  where
    poll_of : SessionStatus → JoinResponse → SessionPollResponse
    poll_of status x = record {
      status = status;
      gamemode = x.gamemode;
      win_condition = x.win_condition;
      spawn_settings = x.spawn_settings;
      loot_settings = x.loot_settings;
      player_count = x.player_count;
      current_player_count = x.current_player_count;
      joiner_player_ids = x.joiners;
    }

    loaded_after :
        (s : Session) (after : Store)
        → after ≡ Dict.insert w.store code (cjson_encode (push_joiner s p now) w.session_ttl_secs)
        → load_session after code ≡ ok (joined s p now w.session_ttl_secs)
    loaded_after s after wrote =
        let stored = cjson_encode (push_joiner s p now) w.session_ttl_secs in
        rw (wrote, load_session)
          (rw (Dict.get-insert_self w.store code stored, load_session)
            (rw (decode-joined s p now w.session_ttl_secs) refl))

-- A join that is refused, for whatever reason, changes no key.
pub join-err :
    (hash_token : String → String) (players : Players) (rate_ok : Bool) (code p token : String)
    (now : ℕ) (w : World) (e : AppError)
    → (join hash_token players rate_ok code p token now w).0 ≡ err e
    → (join hash_token players rate_ok code p token now w).1.store ≡ w.store
unfolding join Joined
join-err hash_token players rate_ok code p token now w e h =
    elim (Result-cases (admit hash_token players rate_ok p token)) [
      | inr (x, refused) ↦ rw (refused, join)
      | inl passed ↦ elim (join_script-Joined p now w.session_ttl_secs code w.store) [
        | inl (x, refused, kept) ↦ rw (passed, join) kept
        | inr (raw, there, room, answered, wrote) ↦ absurd (ground (arith, passed, answered))
      ]
    ]
