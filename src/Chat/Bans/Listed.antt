-- ===== src/Chat/Bans/Listed.antt =====
-- Who is banned after a ban and after its end, whatever the spelling of the ids.
use briska_blast.Common.{
  ℕ, ◌≡◌, ◌∙◌, Bool, true, false, ◌||◌, Option, none, some, List, [], ◌∷◌, ◌==◌, ==_iff, contains,
  contains-append, arith, Option-cases, Bool-cases, inl, inr,
}
use briska_blast.Common.Dict
use briska_blast.Chat.Ids.{text_eq}
use briska_blast.Chat.Bans.{
  BanEntry, BanOutcome, Bans, no_outcome, normalize_id, number_or_zero, ban_key, ban_one, ban_loop,
  ban, lookup,
}

abbrev pub is_banned : Bans → List ℕ → Bool
is_banned bans id = elim (lookup bans id) [ none ↦ false | some e ↦ true ]

pub is_banned-normalize_id :
    (bans : Bans) (id key : List ℕ)
    → normalize_id id ≡ some key
    → is_banned bans id ≡ Dict.contains_key bans key
unfolding lookup
is_banned-normalize_id bans id key e = elim (Option-cases (Dict.get bans key)) [
  | inl gone ↦ ground (arith, e, gone)
  | inr (none, at) ↦ ground (arith, e, at)
  | inr (some entry, at) ↦ ground (arith, e, at)
]

-- Every key that is reported as banned is in the hash.
Listed : BanOutcome × Bans → Type 0
Listed (out, bans) =
    (key : List ℕ)
    → contains out.banned key || contains out.already key ≡ true
    → Dict.contains_key bans key ≡ true

ban_key-keeps :
    (entry : BanEntry) (raw key : List ℕ) (state : BanOutcome × Bans) (k : List ℕ)
    (v : Option BanEntry)
    → Dict.get state.1 k ≡ some v
    → Dict.get (ban_key entry raw key state).1 k ≡ some v
unfolding ban_key
ban_key-keeps entry raw key (out, bans) k v e = ground (
  arith,
  ==_iff key k,
  Dict.get-insert bans key (some (record entry { player_id = number_or_zero raw })) k,
)

ban_key-Listed :
    (entry : BanEntry) (raw key : List ℕ) (state : BanOutcome × Bans)
    → Listed state
    → Listed (ban_key entry raw key state)
      × (Dict.contains_key (ban_key entry raw key state).1 key ≡ true)
unfolding ban_key Listed
ban_key-Listed entry raw key (out, bans) h =
    elim (Bool-cases (contains out.banned key || contains out.already key)) [
      | inl seen ↦ rw seen (h, h key seen)
      | inr new ↦ elim (Bool-cases (Dict.contains_key bans key)) [
        | inl held ↦
            rw (new, held)
              (
                λ k c.
                    ground
                      (arith, h k, contains-append out.already (key ∷ []) k, ==_iff key k, held),
                held,
              )
        | inr free ↦
            let stored = some (record entry { player_id = number_or_zero raw }) in
            rw (new, free)
              (
                λ k c. ground (
                  arith,
                  h k,
                  contains-append out.banned (key ∷ []) k,
                  ==_iff key k,
                  Dict.contains_key-insert bans key stored k,
                ),
                ground (arith, Dict.get-insert_self bans key stored),
              )
      ]
    ]

ban_one-keeps :
    (entry : BanEntry) (raw : List ℕ) (state : BanOutcome × Bans) (k : List ℕ) (v : Option BanEntry)
    → Dict.get state.1 k ≡ some v
    → Dict.get (ban_one entry raw state).1 k ≡ some v
unfolding ban_one
ban_one-keeps entry raw (out, bans) k v e = elim (Option-cases (normalize_id raw)) [
  | inl bad ↦ rw (bad, ban_one) e
  | inr (key, n) ↦ rw (n, ban_one) (ban_key-keeps entry raw key (out, bans) k v e)
]

ban_one-Listed :
    (entry : BanEntry) (raw : List ℕ) (state : BanOutcome × Bans)
    → Listed state
    → Listed (ban_one entry raw state)
unfolding ban_one Listed
ban_one-Listed entry raw (out, bans) h = elim (Option-cases (normalize_id raw)) [
  | inl bad ↦ rw (bad, ban_one) h
  | inr (key, n) ↦ rw (n, ban_one) (ban_key-Listed entry raw key (out, bans) h).0
]

ban_one-key :
    (entry : BanEntry) (raw key : List ℕ) (state : BanOutcome × Bans)
    → Listed state
    → normalize_id raw ≡ some key
    → Dict.contains_key (ban_one entry raw state).1 key ≡ true
unfolding ban_one
ban_one-key entry raw key (out, bans) h n =
    rw (n, ban_one) (ban_key-Listed entry raw key (out, bans) h).1

ban_loop-keeps :
    (entry : BanEntry) (ids : List (List ℕ)) (state : BanOutcome × Bans) (k : List ℕ)
    (v : Option BanEntry)
    → Dict.get state.1 k ≡ some v
    → Dict.get (ban_loop entry ids state).1 k ≡ some v
unfolding ban_loop
ban_loop-keeps entry [] state k v e = e
ban_loop-keeps entry (raw ∷ ids) state k v e =
    ban_loop-keeps entry ids (ban_one entry raw state) k v (ban_one-keeps entry raw state k v e)

ban_loop-contains_key :
    (entry : BanEntry) (ids : List (List ℕ)) (state : BanOutcome × Bans) (k : List ℕ)
    → Dict.contains_key state.1 k ≡ true
    → Dict.contains_key (ban_loop entry ids state).1 k ≡ true
ban_loop-contains_key entry ids state k h = elim (Option-cases (Dict.get state.1 k)) [
  | inl gone ↦ absurd (ground (arith, gone))
  | inr (v, e) ↦ ground (arith, ban_loop-keeps entry ids state k v e)
]

ban_loop-key :
    (entry : BanEntry) (ids : List (List ℕ)) (state : BanOutcome × Bans) (raw key : List ℕ)
    → Listed state
    → contains ids raw ≡ true
    → normalize_id raw ≡ some key
    → Dict.contains_key (ban_loop entry ids state).1 key ≡ true
unfolding ban_loop
ban_loop-key entry [] state raw key h c n = cc
ban_loop-key entry (x ∷ ids) state raw key h c n = elim (Bool-cases (x == raw)) [
  | inl same ↦
      let this = ban_one-key entry x key state h (ground (arith, n, ==_iff x raw)) in
      ban_loop-contains_key entry ids (ban_one entry x state) key this
  | inr other ↦
      ban_loop-key entry ids (ban_one entry x state) raw key (ban_one-Listed entry x state h)
        (ground (arith, other)) n
]

-- After a ban every player that was named is banned, under whatever spelling of their number they
-- are looked up.
pub ban-is_banned :
    (ids : List (List ℕ)) (entry : BanEntry) (bans : Bans) (raw id key : List ℕ)
    → contains ids raw ≡ true
    → normalize_id raw ≡ some key
    → normalize_id id ≡ some key
    → is_banned (ban ids entry bans).1 id ≡ true
unfolding ban Listed
ban-is_banned ids entry bans raw id key c n m =
    is_banned-normalize_id (ban ids entry bans).1 id key m
    ∙ ban_loop-key entry ids (no_outcome, bans) raw key (λ k e. cc) c n

-- A ban that is on the list is never changed by a later one.
pub ban-keeps :
    (ids : List (List ℕ)) (entry : BanEntry) (bans : Bans) (id : List ℕ) (e : BanEntry)
    → lookup bans id ≡ some e
    → lookup (ban ids entry bans).1 id ≡ some e
unfolding ban lookup
ban-keeps ids entry bans id e h = elim (Option-cases (normalize_id id)) [
  | inl bad ↦ absurd (ground (arith, bad))
  | inr (key, n) ↦ elim (Option-cases (Dict.get bans key)) [
    | inl gone ↦ absurd (ground (arith, n, gone))
    | inr (v, at) ↦ ground (arith, n, at, ban_loop-keeps entry ids (no_outcome, bans) key v at)
  ]
]
