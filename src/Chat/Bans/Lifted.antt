-- ===== src/Chat/Bans/Lifted.antt =====
-- Who is banned once bans are lifted.
use briska_blast.Common.{
  ℕ, ◌≡◌, ◌∙◌, true, false, some, List, [], ◌∷◌, ◌==◌, ==_iff, contains, contains-append, arith,
  Option-cases, Bool-cases, inl, inr,
}
use briska_blast.Common.Dict
use briska_blast.Chat.Ids.{text_eq}
use briska_blast.Chat.Bans.{Bans, normalize_id, unban_key, unban_one, unban_loop, unban}
use briska_blast.Chat.Bans.Listed.{is_banned, is_banned-normalize_id}

-- No key that is reported as lifted is in the hash.
Lifted : List (List ℕ) × Bans → Type 0
Lifted (lifted, bans) =
    (key : List ℕ) → contains lifted key ≡ true → Dict.contains_key bans key ≡ false

unban_key-Lifted :
    (key : List ℕ) (state : List (List ℕ) × Bans)
    → Lifted state
    → Lifted (unban_key key state) × (Dict.contains_key (unban_key key state).1 key ≡ false)
unfolding unban_key Lifted
unban_key-Lifted key (lifted, bans) h = elim (Bool-cases (contains lifted key)) [
  | inl seen ↦ rw seen (h, h key seen)
  | inr new ↦ elim (Bool-cases (Dict.contains_key bans key)) [
    | inl held ↦
        rw (new, held)
          (
            λ k c. ground (
              arith,
              h k,
              contains-append lifted (key ∷ []) k,
              ==_iff key k,
              Dict.contains_key-remove bans key k,
            ),
            ground (arith, Dict.get-remove_self bans key),
          )
    | inr free ↦ rw (new, free) (h, free)
  ]
]

unban_key-absent :
    (key : List ℕ) (state : List (List ℕ) × Bans) (k : List ℕ)
    → Dict.contains_key state.1 k ≡ false
    → Dict.contains_key (unban_key key state).1 k ≡ false
unfolding unban_key
unban_key-absent key (lifted, bans) k h = ground (arith, Dict.contains_key-remove bans key k)

unban_one-Lifted :
    (raw : List ℕ) (state : List (List ℕ) × Bans) → Lifted state → Lifted (unban_one raw state)
unfolding unban_one
unban_one-Lifted raw state h = elim (Option-cases (normalize_id raw)) [
  | inl bad ↦ rw (bad, unban_one) h
  | inr (key, n) ↦ rw (n, unban_one) (unban_key-Lifted key state h).0
]

unban_one-absent :
    (raw : List ℕ) (state : List (List ℕ) × Bans) (k : List ℕ)
    → Dict.contains_key state.1 k ≡ false
    → Dict.contains_key (unban_one raw state).1 k ≡ false
unfolding unban_one
unban_one-absent raw state k h = elim (Option-cases (normalize_id raw)) [
  | inl bad ↦ rw (bad, unban_one) h
  | inr (key, n) ↦ rw (n, unban_one) (unban_key-absent key state k h)
]

unban_one-key :
    (raw key : List ℕ) (state : List (List ℕ) × Bans)
    → Lifted state
    → normalize_id raw ≡ some key
    → Dict.contains_key (unban_one raw state).1 key ≡ false
unfolding unban_one
unban_one-key raw key state h n = rw (n, unban_one) (unban_key-Lifted key state h).1

unban_loop-absent :
    (ids : List (List ℕ)) (state : List (List ℕ) × Bans) (k : List ℕ)
    → Dict.contains_key state.1 k ≡ false
    → Dict.contains_key (unban_loop ids state).1 k ≡ false
unfolding unban_loop
unban_loop-absent [] state k h = h
unban_loop-absent (raw ∷ ids) state k h =
    unban_loop-absent ids (unban_one raw state) k (unban_one-absent raw state k h)

unban_loop-key :
    (ids : List (List ℕ)) (state : List (List ℕ) × Bans) (raw key : List ℕ)
    → Lifted state
    → contains ids raw ≡ true
    → normalize_id raw ≡ some key
    → Dict.contains_key (unban_loop ids state).1 key ≡ false
unfolding unban_loop
unban_loop-key [] state raw key h c n = cc
unban_loop-key (x ∷ ids) state raw key h c n = elim (Bool-cases (x == raw)) [
  | inl same ↦
      unban_loop-absent ids (unban_one x state) key
        (unban_one-key x key state h (ground (arith, n, ==_iff x raw)))
  | inr other ↦
      unban_loop-key ids (unban_one x state) raw key (unban_one-Lifted x state h)
        (ground (arith, other)) n
]

-- After an un-ban no player that was named is banned, under whatever spelling of their number
-- they are looked up.
pub unban-is_banned :
    (ids : List (List ℕ)) (bans : Bans) (raw id key : List ℕ)
    → contains ids raw ≡ true
    → normalize_id raw ≡ some key
    → normalize_id id ≡ some key
    → is_banned (unban ids bans).1 id ≡ false
unfolding unban Lifted
unban-is_banned ids bans raw id key c n m =
    is_banned-normalize_id (unban ids bans).1 id key m
    ∙ unban_loop-key ids ([], bans) raw key (λ k e. cc) c n
