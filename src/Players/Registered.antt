-- ===== src/Players/Registered.antt =====
-- What `register` of server/src/api/register.rs answers.
use briska_blast.Common.{
  ℕ, ◌≤◌, ◌≡◌, refl, ap, sym, String, Bool, true, false, none, some, List, ◌==◌, ==_iff, arith,
  Bool-cases, Option-cases, if_both, inl, inr, ◌⊎◌, Result, ok, err, string_eq,
}
use briska_blast.Common.Dict
use briska_blast.Common.Dict.{Dict}
use briska_blast.Chat.Ids.{text_eq}
use briska_blast.Chat.Bans.{from_counter, trim}
use briska_blast.Session.Host.{AppError, bad_request}
use briska_blast.Players.Accounts.{
  Registry, RegisterRequest, RegisterResponse, issue_id, identity_for, reused, prior_matches,
  answer_register, register,
}
use briska_blast.Players.Numbers.{Member, show, allocate_player_number}
use briska_blast.Players.Pool.{
  has_member, IsPool, IsAllocated, from_counter_injective, allocate-IsAllocated,
}

-- Every player on file has the id of a number that was counted and is not in the pool.
pub record IsIssued (r : Registry) : Type 0 where
  pub pool : IsPool r.freelist r.counter
  pub number :
      (id : List ℕ)
      → Dict.contains_key r.token_hash id ≡ true
      → (n : ℕ) × (id ≡ from_counter n) × (n ≤ r.counter) × (has_member (show n) r.freelist ≡ false)

-- The id of a number that is allocated has no player.
allocated_unused :
    (r : Registry) (number counter' : ℕ) (pool' : List Member)
    → IsIssued r
    → IsAllocated r.freelist r.counter number pool' counter'
    → Dict.contains_key r.token_hash (from_counter number) ≡ false
allocated_unused r number counter' pool' g a =
    elim (Bool-cases (Dict.contains_key r.token_hash (from_counter number))) [
      | inr none_there ↦ none_there
      | inl there ↦
          let (n, e, le, out) = g.number (from_counter number) there in
          let same =
            from_counter_injective number n (omega (arith, a.within, a.good.counted))
              (omega (arith, le, g.pool.counted)) e in
          absurd (elim a.fresh [
            | inl pooled ↦ cc (pooled, out, ap (λ k. has_member (show k) r.freelist) same)
            | inr above ↦ omega (arith, same, le, above)
          ])
    ]

issue_id-IsIssued :
    (hash_token : String → String) (drawn : String) (r r' : Registry) (pid : List ℕ)
    → IsIssued r
    → issue_id hash_token drawn r ≡ some (pid, r')
    → IsIssued r'
      × (Dict.contains_key r.token_hash pid ≡ false)
      × (r'.token_hash ≡ Dict.insert r.token_hash pid (hash_token drawn))
unfolding issue_id
issue_id-IsIssued hash_token drawn r r' pid g h =
    elim (Option-cases (allocate_player_number r.freelist r.counter)) [
      | inl full ↦ absurd (ground (arith, full))
      | inr ((number, pool', counter'), e) ↦
          let a = allocate-IsAllocated r.freelist r.counter number counter' pool' g.pool e in
          let id : pid ≡ from_counter number = ground (arith, e) in
          let hashes : r'.token_hash
              ≡ Dict.insert r.token_hash (from_counter number) (hash_token drawn) =
            ground (arith, e) in
          let pool : r'.freelist ≡ pool' = ground (arith, e) in
          let counter : r'.counter ≡ counter' = ground (arith, e) in
          (
            record {
              pool = rw (pool, counter) a.good;
              number = λ j there. elim (Bool-cases (from_counter number == j)) [
                | inl own ↦ (
                  number,
                  sym ((==_iff (from_counter number) j).0 own),
                  rw counter a.within,
                  rw pool a.taken,
                )
                | inr other ↦
                    let (n, e', le, out) = g.number j (
                      ground (
                        arith,
                        there,
                        hashes,
                        other,
                        Dict.get-insert r.token_hash (from_counter number) (hash_token drawn) j,
                      )) in
                    (n, e', omega (arith, le, a.grows, counter), rw pool (a.others (show n) out))
              ];
            },
            rw id (allocated_unused r number counter' pool' g a),
            rw id hashes,
          )
    ]

-- What a caller who is given an identity holds: an id that nobody had, or whose token they showed.
pub record IsIdentity (hash_token : String → String) (r : Registry) (pid : List ℕ) (token : String)
    (r' : Registry) : Type 0 where
  pub good : IsIssued r'
  pub on_file : Dict.get r'.token_hash pid ≡ some (hash_token token)
  pub own :
      (Dict.get r.token_hash pid ≡ none) ⊎ (Dict.get r.token_hash pid ≡ some (hash_token token))
  pub others :
      (j : List ℕ) → (pid == j) ≡ false → Dict.get r'.token_hash j ≡ Dict.get r.token_hash j

reused-on_file :
    (hash_token : String → String) (r : Registry) (req : RegisterRequest) (pid : List ℕ)
    (token : String)
    → reused hash_token r req ≡ some (pid, token)
    → Dict.get r.token_hash pid ≡ some (hash_token token)
unfolding reused prior_matches
reused-on_file hash_token r req pid token h = elim (Option-cases req.prior_player_id) [
  | inl n ↦ absurd (ground (arith, n))
  | inr (p, ep) ↦ elim (Option-cases req.prior_secret_token) [
    | inl n ↦ absurd (ground (arith, ep, n))
    | inr (t, et) ↦ elim (Bool-cases (prior_matches hash_token r p t)) [
      | inr bad ↦ absurd (ground (arith, ep, et, bad))
      | inl good ↦ elim (Option-cases (Dict.get r.token_hash p)) [
        | inl gone ↦ absurd (ground (arith, good, gone))
        | inr (k, stored) ↦ ground (arith, ep, et, good, stored, ==_iff k (hash_token t))
      ]
    ]
  ]
]

identity_for-IsIdentity :
    (hash_token : String → String) (drawn : String) (r : Registry) (req : RegisterRequest)
    (pid : List ℕ) (token : String) (r' : Registry)
    → IsIssued r
    → identity_for hash_token drawn r req ≡ some (pid, token, r')
    → IsIdentity hash_token r pid token r'
unfolding identity_for
identity_for-IsIdentity hash_token drawn r req pid token r' g h =
    elim (Option-cases (reused hash_token r req)) [
      | inr ((p, t), e) ↦
          let same : pid ≡ p = ground (arith, e) in
          let again : token ≡ t = ground (arith, e) in
          let kept : r' ≡ r = ground (arith, e) in
          let on_file = reused-on_file hash_token r req p t e in
          rw (same, again, kept)
            (record { good = g; on_file = on_file; own = inr on_file; others = λ j n. refl })
      | inl new ↦ elim (Option-cases (issue_id hash_token drawn r)) [
        | inl full ↦ absurd (ground (arith, new, full))
        | inr ((p, s), e) ↦
            let same : pid ≡ p = ground (arith, new, e) in
            let again : token ≡ drawn = ground (arith, new, e) in
            let kept : r' ≡ s = ground (arith, new, e) in
            let (good, unused, hashes) = issue_id-IsIssued hash_token drawn r s p g e in
            rw (same, again, kept)
              (record {
                good = good;
                on_file = rw hashes (Dict.get-insert_self r.token_hash p (hash_token drawn));
                own = inl (ground (arith, unused));
                others = λ j n. rw (hashes, Dict.get-insert r.token_hash p (hash_token drawn) j, n);
              })
      ]
    ]

-- The names, the flags and the bans do not matter.
pub same-IsIssued :
    (r s : Registry)
    → s.token_hash ≡ r.token_hash
    → s.freelist ≡ r.freelist
    → s.counter ≡ r.counter
    → IsIssued r
    → IsIssued s
same-IsIssued r s h f c g = record {
  pool = rw (f, c) g.pool;
  number = λ id there. rw (f, c) (g.number id (rw (← h) there));
}

pub record IsRegistered (hash_token : String → String) (r : Registry) (resp : RegisterResponse)
    (r' : Registry) : Type 0 where
  pub identity : IsIdentity hash_token r resp.player_id resp.secret_token r'
  pub named : Dict.get r'.username resp.player_id ≡ some resp.username

-- The answer and the registry after it.
abbrev pub Answers :
    (String → String) → Registry → Result RegisterResponse AppError × Registry → Type 0
Answers hash_token r (ok resp, r') = IsRegistered hash_token r resp r'
Answers hash_token r (err e, r') = r' ≡ r

answer_register-Answers :
    (hash_token : String → String) (drawn : String) (req : RegisterRequest) (name : List ℕ)
    (r : Registry)
    → IsIssued r
    → Answers hash_token r (answer_register name (identity_for hash_token drawn r req) r)
unfolding answer_register
answer_register-Answers hash_token drawn req name r g =
    elim (Option-cases (identity_for hash_token drawn r req)) [
      | inl full ↦ rw (full, answer_register) refl
      | inr ((pid, token, r'), e) ↦
          let i = identity_for-IsIdentity hash_token drawn r req pid token r' g e in
          let named = record r' { username = Dict.insert r'.username pid name } in
          rw (e, answer_register)
            (record {
              identity = record {
                good = same-IsIssued r' named refl refl refl i.good;
                on_file = i.on_file;
                own = i.own;
                others = i.others;
              };
              named = Dict.get-insert_self r'.username pid name;
            })
    ]

pub register-Answers :
    (hash_token : String → String) (rate_ok : Bool) (drawn : String) (req : RegisterRequest)
    (r : Registry)
    → IsIssued r
    → Answers hash_token r (register hash_token rate_ok drawn req r)
unfolding register
register-Answers hash_token false drawn req r g = refl
register-Answers hash_token true drawn req r g =
    if_both (Answers hash_token r) _ (err (bad_request "invalid username"), r) _ refl
      (answer_register-Answers hash_token drawn req (trim req.username) r g)

pub Answers-IsIssued :
    (hash_token : String → String) (r : Registry) (a : Result RegisterResponse AppError × Registry)
    → IsIssued r
    → Answers hash_token r a
    → IsIssued a.1
Answers-IsIssued hash_token r (ok resp, r') g h = h.identity.good
Answers-IsIssued hash_token r (err e, r') g h = rw h g
