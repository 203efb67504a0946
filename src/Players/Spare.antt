-- ===== src/Players/Spare.antt =====
-- A number that has been taken from its player and is not back in the pool yet, and that a registration
-- of server/src/api/register.rs leaves it so.
use briska_blast.Common.{
  ℕ, ◌^◌, ◌<◌, ◌≤◌, ◌≡◌, refl, ap, ◌∙◌, sym, String, Bool, true, false, some, List, ◌==◌, ==_iff,
  string_eq, arith, Bool-cases, Option-cases, if_both, inl, inr, Result, err,
}
use briska_blast.Common.Dict
use briska_blast.Chat.Ids.{text_eq}
use briska_blast.Chat.Bans.{from_counter, trim}
use briska_blast.Session.Host.{AppError, bad_request}
use briska_blast.Players.Accounts.{
  Registry, RegisterRequest, RegisterResponse, issue_id, identity_for, reused, answer_register,
  register,
}
use briska_blast.Players.Numbers.{Member, show, zadd, allocate_player_number}
use briska_blast.Players.Pool.{
  has_member, has_member-without, IsPool, IsAllocated, show_injective, from_counter_injective,
  allocate-IsAllocated,
}
use briska_blast.Players.Registered.{IsIssued}

-- The id is a counted number's, out of the pool, and of no player.
abbrev pub IsSpare : Registry → List ℕ → Type 0
IsSpare r id =
    (n : ℕ) × (id ≡ from_counter n)
    × (n ≤ r.counter)
    × (has_member (show n) r.freelist ≡ false)
    × (Dict.contains_key r.token_hash id ≡ false)

-- Players stay, and spare numbers stay spare.
pub record IsSparing (r r' : Registry) : Type 0 where
  pub keeps :
      (id : List ℕ)
      → Dict.contains_key r.token_hash id ≡ true
      → Dict.contains_key r'.token_hash id ≡ true
  pub spares : (id : List ℕ) → IsSpare r id → IsSpare r' id

pub same-IsSparing :
    (r s : Registry)
    → s.token_hash ≡ r.token_hash
    → s.freelist ≡ r.freelist
    → s.counter ≡ r.counter
    → IsSparing r s
same-IsSparing r s h f c = record {
  keeps = λ id there. rw h there;
  spares = λ id spare. rw (h, f, c) spare;
}

allocated_apart :
    (pool pool' : List Member) (counter counter' number n : ℕ)
    → IsPool pool counter
    → IsAllocated pool counter number pool' counter'
    → n ≤ counter
    → has_member (show n) pool ≡ false
    → (from_counter number == from_counter n) ≡ false
allocated_apart pool pool' counter counter' number n g a le out =
    elim (Bool-cases (from_counter number == from_counter n)) [
      | inr other ↦ other
      | inl own ↦
          let same =
            from_counter_injective number n (omega (arith, a.within, a.good.counted))
              (omega (arith, le, g.counted))
              ((==_iff (from_counter number) (from_counter n)).0 own) in
          absurd (elim a.fresh [
            | inl pooled ↦ cc (pooled, out, ap (λ k. has_member (show k) pool) same)
            | inr above ↦ omega (arith, same, le, above)
          ])
    ]

issue_id-IsSparing :
    (hash_token : String → String) (drawn : String) (r r' : Registry) (pid : List ℕ)
    → IsIssued r
    → issue_id hash_token drawn r ≡ some (pid, r')
    → IsSparing r r'
unfolding issue_id
issue_id-IsSparing hash_token drawn r r' pid g h =
    elim (Option-cases (allocate_player_number r.freelist r.counter)) [
      | inl full ↦ absurd (ground (arith, full))
      | inr ((number, pool', counter'), e) ↦
          let a = allocate-IsAllocated r.freelist r.counter number counter' pool' g.pool e in
          let hashes : r'.token_hash
              ≡ Dict.insert r.token_hash (from_counter number) (hash_token drawn) =
            ground (arith, e) in
          let pool : r'.freelist ≡ pool' = ground (arith, e) in
          let counter : r'.counter ≡ counter' = ground (arith, e) in
          record {
            keeps = λ id there. rw hashes (
                ground (
                  arith,
                  there,
                  Dict.contains_key-insert r.token_hash (from_counter number) (hash_token drawn) id,
                ));
            spares = λ id (n, of_n, le, out, gone). (
              n,
              of_n,
              omega (arith, le, a.grows, counter),
              rw pool (a.others (show n) out),
              rw hashes (
                  ground (
                    arith,
                    gone,
                    Dict.contains_key-insert r.token_hash (from_counter number) (hash_token drawn)
                        id,
                    ap (λ t. from_counter number == t) of_n,
                    allocated_apart r.freelist pool' r.counter counter' number n g.pool a le out,
                  )),
            );
          }
    ]

identity_for-IsSparing :
    (hash_token : String → String) (drawn : String) (r : Registry) (req : RegisterRequest)
    (pid : List ℕ) (token : String) (r' : Registry)
    → IsIssued r
    → identity_for hash_token drawn r req ≡ some (pid, token, r')
    → IsSparing r r'
unfolding identity_for
identity_for-IsSparing hash_token drawn r req pid token r' g h =
    elim (Option-cases (reused hash_token r req)) [
      | inr ((p, t), e) ↦
          let kept : r' ≡ r = ground (arith, e) in rw kept (same-IsSparing r r refl refl refl)
      | inl new ↦ elim (Option-cases (issue_id hash_token drawn r)) [
        | inl full ↦ absurd (ground (arith, new, full))
        | inr ((p, s), e) ↦
            let kept : r' ≡ s = ground (arith, new, e) in
            rw kept (issue_id-IsSparing hash_token drawn r s p g e)
      ]
    ]

answer_register-IsSparing :
    (hash_token : String → String) (drawn : String) (req : RegisterRequest) (name : List ℕ)
    (r : Registry)
    → IsIssued r
    → IsSparing r (answer_register name (identity_for hash_token drawn r req) r).1
unfolding answer_register
answer_register-IsSparing hash_token drawn req name r g =
    elim (Option-cases (identity_for hash_token drawn r req)) [
      | inl full ↦ rw (full, answer_register) (same-IsSparing r r refl refl refl)
      | inr ((pid, token, r'), e) ↦
          let i = identity_for-IsSparing hash_token drawn r req pid token r' g e in
          rw (e, answer_register) (record { keeps = i.keeps; spares = i.spares })
    ]

pub register-IsSparing :
    (hash_token : String → String) (rate_ok : Bool) (drawn : String) (req : RegisterRequest)
    (r : Registry)
    → IsIssued r
    → IsSparing r (register hash_token rate_ok drawn req r).1
unfolding register
register-IsSparing hash_token false drawn req r g = same-IsSparing r r refl refl refl
register-IsSparing hash_token true drawn req r g =
    if_both (λ (a : Result RegisterResponse AppError × Registry). IsSparing r a.1) _
      (err (bad_request "invalid username"), r) _ (same-IsSparing r r refl refl refl)
      (answer_register-IsSparing hash_token drawn req (trim req.username) r g)

-- The number of another id stays out of the pool as this one's number goes back.
pub recycled_out :
    (n k : ℕ) (id j : List ℕ) (pool : List Member)
    → n < 2 ^ 64
    → k < 2 ^ 64
    → id ≡ from_counter n
    → j ≡ from_counter k
    → (id == j) ≡ false
    → has_member (show k) pool ≡ false
    → has_member (show k) (zadd n pool) ≡ false
unfolding zadd
recycled_out n k id j pool small_n small_k of_n of_k differ out =
    let apart : (show n == show k) ≡ false = elim (Bool-cases (show n == show k)) [
      | inr other ↦ other
      | inl same ↦
          let nk = show_injective n k small_n small_k ((==_iff (show n) (show k)).0 same) in
          absurd (cc (differ, (==_iff id j).1 (of_n ∙ ap from_counter nk ∙ sym of_k)))
    ] in
    ground (arith, apart, out, has_member-without (show n) (show k) pool)
