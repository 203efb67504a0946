-- ===== src/Players/Shared.antt =====
-- Two deletions of one player whose checks come before either's writes: the halves of `delete_user` of
-- server/src/admin/users.rs, with registrations between them.
use briska_blast.Common.{ℕ, ◌^◌, ◌<◌, ◌≡◌, refl, String, true, some, List, [], ==_iff, arith}
use briska_blast.Common.Dict
use briska_blast.Chat.Ids.{text_eq}
use briska_blast.Chat.Bans.{from_counter}
use briska_blast.Chat.Bans.Keys.{parse_u64-from_counter}
use briska_blast.Players.Numbers.{
  Member, show, zadd, least, without_member, zpopmin, freed_number_from_pop, allocate_player_number,
}
use briska_blast.Players.Pool.{parse-show}
use briska_blast.Players.Accounts.{Registry, issue_id, wipe, recycle}
use briska_blast.Players.Registered.{IsIssued}

allocate-recycled :
    (n counter : ℕ) (pool : List Member)
    → pool ≡ []
    → n < 2 ^ 64
    → allocate_player_number (zadd n pool) counter ≡ some (n, [], counter)
unfolding allocate_player_number zadd zpopmin least without_member freed_number_from_pop
allocate-recycled n counter pool none_free small =
    rw none_free (ground (arith, parse-show n small, ==_iff (show n) (show n)))

given_out : (String → String) → String → List ℕ → Registry → Registry
given_out hash_token drawn id r = record r {
  token_hash = Dict.insert r.token_hash id (hash_token drawn);
  freelist = [];
}

issue_id-recycle :
    (hash_token : String → String) (drawn : String) (r : Registry) (n : ℕ)
    → r.freelist ≡ []
    → n < 2 ^ 64
    → issue_id hash_token drawn (recycle (from_counter n) r)
      ≡ some (from_counter n, given_out hash_token drawn (from_counter n) r)
unfolding issue_id recycle given_out
issue_id-recycle hash_token drawn r n none_free small =
    rw (parse_u64-from_counter n small, recycle)
      (rw (allocate-recycled n r.counter r.freelist none_free small, issue_id))

-- If two deletions of one player have both passed the check before either wipes, and the first
-- has recycled the number before the second does, and the pool was empty: a registration between
-- the two recyclings and one after them are given the same id, and the second replaces the first
-- one's token.
pub late_recycle-shared :
    (hash_token : String → String) (drawn drawn' : String) (r : Registry) (id : List ℕ)
    → IsIssued r
    → Dict.contains_key r.token_hash id ≡ true
    → r.freelist ≡ []
    → (s : Registry) × (s' : Registry) × (issue_id hash_token drawn
          (recycle id (wipe id (wipe id r)))
        ≡ some (id, s))
      × (issue_id hash_token drawn' (recycle id s) ≡ some (id, s'))
      × (Dict.get s.token_hash id ≡ some (hash_token drawn))
      × (Dict.get s'.token_hash id ≡ some (hash_token drawn'))
unfolding wipe given_out
late_recycle-shared hash_token drawn drawn' r id g there none_free =
    let (n, e, le, out) = g.number id there in
    let small : n < 2 ^ 64 = omega (arith, le, g.pool.counted) in
    let twice = wipe id (wipe id r) in
    let first = given_out hash_token drawn id twice in
    (
      first,
      given_out hash_token drawn' id first,
      rw e (
          issue_id-recycle hash_token drawn (wipe (from_counter n) (wipe (from_counter n) r)) n
            none_free small),
      rw e (
          issue_id-recycle hash_token drawn'
            (given_out hash_token drawn (from_counter n)
              (wipe (from_counter n) (wipe (from_counter n) r)))
            n refl small),
      Dict.get-insert_self twice.token_hash id (hash_token drawn),
      Dict.get-insert_self first.token_hash id (hash_token drawn'),
    )
