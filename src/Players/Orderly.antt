-- ===== src/Players/Orderly.antt =====
-- What deletions in flight leave true of the registry: `delete_user` of server/src/admin/users.rs,
-- with other requests between its commands.
use briska_blast.Common.{
  ℕ, ◌^◌, ◌<◌, ◌≡◌, refl, ap, ◌∙◌, String, Bool, true, false, Option, none, some, List, [], ◌∷◌,
  ◌==◌, ==_iff, string_eq, arith, Bool-cases, inl, inr, Result, ok, err, if_both,
}
use briska_blast.Common.Dict
use briska_blast.Common.Dict.{Dict}
use briska_blast.Chat.Ids.{text_eq}
use briska_blast.Chat.Bans.{parse_u64}
use briska_blast.Chat.Bans.Keys.{parse_u64-from_counter}
use briska_blast.Players.Accounts.{
  Registry, RegisterRequest, register, wipe, recycle, check_delete, DeleteOutcome,
}
use briska_blast.Players.Numbers.{show, zadd}
use briska_blast.Players.Pool.{All-without}
use briska_blast.Players.Registered.{IsIssued, Answers, register-Answers}
use briska_blast.Players.Issued.{serve, serve-IsIssued, new_registry, new_registry-IsIssued}
use briska_blast.Players.Spare.{IsSpare, IsSparing, recycled_out}
use briska_blast.Players.Stages.{
  Stage, checked, wiped, Desk, Turn, serving, checking, wiping, recycling, begin_delete, wipe_at,
  recycle_at, take, take_all, serve-IsSparing,
}

abbrev pub IsStage : Registry → Stage → List ℕ → Type 0
IsStage r checked id = Dict.contains_key r.token_hash id ≡ true
IsStage r wiped id = IsSpare r id

-- An id that was checked is on file, and one that was wiped is spare.
pub record IsOrderly (d : Desk) : Type 0 where
  pub issued : IsIssued d.registry
  pub stages :
      (id : List ℕ) (stage : Stage)
      → Dict.get d.in_flight id ≡ some stage
      → IsStage d.registry stage id

IsSparing-IsStage :
    (r r' : Registry) (stage : Stage) (id : List ℕ)
    → IsSparing r r'
    → IsStage r stage id
    → IsStage r' stage id
IsSparing-IsStage r r' checked id s i = s.keeps id i
IsSparing-IsStage r r' wiped id s i = s.spares id i

check_delete-on_file :
    (is_admin : Bool) (id i : List ℕ) (r : Registry)
    → check_delete is_admin id r ≡ ok i
    → Dict.contains_key r.token_hash i ≡ true
unfolding check_delete
check_delete-on_file is_admin id i r h = ground (arith, h)

begin_delete-IsOrderly :
    (a : Result (List ℕ) DeleteOutcome) (d : Desk)
    → ((i : List ℕ) → a ≡ ok i → Dict.contains_key d.registry.token_hash i ≡ true)
    → IsOrderly d
    → IsOrderly (begin_delete a d)
unfolding begin_delete
begin_delete-IsOrderly (err e) d there o = o
begin_delete-IsOrderly (ok i) d there o =
    if_both IsOrderly (Dict.contains_key d.in_flight i) d
      (record d { in_flight = Dict.insert d.in_flight i checked }) o
      (record {
        issued = o.issued;
        stages = λ id stage e. elim (Bool-cases (i == id)) [
          | inl own ↦
              let first : checked ≡ stage =
                ground (arith, e, own, Dict.get-insert d.in_flight i checked id) in
              rw (← first) (rw (← (==_iff i id).0 own) (there i refl))
          | inr other ↦
              o.stages id stage (ground (arith, e, other, Dict.get-insert d.in_flight i checked id))
        ];
      })

-- What a wipe leaves of another id.
wipe-IsStage :
    (r : Registry) (id j : List ℕ) (stage : Stage)
    → (id == j) ≡ false
    → IsStage r stage j
    → IsStage (wipe id r) stage j
unfolding wipe
wipe-IsStage r id j checked other i = ground (arith, i, other, Dict.get-remove r.token_hash id j)
wipe-IsStage r id j wiped other (n, of_n, le, out, gone) =
    (n, of_n, le, out, ground (arith, gone, other, Dict.get-remove r.token_hash id j))

wipe-IsIssued : (r : Registry) (id : List ℕ) → IsIssued r → IsIssued (wipe id r)
unfolding wipe
wipe-IsIssued r id g = record {
  pool = g.pool;
  number = λ j there. g.number j (ground (arith, there, Dict.get-remove r.token_hash id j));
}

wipe-IsSpare :
    (r : Registry) (id : List ℕ)
    → IsIssued r
    → Dict.contains_key r.token_hash id ≡ true
    → IsSpare (wipe id r) id
unfolding wipe
wipe-IsSpare r id g there =
    let (n, of_n, le, out) = g.number id there in
    (n, of_n, le, out, ground (arith, Dict.get-remove_self r.token_hash id))

wipe_at-IsOrderly :
    (at : Option Stage) (id : List ℕ) (d : Desk)
    → Dict.get d.in_flight id ≡ at
    → IsOrderly d
    → IsOrderly (wipe_at at id d)
unfolding wipe_at
wipe_at-IsOrderly none id d e o = o
wipe_at-IsOrderly (some wiped) id d e o = o
wipe_at-IsOrderly (some checked) id d e o = record {
  issued = wipe-IsIssued d.registry id o.issued;
  stages = λ j stage found. elim (Bool-cases (id == j)) [
    | inl own ↦
        let last : wiped ≡ stage =
          ground (arith, found, own, Dict.get-insert d.in_flight id wiped j) in
        rw (← last)
          (rw (← (==_iff id j).0 own) (wipe-IsSpare d.registry id o.issued (o.stages id checked e)))
    | inr other ↦
        wipe-IsStage d.registry id j stage other
          (o.stages j stage (ground (arith, found, other, Dict.get-insert d.in_flight id wiped j)))
  ];
}

recycle-IsIssued :
    (r : Registry) (id : List ℕ) → IsIssued r → IsSpare r id → IsIssued (recycle id r)
unfolding recycle zadd
recycle-IsIssued r id g (n, of_n, le, out, gone) =
    let small : n < 2 ^ 64 = omega (arith, le, g.pool.counted) in
    let read : parse_u64 id ≡ some n = ap parse_u64 of_n ∙ parse_u64-from_counter n small in
    rw (read, recycle)
      (record {
        pool = record {
          counted = g.pool.counted;
          entries = ((refl, le), All-without r.counter (show n) r.freelist g.pool.entries);
        };
        number = λ j live.
            let (k, of_k, le_k, out_k) = g.number j live in
            (
              k,
              of_k,
              le_k,
              recycled_out n k id j r.freelist small (omega (arith, le_k, g.pool.counted)) of_n of_k
                  (ground (arith, gone, live, ==_iff id j)) out_k,
            );
      })

recycle-IsStage :
    (r : Registry) (id j : List ℕ) (stage : Stage)
    → IsIssued r
    → IsSpare r id
    → (id == j) ≡ false
    → IsStage r stage j
    → IsStage (recycle id r) stage j
unfolding recycle
recycle-IsStage r id j checked g (n, of_n, le, out, gone) other i =
    let small : n < 2 ^ 64 = omega (arith, le, g.pool.counted) in
    rw (ap parse_u64 of_n ∙ parse_u64-from_counter n small, recycle) i
recycle-IsStage r id j wiped g (n, of_n, le, out, gone) other (k, of_k, le_k, out_k, gone_k) =
    let small : n < 2 ^ 64 = omega (arith, le, g.pool.counted) in
    rw (ap parse_u64 of_n ∙ parse_u64-from_counter n small, recycle)
      (
        k,
        of_k,
        le_k,
        recycled_out n k id j r.freelist small (omega (arith, le_k, g.pool.counted)) of_n of_k other
            out_k,
        gone_k,
      )

recycle_at-IsOrderly :
    (at : Option Stage) (id : List ℕ) (d : Desk)
    → Dict.get d.in_flight id ≡ at
    → IsOrderly d
    → IsOrderly (recycle_at at id d)
unfolding recycle_at
recycle_at-IsOrderly none id d e o = o
recycle_at-IsOrderly (some checked) id d e o = o
recycle_at-IsOrderly (some wiped) id d e o =
    let spare = o.stages id wiped e in
    record {
      issued = recycle-IsIssued d.registry id o.issued spare;
      stages = λ j stage found. elim (Bool-cases (id == j)) [
        | inl own ↦ absurd (ground (arith, found, own, Dict.get-remove d.in_flight id j))
        | inr other ↦
            recycle-IsStage d.registry id j stage o.issued spare other
              (o.stages j stage (ground (arith, found, other, Dict.get-remove d.in_flight id j)))
      ];
    }

take-IsOrderly :
    (hash_token : String → String) (t : Turn) (d : Desk)
    → IsOrderly d
    → IsOrderly (take hash_token t d)
unfolding take
take-IsOrderly hash_token (serving q) d o =
    let after = serve hash_token q d.registry in
    record {
      issued = serve-IsIssued hash_token q d.registry o.issued;
      stages = λ id stage e.
          IsSparing-IsStage d.registry after stage id
            (serve-IsSparing hash_token q d.registry o.issued) (o.stages id stage e);
    }
take-IsOrderly hash_token (checking is_admin id) d o =
    begin_delete-IsOrderly (check_delete is_admin id d.registry) d
      (λ i e. check_delete-on_file is_admin id i d.registry e) o
take-IsOrderly hash_token (wiping id) d o = wipe_at-IsOrderly (Dict.get d.in_flight id) id d refl o
take-IsOrderly hash_token (recycling id) d o =
    recycle_at-IsOrderly (Dict.get d.in_flight id) id d refl o

take_all-IsOrderly :
    (hash_token : String → String) (ts : List Turn) (d : Desk)
    → IsOrderly d
    → IsOrderly (take_all hash_token ts d)
take_all-IsOrderly hash_token [] d o = o
take_all-IsOrderly hash_token (t ∷ ts) d o =
    take_all-IsOrderly hash_token ts (take hash_token t d) (take-IsOrderly hash_token t d o)

abbrev no_deletions : Dict (List ℕ) Stage
no_deletions = Dict.empty

abbrev pub new_desk : Desk
new_desk = record { registry = new_registry; in_flight = no_deletions }

new_desk-IsOrderly : IsOrderly new_desk
new_desk-IsOrderly = record {
  issued = new_registry-IsIssued;
  stages = λ id stage e. absurd (ground (arith, e, Dict.get-empty {V = Stage} id));
}

-- Whatever registrations, changes of names and of developer flags, each taken as one step, and
-- checks, deletes and recyclings of deletions there have been since the registry was empty, in
-- any order, as long as no two deletions of one id are in flight at once: every id on file is
-- that of a number up to the counter which is not in the pool; an id that was checked is still on
-- file, and one that was wiped has no player and a number that is not in the pool; and the next
-- registration either fails and changes nothing, or answers with an id under which the returned
-- token, and the name, are then on file, and which before had that token or none, while every
-- other id keeps its token: nobody is given another player's id.
pub take_all-fresh :
    (hash_token : String → String) (ts : List Turn) (rate_ok : Bool) (drawn : String)
    (req : RegisterRequest)
    → IsOrderly (take_all hash_token ts new_desk)
      × Answers hash_token
          (take_all hash_token ts new_desk).registry
          (register hash_token rate_ok drawn req (take_all hash_token ts new_desk).registry)
take_all-fresh hash_token ts rate_ok drawn req =
    let o = take_all-IsOrderly hash_token ts new_desk new_desk-IsOrderly in
    (
      o,
      register-Answers hash_token rate_ok drawn req (take_all hash_token ts new_desk).registry
          o.issued,
    )
