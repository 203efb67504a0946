-- ===== src/Session/Live.antt =====
-- The scripts of a live match, from server/src/signaling/ws/session_ops.rs: `ACTIVATE_SCRIPT`,
-- `PROMOTE_OR_END_SCRIPT` and `REMOVE_JOINER_ON_LEAVE_SCRIPT`.
use briska_blast.Common.{
  ℕ, suc, String, Bool, not, ◌&&◌, Option, none, some, List, [], ◌∷◌, ◌++◌, leb, ◌==◌, string_eq,
  contains, is_empty, if◌then◌else◌,
}
use briska_blast.Session.Data.{Session, JoinerEntry, active, is_waiting, is_starting}
use briska_blast.Session.Store.{
  Store, Effect, keep, set, del, run_script, cjson_encode, mend_joiners,
}
use briska_blast.Session.Lobby.{entry, remove_joiner}

pub data ActivateOutcome : Type 0 where
  activated gone not_starting : ActivateOutcome

unfoldable pub activate_body : ℕ → Session → ActivateOutcome × Effect
activate_body ttl s =
    if not (is_starting s.status)
    then (not_starting, keep)
    else (activated, set (mend_joiners (cjson_encode (record s { status = active }) ttl)))

unfoldable pub activate_script : ℕ → String → Store → ActivateOutcome × Store
unfolding run_script activate_body
activate_script ttl = run_script gone (activate_body ttl)

-- How many joiners are connected.
unfoldable pub connected_count : List String → List JoinerEntry → ℕ
connected_count connected [] = 0
connected_count connected (j ∷ js) =
    if contains connected j.player_id
    then suc (connected_count connected js)
    else connected_count connected js

-- The first connected joiner, and the others in their order.
unfoldable pub pick_connected :
    List String → List JoinerEntry → Option (JoinerEntry × List JoinerEntry)
pick_connected connected [] = none
pick_connected connected (j ∷ js) =
    let rest = pick_connected connected js in
    if contains connected j.player_id
    then some (j, js)
    else elim rest [ none ↦ none | some (p, r) ↦ some (p, j ∷ r) ]

pub data PromoteOutcome : Type 0 where
  promoted : String → PromoteOutcome
  ended gone not_active not_host : PromoteOutcome

-- `if ARGV[5] == '1'`: the old host at the back of the join order, or dropped.
abbrev pub demote : Bool → List JoinerEntry → String → ℕ → List JoinerEntry
demote keep_ex_host rest host now = if keep_ex_host then rest ++ entry host now ∷ [] else rest

abbrev pub promote : Session → String → List JoinerEntry → Session
promote s new_host joiners = record s { host_player_id = new_host; joiners = joiners }

-- ARGV: the departing host, the connected players, the time to live, the time, whether to keep
-- the old host. No joiner is picked only if the count is zero.
unfoldable pub promote_body :
    String → List String → ℕ → ℕ → Bool → Session → PromoteOutcome × Effect
unfolding connected_count pick_connected
promote_body host connected ttl now keep_ex_host s =
    if is_waiting s.status
    then (PromoteOutcome.not_active, keep)
    else if not (s.host_player_id == host)
    then (PromoteOutcome.not_host, keep)
    else elim (pick_connected connected s.joiners) [
      | none ↦ (PromoteOutcome.ended, del)
      | some (j, rest) ↦
          if leb 2 (connected_count connected s.joiners)
          then (
            PromoteOutcome.promoted j.player_id,
            set (cjson_encode (promote s j.player_id (demote keep_ex_host rest host now)) ttl),
          )
          else (PromoteOutcome.ended, del)
    ]

unfoldable pub promote_script :
    String → List String → ℕ → ℕ → Bool → String → Store → PromoteOutcome × Store
unfolding run_script promote_body
promote_script host connected ttl now keep_ex_host =
    run_script PromoteOutcome.gone (promote_body host connected ttl now keep_ex_host)

pub data RemoveOutcome : Type 0 where
  removed ended not_found not_joiner : RemoveOutcome

-- ARGV: the player, the time to live.
unfoldable pub remove_body : String → ℕ → Session → RemoveOutcome × Effect
unfolding remove_joiner
remove_body p ttl s = elim (remove_joiner s.joiners p) [
  | none ↦ (RemoveOutcome.not_joiner, keep)
  | some rest ↦ if not (is_waiting s.status) && is_empty rest then (RemoveOutcome.ended, del) else (
    RemoveOutcome.removed,
    set (mend_joiners (cjson_encode (record s { joiners = rest }) ttl)),
  )
]

unfoldable pub remove_script : String → ℕ → String → Store → RemoveOutcome × Store
unfolding run_script remove_body
remove_script p ttl = run_script RemoveOutcome.not_found (remove_body p ttl)
