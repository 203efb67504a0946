-- ===== src/Session/Lobby.antt =====
-- The scripts of the lobby: `JOIN_SCRIPT` of server/src/api/join.rs, `START_SCRIPT` of
-- api/start.rs, `TRANSFER_HOST_SCRIPT` of api/session.rs and `END_IF_WAITING_SCRIPT` of
-- signaling/ws/session_ops.rs. Each is its body, run by `run_script`.
use briska_blast.Common.{
  ℕ, ◌+◌, String, not, Option, none, some, List, [], ◌∷◌, ◌++◌, length, ltb, leb, ◌==◌, string_eq,
  nat_eq, if◌then◌else◌,
}
use briska_blast.Session.Data.{Session, JoinerEntry, starting, is_waiting, is_joiner, members}
use briska_blast.Session.Store.{Store, Raw, Effect, keep, set, del, run_script, cjson_encode}

pub data JoinOutcome : Type 0 where
  ok : Raw → JoinOutcome
  not_found not_waiting is_host already_joined : JoinOutcome
  session_full : ℕ → JoinOutcome

abbrev pub entry : String → ℕ → JoinerEntry
entry p now = record { player_id = p; joined_at_ms = now }

abbrev pub push_joiner : Session → String → ℕ → Session
push_joiner s p now = record s { joiners = s.joiners ++ entry p now ∷ [] }

-- ARGV: the player, the time, the time to live.
unfoldable pub join_body : String → ℕ → ℕ → Session → JoinOutcome × Effect
join_body p now ttl s =
    if not (is_waiting s.status)
    then (JoinOutcome.not_waiting, keep)
    else if s.host_player_id == p
    then (JoinOutcome.is_host, keep)
    else if is_joiner s.joiners p
    then (JoinOutcome.already_joined, keep)
    else if leb s.player_count (1 + length s.joiners)
    then (JoinOutcome.session_full s.player_count, keep)
    else (
      JoinOutcome.ok (cjson_encode (push_joiner s p now) ttl),
      set (cjson_encode (push_joiner s p now) ttl),
    )

unfoldable pub join_script : String → ℕ → ℕ → String → Store → JoinOutcome × Store
unfolding run_script join_body
join_script p now ttl = run_script JoinOutcome.not_found (join_body p now ttl)

pub data StartOutcome : Type 0 where
  ok not_found not_host not_in_waiting below_min_players conflict : StartOutcome

abbrev pub start : Session → Session
start s = record s { status = starting; seat_order = members s }

-- ARGV: the expected host, the mode's minimum, the expected joiner count, the time to live.
unfoldable pub start_body : String → ℕ → ℕ → ℕ → Session → StartOutcome × Effect
start_body host min_players expected ttl s =
    if not (s.host_player_id == host)
    then (StartOutcome.not_host, keep)
    else if not (is_waiting s.status)
    then (StartOutcome.not_in_waiting, keep)
    else if ltb (1 + length s.joiners) min_players
    then (StartOutcome.below_min_players, keep)
    else if not (length s.joiners == expected)
    then (StartOutcome.conflict, keep)
    else (StartOutcome.ok, set (cjson_encode (start s) ttl))

unfoldable pub start_script : String → ℕ → ℕ → ℕ → String → Store → StartOutcome × Store
unfolding run_script start_body
start_script host min_players expected ttl =
    run_script StartOutcome.not_found (start_body host min_players expected ttl)

-- `found_idx` and `table.remove`: the list without the first entry of the player, if there is one.
unfoldable pub remove_joiner : List JoinerEntry → String → Option (List JoinerEntry)
remove_joiner [] p = none
remove_joiner (j ∷ js) p =
    let rest = remove_joiner js p in
    if j.player_id == p then some js else elim rest [ none ↦ none | some r ↦ some (j ∷ r) ]

pub data TransferOutcome : Type 0 where
  ok not_found not_host not_waiting target_not_joiner : TransferOutcome

abbrev pub hand_host : Session → List JoinerEntry → String → String → ℕ → Session
hand_host s rest old new now = record s {
  joiners = rest ++ entry old now ∷ [];
  host_player_id = new;
}

-- ARGV: the caller, the new host, the time, the time to live.
unfoldable pub transfer_body : String → String → ℕ → ℕ → Session → TransferOutcome × Effect
unfolding remove_joiner
transfer_body caller new_host now ttl s =
    if not (s.host_player_id == caller)
    then (TransferOutcome.not_host, keep)
    else if not (is_waiting s.status)
    then (TransferOutcome.not_waiting, keep)
    else elim (remove_joiner s.joiners new_host) [
      | none ↦ (TransferOutcome.target_not_joiner, keep)
      | some rest ↦
          (TransferOutcome.ok, set (cjson_encode (hand_host s rest caller new_host now) ttl))
    ]

unfoldable pub transfer_script : String → String → ℕ → ℕ → String → Store → TransferOutcome × Store
unfolding run_script transfer_body
transfer_script caller new_host now ttl =
    run_script TransferOutcome.not_found (transfer_body caller new_host now ttl)

pub data EndOutcome : Type 0 where
  deleted not_found not_waiting : EndOutcome

unfoldable pub end_if_waiting_body : Session → EndOutcome × Effect
end_if_waiting_body s =
    if not (is_waiting s.status) then (EndOutcome.not_waiting, keep) else (EndOutcome.deleted, del)

unfoldable pub end_if_waiting_script : String → Store → EndOutcome × Store
unfolding run_script end_if_waiting_body
end_if_waiting_script = run_script EndOutcome.not_found end_if_waiting_body
