-- ===== src/Session/Steps.antt =====
-- Everything that happens to the session keys, as steps of one store: the scripts, the write of
-- `POST /host`, the deletions, and a time to live that runs out.
use briska_blast.Common.{ℕ, ◌≤◌, String, Bool, ◌≡◌, none, List, string_eq}
use briska_blast.Common.Dict
use briska_blast.Session.Data.{Session}
use briska_blast.Session.Store.{Store, Raw, set, del, apply, serde_encode}
use briska_blast.Session.Lobby.{
  join_body, join_script, start_body, start_script, transfer_body, transfer_script,
  end_if_waiting_body, end_if_waiting_script, JoinOutcome, StartOutcome, TransferOutcome,
  EndOutcome,
}
use briska_blast.Session.Live.{
  activate_body, activate_script, promote_body, promote_script, remove_body, remove_script,
  ActivateOutcome, PromoteOutcome, RemoveOutcome,
}
use briska_blast.Session.Valid.{IsStored, IsSound, run_script-IsSound, apply-IsSound}
use briska_blast.Session.Keeps.{
  join-Writes, start-Writes, transfer-Writes, end_if_waiting-Writes, activate-Writes,
  promote-Writes, remove-Writes,
}

-- One operation of the server on the key of a session, with the arguments that it passes. `create`
-- is the write of `/host`; `delete` is the `DEL` of `end_session` and `close_session`, and the
-- passing of the time to live.
pub data Op : Type 0 where
  create : Session → ℕ → Op
  join : String → ℕ → ℕ → Op
  start : String → ℕ → ℕ → ℕ → Op
  transfer : String → String → ℕ → ℕ → Op
  end_if_waiting : Op
  activate : ℕ → Op
  promote : String → List String → ℕ → ℕ → Bool → Op
  remove : String → ℕ → Op
  delete : Op

unfoldable pub perform : Op → String → Store → Store
unfolding join_script start_script transfer_script end_if_waiting_script activate_script
    promote_script remove_script apply
perform (create s ttl) key store = apply (set (serde_encode s ttl)) key store
perform (join p now ttl) key store = (join_script p now ttl key store).1
perform (start host min_players expected ttl) key store =
    (start_script host min_players expected ttl key store).1
perform (transfer caller new_host now ttl) key store =
    (transfer_script caller new_host now ttl key store).1
perform end_if_waiting key store = (end_if_waiting_script key store).1
perform (activate ttl) key store = (activate_script ttl key store).1
perform (promote host connected ttl now keep_ex_host) key store =
    (promote_script host connected ttl now keep_ex_host key store).1
perform (remove p ttl) key store = (remove_script p ttl key store).1
perform delete key store = apply del key store

-- What the server's own code makes sure of: `/host` writes a valid session of the lobby under a
-- code that is free, and `/start` passes the mode's minimum, which is two.
abbrev pub IsCall : Op → String → Store → Type 0
IsCall (create s ttl) key store = IsStored key (serde_encode s ttl) × (Dict.get store key ≡ none)
IsCall (start host min_players expected ttl) key store = 2 ≤ min_players
IsCall _ key store = Unit

pub perform-IsSound :
    (op : Op) (key : String) (store : Store)
    → IsCall op key store
    → IsSound store
    → IsSound (perform op key store)
unfolding perform
perform-IsSound (create s ttl) key store c h =
    apply-IsSound (set (serde_encode s ttl)) key store c.0 h
perform-IsSound (join p now ttl) key store c h =
    run_script-IsSound JoinOutcome.not_found (join_body p now ttl) key store
      (join-Writes p now ttl key) h
perform-IsSound (start host m n ttl) key store c h =
    run_script-IsSound StartOutcome.not_found (start_body host m n ttl) key store
      (λ s. start-Writes host m n ttl key s c) h
perform-IsSound (transfer a b now ttl) key store c h =
    run_script-IsSound TransferOutcome.not_found (transfer_body a b now ttl) key store
      (transfer-Writes a b now ttl key) h
perform-IsSound end_if_waiting key store c h =
    run_script-IsSound EndOutcome.not_found end_if_waiting_body key store
      (λ s _ _. end_if_waiting-Writes key s) h
perform-IsSound (activate ttl) key store c h =
    run_script-IsSound ActivateOutcome.gone (activate_body ttl) key store (activate-Writes ttl key)
      h
perform-IsSound (promote p l ttl now k) key store c h =
    run_script-IsSound PromoteOutcome.gone (promote_body p l ttl now k) key store
      (promote-Writes p l ttl now k key) h
perform-IsSound (remove p ttl) key store c h =
    run_script-IsSound RemoveOutcome.not_found (remove_body p ttl) key store
      (remove-Writes p ttl key) h
perform-IsSound delete key store c h = apply-IsSound del key store tt h

-- A history: operations on any keys, one after another, each called as the server calls it.
pub data History : Store → Type 0 where
  begin : History Dict.empty
  step :
      {store : Store} (op : Op) (key : String)
      → History store
      → IsCall op key store
      → History (perform op key store)

-- Whatever requests, disconnects and expiries have happened, in any order, every stored session
-- can be read back by the server, lies under its own code, has no member twice and no more
-- members than its capacity, has settings in range, and has no seats in the lobby and a seat for
-- every member from the start of the match on.
pub History-IsSound : {store : Store} → History store → IsSound store
History-IsSound begin = record { at_key = λ k r e. cc (Dict.get-empty {V = Raw} k) }
History-IsSound (step op key h c) = perform-IsSound op key _ c (History-IsSound h)
