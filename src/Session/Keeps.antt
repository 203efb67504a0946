-- ===== src/Session/Keeps.antt =====
-- What each script writes is a well-formed session under its own key, readable by the server.
use briska_blast.Common.{
  ℕ, ◌+◌, ◌≤◌, not, String, Bool, ◌&&◌, ◌≡◌, List, length, arith, ◌==◌, ==_iff, string_eq, is_empty,
  ltb, leb, nat_eq,
}
use briska_blast.Session.Data.{Session, active, is_waiting, is_starting, is_joiner}
use briska_blast.Session.Lobby.{
  entry, push_joiner, join_body, start, start_body, hand_host, transfer_body, end_if_waiting_body,
  remove_joiner,
}
use briska_blast.Session.Live.{
  activate_body, promote_body, remove_body, pick_connected, connected_count, demote, promote,
}
use briska_blast.Session.Rosters.{
  is_joiner-contains, Takes-length, Takes-All, remove_joiner-Takes, pick_connected-Takes,
  IsDistinct-dropped, connected_count-le,
}
use briska_blast.Session.Valid.{IsValid, IsStored, Writes, Sets-guard, Sets-option, Sets-choice}
use briska_blast.Session.Changes.{
  cjson-IsStored, mended-IsStored, full_of_length, starting-not-waiting, push_joiner-IsValid,
  is_empty-snoc, start-IsValid, reseat-IsValid, hand_host-IsValid, demote-IsValid, demote_full,
}

pub join-Writes :
    (p : String) (now ttl : ℕ) (key : String) (s : Session)
    → s.code ≡ key
    → IsValid s
    → Writes key (join_body p now ttl s).1
unfolding join_body
join-Writes p now ttl key s named v = Sets-guard (IsStored key) (not (is_waiting s.status)) _ _ λ w.
    Sets-guard (IsStored key) (s.host_player_id == p) _ _ λ h.
      Sets-guard (IsStored key) (is_joiner s.joiners p) _ _ λ j.
        Sets-guard (IsStored key) (leb s.player_count (1 + length s.joiners)) _ _ λ c.
          cjson-IsStored (push_joiner s p now) ttl key (is_empty-snoc s.joiners (entry p now)) named
            (push_joiner-IsValid s p now (ground arith)
              (ground (arith, is_joiner-contains s.joiners p)) (ground arith) v)

pub start-Writes :
    (host : String) (min_players expected ttl : ℕ) (key : String) (s : Session)
    → 2 ≤ min_players
    → s.code ≡ key
    → IsValid s
    → Writes key (start_body host min_players expected ttl s).1
unfolding start_body
start-Writes host min_players expected ttl key s two named v =
    Sets-guard (IsStored key) (not (s.host_player_id == host)) _ _ λ h.
      Sets-guard (IsStored key) (not (is_waiting s.status)) _ _ λ w.
        Sets-guard (IsStored key) (ltb (1 + length s.joiners) min_players) _ _ λ few.
          Sets-guard (IsStored key) (not (length s.joiners == expected)) _ _ λ same.
            cjson-IsStored (start s) ttl key (full_of_length s.joiners (ground arith)) named
              (start-IsValid s v)

pub transfer-Writes :
    (caller new_host : String) (now ttl : ℕ) (key : String) (s : Session)
    → s.code ≡ key
    → IsValid s
    → Writes key (transfer_body caller new_host now ttl s).1
unfolding transfer_body
transfer-Writes caller new_host now ttl key s named v =
    Sets-guard (IsStored key) (not (s.host_player_id == caller)) _ _ λ h.
      Sets-guard (IsStored key) (not (is_waiting s.status)) _ _ λ w.
        Sets-option (IsStored key) (remove_joiner s.joiners new_host) _ _ tt λ rest e.
          let (j, same, t) = remove_joiner-Takes s.joiners new_host e in
          cjson-IsStored (hand_host s rest caller new_host now) ttl key
            (is_empty-snoc rest (entry caller now)) named
            (hand_host-IsValid s caller new_host now t
              ((==_iff s.host_player_id caller).0 (ground arith)) same v)

pub end_if_waiting-Writes : (key : String) (s : Session) → Writes key (end_if_waiting_body s).1
unfolding end_if_waiting_body
end_if_waiting-Writes key s = Sets-guard (IsStored key) (not (is_waiting s.status)) _ _ λ w. tt

pub activate-Writes :
    (ttl : ℕ) (key : String) (s : Session)
    → s.code ≡ key
    → IsValid s
    → Writes key (activate_body ttl s).1
unfolding activate_body
activate-Writes ttl key s named v = Sets-guard (IsStored key) (not (is_starting s.status)) _ _ λ w.
    mended-IsStored (record s { status = active }) ttl key named
      (record {
        distinct = v.distinct;
        capacity = v.capacity;
        lobby_seats = λ a. cc;
        match_seats = λ a. v.match_seats (starting-not-waiting s.status (ground arith));
        settings = v.settings;
      })

pub remove-Writes :
    (p : String) (ttl : ℕ) (key : String) (s : Session)
    → s.code ≡ key
    → IsValid s
    → Writes key (remove_body p ttl s).1
unfolding remove_body
remove-Writes p ttl key s named v =
    Sets-option (IsStored key) (remove_joiner s.joiners p) _ _ tt λ rest e.
      let (j, same, t) = remove_joiner-Takes s.joiners p e in
      Sets-choice (IsStored key) (not (is_waiting s.status) && is_empty rest) _ _ (λ _. tt)
        λ go.
          mended-IsStored (record s { joiners = rest }) ttl key named
            (reseat-IsValid s s.host_player_id rest
              (IsDistinct-dropped t s.host_player_id v.distinct) (omega (arith, Takes-length t))
              (λ h. (h.0, (Takes-All _ t h.1).1)) v)

pub promote-Writes :
    (host : String) (connected : List String) (ttl now : ℕ) (keep_ex_host : Bool) (key : String)
    (s : Session)
    → s.code ≡ key
    → IsValid s
    → Writes key (promote_body host connected ttl now keep_ex_host s).1
unfolding promote_body
promote-Writes host connected ttl now keep_ex_host key s named v =
    Sets-guard (IsStored key) (is_waiting s.status) _ _ λ w.
      Sets-guard (IsStored key) (not (s.host_player_id == host)) _ _ λ h.
        Sets-option (IsStored key) (pick_connected connected s.joiners) _ _ tt λ picked e.
          let (on, t) = pick_connected-Takes connected s.joiners e in
          Sets-choice (IsStored key) (leb 2 (connected_count connected s.joiners)) _ _
            (λ two.
              cjson-IsStored (promote s picked.0.player_id (demote keep_ex_host picked.1 host now))
                ttl key
                (demote_full keep_ex_host picked.1 host now
                  (ground (arith, Takes-length t, connected_count-le connected s.joiners)))
                named
                (demote-IsValid s keep_ex_host host now t
                  ((==_iff s.host_player_id host).0 (ground arith)) v))
            (λ _. tt)
