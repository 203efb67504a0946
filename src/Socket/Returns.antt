-- ===== src/Socket/Returns.antt =====
-- What an arrival does to the timers: the takes of the grace entries in `handle_socket` of
-- signaling/ws/mod.rs.
use briska_blast.Common.{
  ℕ, ◌≡◌, refl, String, Bool, true, false, none, some, List, ◌==◌, Option-cases, Bool-cases, inl,
  inr, arith,
}
use briska_blast.Common.Dict
use briska_blast.Common.Dict.{Dict}
use briska_blast.Protocol.{IceServer, Identified, peer_joined}
use briska_blast.Hub.Data.{Hub, GraceKind, grace_key_eq, promotion, reconnect, room_at}
use briska_blast.Hub.Pause.{PauseOutcome, pause_for}
use briska_blast.Hub.Grace.{key, take_grace}
use briska_blast.Socket.World.{World, notify, with_hub}
use briska_blast.Socket.Identify.{
  Identity, RosterSnapshot, peer_roster, after_pause, pause_rejoin, cancel_promotion, welcome,
  arrive, name_of, arrival_servers,
}

-- No timer waits.
pub Idle : Hub → String → String → GraceKind → Type 0
Idle h code p kind = Dict.get h.grace (key code p kind) ≡ none

Idle-take_grace :
    (h : Hub) (code p : String) (kind : GraceKind) → Idle (take_grace h code p kind).1 code p kind
unfolding take_grace Idle
Idle-take_grace h code p kind = Dict.get-remove_self h.grace (key code p kind)

Idle-take_other :
    (h : Hub) (code p : String) (kind other : GraceKind)
    → Idle h code p other
    → Idle (take_grace h code p kind).1 code p other
unfolding take_grace Idle
Idle-take_other h code p kind other idle = elim (Bool-cases (key code p kind == key code p other)) [
  | inl same ↦ rw (Dict.get-remove h.grace (key code p kind) (key code p other), same)
  | inr differ ↦ rw (Dict.get-remove h.grace (key code p kind) (key code p other), differ) idle
]

-- A pause leaves the timers.
pause_for-grace : (h : Hub) (code p : String) → (pause_for h code p).1.grace ≡ h.grace
unfolding pause_for
pause_for-grace h code p = elim (Option-cases (room_at h code)) [
  | inl gone ↦ rw (gone, pause_for)
  | inr (room, e) ↦ rw (e, pause_for)
]

pause_rejoin-grace :
    (w : World) (code p username : String) (rejoin : Bool)
    → (pause_rejoin w code p username rejoin).hub.grace ≡ w.hub.grace
unfolding pause_rejoin after_pause notify
pause_rejoin-grace w code p username false = refl
pause_rejoin-grace w code p username true =
    go (pause_for w.hub code p).0 (pause_for w.hub code p).1 (pause_for-grace w.hub code p)
  where
    go :
        (outcome : PauseOutcome) (hub : Hub)
        → hub.grace ≡ w.hub.grace
        → (after_pause code p username (outcome, hub) w).hub.grace ≡ w.hub.grace
    go PauseOutcome.paused hub e = e
    go PauseOutcome.already_paused hub e = e
    go PauseOutcome.not_started hub e = e

cancel_promotion-hub :
    (w : World) (code p : String)
    → (cancel_promotion w code p true).hub ≡ (take_grace w.hub code p promotion).1
unfolding cancel_promotion notify
cancel_promotion-hub w code p = elim (Bool-cases (take_grace w.hub code p promotion).0) [
  | inl won ↦ rw (won, cancel_promotion)
  | inr lost ↦ rw (lost, cancel_promotion)
]

Idle-cancel_promotion :
    (w : World) (code p : String) (is_host : Bool)
    → Idle w.hub code p reconnect
    → Idle (cancel_promotion w code p is_host).hub code p reconnect
unfolding cancel_promotion
Idle-cancel_promotion w code p false idle = idle
Idle-cancel_promotion w code p true idle =
    rw (cancel_promotion-hub w code p) (Idle-take_other w.hub code p promotion reconnect idle)

promotion_cancelled :
    (w : World) (code p : String) (is_host : Bool)
    → is_host ≡ true
    → Idle (cancel_promotion w code p is_host).hub code p promotion
promotion_cancelled w code p false h = cc
promotion_cancelled w code p true h =
    rw (cancel_promotion-hub w code p) (Idle-take_grace w.hub code p promotion)

-- No timer waits for the player, nor for the host's promotion if the player is the host.
pub IsReleased : Hub → String → Identity → Type 0
IsReleased h code i =
    Idle h code i.player_id reconnect × (i.is_host ≡ true → Idle h code i.player_id promotion)

Idle-pause_rejoin :
    (w : World) (code p username : String) (rejoin : Bool) (kind : GraceKind)
    → Idle w.hub code p kind
    → Idle (pause_rejoin w code p username rejoin).hub code p kind
unfolding Idle
Idle-pause_rejoin w code p username rejoin kind idle =
    rw (pause_rejoin-grace w code p username rejoin) idle

welcome-IsReleased :
    (w : World) (code : String) (i : Identity) (usernames : Dict String String)
    (minted : List IceServer) (roster : RosterSnapshot)
    → IsReleased (welcome w code i usernames minted roster).1.hub code i
unfolding welcome IsReleased
welcome-IsReleased w code i usernames minted roster =
    let joined =
      notify (with_hub w (arrival_servers w.hub code roster.seat_order minted).1) code
        (peer_joined i.player_id (name_of usernames i.player_id)) (some i.player_id) in
    let held = with_hub joined (take_grace joined.hub code i.player_id reconnect).1 in
    let back = cancel_promotion held code i.player_id i.is_host in
    let name = name_of usernames i.player_id in
    (
      Idle-pause_rejoin back code i.player_id name i.rejoin reconnect (
          Idle-cancel_promotion held code i.player_id i.is_host
            (Idle-take_grace joined.hub code i.player_id reconnect)),
      λ host.
          Idle-pause_rejoin back code i.player_id name i.rejoin promotion
            (promotion_cancelled held code i.player_id i.is_host host),
    )

-- A player whose arrival is welcomed has no timer left that would free their slot; and if they
-- are the host, none that would promote another player.
pub arrive-IsReleased :
    (w : World) (code : String) (i : Identity) (usernames : Dict String String)
    (minted : List IceServer) (conn_id : ℕ) (frame : Identified)
    → (arrive w code i usernames minted).0 ≡ some (conn_id, frame)
    → IsReleased (arrive w code i usernames minted).1.hub code i
unfolding arrive
arrive-IsReleased w code i usernames minted conn_id frame h =
    elim (Option-cases (peer_roster w.store code i.player_id)) [
      | inl gone ↦ absurd (ground (arith, gone))
      | inr (roster, e) ↦ rw (e, arrive) (welcome-IsReleased _ code i usernames minted roster)
    ]
