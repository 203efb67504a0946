-- ===== src/Session/Promotion.antt =====
-- What `promote_demote_or_end_active` makes of a live match whose host is lost.
use briska_blast.Common.{
  ℕ, ◌≤◌, ◌<◌, String, Bool, true, false, ◌≡◌, subst, some, List, [], ◌∷◌, ◌++◌, arith, ◌==◌,
  ==_iff, string_eq, contains, Bool-cases, All, Option-cases, inl, inr, leb, ◌⊎◌,
}
use briska_blast.Session.Data.{Session, is_waiting, JoinerEntry}
use briska_blast.Session.Store.{set, del, cjson_encode}
use briska_blast.Session.Live.{
  promote_body, connected_count, pick_connected, promote, demote, promoted, PromoteOutcome,
}
use briska_blast.Session.Rosters.{connected_count-pick}

-- The oldest connected joiner, with those before and after.
abbrev pub Oldest :
    List String → List JoinerEntry → List JoinerEntry → JoinerEntry → List JoinerEntry → Type 0
Oldest connected js before j after =
    (js ≡ before ++ j ∷ after)
    × All (λ i. contains connected i.player_id ≡ false) before
    × (contains connected j.player_id ≡ true)

pick_connected-Oldest :
    (connected : List String) (js : List JoinerEntry) (j : JoinerEntry) (rest : List JoinerEntry)
    → pick_connected connected js ≡ some (j, rest)
    → (before : List JoinerEntry) × (after : List JoinerEntry) × Oldest connected js before j after
      × (rest ≡ before ++ after)
unfolding pick_connected
pick_connected-Oldest connected [] j rest e = cc
pick_connected-Oldest connected (i ∷ js) j rest e =
    elim (Bool-cases (contains connected i.player_id)) [
      | inl hit ↦ ([], js, (ground arith, tt, ground arith), ground arith)
      | inr miss ↦ elim (Option-cases (pick_connected connected js)) [
        | inl gone ↦ absurd (ground (arith, miss, gone))
        | inr ((k, r), left) ↦
            let (before, after, o, same) = pick_connected-Oldest connected js k r left in
            (i ∷ before, after, (ground arith, (miss, o.1), ground arith), ground arith)
      ]
    ]

promote_body-pick :
    (host : String) (connected : List String) (ttl now : ℕ) (keep_ex_host : Bool) (s : Session)
    (j : JoinerEntry) (rest : List JoinerEntry)
    → is_waiting s.status ≡ false
    → (s.host_player_id == host) ≡ true
    → pick_connected connected s.joiners ≡ some (j, rest)
    → leb 2 (connected_count connected s.joiners) ≡ true
    → promote_body host connected ttl now keep_ex_host s ≡ (
      promoted j.player_id,
      set (cjson_encode (promote s j.player_id (demote keep_ex_host rest host now)) ttl),
    )
unfolding promote_body
promote_body-pick host connected ttl now keep_ex_host s j rest live is_host e two =
    rw (live, promote_body) (rw (is_host, e, two))

-- What the loss of the host makes of a live match: a new host, or the end.
abbrev pub Promotion : String → List String → ℕ → ℕ → Bool → Session → Type 0
Promotion host connected ttl now keep_ex_host s =
    ((before : List JoinerEntry) × (j : JoinerEntry) × (after : List JoinerEntry) × Oldest connected
        s.joiners before j after
      × (2 ≤ connected_count connected s.joiners)
      × (promote_body host connected ttl now keep_ex_host s ≡ (
        promoted j.player_id,
        set (
            cjson_encode (promote s j.player_id (demote keep_ex_host (before ++ after) host now))
              ttl),
      )))
    ⊎ ((connected_count connected s.joiners < 2)
        × (promote_body host connected ttl now keep_ex_host s ≡ (PromoteOutcome.ended, del)))

-- When the host of a live match is lost and at least two joiners are connected, the oldest of
-- those becomes the host, the others keep their order, and the old host goes to the back or is
-- dropped. With fewer the session is deleted.
pub promote_body-cases :
    (host : String) (connected : List String) (ttl now : ℕ) (keep_ex_host : Bool) (s : Session)
    → is_waiting s.status ≡ false
    → s.host_player_id ≡ host
    → Promotion host connected ttl now keep_ex_host s
unfolding promote_body
promote_body-cases host connected ttl now keep_ex_host s live is_host =
    elim (Option-cases (pick_connected connected s.joiners)) [
      | inl gone ↦ inr (
        omega (arith, connected_count-pick connected s.joiners gone),
        ground (arith, ==_iff s.host_player_id host),
      )
      | inr ((j, rest), e) ↦
          let (before, after, o, same) = pick_connected-Oldest connected s.joiners j rest e in
          elim (Bool-cases (leb 2 (connected_count connected s.joiners))) [
            | inl two ↦ inl (
              before,
              j,
              after,
              o,
              ground arith,
              subst
                  (λ r. promote_body host connected ttl now keep_ex_host s ≡ (
                    promoted j.player_id,
                    set (cjson_encode (promote s j.player_id (demote keep_ex_host r host now)) ttl),
                  ))
                  same
                  (promote_body-pick host connected ttl now keep_ex_host s j rest live
                    ((==_iff s.host_player_id host).1 is_host) e two),
            )
            | inr few ↦ inr (ground arith, ground (arith, ==_iff s.host_player_id host))
          ]
    ]
