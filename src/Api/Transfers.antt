-- ===== src/Api/Transfers.antt =====
-- What a request to transfer the host's role answers: `transfer_host` of server/src/api/session.rs.
use briska_blast.Common.{
  ℕ, ◌≡◌, refl, subst, String, Bool, some, List, [], ◌∷◌, contains, contains-append, string_eq,
  ==_iff, arith, ok, Result-cases, Option-cases, inl, inr,
}
use briska_blast.Common.Dict
use briska_blast.Session.Data.{Session, JoinerEntry, ids, members}
use briska_blast.Session.Store.{Store, Raw, cjson_encode, run_script, set, apply}
use briska_blast.Session.Lobby.{
  TransferOutcome, transfer_script, transfer_body, hand_host, remove_joiner,
}
use briska_blast.Session.Rosters.{ids-snoc, remove_joiner-Takes, Takes-contains}
use briska_blast.Session.Host.{Players}
use briska_blast.Socket.World.{World, notify, with_store}
use briska_blast.Api.Requests.{admit, answer_transfer, transfer_host}

transfer_body-ok :
    (caller new_host : String) (now ttl : ℕ) (s : Session)
    → (transfer_body caller new_host now ttl s).0 ≡ TransferOutcome.ok
    → (rest : List JoinerEntry) × (remove_joiner s.joiners new_host ≡ some rest)
      × (s.host_player_id ≡ caller)
      × ((transfer_body caller new_host now ttl s).1
          ≡ set (cjson_encode (hand_host s rest caller new_host now) ttl))
unfolding transfer_body
transfer_body-ok caller new_host now ttl s h =
    elim (Option-cases (remove_joiner s.joiners new_host)) [
      | inl gone ↦ absurd (ground (arith, gone))
      | inr (rest, e) ↦ (rest, e, ground (arith, ==_iff s.host_player_id caller), ground (arith, e))
    ]

answer_transfer-ok :
    (code new_host : String) (outcome : TransferOutcome) (w : World)
    → (answer_transfer code new_host outcome w).0 ≡ ok tt
    → (outcome ≡ TransferOutcome.ok) × ((answer_transfer code new_host outcome w).1.store ≡ w.store)
unfolding answer_transfer notify
answer_transfer-ok code new_host TransferOutcome.ok w h = (refl, refl)
answer_transfer-ok code new_host TransferOutcome.not_found w h = cc
answer_transfer-ok code new_host TransferOutcome.not_host w h = cc
answer_transfer-ok code new_host TransferOutcome.not_waiting w h = cc
answer_transfer-ok code new_host TransferOutcome.target_not_joiner w h = cc

transfer_script-ok :
    (caller new_host : String) (now ttl : ℕ) (code : String) (store : Store)
    → (transfer_script caller new_host now ttl code store).0 ≡ TransferOutcome.ok
    → (raw : Raw) × (rest : List JoinerEntry) × (Dict.get store code ≡ some raw)
      × (remove_joiner raw.session.joiners new_host ≡ some rest)
      × (raw.session.host_player_id ≡ caller)
      × ((transfer_script caller new_host now ttl code store).1
          ≡ Dict.insert store code
              (cjson_encode (hand_host raw.session rest caller new_host now) ttl))
unfolding transfer_script run_script apply
transfer_script-ok caller new_host now ttl code store h =
    elim (Option-cases (Dict.get store code)) [
      | inl gone ↦ absurd (ground (arith, gone))
      | inr (raw, e) ↦
          let (rest, taken, host, wrote) =
            transfer_body-ok caller new_host now ttl raw.session
              (rw (e, transfer_script, run_script) at h) in
          (raw, rest, e, taken, host, rw (e, transfer_script, run_script) (rw (wrote, apply)))
    ]

hand_host-members :
    (s : Session) (rest : List JoinerEntry) (new_host : String) (now : ℕ) (q : String)
    → remove_joiner s.joiners new_host ≡ some rest
    → contains (members (hand_host s rest s.host_player_id new_host now)) q ≡ contains (members s) q
hand_host-members s rest new_host now q e =
    let (j, same, t) = remove_joiner-Takes s.joiners new_host e in
    ground (
      arith,
      same,
      Takes-contains t q,
      ids-snoc rest s.host_player_id now,
      contains-append (ids rest) (s.host_player_id ∷ []) q,
    )

-- A transfer that is granted was asked by the host, makes the chosen player the host, and neither
-- adds nor loses a member.
pub transfer_host-members :
    (hash_token : String → String) (players : Players) (rate_ok : Bool)
    (code p token new_host : String) (now : ℕ) (w : World)
    → (transfer_host hash_token players rate_ok code p token new_host now w).0 ≡ ok tt
    → (before : Raw) × (after : Raw) × (Dict.get w.store code ≡ some before)
      × (Dict.get
            (transfer_host hash_token players rate_ok code p token new_host now w).1.store
            code
          ≡ some after)
      × (before.session.host_player_id ≡ p)
      × (after.session.host_player_id ≡ new_host)
      × ((q : String) → contains (members after.session) q ≡ contains (members before.session) q)
unfolding transfer_host
transfer_host-members hash_token players rate_ok code p token new_host now w h =
    elim (Result-cases (admit hash_token players rate_ok p token)) [
      | inr (x, refused) ↦ absurd (ground (arith, refused))
      | inl passed ↦
          let script = transfer_script p new_host now w.session_ttl_secs code w.store in
          let (is_ok, kept) =
            answer_transfer-ok code new_host script.0 (with_store w script.1)
              (rw (passed, transfer_host) at h) in
          let (raw, rest, found, taken, host, wrote) =
            transfer_script-ok p new_host now w.session_ttl_secs code w.store is_ok in
          let new = cjson_encode (hand_host raw.session rest p new_host now) w.session_ttl_secs in
          (
            raw,
            new,
            found,
            rw (passed, transfer_host)
                (ground (arith, kept, wrote, Dict.get-insert_self w.store code new)),
            host,
            refl,
            λ q.
                subst
                  (λ x.
                    contains (members (hand_host raw.session rest x new_host now)) q
                    ≡ contains (members raw.session) q)
                  host (hand_host-members raw.session rest new_host now q taken),
          )
    ]
