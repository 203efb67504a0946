-- ===== src/Session/Changes.antt =====
-- The sessions that the scripts write: how they read back, and that they are well formed.
use briska_blast.Common.{
  ℕ, ◌+◌, ◌≤◌, ◌<◌, not, String, Bool, true, false, ◌≡◌, refl, sym, subst, some, List, [], ◌∷◌,
  ◌++◌, length, arith, ==_iff, string_eq, contains, All, IsDistinct, IsDistinct-snoc, Bool-cases,
  inl, inr, length-append, if◌then◌else◌, is_empty, nat_eq,
}
use briska_blast.Session.Data.{
  Session, SessionStatus, JoinerEntry, waiting, ids, members, is_waiting, is_starting,
}
use briska_blast.Session.Store.{decode, cjson_encode, mend_joiners}
use briska_blast.Session.Lobby.{entry, push_joiner, start, hand_host}
use briska_blast.Session.Live.{demote, promote}
use briska_blast.Session.Rosters.{
  Takes, ids-snoc, Takes-length, Takes-All, IsDistinct-promoted, IsDistinct-demoted, All-demoted,
}
use briska_blast.Session.Valid.{IsValid, IsStored}

pub seats_read : (l : List String) → (if not (is_empty l) then l else []) ≡ l
seats_read [] = refl
seats_read (x ∷ l) = refl

pub cjson-IsStored :
    (s : Session) (ttl : ℕ) (key : String)
    → is_empty s.joiners ≡ false
    → s.code ≡ key
    → IsValid s
    → IsStored key (cjson_encode s ttl)
unfolding decode
cjson-IsStored s ttl key full named v = record {
  readable = rw full (λ i. some (record s { seat_order = seats_read s.seat_order i }));
  named = named;
  valid = v;
}

pub mended-eq :
    (s : Session) (ttl : ℕ)
    → mend_joiners (cjson_encode s ttl) ≡ record (cjson_encode s ttl) { joiners_array = true }
mended-eq s ttl = elim (Bool-cases (is_empty s.joiners)) [
  | inl none_left ↦ rw none_left
  | inr some_left ↦ rw some_left
]

pub mended-IsStored :
    (s : Session) (ttl : ℕ) (key : String)
    → s.code ≡ key
    → IsValid s
    → IsStored key (mend_joiners (cjson_encode s ttl))
unfolding decode
mended-IsStored s ttl key named v = rw mended-eq (record {
  readable = λ i. some (record s { seat_order = seats_read s.seat_order i });
  named = named;
  valid = v;
})

pub full_of_length : (js : List JoinerEntry) → 1 ≤ length js → is_empty js ≡ false
full_of_length [] h = absurd (omega arith)
full_of_length (j ∷ js) h = refl

pub All-weaken :
    (xs ys : List String) (a : String)
    → All (λ p. contains xs p ≡ true) ys
    → All (λ p. contains (a ∷ xs) p ≡ true) ys
All-weaken xs [] a h = tt
All-weaken xs (y ∷ ys) a h = (ground arith, All-weaken xs ys a h.1)

pub All-contains : (xs : List String) → All (λ p. contains xs p ≡ true) xs
All-contains [] = tt
All-contains (x ∷ xs) = (ground (arith, ==_iff x x), All-weaken xs xs x (All-contains xs))

pub starting-not-waiting : (st : SessionStatus) → is_starting st ≡ true → is_waiting st ≡ false
starting-not-waiting waiting h = cc
starting-not-waiting _ h = refl

pub push_joiner-IsValid :
    (s : Session) (p : String) (now : ℕ)
    → is_waiting s.status ≡ true
    → contains (members s) p ≡ false
    → 1 + length s.joiners < s.player_count
    → IsValid s
    → IsValid (push_joiner s p now)
push_joiner-IsValid s p now w new room v = record {
  distinct =
      subst (λ x. IsDistinct (s.host_player_id ∷ x)) (sym (ids-snoc s.joiners p now))
        (IsDistinct-snoc (members s) p v.distinct new);
  capacity = omega (arith, length-append s.joiners (entry p now ∷ []));
  lobby_seats = v.lobby_seats;
  match_seats = λ m. absurd (ground (arith, w, m));
  settings = v.settings;
}

pub is_empty-snoc : (js : List JoinerEntry) (j : JoinerEntry) → is_empty (js ++ j ∷ []) ≡ false
is_empty-snoc [] j = refl
is_empty-snoc (i ∷ js) j = refl

pub start-IsValid : (s : Session) → IsValid s → IsValid (start s)
start-IsValid s v = record {
  distinct = v.distinct;
  capacity = v.capacity;
  lobby_seats = λ w. cc;
  match_seats = λ _. All-contains (members s);
  settings = v.settings;
}

-- A new host and new joiners from among the members keep a session valid.
pub reseat-IsValid :
    (s : Session) (host : String) (js : List JoinerEntry)
    → IsDistinct (host ∷ ids js)
    → length js ≤ length s.joiners
    → (All (λ p. contains s.seat_order p ≡ true) (members s)
        → All (λ p. contains s.seat_order p ≡ true) (host ∷ ids js))
    → IsValid s
    → IsValid (promote s host js)
reseat-IsValid s host js d short seats v = record {
  distinct = d;
  capacity = omega (arith, v.capacity);
  lobby_seats = v.lobby_seats;
  match_seats = λ m. seats (v.match_seats m);
  settings = v.settings;
}

pub hand_host-IsValid :
    (s : Session) {rest : List JoinerEntry} {j : JoinerEntry} (caller new_host : String) (now : ℕ)
    → Takes s.joiners j rest
    → s.host_player_id ≡ caller
    → j.player_id ≡ new_host
    → IsValid s
    → IsValid (hand_host s rest caller new_host now)
hand_host-IsValid s {rest} {j} caller new_host now t host joiner v =
    subst (λ x. IsValid (hand_host s rest caller x now)) joiner
      (subst (λ x. IsValid (hand_host s rest x j.player_id now)) host
        (reseat-IsValid s j.player_id (rest ++ entry s.host_player_id now ∷ [])
          (IsDistinct-demoted t s.host_player_id now v.distinct)
          (omega (arith, Takes-length t, length-append rest (entry s.host_player_id now ∷ [])))
          (All-demoted t s.host_player_id _ now) v))

-- What the promotion leaves in `joiners`, whether the old host is kept or dropped.
pub demote-IsValid :
    (s : Session) {rest : List JoinerEntry} {j : JoinerEntry} (keep_ex_host : Bool) (host : String)
    (now : ℕ)
    → Takes s.joiners j rest
    → s.host_player_id ≡ host
    → IsValid s
    → IsValid (promote s j.player_id (demote keep_ex_host rest host now))
demote-IsValid s {j = j} true host now t h v = hand_host-IsValid s host j.player_id now t h refl v
demote-IsValid s {rest} {j} false host now t h v =
    reseat-IsValid s j.player_id rest (IsDistinct-promoted t s.host_player_id v.distinct)
      (omega (arith, Takes-length t)) (λ a. Takes-All _ t a.1) v

pub demote_full :
    (keep_ex_host : Bool) (rest : List JoinerEntry) (host : String) (now : ℕ)
    → 1 ≤ length rest
    → is_empty (demote keep_ex_host rest host now) ≡ false
demote_full true rest host now h = is_empty-snoc rest (entry host now)
demote_full false rest host now h = full_of_length rest h
