-- ===== src/Session/Rosters.antt =====
-- Lists of joiners: what taking one out and putting one at the end do to the ids.
use mathlib.Core.List.{map-append}
use briska_blast.Common.{
  ℕ, suc, ◌≤◌, String, true, ◌||◌, ◌≡◌, refl, sym, ap, subst, none, some, List, [], ◌∷◌, ◌++◌,
  length, arith, ◌==◌, ==_iff, string_eq, contains, All, All-append, IsDistinct, IsDistinct-snoc,
  Bool-cases, Option-cases, inl, inr,
}
use briska_blast.Session.Data.{JoinerEntry, ids, is_joiner}
use briska_blast.Session.Lobby.{entry, remove_joiner}
use briska_blast.Session.Live.{connected_count, pick_connected}

-- `Takes js j rest`: `rest` is `js` without one occurrence of `j`, in the same order.
pub data Takes : List JoinerEntry → JoinerEntry → List JoinerEntry → Type 0 where
  here : {j : JoinerEntry} {js : List JoinerEntry} → Takes (j ∷ js) j js
  there :
      {i j : JoinerEntry} {js rest : List JoinerEntry}
      → Takes js j rest
      → Takes (i ∷ js) j (i ∷ rest)

pub is_joiner-contains : (js : List JoinerEntry) (p : String) → is_joiner js p ≡ contains (ids js) p
is_joiner-contains [] p = refl
is_joiner-contains (j ∷ js) p = ground (arith, is_joiner-contains js p)

pub ids-snoc :
    (js : List JoinerEntry) (p : String) (now : ℕ) → ids (js ++ entry p now ∷ []) ≡ ids js ++ p ∷ []
ids-snoc js p now = map-append _ js (entry p now ∷ [])

pub Takes-length :
    {js rest : List JoinerEntry} {j : JoinerEntry} → Takes js j rest → length js ≡ suc (length rest)
Takes-length here = refl
Takes-length (there t) = ap suc (Takes-length t)

pub Takes-contains :
    {js rest : List JoinerEntry} {j : JoinerEntry}
    → Takes js j rest
    → (q : String) → contains (ids js) q ≡ (j.player_id == q) || contains (ids rest) q
Takes-contains here q = refl
Takes-contains (there t) q = ground (arith, Takes-contains t q)

pub Takes-IsDistinct :
    {js rest : List JoinerEntry} {j : JoinerEntry}
    → Takes js j rest
    → IsDistinct (ids js)
    → IsDistinct (j.player_id ∷ ids rest)
Takes-IsDistinct here d = d
Takes-IsDistinct {j = j} (there {i = i} t) d = ground (
  arith,
  Takes-IsDistinct t d.1,
  Takes-contains t i.player_id,
  ==_iff i.player_id j.player_id,
  ==_iff j.player_id i.player_id,
)

pub Takes-All {ℓ} :
    (P : String → Type ℓ) {js rest : List JoinerEntry} {j : JoinerEntry}
    → Takes js j rest
    → All P (ids js)
    → P j.player_id × All P (ids rest)
Takes-All P here h = h
Takes-All P (there t) h = ((Takes-All P t h.1).0, (h.0, (Takes-All P t h.1).1))

pub remove_joiner-Takes :
    (js : List JoinerEntry) (p : String) {rest : List JoinerEntry}
    → remove_joiner js p ≡ some rest
    → (j : JoinerEntry) × (j.player_id ≡ p) × Takes js j rest
unfolding remove_joiner
remove_joiner-Takes [] p e = cc
remove_joiner-Takes (j ∷ js) p {rest} e = elim (Bool-cases (j.player_id == p)) [
  | inl hit ↦ (j, (==_iff j.player_id p).0 hit, subst (λ r. Takes (j ∷ js) j r) (ground arith) here)
  | inr miss ↦ elim (Option-cases (remove_joiner js p)) [
    | inl gone ↦ absurd (ground (arith, miss, gone))
    | inr (r, left) ↦
        let (i, same, t) = remove_joiner-Takes js p left in
        (i, same, subst (λ r. Takes (j ∷ js) i r) (ground arith) (there t))
  ]
]

pub pick_connected-Takes :
    (connected : List String) (js : List JoinerEntry) {j : JoinerEntry} {rest : List JoinerEntry}
    → pick_connected connected js ≡ some (j, rest)
    → (contains connected j.player_id ≡ true) × Takes js j rest
unfolding pick_connected
pick_connected-Takes connected [] e = cc
pick_connected-Takes connected (i ∷ js) {j} {rest} e =
    elim (Bool-cases (contains connected i.player_id)) [
      | inl hit ↦
          let same : ◌≡◌ {A = JoinerEntry × List JoinerEntry} (i, js) (j, rest) = ground arith in
          subst (λ x. (contains connected x.0.player_id ≡ true) × Takes (i ∷ js) x.0 x.1) same
            (hit, here)
      | inr miss ↦ elim (Option-cases (pick_connected connected js)) [
        | inl gone ↦ absurd (ground (arith, miss, gone))
        | inr ((k, r), left) ↦
            let (on, t) = pick_connected-Takes connected js left in
            let same : ◌≡◌ {A = JoinerEntry × List JoinerEntry} (k, i ∷ r) (j, rest) =
              ground arith in
            subst (λ x. (contains connected x.0.player_id ≡ true) × Takes (i ∷ js) x.0 x.1) same
              (on, there t)
      ]
    ]

-- With two connected joiners one is picked, and another is left.
pub connected_count-pick :
    (connected : List String) (js : List JoinerEntry)
    → pick_connected connected js ≡ none
    → connected_count connected js ≡ 0
unfolding connected_count pick_connected
connected_count-pick connected [] e = refl
connected_count-pick connected (j ∷ js) e = ground (arith, connected_count-pick connected js)

pub connected_count-le :
    (connected : List String) (js : List JoinerEntry) → connected_count connected js ≤ length js
unfolding connected_count
connected_count-le connected [] = omega arith
connected_count-le connected (j ∷ js) = ground (arith, connected_count-le connected js)

-- The members after one joiner is gone, after it has become the host, and after the old host has
-- taken the last place too.
module _ {js rest : List JoinerEntry} {j : JoinerEntry} (t : Takes js j rest) (host : String) where
  pub IsDistinct-dropped : IsDistinct (host ∷ ids js) → IsDistinct (host ∷ ids rest)
  IsDistinct-dropped d = ground (arith, Takes-contains t host, Takes-IsDistinct t d.1)

  pub IsDistinct-promoted : IsDistinct (host ∷ ids js) → IsDistinct (j.player_id ∷ ids rest)
  IsDistinct-promoted d = Takes-IsDistinct t d.1

  pub IsDistinct-demoted :
      (now : ℕ)
      → IsDistinct (host ∷ ids js)
      → IsDistinct (j.player_id ∷ ids (rest ++ entry host now ∷ []))
  IsDistinct-demoted now d =
      subst (λ x. IsDistinct (j.player_id ∷ x)) (sym (ids-snoc rest host now))
        (IsDistinct-snoc (j.player_id ∷ ids rest) host (Takes-IsDistinct t d.1)
          (ground (arith, Takes-contains t host)))

  pub All-demoted {ℓ} :
      (P : String → Type ℓ) (now : ℕ)
      → All P (host ∷ ids js)
      → All P (j.player_id ∷ ids (rest ++ entry host now ∷ []))
  All-demoted P now h =
      subst (λ x. All P (j.player_id ∷ x)) (sym (ids-snoc rest host now))
        (All-append P (j.player_id ∷ ids rest) (host ∷ []) (Takes-All P t h.1) (h.0, tt))
