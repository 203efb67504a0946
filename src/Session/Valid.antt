-- ===== src/Session/Valid.antt =====
-- Well-formed sessions and stores, and the rule by which a script keeps them.
use briska_blast.Common.{
  ◌+◌, ◌≤◌, String, Bool, true, false, ◌≡◌, refl, subst, Option, none, some, [], length, arith,
  ◌==◌, ==_iff, string_eq, contains, All, IsDistinct, Bool-cases, Option-cases, inl, inr,
  if◌then◌else◌,
}
use briska_blast.Common.Dict
use briska_blast.Settings.Mode.{bounds_for}
use briska_blast.Settings.Win
use briska_blast.Settings.Spawn
use briska_blast.Settings.Loot
use briska_blast.Session.Data.{Session, members, is_waiting}
use briska_blast.Session.Store.{Store, Raw, Effect, keep, set, del, apply, run_script, decode}

-- What the host's request was checked for.
abbrev pub HasSettings : Session → Type 0
HasSettings s =
    ((bounds_for s.gamemode).0 ≤ s.player_count)
    × (s.player_count ≤ (bounds_for s.gamemode).1)
    × Win.IsInRange s.win_condition
    × Spawn.IsInRange s.spawn_settings
    × Loot.IsInRange s.loot_settings

pub record IsValid (s : Session) : Type 0 where
  pub distinct : IsDistinct (members s)
  pub capacity : 1 + length s.joiners ≤ s.player_count
  -- The seats are empty in the lobby. From the start on every member has one.
  pub lobby_seats : is_waiting s.status ≡ true → s.seat_order ≡ []
  pub match_seats :
      is_waiting s.status ≡ false → All (λ p. contains s.seat_order p ≡ true) (members s)
  pub settings : HasSettings s

-- A stored text: readable by the server, under its own code, and well formed.
pub record IsStored (key : String) (raw : Raw) : Type 0 where
  pub readable : decode raw ≡ some raw.session
  pub named : raw.session.code ≡ key
  pub valid : IsValid raw.session

pub record IsSound (store : Store) : Type 0 where
  pub at_key : (key : String) (raw : Raw) → Dict.get store key ≡ some raw → IsStored key raw

-- What is true of every text that an effect writes.
abbrev pub Sets : (Raw → Type 0) → Effect → Type 0
Sets P keep = Unit
Sets P (set raw) = P raw
Sets P del = Unit

-- The rules for a body: a refusal writes nothing, so the rest is read with its test failed.
module _ {ℓ} {O : Type ℓ} (P : Raw → Type 0) where
  pub Sets-guard :
      (refused : Bool) (o : O) (rest : O × Effect)
      → (refused ≡ false → Sets P rest.1)
      → Sets P (if refused then (o, keep) else rest).1
  Sets-guard true o rest h = tt
  Sets-guard false o rest h = h refl

  pub Sets-choice :
      (b : Bool) (x y : O × Effect)
      → (b ≡ true → Sets P x.1)
      → (b ≡ false → Sets P y.1)
      → Sets P (if b then x else y).1
  Sets-choice true x y h k = h refl
  Sets-choice false x y h k = k refl

  pub Sets-option {κ} :
      {A : Type κ} (m : Option A) (x : O × Effect) (f : A → O × Effect)
      → Sets P x.1
      → ((a : A) → m ≡ some a → Sets P (f a).1)
      → Sets P (elim m as (λ _. O × Effect) [ none ↦ x | some a ↦ f a ]).1
  Sets-option none x f h k = h
  Sets-option (some a) x f h k = k a refl

abbrev pub Writes : String → Effect → Type 0
Writes key = Sets (IsStored key)

pub apply-IsSound :
    (e : Effect) (key : String) (store : Store)
    → Writes key e
    → IsSound store
    → IsSound (apply e key store)
unfolding apply
apply-IsSound keep key store w h = h
apply-IsSound (set raw) key store w h = record {
  at_key = λ k r e. elim (Bool-cases (key == k)) [
    | inl same ↦
        subst (IsStored k) (ground (arith, Dict.get-insert store key raw k, same))
          (subst (λ x. IsStored x raw) ((==_iff key k).0 same) w)
    | inr other ↦ h.at_key k r (ground (arith, Dict.get-insert store key raw k, other))
  ];
}
apply-IsSound del key store w h = record {
  at_key = λ k r e. h.at_key k r (ground (arith, Dict.get-remove store key k));
}

-- A script whose body writes only what is well stored keeps the store sound.
pub run_script-IsSound {ℓ} :
    {O : Type ℓ} (missing : O) (body : Session → O × Effect) (key : String) (store : Store)
    → ((s : Session) → s.code ≡ key → IsValid s → Writes key (body s).1)
    → IsSound store
    → IsSound (run_script missing body key store).1
unfolding run_script
run_script-IsSound missing body key store writes h = elim (Option-cases (Dict.get store key)) [
  | inl gone ↦ rw (gone, run_script) h
  | inr (raw, e) ↦
      let good = h.at_key key raw e in
      rw (e, run_script)
        (apply-IsSound (body raw.session).1 key store (writes raw.session good.named good.valid) h)
]
