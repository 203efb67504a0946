-- ===== src/Session/Store.antt =====
-- The `session:{code}` keys of Redis. A value is the JSON text of a session; what matters of the
-- text is whether an empty roster was written as an array, since lua-cjson writes `{}` and the
-- server's `Vec<JoinerEntry>` refuses that. The time to live is what the last write set.
use briska_blast.Common.{
  ℕ, String, Bool, true, Option, none, some, not, is_empty, if◌then◌else◌, List, [], string_eq,
}
use briska_blast.Common.Dict
use briska_blast.Common.Dict.{Dict}
use briska_blast.Session.Data.{Session}

pub record Raw : Type 0 where
  pub session : Session
  pub joiners_array : Bool
  pub seat_order_array : Bool
  pub ttl_secs : ℕ

abbrev pub Store : Type 0
Store = Dict String Raw

-- `cjson.encode`: an empty table is written as an object.
abbrev pub cjson_encode : Session → ℕ → Raw
cjson_encode s ttl = record {
  session = s;
  joiners_array = not (is_empty s.joiners);
  seat_order_array = not (is_empty s.seat_order);
  ttl_secs = ttl;
}

-- `string.gsub(encoded, '"joiners":{}', '"joiners":[]')`, where the script's test allows it.
abbrev pub mend_joiners : Raw → Raw
mend_joiners r = if is_empty r.session.joiners then record r { joiners_array = true } else r

-- `serde_json::to_string`.
abbrev pub serde_encode : Session → ℕ → Raw
serde_encode s ttl = record {
  session = s;
  joiners_array = true;
  seat_order_array = true;
  ttl_secs = ttl;
}

-- `deserialize_seat_order`: whatever is no array reads as an empty roster.
abbrev pub deserialize_seat_order : Raw → List String
deserialize_seat_order r = if r.seat_order_array then r.session.seat_order else []

-- `serde_json::from_str::<Session>`: `joiners` must be an array.
unfoldable pub decode : Raw → Option Session
decode r =
    if r.joiners_array
    then some (record (r.session) { seat_order = deserialize_seat_order r })
    else none

-- What a script does to its one key.
pub data Effect : Type 0 where
  keep : Effect
  set : Raw → Effect
  del : Effect

unfoldable pub apply : Effect → String → Store → Store
apply keep key store = store
apply (set raw) key store = Dict.insert store key raw
apply del key store = Dict.remove store key

-- A script on KEYS[1]: Redis runs it as one step. It reads the session, answers `missing` if there
-- is none, and otherwise answers and writes as its body says.
unfoldable pub run_script {ℓ} :
    {O : Type ℓ} → O → (Session → O × Effect) → String → Store → O × Store
unfolding apply
run_script missing body key store = elim (Dict.get store key) [
  | none ↦ (missing, store)
  | some raw ↦ let (outcome, effect) = body raw.session in (outcome, apply effect key store)
]
