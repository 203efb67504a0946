-- ===== src/Chat/Blacklist/Words.antt =====
-- The stored words of server/src/chat/blacklist.rs, and the cache of the active ones. `now` is a
-- reading of the monotonic clock, in seconds.
use briska_blast.Common.{
  ℕ, ◌-◌, String, Bool, true, false, not, ◌&&◌, ◌||◌, Option, none, some, List, [], ◌∷◌, ◌++◌,
  nat_eq, ltb, is_empty, map, contains, if◌then◌else◌, ℤ,
}
use briska_blast.Common.Dict
use briska_blast.Common.Dict.{Dict}
use briska_blast.Chat.Ids.{text_eq}
use briska_blast.Chat.Bans.{trim}
use briska_blast.Chat.Transcript.{Text}
use briska_blast.Chat.Blacklist.{to_ascii_lowercase}

pub record BlacklistEntry : Type 0 where
  pub word : Text
  pub reason : String
  pub active : Bool
  pub added_by : String
  pub added_at_ms : ℤ

abbrev pub Blacklist : Type 0
Blacklist = Dict Text (Option BlacklistEntry)

unfoldable pub normalize : Text → Text
normalize word = map to_ascii_lowercase (trim word)

pub record AddOutcome : Type 0 where
  pub added : List Text
  pub duplicates : List Text

unfoldable pub add_key :
    BlacklistEntry → Text → Text → AddOutcome × Blacklist → AddOutcome × Blacklist
add_key entry raw key (out, words) =
    if contains out.added key || contains out.duplicates key
    then (out, words)
    else if Dict.contains_key words key
    then (record out { duplicates = out.duplicates ++ key ∷ [] }, words)
    else (
      record out { added = out.added ++ key ∷ [] },
      Dict.insert words key (some (record entry { word = trim raw; active = true })),
    )

unfoldable pub add_one : BlacklistEntry → Text → AddOutcome × Blacklist → AddOutcome × Blacklist
unfolding normalize add_key
add_one entry raw state =
    if is_empty (normalize raw) then state else add_key entry raw (normalize raw) state

unfoldable pub add_loop :
    BlacklistEntry → List Text → AddOutcome × Blacklist → AddOutcome × Blacklist
unfolding add_one
add_loop entry [] state = state
add_loop entry (raw ∷ raws) state = add_loop entry raws (add_one entry raw state)

-- `entry` carries the reason, the author and the time.
unfoldable pub add : List Text → BlacklistEntry → Blacklist → AddOutcome × Blacklist
unfolding add_loop
add raws entry words = add_loop entry raws (record { added = []; duplicates = [] }, words)

unfoldable pub remove_one : Text → List Text × Blacklist → List Text × Blacklist
unfolding normalize
remove_one raw (removed, words) =
    if is_empty (normalize raw)
    then (removed, words)
    else if Dict.contains_key words (normalize raw)
    then (removed ++ normalize raw ∷ [], Dict.remove words (normalize raw))
    else (removed, words)

unfoldable pub remove_loop : List Text → List Text × Blacklist → List Text × Blacklist
unfolding remove_one
remove_loop [] state = state
remove_loop (raw ∷ raws) state = remove_loop raws (remove_one raw state)

unfoldable pub remove : List Text → Blacklist → List Text × Blacklist
unfolding remove_loop
remove raws words = remove_loop raws ([], words)

unfoldable pub set_active : Text → Bool → Blacklist → Bool × Blacklist
unfolding normalize
set_active word active words = elim (Dict.get words (normalize word)) [
  | none ↦ (false, words)
  | some none ↦ (false, words)
  | some (some entry) ↦
      (true, Dict.insert words (normalize word) (some (record entry { active = active })))
]

pub record BlacklistCache : Type 0 where
  pub words : List Text
  pub loaded_at : Option ℕ

abbrev pub cache_ttl_secs : ℕ
cache_ttl_secs = 30

unfoldable pub is_fresh : ℕ → BlacklistCache → Bool
is_fresh now cache = elim cache.loaded_at [ none ↦ false | some t ↦ ltb (now - t) cache_ttl_secs ]

-- The words of the entries that are active.
unfoldable pub usable : List BlacklistEntry → List Text
unfolding normalize
usable [] = []
usable (e ∷ l) =
    let rest = usable l in
    if e.active && not (is_empty (normalize e.word)) then normalize e.word ∷ rest else rest

-- `loaded` is what `load` reads, none if Redis fails.
unfoldable pub active_words :
    ℕ → Option (List BlacklistEntry) → BlacklistCache → List Text × BlacklistCache
unfolding is_fresh usable
active_words now loaded cache = if is_fresh now cache then (cache.words, cache) else elim loaded [
  | none ↦ (cache.words, cache)
  | some entries ↦ (usable entries, record { words = usable entries; loaded_at = some now })
]

unfoldable pub invalidate : BlacklistCache → BlacklistCache
invalidate cache = record cache { loaded_at = none }
