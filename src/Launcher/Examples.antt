-- ===== src/Launcher/Examples.antt =====
-- Concrete cases.
use briska_blast.Common.{
  ℕ, Bool, true, ◌⊎◌, inl, inr, Bool-cases, leb, ◌≡◌, refl, none, some, pos, [], ◌∷◌, arith, List,
}
use briska_blast.Chat.Bans.{parse_u64, parse_digits}
use briska_blast.Chat.Capture.{codes}
use briska_blast.Launcher.Changelog.{
  parse, lines, collect, parse_heading, strip_heading, split_bracket, date_of, push_entry,
  push_body, clean_body, is_rule, sort_entries, insert_entry,
}
use briska_blast.Launcher.Changelog.Released.{
  IsNewestFirst, Reads, entries_with, count, parse-IsNewestFirst,
}
use briska_blast.Launcher.RateLimit.{RateLimitState, Response, noted, gate, note_all, gate-note_all}

abbrev blocked_state : RateLimitState
blocked_state = record {
  reset = some (pos 900);
  remaining = some 0;
  blocked_until = some (pos 1020);
}

abbrev late_answers : List Response
late_answers =
    record { remaining = some 40; reset = some (pos 9000); now = pos 300 }
    ∷ record { remaining = none; reset = none; now = pos 301 }
    ∷ []

-- A response that read no block, and writes after the block is armed.
abbrev overtaken : Response
overtaken = record { remaining = some 40; reset = some (pos 9000); now = pos 299 }

gate-note_all_example :
    (gate (note_all late_answers none) (pos 400) ≡ gate none (pos 400))
    × (gate (noted overtaken (note_all late_answers none) (some blocked_state)) (pos 400)
        ≡ gate none (pos 400))
gate-note_all_example =
    gate-note_all late_answers overtaken none (some blocked_state) (pos 400)
      ((refl, omega arith), ((refl, omega arith), ((refl, omega arith), tt)))

-- A version is a number.
abbrev markdown : List ℕ
markdown = codes "About\n## [1] - today\n\nfirst\n\n---\n\n## [Unreleased]\n## [2]\nsecond\n"

-- The newer entry goes first; the rule that ends an entry is dropped, and a section of no version
-- belongs to the one before it.
newest_first :
    parse parse_u64 leb markdown
    ≡ record { version = 2; date = []; body = codes "second" }
      ∷ record { version = 1; date = codes "today"; body = codes "first\n\n---\n\n## [Unreleased]" }
      ∷ []
unfolding parse lines collect parse_heading strip_heading split_bracket date_of push_entry push_body
    clean_body is_rule sort_entries insert_entry parse_u64 parse_digits
newest_first = refl

leb_total : (a b : ℕ) → (leb a b ≡ true) ⊎ (leb b a ≡ true)
leb_total a b = elim (Bool-cases (leb a b)) [
  | inl below ↦ inl below
  | inr above ↦ inr (ground (arith, above))
]

leb_trans : (a b c : ℕ) → leb a b ≡ true → leb b c ≡ true → leb a c ≡ true
leb_trans a b c h k = ground (arith, h, k)

parse-IsNewestFirst_example :
    IsNewestFirst parse_u64 leb (parse parse_u64 leb markdown)
    × (vs : List ℕ) × Reads parse_u64 (lines markdown) vs
    × ((q : ℕ → Bool)
        → entries_with parse_u64 leb q (parse parse_u64 leb markdown) ≡ count parse_u64 leb q vs)
parse-IsNewestFirst_example = parse-IsNewestFirst parse_u64 leb leb_total leb_trans markdown
