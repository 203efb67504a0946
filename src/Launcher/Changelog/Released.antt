-- ===== src/Launcher/Changelog/Released.antt =====
-- What a changelog is read as: launcher/src/changelog/parse.rs.
use briska_blast.Common.{
  ℕ, suc, Bool, true, false, ◌≡◌, refl, ap, ◌∙◌, Option, none, some, List, [], ◌∷◌, All, Bool-cases,
  Option-cases, inl, inr, ◌⊎◌, ◌++◌, ◌==◌, nat_eq, contains, arith,
}
use briska_blast.Chat.Bans.{trim}
use briska_blast.Launcher.Changelog.{
  strip_heading, split_bracket, date_of, Entry, Section, lines, parse_heading, push_entry,
  push_body, collect, insert_entry, sort_entries, parse,
}

-- The first two parts of a heading line.
split_bracket_of :
    (vt after : List ℕ)
    → contains vt 93 ≡ false
    → split_bracket (vt ++ 93 ∷ after) ≡ some (vt, after)
unfolding split_bracket
split_bracket_of [] after h = refl
split_bracket_of (c ∷ vt) after h = ground (arith, h, split_bracket_of vt after (ground (arith, h)))

split_bracket-some :
    (rest vt after : List ℕ)
    → split_bracket rest ≡ some (vt, after)
    → (rest ≡ vt ++ 93 ∷ after) × (contains vt 93 ≡ false)
unfolding split_bracket
split_bracket-some [] vt after h = cc
split_bracket-some (c ∷ cs) vt after h = elim (Bool-cases (c == 93)) [
  | inl here ↦
      let e : ([] ≡ vt) × (cs ≡ after) = ground (arith, here, h) in
      (ground (arith, here, e.0, e.1), ground (arith, e.0))
  | inr further ↦ elim (Option-cases (split_bracket cs)) [
    | inl missing ↦ absurd (ground (arith, further, missing, h))
    | inr ((a, b), found) ↦
        let e : (c ∷ a ≡ vt) × (b ≡ after) = ground (arith, further, found, h) in
        let (rest, clear) = split_bracket-some cs a b found in
        (ground (arith, rest, e.0, e.1), ground (arith, further, clear, e.0))
  ]
]

strip_heading-some :
    (line rest : List ℕ) → strip_heading line ≡ some rest → line ≡ 35 ∷ 35 ∷ 32 ∷ 91 ∷ rest
unfolding strip_heading
strip_heading-some [] rest h = cc
strip_heading-some (a ∷ []) rest h = cc
strip_heading-some (a ∷ b ∷ []) rest h = cc
strip_heading-some (a ∷ b ∷ c ∷ []) rest h = cc
strip_heading-some (a ∷ b ∷ c ∷ d ∷ l) rest h = ground (arith, h)

module _ {V : Type 0} (parse_version : List ℕ → Option V) where
  -- `## [`, a version up to the first `]`, and anything after that.
  abbrev pub IsHeading : List ℕ → V → Type 0
  IsHeading line v =
      (vt : List ℕ) × (after : List ℕ) × (line ≡ 35 ∷ 35 ∷ 32 ∷ 91 ∷ (vt ++ 93 ∷ after))
      × (contains vt 93 ≡ false)
      × (parse_version (trim vt) ≡ some v)

  -- The versions of the headings among the lines, in their order.
  pub data Reads : List (List ℕ) → List V → Type 0 where
    at_end : Reads [] []
    heading :
        (line : List ℕ) (ls : List (List ℕ)) (v : V) (vs : List V)
        → IsHeading line v
        → Reads ls vs
        → Reads (line ∷ ls) (v ∷ vs)
    plain :
        (line : List ℕ) (ls : List (List ℕ)) (vs : List V)
        → ((v : V) → ¬ IsHeading line v)
        → Reads ls vs
        → Reads (line ∷ ls) vs

module _ {V : Type 0} (parse_version : List ℕ → Option V) (le : V → V → Bool) where
  -- Each entry is at least as new as every later one.
  abbrev pub IsNewestFirst : List (Entry V) → Type 0
  IsNewestFirst [] = Unit
  IsNewestFirst (e ∷ l) = All (λ f. le f.version e.version ≡ true) l × IsNewestFirst l

  abbrev tally : Bool → ℕ → ℕ
  tally true n = suc n
  tally false n = n

  -- How many entries, and how many of some versions, have such a version.
  abbrev pub entries_with : (V → Bool) → List (Entry V) → ℕ
  entries_with q [] = 0
  entries_with q (e ∷ l) = tally (q e.version) (entries_with q l)

  abbrev pub count : (V → Bool) → List V → ℕ
  count q [] = 0
  count q (v ∷ vs) = tally (q v) (count q vs)

  unfoldable released : List (List ℕ) → List V
  unfolding parse_heading
  released [] = []
  released (line ∷ ls) = elim (parse_heading parse_version le line) [
    | none ↦ released ls
    | some (v, date) ↦ v ∷ released ls
  ]

  parse_heading-IsHeading :
      (line date : List ℕ) (v : V)
      → parse_heading parse_version le line ≡ some (v, date)
      → IsHeading parse_version line v
  unfolding parse_heading
  parse_heading-IsHeading line date v h = elim (Option-cases (strip_heading line)) [
    | inl other ↦ absurd (ground (arith, other, h))
    | inr (rest, stripped) ↦ elim (Option-cases (split_bracket rest)) [
      | inl unclosed ↦ absurd (ground (arith, stripped, unclosed, h))
      | inr ((vt, after), split) ↦
          let (e, clear) = split_bracket-some rest vt after split in
          elim (Option-cases (parse_version (trim vt))) [
            | inl unread ↦ absurd (ground (arith, stripped, split, unread, h))
            | inr (u, read) ↦
                let same : u ≡ v = ground (arith, stripped, split, read, h) in
                (vt, after, strip_heading-some line rest stripped ∙ ap front e, clear, cc)
          ]
    ]
  ]
    where
      front : List ℕ → List ℕ
      front l = 35 ∷ 35 ∷ 32 ∷ 91 ∷ l

  heading-parse_heading :
      (line : List ℕ) (v : V)
      → IsHeading parse_version line v
      → ¬ (parse_heading parse_version le line ≡ none)
  unfolding parse_heading strip_heading
  heading-parse_heading line v (vt, after, e, clear, read) none_read =
      let found : parse_heading parse_version le line ≡ some (v, date_of after) =
        rw (e, parse_heading)
          (rw (split_bracket_of vt after clear, parse_heading) (rw (read, parse_heading) refl)) in
      cc (found, none_read)

  released-Reads : (ls : List (List ℕ)) → Reads parse_version ls (released ls)
  unfolding released
  released-Reads [] = at_end
  released-Reads (line ∷ ls) = elim (Option-cases (parse_heading parse_version le line)) [
    | inl none_read ↦
        rw (none_read, released)
          (plain line ls (released ls) (λ v is. heading-parse_heading line v is none_read)
            (released-Reads ls))
    | inr ((v, date), e) ↦
        rw (e, released)
          (heading line ls v (released ls) (parse_heading-IsHeading line date v e)
            (released-Reads ls))
  ]

  abbrev open_with : (V → Bool) → Option (Section V) → ℕ → ℕ
  open_with q none n = n
  open_with q (some s) n = tally (q s.heading.0) n

  push_entry-count :
      (q : V → Bool) (current : Option (Section V)) (l : List (Entry V))
      → entries_with q (push_entry parse_version le current l)
        ≡ open_with q current (entries_with q l)
  unfolding push_entry
  push_entry-count q none l = refl
  push_entry-count q (some s) l = refl

  push_body-count :
      (q : V → Bool) (line : List ℕ) (current : Option (Section V)) (n : ℕ)
      → open_with q (push_body parse_version le line current) n ≡ open_with q current n
  unfolding push_body
  push_body-count q line none n = refl
  push_body-count q line (some s) n = refl

  collect-count :
      (q : V → Bool) (ls : List (List ℕ)) (current : Option (Section V))
      → entries_with q (collect parse_version le ls current)
        ≡ open_with q current (count q (released ls))
  unfolding collect released
  collect-count q [] current = push_entry-count q current []
  collect-count q (line ∷ ls) current = elim (Option-cases (parse_heading parse_version le line)) [
    | inl none_read ↦
        rw (none_read, collect, released)
          (collect-count q ls (push_body parse_version le line current)
            ∙ push_body-count q line current (count q (released ls)))
    | inr (h, e) ↦
        let opened : Section V = record { heading = h; lines_so_far = [] } in
        rw (e, collect, released)
          (push_entry-count q current (collect parse_version le ls (some opened))
            ∙ ap (open_with q current) (collect-count q ls (some opened)))
  ]

  tally-swap : (a b : Bool) (n : ℕ) → tally a (tally b n) ≡ tally b (tally a n)
  tally-swap true true n = refl
  tally-swap true false n = refl
  tally-swap false true n = refl
  tally-swap false false n = refl

  insert-count :
      (q : V → Bool) (e : Entry V) (l : List (Entry V))
      → entries_with q (insert_entry parse_version le e l) ≡ tally (q e.version) (entries_with q l)
  unfolding insert_entry
  insert-count q e [] = refl
  insert-count q e (f ∷ l) = elim (Bool-cases (le f.version e.version)) [
    | inl first ↦ rw (first, insert_entry)
    | inr later ↦
        rw (later, insert_entry)
          (ap (tally (q f.version)) (insert-count q e l)
            ∙ tally-swap (q f.version) (q e.version) (entries_with q l))
  ]

  sort-count :
      (q : V → Bool) (l : List (Entry V))
      → entries_with q (sort_entries parse_version le l) ≡ entries_with q l
  unfolding sort_entries
  sort-count q [] = refl
  sort-count q (e ∷ l) =
      insert-count q e (sort_entries parse_version le l) ∙ ap (tally (q e.version)) (sort-count q l)

module _ {V : Type 0} (parse_version : List ℕ → Option V) (le : V → V → Bool)
    (total : (a b : V) → (le a b ≡ true) ⊎ (le b a ≡ true))
    (trans : (a b c : V) → le a b ≡ true → le b c ≡ true → le a c ≡ true) where
  older-All :
      (a b : V) (l : List (Entry V))
      → le a b ≡ true
      → All (λ f. le f.version a ≡ true) l
      → All (λ f. le f.version b ≡ true) l
  older-All a b [] h all = tt
  older-All a b (f ∷ l) h all = (trans f.version a b all.0 h, older-All a b l h all.1)

  insert-All :
      (a : V) (e : Entry V) (l : List (Entry V))
      → le e.version a ≡ true
      → All (λ f. le f.version a ≡ true) l
      → All (λ f. le f.version a ≡ true) (insert_entry parse_version le e l)
  unfolding insert_entry
  insert-All a e [] h all = (h, tt)
  insert-All a e (f ∷ l) h all = elim (Bool-cases (le f.version e.version)) [
    | inl first ↦ rw (first, insert_entry) (h, all)
    | inr later ↦ rw (later, insert_entry) (all.0, insert-All a e l h all.1)
  ]

  insert-IsNewestFirst :
      (e : Entry V) (l : List (Entry V))
      → IsNewestFirst parse_version le l
      → IsNewestFirst parse_version le (insert_entry parse_version le e l)
  unfolding insert_entry
  insert-IsNewestFirst e [] o = (tt, tt)
  insert-IsNewestFirst e (f ∷ l) o = elim (Bool-cases (le f.version e.version)) [
    | inl first ↦ rw (first, insert_entry) ((first, older-All f.version e.version l first o.0), o)
    | inr later ↦ elim (total f.version e.version) [
      | inl le_fe ↦ absurd (cc (later, le_fe))
      | inr le_ef ↦
          rw (later, insert_entry)
            (insert-All f.version e l le_ef o.0, insert-IsNewestFirst e l o.1)
    ]
  ]

  sort-IsNewestFirst :
      (l : List (Entry V)) → IsNewestFirst parse_version le (sort_entries parse_version le l)
  unfolding sort_entries
  sort-IsNewestFirst [] = tt
  sort-IsNewestFirst (e ∷ l) =
      insert-IsNewestFirst e (sort_entries parse_version le l) (sort-IsNewestFirst l)

-- If the order of versions is total and transitive, the entries read from any text come newest
-- first, and for every set of versions there are as many entries with a version in it as there
-- are lines that consist of `## [`, the text of such a version without a `]`, a `]`, and
-- anything.
pub parse-IsNewestFirst :
    {V : Type 0} (parse_version : List ℕ → Option V) (le : V → V → Bool)
    → ((a b : V) → (le a b ≡ true) ⊎ (le b a ≡ true))
    → ((a b c : V) → le a b ≡ true → le b c ≡ true → le a c ≡ true)
    → (markdown : List ℕ)
    → IsNewestFirst parse_version le (parse parse_version le markdown)
      × (vs : List V) × Reads parse_version (lines markdown) vs
      × ((q : V → Bool)
          → entries_with parse_version le q (parse parse_version le markdown)
            ≡ count parse_version le q vs)
unfolding parse
parse-IsNewestFirst parse_version le total trans markdown =
    let found = collect parse_version le (lines markdown) none in
    (
      sort-IsNewestFirst parse_version le total trans found,
      released parse_version le (lines markdown),
      released-Reads parse_version le (lines markdown),
      λ q.
          sort-count parse_version le q found
          ∙ collect-count parse_version le q (lines markdown) none,
    )
