-- ===== src/Launcher/Changelog.antt =====
-- The reading of a changelog: launcher/src/changelog/parse.rs. A text is the list of its characters.
-- The crate `semver`, which reads a version and orders versions, is given: `le a b` is `a <= b`.
pub mod Released
use briska_blast.Common.{
  ℕ, Bool, true, false, ◌&&◌, ◌||◌, Option, none, some, List, [], ◌∷◌, ◌++◌, ◌==◌, nat_eq, leb,
  length, is_empty, if◌then◌else◌,
}
use briska_blast.Chat.Bans.{trim, trim_start}

abbrev Text : Type 0
Text = List ℕ

abbrev starts_with_lf : Text → Bool
starts_with_lf [] = false
starts_with_lf (c ∷ cs) = c == 10

abbrev to_first_line : ℕ → List Text → List Text
to_first_line c [] = (c ∷ []) ∷ []
to_first_line c (l ∷ ls) = (c ∷ l) ∷ ls

-- `str::lines`, which takes a carriage return before a line feed away.
unfoldable pub lines : Text → List Text
lines [] = []
lines (c ∷ cs) =
    let rest = lines cs in
    if c == 10
    then [] ∷ rest
    else if c == 13 && starts_with_lf cs
    then rest
    else to_first_line c rest

-- `strip_prefix("## [")`.
unfoldable pub strip_heading : Text → Option Text
strip_heading [] = none
strip_heading (a ∷ []) = none
strip_heading (a ∷ b ∷ []) = none
strip_heading (a ∷ b ∷ c ∷ []) = none
strip_heading (a ∷ b ∷ c ∷ d ∷ rest) =
    if a == 35 && (b == 35 && (c == 32 && d == 91)) then some rest else none

-- `split_once(']')`.
unfoldable pub split_bracket : Text → Option (Text × Text)
split_bracket [] = none
split_bracket (c ∷ cs) =
    let rest = split_bracket cs in
    if c == 93 then some ([], cs) else elim rest [ none ↦ none | some (a, b) ↦ some (c ∷ a, b) ]

-- An em dash, an en dash or a hyphen.
abbrev is_dash : ℕ → Bool
is_dash c = c == 8212 || (c == 8211 || c == 45)

abbrev trim_dashes : Text → Text
trim_dashes [] = []
trim_dashes (c ∷ cs) = let rest = trim_dashes cs in if is_dash c then rest else c ∷ cs

unfoldable pub date_of : Text → Text
date_of after = trim (trim_dashes (trim_start after))

abbrev all_hyphens : Text → Bool
all_hyphens [] = true
all_hyphens (c ∷ cs) = c == 45 && all_hyphens cs

-- A hyphen is one byte.
unfoldable pub is_rule : Text → Bool
is_rule line = leb 3 (length (trim line)) && all_hyphens (trim line)

abbrev is_blank : Text → Bool
is_blank line = is_empty (trim line)

abbrev trim_blank_start : List Text → List Text
trim_blank_start [] = []
trim_blank_start (l ∷ ls) = let rest = trim_blank_start ls in if is_blank l then rest else l ∷ ls

abbrev trim_blank_end : List Text → List Text
trim_blank_end [] = []
trim_blank_end (l ∷ ls) =
    let rest = trim_blank_end ls in if is_empty rest && is_blank l then [] else l ∷ rest

abbrev pub drop_rule : List Text → List Text
unfolding is_rule
drop_rule [] = []
drop_rule (l ∷ []) = if is_rule l then [] else l ∷ []
drop_rule (l ∷ m ∷ ls) = l ∷ drop_rule (m ∷ ls)

-- `join("\n")`.
abbrev join_lines : List Text → Text
join_lines [] = []
join_lines (l ∷ []) = l
join_lines (l ∷ m ∷ ls) = l ++ 10 ∷ join_lines (m ∷ ls)

-- If no rule is dropped, the lines end in one that is not blank already.
unfoldable pub clean_body : List Text → Text
clean_body body = join_lines (trim_blank_end (drop_rule (trim_blank_end (trim_blank_start body))))

pub record Entry (V : Type 0) : Type 0 where
  pub version : V
  pub date : Text
  pub body : Text

-- The section that is being read.
pub record Section (V : Type 0) : Type 0 where
  pub heading : V × Text
  pub lines_so_far : List Text

module _ {V : Type 0} (parse_version : Text → Option V) (le : V → V → Bool) where
  unfoldable pub parse_heading : Text → Option (V × Text)
  unfolding strip_heading split_bracket date_of
  parse_heading line = elim (strip_heading line) [
    | none ↦ none
    | some rest ↦ elim (split_bracket rest) [
      | none ↦ none
      | some (version_text, after) ↦ elim (parse_version (trim version_text)) [
        | none ↦ none
        | some version ↦ some (version, date_of after)
      ]
    ]
  ]

  unfoldable pub push_entry : Option (Section V) → List (Entry V) → List (Entry V)
  unfolding clean_body
  push_entry none entries = entries
  push_entry (some s) entries =
      record { version = s.heading.0; date = s.heading.1; body = clean_body s.lines_so_far }
      ∷ entries

  unfoldable pub push_body : Text → Option (Section V) → Option (Section V)
  push_body line none = none
  push_body line (some s) = some (record s { lines_so_far = s.lines_so_far ++ line ∷ [] })

  -- The loop over the lines, and the section that is open at the end.
  unfoldable pub collect : List Text → Option (Section V) → List (Entry V)
  unfolding parse_heading push_entry push_body
  collect [] current = push_entry current []
  collect (line ∷ ls) current = elim (parse_heading line) [
    | none ↦ collect ls (push_body line current)
    | some h ↦ push_entry current (collect ls (some (record { heading = h; lines_so_far = [] })))
  ]

  -- `sort_by`, which is stable: newest first.
  unfoldable pub insert_entry : Entry V → List (Entry V) → List (Entry V)
  insert_entry e [] = e ∷ []
  insert_entry e (f ∷ l) =
      let rest = insert_entry e l in if le f.version e.version then e ∷ f ∷ l else f ∷ rest

  unfoldable pub sort_entries : List (Entry V) → List (Entry V)
  unfolding insert_entry
  sort_entries [] = []
  sort_entries (e ∷ l) = insert_entry e (sort_entries l)

  unfoldable pub parse : Text → List (Entry V)
  unfolding lines collect sort_entries
  parse markdown = sort_entries (collect (lines markdown) none)
