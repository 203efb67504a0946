-- ===== src/Launcher/RateLimit.antt =====
-- The launcher's back-off from GitHub's rate limit: launcher/src/ratelimit.rs. The state file is a
-- value or missing; a corrupt file reads as missing. Times are whole seconds from the epoch, and
-- their sums wrap, as in a build without overflow checks. The file is read and written in separate
-- steps, with no lock.
use briska_blast.Common.{
  Bool, false, All, ℕ, ◌≡◌, refl, ◌∙◌, Option, none, some, ℤ, pos, ◌+ℤ◌, ◌≤ℤ◌, ltb_ℤ, leb, arith,
  wrap_i64, if◌then◌else◌, List, [], ◌∷◌, Option-cases, inl, inr,
}

abbrev pub pad_secs : ℤ
pad_secs = pos 120

abbrev pub fallback_secs : ℤ
fallback_secs = pos 3600

abbrev pub low_water : ℕ
low_water = 5

pub record RateLimitState : Type 0 where
  pub reset : Option ℤ
  pub remaining : Option ℕ
  pub blocked_until : Option ℤ

pub data Gate : Type 0 where
  allow : Gate
  blocked : ℤ → Gate

unfoldable pub gate_decision : RateLimitState → ℤ → Gate
gate_decision state now = elim state.blocked_until [
  | none ↦ allow
  | some until ↦ if ltb_ℤ now until then blocked until else allow
]

unfoldable pub compute_blocked_until : Option ℤ → ℤ → ℤ
compute_blocked_until (some r) now = wrap_i64 (r +ℤ pad_secs)
compute_blocked_until none now = wrap_i64 (now +ℤ fallback_secs)

-- `existing.filter(|&until| now < until)`
keep_active : Option ℤ → ℤ → Option ℤ
keep_active none now = none
keep_active (some until) now = if ltb_ℤ now until then some until else none

unfoldable pub resolve_blocked_until : Option ℕ → Option ℤ → ℤ → Option ℤ → Option ℤ
unfolding keep_active
resolve_blocked_until none reset now existing = keep_active existing now
resolve_blocked_until (some r) reset now existing =
    if leb r low_water then some (compute_blocked_until reset now) else keep_active existing now

abbrev pub File : Type 0
File = Option RateLimitState

-- `current_blocked_until`
current_blocked_until : File → Option ℤ
current_blocked_until none = none
current_blocked_until (some state) = state.blocked_until

unfoldable pub gate : File → ℤ → Gate
unfolding gate_decision
gate none now = allow
gate (some state) now = gate_decision state now

-- The write that replaces the file.
abbrev pub persist : RateLimitState → File → File
persist state file = some state

-- `found` is the file as it was read, `file` as it is at the write.
unfoldable pub note_response : Option ℕ → Option ℤ → ℤ → File → File → File
unfolding resolve_blocked_until current_blocked_until
note_response remaining reset now found file =
    let until = resolve_blocked_until remaining reset now (current_blocked_until found) in
    persist (record { reset = reset; remaining = remaining; blocked_until = until }) file

unfoldable pub note_rate_limited : Option ℤ → ℤ → File → ℤ × File
unfolding compute_blocked_until
note_rate_limited reset now file = (
  compute_blocked_until reset now,
  persist
      (record {
        reset = reset;
        remaining = some 0;
        blocked_until = some (compute_blocked_until reset now);
      })
      file,
)

-- The low water mark is reached.
abbrev pub is_low : Option ℕ → Bool
is_low none = false
is_low (some r) = leb r low_water

-- A healthy response leaves the gate as it was when the file was read.
gate-note_response :
    (remaining : Option ℕ) (reset : Option ℤ) (now later : ℤ) (found file : File)
    → is_low remaining ≡ false
    → now ≤ℤ later
    → gate (note_response remaining reset now found file) later ≡ gate found later
unfolding gate note_response gate_decision resolve_blocked_until current_blocked_until keep_active
gate-note_response none reset now later none file h le = ground arith
gate-note_response none reset now later (some state) file h le =
    elim (Option-cases state.blocked_until) [
      | inl e ↦ ground (arith, e)
      | inr (until, e) ↦ ground (arith, e)
    ]
gate-note_response (some r) reset now later none file h le = ground (arith, h)
gate-note_response (some r) reset now later (some state) file h le =
    elim (Option-cases state.blocked_until) [
      | inl e ↦ ground (arith, e, h)
      | inr (until, e) ↦ ground (arith, e, h)
    ]

-- A response: the headers, and when it is noted.
pub record Response : Type 0 where
  pub remaining : Option ℕ
  pub reset : Option ℤ
  pub now : ℤ

-- A response of what is read into what is written over.
abbrev pub noted : Response → File → File → File
unfolding note_response
noted r found file = note_response r.remaining r.reset r.now found file

-- Responses that are read and written one after the other.
unfoldable pub note_all : List Response → File → File
unfolding noted
note_all [] file = file
note_all (r ∷ rs) file = note_all rs (noted r file file)

-- Above the low water mark, and not after the time `later`.
abbrev pub IsHealthy : ℤ → Response → Type 0
IsHealthy later r = (is_low r.remaining ≡ false) × (r.now ≤ℤ later)

note_all-gate :
    (rs : List Response) (file : File) (later : ℤ)
    → All (IsHealthy later) rs
    → gate (note_all rs file) later ≡ gate file later
unfolding note_all
note_all-gate [] file later h = refl
note_all-gate (r ∷ rs) file later h = cc (
  note_all-gate rs (noted r file file) later h.1,
  gate-note_response r.remaining r.reset r.now later file file h.0.0 h.0.1,
)

-- Healthy responses, each read and written before the next is read, leave the gate as it was at
-- every time that is not before them: they neither lift nor lengthen a block. One more that has
-- read the file before other tasks replace it, and writes after them, puts the gate back to that
-- same answer whatever they wrote: a block that was armed between its read and its write is lost.
pub gate-note_all :
    (rs : List Response) (r : Response) (file armed : File) (later : ℤ)
    → All (IsHealthy later) (r ∷ rs)
    → (gate (note_all rs file) later ≡ gate file later)
      × (gate (noted r (note_all rs file) armed) later ≡ gate file later)
unfolding noted note_response
gate-note_all rs r file armed later h = (
  note_all-gate rs file later h.1,
  gate-note_response r.remaining r.reset r.now later (note_all rs file) armed h.0.0 h.0.1
      ∙ note_all-gate rs file later h.1,
)
