-- ===== src/Hub/Scores/Winner.antt =====
-- Who wins, and when: the latch of `record_score` over any sequence of reports.
use briska_blast.Common.{
  ℕ, ◌+◌, ◌^◌, ◌≤◌, ◌<◌, ◌≡◌, refl, ap, String, true, false, not, Option, none, some, List, [], ◌∷◌,
  leb, min, ◌++◌, ◌⊎◌, ℤ, pos, negsuc, leb_ℤ, min_ℤ, ◌+ℤ◌, ◌≤ℤ◌, wrap_i64, if◌then◌else◌, string_eq,
  arith, ==_iff, ◌==◌, Bool-cases, inl, inr,
}
use briska_blast.Common.Dict
use briska_blast.Common.Dict.{Dict}
use briska_blast.Hub.Data.{Hub, Room, room_at, put_room}
use briska_blast.Hub.Scores.{score_of, credit, record_score, Report, max_score_points}

-- What a report announces.
abbrev pub winner_of : Report → List String
winner_of none = []
winner_of (some (tally, none)) = []
winner_of (some (tally, some w)) = w ∷ []

-- The winners that a sequence of reports to one room announces, and the hub afterwards.
unfoldable pub report_all : Hub → String → List (String × ℤ) → List String × Hub
report_all h code [] = ([], h)
report_all h code ((p, points) ∷ rest) =
    let (report, h') = record_score h code p points in
    let (winners, h'') = report_all h' code rest in (winner_of report ++ winners, h'')

-- The race for a target `t`: before the end every score is below it.
pub record Race (t : ℕ) (room : Room) : Type 0 where
  pub target : room.win_target ≡ pos t
  pub running : room.game_over ≡ false
  pub below : (p : String) → (n : ℕ) × (score_of room p ≡ pos n) × (n < t)

-- The scores after a credit.
credit-score :
    (room : Room) (p : String) (points : ℤ) (q : String)
    → score_of (credit room p points).1 q ≡ (
        if p == q
        then wrap_i64 (score_of room p +ℤ min_ℤ points max_score_points)
        else score_of room q)
unfolding credit
credit-score room p points q = ground (
  arith,
  Dict.get-insert room.scores p (wrap_i64 (score_of room p +ℤ min_ℤ points max_score_points)) q,
)

-- No overflow below the target: one or two points are added.
added :
    (n : ℕ) (points : ℤ)
    → n < 2 ^ 62
    → leb_ℤ points (pos 0) ≡ false
    → (m : ℕ) × (wrap_i64 (pos n +ℤ min_ℤ points max_score_points) ≡ pos (n + m))
      × (1 ≤ m)
      × (m ≤ 2)
unfolding wrap_i64 ◌+ℤ◌
added n (pos k) h positive = (min k 2, ground arith, ground arith, ground arith)
added n (negsuc k) h positive = absurd (ground arith)

-- The race goes on, or the player has reached the target and the room is told so.
abbrev pub Credited : ℕ → String → Option String × Room → Type 0
Credited t p (winner, room) =
    ((winner ≡ none) × Race t room)
    ⊎ ((winner ≡ some p) × (room.game_over ≡ true) × (pos t ≤ℤ score_of room p))

-- In a race whose scores are below the target, an accepted report announces its player, who is
-- then at the target or above, and ends the game; or it announces nobody and the scores stay
-- below.
pub credit-Race :
    (t : ℕ) (room : Room) (p : String) (points : ℤ)
    → t ≤ 2 ^ 62
    → leb_ℤ points (pos 0) ≡ false
    → Race t room
    → Credited t p (credit room p points)
unfolding credit
credit-Race t room p points fits positive race =
    let (n, at, lt) = race.below p in
    let (m, total, one, two) = added n points (omega arith) positive in
    let sum : wrap_i64 (score_of room p +ℤ min_ℤ points max_score_points) ≡ pos (n + m) =
      rw at total in
    let before = credit-score room p points in
    elim (Bool-cases (leb t (n + m))) [
      | inl reached ↦ inr (
        ground (arith, race.running, race.target, sum),
        ground (arith, race.running, race.target, sum),
        ground (arith, sum, before p, ==_iff p p),
      )
      | inr short ↦ inl (
        ground (arith, race.running, race.target, sum),
        record {
          target = ground (arith, race.running, race.target, sum);
          running = ground (arith, race.running, race.target, sum);
          below = λ q. elim (Bool-cases (p == q)) [
            | inl same ↦ (n + m, ground (arith, before q, sum), ground arith)
            | inr other ↦ let (k, e, l) = race.below q in (k, ground (arith, before q), l)
          ];
        },
      )
    ]

credit-latched :
    (room : Room) (p : String) (points : ℤ)
    → room.game_over ≡ true
    → ((credit room p points).0 ≡ none) × ((credit room p points).1.game_over ≡ true)
unfolding credit
credit-latched room p points over = ground arith

-- A report changes nothing, or credits its player.
record_score-cases :
    (h : Hub) (code p : String) (points : ℤ) (room : Room)
    → room_at h code ≡ some room
    → (record_score h code p points ≡ (none, h))
      ⊎ ((leb_ℤ points (pos 0) ≡ false)
          × (record_score h code p points ≡ (
            some ((credit room p points).1.scores, (credit room p points).0),
            put_room h code (credit room p points).1,
          )))
unfolding record_score
record_score-cases h code p points room e =
    rw (e, record_score)
      (elim (Bool-cases (not (Dict.contains_key room.senders p))) [
        | inl stranger ↦ inl ground arith
        | inr member ↦ elim (Bool-cases (leb_ℤ points (pos 0))) [
          | inl refused ↦ inl ground arith
          | inr positive ↦ inr (positive, ground arith)
        ]
      ])

-- Where a run of reports may end: the race goes on, or one player has won.
abbrev pub Ends : ℕ → Hub → String → List String → Type 0
Ends t h code winners =
    ((winners ≡ []) × (room : Room) × (room_at h code ≡ some room) × Race t room)
    ⊎ ((w : String) × (winners ≡ w ∷ [])
        × (room : Room) × (room_at h code ≡ some room)
        × (room.game_over ≡ true))

-- After the end nothing is announced.
report_all-latched :
    (h : Hub) (code : String) (room : Room) (cs : List (String × ℤ))
    → room_at h code ≡ some room
    → room.game_over ≡ true
    → ((report_all h code cs).0 ≡ [])
      × (r : Room) × (room_at (report_all h code cs).1 code ≡ some r)
      × (r.game_over ≡ true)
unfolding report_all
report_all-latched h code room [] e over = (refl, room, e, over)
report_all-latched h code room ((p, points) ∷ cs) e over =
    elim (record_score-cases h code p points room e) [
      | inl refused ↦ rw (refused, report_all) (report_all-latched h code room cs e over)
      | inr (positive, credited) ↦
          let (quiet, still) = credit-latched room p points over in
          rw (credited, report_all)
            (rw quiet (
              report_all-latched (put_room h code (credit room p points).1) code
                (credit room p points).1 cs (Dict.get-insert_self h.rooms code _) still))
    ]

-- From a race whose scores are below the target, whatever the reports, in whatever order: either
-- nobody has been announced and every score is still below the target, or exactly one player has
-- been announced, once, and the game is over.
pub report_all-Ends :
    (t : ℕ) (h : Hub) (code : String) (room : Room) (cs : List (String × ℤ))
    → t ≤ 2 ^ 62
    → room_at h code ≡ some room
    → Race t room
    → Ends t (report_all h code cs).1 code (report_all h code cs).0
unfolding report_all
report_all-Ends t h code room [] fits e race = inl (refl, room, e, race)
report_all-Ends t h code room ((p, points) ∷ cs) fits e race =
    elim (record_score-cases h code p points room e) [
      | inl refused ↦ rw (refused, report_all) (report_all-Ends t h code room cs fits e race)
      | inr (positive, credited) ↦ elim (credit-Race t room p points fits positive race) [
        | inl (quiet, on) ↦
            rw (credited, report_all)
              (rw quiet (
                report_all-Ends t (put_room h code (credit room p points).1) code
                  (credit room p points).1 cs fits (Dict.get-insert_self h.rooms code _) on))
        | inr (won, over, _) ↦
            let (silent, r, at, still) =
              report_all-latched (put_room h code (credit room p points).1) code
                (credit room p points).1 cs (Dict.get-insert_self h.rooms code _) over in
            rw (credited, report_all) (rw won (inr (p, ap (λ ws. p ∷ ws) silent, r, at, still)))
      ]
    ]
