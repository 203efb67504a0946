-- ===== src/Hub/Data.antt =====
-- The state of `SignalHub` and of a `Room`.
use briska_blast.Common.{
  ℕ, String, Bool, true, false, Option, none, some, List, [], ◌==◌, string_eq, ◌&&◌, Eq, ◌≡◌, ◌↔◌,
  arith, ==_iff, ℤ, pos,
}
use briska_blast.Common.Dict
use briska_blast.Common.Dict.{Dict}
use briska_blast.Protocol.{IceServer}

pub data GraceKind : Type 0 where
  promotion reconnect : GraceKind

pub record GraceKey : Type 0 where
  pub code : String
  pub player_id : String
  pub kind : GraceKind

abbrev pub kind_beq : GraceKind → GraceKind → Bool
kind_beq promotion promotion = true
kind_beq reconnect reconnect = true
kind_beq _ _ = false

abbrev pub key_beq : GraceKey → GraceKey → Bool
key_beq a b = a.code == b.code && (a.player_id == b.player_id && kind_beq a.kind b.kind)

kind_beq_iff : (a b : GraceKind) → (kind_beq a b ≡ true) ↔ (a ≡ b)
kind_beq_iff promotion promotion = ground arith
kind_beq_iff promotion reconnect = ground arith
kind_beq_iff reconnect promotion = ground arith
kind_beq_iff reconnect reconnect = ground arith

pub key_beq_iff : (a b : GraceKey) → (key_beq a b ≡ true) ↔ (a ≡ b)
key_beq_iff a b =
    ground (arith, ==_iff a.code b.code, ==_iff a.player_id b.player_id, kind_beq_iff a.kind b.kind)

instance abbrev pub grace_key_eq : Eq GraceKey
grace_key_eq = record { equal = key_beq; equal_iff = key_beq_iff }

-- `HashSet<String>`.
abbrev pub Names : Type 0
Names = Dict String (Unit {0})

pub record Room : Type 0 where
  -- The connection of each player; the sending end is known by its connection's number.
  pub senders : Dict String ℕ
  pub scores : Dict String ℤ
  pub win_target : ℤ
  pub game_over : Bool
  pub ice_servers : List IceServer
  pub ready_roster : List String
  pub ready : Names
  pub match_started : Bool
  pub paused_for : Names

-- `Room::default()`.
unfoldable pub empty_room : Room
empty_room = record {
  senders = Dict.empty;
  scores = Dict.empty;
  win_target = pos 0;
  game_over = false;
  ice_servers = [];
  ready_roster = [];
  ready = Dict.empty;
  match_started = false;
  paused_for = Dict.empty;
}

pub record Hub : Type 0 where
  pub rooms : Dict String Room
  pub next_conn_id : ℕ
  -- The pending timers; a stored sender is known by a number that no other timer has.
  pub grace : Dict GraceKey ℕ
  pub next_timer : ℕ

-- `SignalHub::default()`.
abbrev pub empty : Hub
empty = record { rooms = Dict.empty; next_conn_id = 0; grace = Dict.empty; next_timer = 0 }

-- `rooms.get(code)`, and a room written back under its code.
abbrev pub room_at : Hub → String → Option Room
room_at h code = Dict.get h.rooms code

abbrev pub put_room : Hub → String → Room → Hub
put_room h code r = record h { rooms = Dict.insert h.rooms code r }

-- `rooms.entry(code).or_default()`.
unfoldable pub room_or_default : Hub → String → Room
room_or_default h code = elim (room_at h code) [ none ↦ empty_room | some r ↦ r ]
