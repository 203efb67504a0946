-- ===== src/Socket/Scene.antt =====
-- Two connected players, their session and its transcript, for the concrete cases.
use briska_blast.Common.{
  String, true, false, ◌&&◌, none, some, [], ◌∷◌, ◌≡◌, refl, pos, string_eq, arith, leb, is_empty,
}
use briska_blast.Common.Dict
use briska_blast.Common.Dict.{Dict}
use briska_blast.Chat.Ids.{text_eq, Issued, next_id, issue, parse_epoch, format_id}
use briska_blast.Chat.Bans.{
  Bans, normalize_id, numeric_id, parse_u64, parse_digits, from_counter, show_digits, lookup,
}
use briska_blast.Chat.Transcript.{Text}
use briska_blast.Chat.Blacklist.Words.{BlacklistEntry, active_words, usable, normalize, is_fresh}
use briska_blast.Chat.Blacklist.{
  find_matches, scan_words, scan, occurs_at, boundary_before, boundary_after, split_at, byte_len,
  as_bytes, len_utf8, sort_matches, insert_match, dedupe, matched_words, words_seen,
}
use briska_blast.Chat.Capture.{quiet, codes}
use briska_blast.Hub.Data.{empty}
use briska_blast.Hub.Rooms.{join_room}
use briska_blast.Socket.World.{World}
use briska_blast.Socket.Frame.{Outside}
use briska_blast.Socket.Said.{found_in}
use briska_blast.Settings.Mode.{extended}
use briska_blast.Settings.Win
use briska_blast.Settings.Spawn
use briska_blast.Settings.Loot
use briska_blast.Session.Data.{SessionStatus}
use briska_blast.Session.Store.{Store, Raw, serde_encode}

abbrev pub sid : Text
sid = 99 ∷ []

abbrev pub no_pointers : Dict String Text
no_pointers = Dict.empty

abbrev pub no_keys : Store
no_keys = Dict.empty

abbrev pub stored : Raw
stored =
    serde_encode
      (record {
        code = "ABC";
        host_player_id = "2";
        gamemode = extended;
        win_condition = Win.default_condition;
        spawn_settings = Spawn.default_settings;
        loot_settings = Loot.default_settings;
        player_count = 4;
        joiners = record { player_id = "1"; joined_at_ms = 5 } ∷ [];
        status = SessionStatus.active;
        seat_order = "2" ∷ "1" ∷ [];
      })
      60

-- Two players are connected to "ABC", whose transcript is live.
abbrev pub world : World
world = record {
  alive = λ c. true;
  session_ttl_secs = 60;
  store = Dict.insert no_keys "ABC" stored;
  hub = (join_room (join_room empty "ABC" "1").1 "ABC" "2").1;
  sent = [];
  chat = record quiet {
    transcripts = record quiet.transcripts { live = Dict.insert no_pointers "ABC" sid };
  };
  clock = pos 9;
}

abbrev pub no_names : Dict String String
no_names = Dict.empty

abbrev pub entry : BlacklistEntry
entry = record {
  word = 98 ∷ 97 ∷ 100 ∷ [];
  reason = "";
  active = true;
  added_by = "mod";
  added_at_ms = pos 1;
}

abbrev pub outside : Outside
outside = record {
  is_alphanumeric = λ c. leb 97 c && leb c 122;
  names = no_names;
  loaded = some (entry ∷ []);
  ticks = 4;
}

-- " bad".
abbrev pub text : Text
text = 32 ∷ 98 ∷ 97 ∷ 100 ∷ []

abbrev pub one : Text
one = 48 ∷ 48 ∷ 48 ∷ 48 ∷ 48 ∷ 48 ∷ 48 ∷ 48 ∷ 49 ∷ []

pub one_key : normalize_id (codes "1") ≡ some one
unfolding normalize_id numeric_id parse_u64 parse_digits from_counter show_digits
one_key = refl

no_bans : Bans
no_bans = Dict.empty

pub free : lookup world.chat.bans (codes "1") ≡ none
unfolding lookup
free = grind (arith, Dict.dict_laws)

abbrev pub first_id : Issued
first_id = record { id = format_id 97 (pos 1); counter = pos 1; observed = 97 }

pub issued : (next_id world.chat.transcripts.body_ids).0 ≡ some first_id
unfolding next_id issue parse_epoch
issued = refl

pub hit : is_empty (matched_words (found_in world outside text)) ≡ false
unfolding active_words usable normalize is_fresh find_matches scan_words scan occurs_at
    boundary_before boundary_after split_at byte_len as_bytes len_utf8 sort_matches insert_match
    dedupe matched_words words_seen
hit = refl
