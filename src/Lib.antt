-- ===== src/Lib.antt =====
-- Briska Blast: the game server's player numbers, sessions, signaling and chat moderation, and the
-- launcher's back-off from GitHub and its reading of changelogs.
--
-- A host creates a session (server/src/api/host.rs), others join it (api/join.rs), and the host
-- starts the match (api/start.rs). A session is JSON text under one Redis key; every change of it
-- is a Lua script, which Redis runs as one step. Meanwhile each player holds a WebSocket
-- (server/src/signaling/ws), known to `SignalHub` (server/src/signaling/mod.rs), which relays
-- messages, tallies scores, begins the match when all are ready, pauses it for a player who comes
-- back, and holds a slot for a player who drops. The two meet where a start looks at the
-- connections, and where the end of a grace period runs a script.
--
-- A player is registered under a number (server/src/api/register.rs), which goes back to a pool
-- when an administrator deletes the player (admin/users.rs). A frame of an identified player goes
-- through `handle_client_frame` (signaling/ws/frame.rs). A line of chat is refused if the player is
-- banned, and else masked (chat/blacklist.rs), put on the session's transcript as it was written
-- (chat/transcript.rs), noted in the audit log if a word was found (chat/audit.rs), and broadcast.
-- The end of a session, wherever it comes from, archives the transcript or discards it.
--
-- Files, and what they model:
--   Common      helpers: tests, lists, signed 64-bit numbers, `Result`, and `Dict` for `HashMap`
--               and `HashSet`, whose order is hidden.
--   Settings    Mode, Win, Spawn, Loot: shared/src/types/gamemode.rs, win_condition.rs,
--               spawn_settings.rs, loot_settings.rs, and server/src/gamemode.rs.
--   Session     Data: `Session`, `JoinerEntry` (server/src/api/mod.rs). Store: the keys of Redis,
--               and what lua-cjson and serde make of an empty list. Lobby: the scripts of join,
--               start, transfer and of a host who leaves the lobby. Live: those of activation,
--               promotion and of a joiner who leaves (signaling/ws/session_ops.rs). Host: the
--               handler `host` and `validate_player`. Start: the attempts of `start_session`.
--               Steps: all of these as steps of a history. The other files are proofs.
--   Socket      World: the keys, the hub and the messages sent. Identify: signaling/ws/identify.rs
--               and the arrival in `handle_socket`, with proofs in Arrival and
--               Returns. Ops: session_ops.rs around its scripts. Cleanup: the last phase of
--               `handle_socket` (signaling/ws/mod.rs), and the grace windows of
--               signaling/ws/disconnect.rs, whose timers are steps.
--               Frame: signaling/ws/frame.rs and `speak_as_moderator`, with proofs in Framed (what
--               a frame leaves alone), Spoken (who is named as the sender), Said and Recorded (a
--               line of chat). Logged: what sockets and timers do to the transcripts. Scene: a
--               world for the concrete cases.
--   Players     Numbers and Accounts: api/register.rs, api/me.rs and admin/users.rs, with proofs in
--               Pool, Registered, Issued, Spare, Stages (deletions in flight), Orderly
--               and Shared.
--   Api         Requests: `join`, `get_session`, `close_session`, `transfer_host`, with proofs in
--               Answers and Transfers. Launch: the whole of `start_session`, with what a success
--               does to the hub.
--   Protocol    `ClientMsg` and `ServerMsg` of server/src/signaling/protocol.rs.
--   Hub         Data: `Room` and `SignalHub`. Rooms, Scores, Barrier, Pause, Grace: its methods,
--               each a function from the hub to the hub, with proofs in a child module.
--   Chat        Ids: server/src/chat/ids.rs, with Tail, Epochs and Runs for its proofs. Bans:
--               server/src/chat/bans.rs, and the canonical id of shared/src/types/player.rs.
--               Transcript: chat/transcript.rs, its commands one by one in Held. Audit: chat/audit.rs, its page in Window and Page.
--               Blacklist: chat/blacklist.rs, its stored words in Words. Capture: the state of the
--               moderation and `capture_player_message` of chat/mod.rs.
--   Moderation  Press and Player: admin/chatmod/player.rs, with proofs in Banned and Logged.
--   Server      Evidence: all of the operations that touch the chat, as the steps of one history.
--   Launcher    RateLimit: launcher/src/ratelimit.rs. Changelog: launcher/src/changelog/parse.rs.
-- The modules named Examples hold tests and concrete cases.
--
-- How the state corresponds. A `Store` is a map from a session's code to a `Raw`: the session and
-- whether each of its lists was written as a JSON array, with the time to live of the last write.
-- A script is a body, which answers and says what it writes, run by `run_script`. A `Hub` has a
-- map of rooms, the next connection number, which wraps at 2 ^ 64, and the pending timers, each
-- with a number of its own in place of a channel. A method holds its lock from start to end and
-- is one step; `arm_grace` takes two locks in turn, and its halves are steps of their own.
--
-- Handlers that issue several commands, between which other requests may come. What these find is
-- kept apart from what they write: the attempts of `start_session` (each has its own reads and its
-- own write), the calls on the hub that follow (`Others`), the draws and the write of `host`, the
-- read and the delete of `close_session`, the check, the delete and the recycling of `delete_user`
-- (Players.Stages), the commands of `on_session_end` (Chat.Transcript.Held), the transaction of
-- `append` apart from the lookup of its transcript (also there), the epoch's advance in `ids.rs`
-- (Chat.Ids.Runs), and the read and the write of `note_response`. These are taken as one step,
-- with nothing between their commands: `register`, `update_username`, `save_dev_flags`,
-- `identify_first`, `cleanup` and `arrive` apart from their timers, one frame of a player, the
-- writes of one line (`capture_player_message`, `speak_as_moderator`), one press of a moderator's
-- tool (`apply`), the write of one audit record, and, in the worlds of Socket and Server,
-- `on_session_end` and a sweep.
--
-- Numbers of `u8`, `u64` and `usize` are natural numbers with the wrap-around written out where
-- the code adds; an `i64` is a signed number with its two's complement (`wrap_i64`). The three
-- attempts of a start are a recursion on the attempts left, and each is told what its reads find,
-- so any other request may come between. The loop that draws a session code is a recursion on the
-- codes drawn, and is shown to end once one of them is free. The twenty digits of a `u64` are enough
-- for any, and the proof of the keys uses that. The eleven places of a tail are a recursion on the
-- places left. The search for a word is a recursion on as many turns as the text has bytes, and one
-- more; each turn moves on by a byte at least, and the proof that every occurrence is reached uses
-- that. The import of a legacy list has a budget of turns, since the server may be stopped within
-- it. The offsets of a match count bytes of UTF-8, and a slice inside a character is `none`.
--
-- Taken as parameters: the hash of a token, the drawn codes and tokens, the clocks, the display
-- names on file, the words that a reload of the blacklist reads, Unicode's table of letters and
-- digits, the answers of the rate limiters and of the role check, the fields of a moderator's form
-- as they are after splitting and trimming, the reading and the order of versions (the crate
-- `semver`), the TURN servers minted, and whether a connection's receiver still exists. Redis is
-- taken to run a script and a transaction as one step, and not to fail.
--
-- Not modelled: the JSON of the messages and of the stored records, the `f32` drop rates, the pages
-- of the admin panel and its moderation lists, the launcher's interface and updates, the server's
-- own update, and the game client in C#.
mod Common
pub mod Settings
pub mod Session
pub mod Protocol
pub mod Hub
pub mod Chat
pub mod Launcher
pub mod Socket
pub mod Api
pub mod Players
pub mod Moderation
pub mod Server
