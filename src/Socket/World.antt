-- ===== src/Socket/World.antt =====
-- What the handlers share: the keys of Redis, the hub, and what has been put into the channels.
-- `alive` tells which connections still have a receiver, and `clock` is the clock's reading for the
-- chat. Redis is taken not to fail.
use briska_blast.Common.{ℕ, String, Bool, Option, List, ◌++◌, ℤ}
use briska_blast.Chat.Capture.{ChatState}
use briska_blast.Chat.Transcript.{on_session_end}
use briska_blast.Protocol.{ServerMsg}
use briska_blast.Session.Store.{Store}
use briska_blast.Hub.Data.{Hub}
use briska_blast.Hub.Rooms.{Delivery, broadcast, send_to}

pub record World : Type 0 where
  pub alive : ℕ → Bool
  pub session_ttl_secs : ℕ
  pub store : Store
  pub hub : Hub
  pub sent : List Delivery
  pub chat : ChatState
  pub clock : ℤ

-- `signal_hub.broadcast(…)`.
unfoldable pub notify : World → String → ServerMsg → Option String → World
unfolding broadcast
notify w code msg except = record w { sent = w.sent ++ broadcast w.alive w.hub code msg except }

abbrev pub with_store : World → Store → World
with_store w store = record w { store = store }

abbrev pub with_hub : World → Hub → World
with_hub w hub = record w { hub = hub }

abbrev pub with_chat : World → ChatState → World
with_chat w chat = record w { chat = chat }

-- `signal_hub.send_to(…)`.
unfoldable pub reply : World → String → String → ServerMsg → World
unfolding send_to
reply w code to msg = record w { sent = w.sent ++ (send_to w.alive w.hub code to msg).1 }

-- `chat::transcript::on_session_end(…)`.
unfoldable pub end_chat : World → String → World
unfolding on_session_end
end_chat w code =
    with_chat w (record w.chat { transcripts = on_session_end code w.clock w.chat.transcripts })
