-- ===== src/Tests/Frames.antt =====
-- One frame of a client, and one request of a user, on a new hub.
use websocket_challenge.Base.{
  ℕ, none, false, Text, ◌∷◌, ◌==◌, if◌then◌else◌, split, contains, refl, lookup, text_dec, ◌∷◌, ◌≡◌,
  true, false, some, [], arith, codes,
}
use websocket_challenge.Hashing.{new_consistent_hashing}
use websocket_challenge.Limiter.{new_rate_limiter, refill_rate}
use websocket_challenge.Messages.{blank, marshal, chat}
use websocket_challenge.Chat.Hub.{Client, Hub}
use websocket_challenge.Chat.Hub.Runs.{new_hub}
use websocket_challenge.Chat.Hub.{Frame, live, history, global_signals, cleanup_client}
use websocket_challenge.Chat.Hub.Subscriptions.{is_subscribed}
use websocket_challenge.Chat.Entry.Reserved.{reserved_room}
use websocket_challenge.Chat.Pump.{Reader, read_pump}
use websocket_challenge.Chat.Pump.Writing.{write_pump, written, write_pump-split}
use websocket_challenge.Config.{load}
use websocket_challenge.Chat.Pump.Stamping.{Sent, read_pump-Sent}
use websocket_challenge.Chat.Entry.{sanitize}

abbrev bob : Client
bob = record { room_id = codes "general"; name = codes "bob"; send = []; closed = false }

abbrev hall : Hub
hall = new_hub (codes "s:1") true (new_consistent_hashing 2) (λ c. bob)

abbrev fresh_reader : Reader
fresh_reader = record { limiter = new_rate_limiter 0 5 refill_rate; last_warning = 0 }

read_pump-Sent_example :
    Sent 7 0 hall
      (read_pump 0 7 9 0
        (some
          (marshal (record blank { kind = chat; sender = codes "eve"; content = codes "/hug me" })))
        fresh_reader
        hall).1
read_pump-Sent_example =
    read_pump-Sent 0 7 9 0
      (some
        (marshal (record blank { kind = chat; sender = codes "eve"; content = codes "/hug me" })))
      fresh_reader hall (omega arith)

-- Bob is alone in the room that has the name of the servers' channel.
abbrev signals_room : Hub
signals_room = record hall {
  client = λ c. record bob { room_id = sanitize (λ s. s) global_signals };
  rooms = (global_signals, 0 ∷ []) ∷ [];
}

reserved_room_example :
    ((signals_room.client 0).room_id ≡ global_signals)
    × (is_subscribed global_signals (cleanup_client 0 signals_room) ≡ false)
unfolding lookup text_dec
reserved_room_example = reserved_room (λ s. s) 0 signals_room refl refl refl refl

-- A text that names a message by its sender.
abbrev brief : Frame → Text
brief (live p) = codes "{}"
brief (history r) = codes "{h}"

abbrev busy : Hub
busy = record hall {
  client =
      λ c. record bob { send = live (marshal blank) ∷ live (marshal blank) ∷ []; closed = true };
}

single_line : (m : Frame) → contains (brief m) 10 ≡ false
single_line (live p) = refl
single_line (history r) = refl

write_pump-split_example :
    (h' : Hub) × (s : Text) × (write_pump brief true true 0 busy ≡ (h', written s))
    × (split 10 s ≡ codes "{}" ∷ codes "{}" ∷ [])
    × ((d : ℕ)
        → h'.client d ≡ (if d == 0 then record (busy.client 0) { send = [] } else busy.client d))
write_pump-split_example =
    write_pump-split brief single_line 0 (live (marshal blank)) (live (marshal blank) ∷ []) busy
      refl

refused_start : load (λ key. none) ≡ none
unfolding load text_dec
refused_start = refl
