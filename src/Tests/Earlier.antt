-- ===== src/Tests/Earlier.antt =====
-- The earlier servers, with two clients.
use websocket_challenge.Base.{
  ℕ, ◌≡◌, refl, true, false, some, [], ◌∷◌, ◌++◌, arith, Text, codes, lookup, insert, erase,
  text_dec,
}
use websocket_challenge.Legacy.Chat.{
  Result, cleanup_found, send_history, panicked, Message, chat, Client, Hub, new_hub, ok, ◌>>=◌,
  handle_register, handle_unregister,
}
use websocket_challenge.Legacy.Chat.History.{chats, handle_broadcasts}
use websocket_challenge.Legacy.Chat.History.Newest.{newest}
use websocket_challenge.Legacy.Chat.Joining.{late_joiner}
use websocket_challenge.Legacy.Chat.Bucket.{RateLimiter, allow, count_at}
use websocket_challenge.Legacy.Chat.Reader.{null, read_pump}

abbrev said : Text → Message
said s = record { sender = codes "User_aaaa"; content = s; kind = chat; target = []; timestamp = 5 }

-- Two clients that happen to have one name.
abbrev twin : ℕ → Client
twin c = record { name = codes "User_abcd"; send = []; closed = false }

abbrev empty_room : Hub
unfolding new_hub
empty_room = new_hub twin

late_joiner_example :
    (g : Hub) × ((handle_broadcasts (said (codes "a") ∷ said (codes "b") ∷ []) empty_room
        >>= handle_register 7 (codes "[]") 0)
      ≡ ok g)
    × ((g.client 0).send ≡ newest 20 ([] ++ chats (said (codes "a") ∷ said (codes "b") ∷ [])))
    × (lookup text_dec (codes "User_abcd") g.clients ≡ some 0)
unfolding empty_room lookup
late_joiner_example =
    late_joiner 7 (codes "[]") (said (codes "a") ∷ said (codes "b") ∷ []) 0 empty_room
      (refl, (refl, tt)) tt (omega arith) refl refl refl

-- The first of the two is in the room.
abbrev with_twin : Hub
unfolding empty_room
with_twin = record empty_room { clients = (codes "User_abcd", 0) ∷ [] }

-- The second replaces the first, and is closed when the first leaves.
abbrev hub_of : Result → Hub → Hub
hub_of (ok h) g = h
hub_of _ g = g

replaced :
    ((hub_of
        (handle_register 7 (codes "[]") 1 with_twin >>= handle_unregister 8 (codes "[]") 0)
        with_twin).client
      1).closed
    ≡ true
unfolding with_twin handle_register handle_unregister cleanup_found send_history insert erase lookup
    text_dec
replaced = refl

-- A bucket of five tokens, one in 500 milliseconds, that is empty.
abbrev drained : RateLimiter
drained = record { tokens = 0; last_tick = 1000; burst = 5; rate = 500000000 }

drained_run : count_at 2500001000 7 drained ≡ 5
unfolding count_at allow
drained_run = refl

crash : (read_pump 2500001000 7 0 null drained with_twin).1 ≡ panicked
unfolding read_pump allow with_twin
crash = refl
