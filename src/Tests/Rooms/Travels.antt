-- ===== src/Tests/Rooms/Travels.antt =====
-- Messages on their way between a hub with two clients and an empty one.
use websocket_challenge.Base.{
  ℕ, ◌≡◌, refl, true, false, some, [], ◌∷◌, ◌++◌, arith, Text, codes, lookup, insert, text_dec,
  contains,
}
use websocket_challenge.Messages.{Message, chat, marshal}
use websocket_challenge.Chat.Hub.{
  Hub, ok, publish, replace_session, enter_room, announce_kick, announce_join, register_client,
  send_user_list, handle_broadcast,
}
use websocket_challenge.Chat.Hub.Invariant.{IsHub}
use websocket_challenge.Chat.Hub.Delivery.{after_message}
use websocket_challenge.Chat.Hub.{handle_signal}
use websocket_challenge.Chat.Hub.Signals.{published_as}
use websocket_challenge.Chat.Hub.Crossing.{crossing}
use websocket_challenge.Base.{split}
use websocket_challenge.Messages.{unmarshal}
use websocket_challenge.Limiter.{new_rate_limiter, refill_rate, allow}
use websocket_challenge.Chat.Hub.{Frame, live, history}
use websocket_challenge.Chat.Pump.{Reader, starts_with_slash, stamp, read_pump}
use websocket_challenge.Chat.Pump.Writing.{written, write_pump}
use websocket_challenge.Chat.Journey.{line_crosses}
use websocket_challenge.Chat.Hub.Settling.{settle, rows_written, settle-ends}
use websocket_challenge.Chat.Hub.Runs.Parts.{IsHub-of_rest}
use websocket_challenge.Tests.Rooms.{zero_hash, lobby, with_both, greeting, whisper, both-IsHub}

-- Ann's server publishes a greeting, and the server with both clients hears it.
abbrev local_greeting : Message
local_greeting = record greeting { from_redis = false }

crossing_example :
    (h' g' : Hub) × (m' : Message) × (handle_broadcast true local_greeting lobby ≡ ok h')
    × (h'.commands
        ≡ lobby.commands ++ publish (codes "general") (published_as local_greeting lobby) ∷ [])
    × (handle_signal zero_hash 9
          (some (published_as local_greeting lobby))
          (record with_both { broadcast = [] })
        ≡ ok (record with_both { broadcast = m' ∷ [] }))
    × (handle_broadcast true m' (record with_both { broadcast = [] }) ≡ ok g')
    × ((d : ℕ)
        → g'.client d
          ≡ after_message chat local_greeting (published_as local_greeting lobby) with_both d)
unfolding lobby with_both register_client replace_session enter_room announce_kick announce_join
    send_user_list lookup insert text_dec
crossing_example =
    crossing zero_hash 9 true local_greeting lobby with_both refl (refl, refl) refl (omega arith)
      both-IsHub

abbrev busy : Hub
busy = record with_both { broadcast = local_greeting ∷ whisper ∷ [] }

busy-IsHub : IsHub busy
busy-IsHub = IsHub-of_rest with_both busy both-IsHub refl refl refl refl

settle-ends_example :
    (h' : Hub) × (settle (true ∷ true ∷ []) busy ≡ ok h')
    × IsHub h'
    × (h'.broadcast ≡ [])
    × (h'.persistence_queue
        ≡ busy.persistence_queue ++ rows_written (true ∷ true ∷ []) (local_greeting ∷ whisper ∷ []))
unfolding with_both register_client replace_session enter_room announce_kick announce_join
    send_user_list lookup insert text_dec
settle-ends_example = settle-ends (true ∷ true ∷ []) busy busy-IsHub (omega arith) (omega arith)

abbrev brief : Frame → Text
brief (live p) = codes "{}"
brief (history r) = codes "{h}"

one_line : (m : Frame) → contains (brief m) 10 ≡ false
one_line (live p) = refl
one_line (history r) = refl

abbrev keyboard : Reader
keyboard = record { limiter = new_rate_limiter 0 5 refill_rate; last_warning = 0 }

-- Ann types a line on one server, and Bob reads it on another.
line_crosses_example :
    let m = stamp 7 9 0 (unmarshal (marshal local_greeting)) lobby in
    let sent = published_as m lobby in
    (h' g' g'' : Hub) × (m' : Message) × (s : Text) × ((read_pump 0 7 9 0
        (some (marshal local_greeting))
        keyboard
        lobby).1
      ≡ ok (record lobby { broadcast = m ∷ [] }))
    × (handle_broadcast true m lobby ≡ ok h')
    × (h'.commands ≡ lobby.commands ++ publish (lobby.client 0).room_id sent ∷ [])
    × (handle_signal zero_hash 9 (some sent) (record with_both { broadcast = [] })
        ≡ ok (record with_both { broadcast = m' ∷ [] }))
    × (handle_broadcast true m' (record with_both { broadcast = [] }) ≡ ok g')
    × (write_pump brief true true 1 g' ≡ (g'', written s))
    × (split 10 s ≡ brief (live sent) ∷ [])
    × (sent.sender ≡ codes "ann")
    × (sent.content ≡ codes "psst")
unfolding lobby with_both register_client replace_session enter_room announce_kick announce_join
    send_user_list lookup insert text_dec marshal new_rate_limiter allow starts_with_slash
line_crosses_example =
    line_crosses zero_hash brief one_line true 0 7 9 9 0 1 (marshal local_greeting) keyboard lobby
      with_both refl refl refl (refl, refl) (omega arith) both-IsHub refl refl refl
