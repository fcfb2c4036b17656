-- ===== src/Tests/Rooms.antt =====
-- A hub with one room and two clients, reached by the register case.
mod Travels
mod Losses
use websocket_challenge.Base.{
  ℕ, ◌≡◌, ◌≢◌, ◌⊎◌, inl, inr, refl, Bool, true, false, not, ◌||◌, ◌&&◌, none, some, [], ◌∷◌, ◌++◌,
  arith, ◌==◌, if◌then◌else◌, Text, ◌≟◌, codes, lookup, insert, text_dec, contains,
}
use websocket_challenge.Messages.{Message, chat, private, typing, blank, is_durable}
use websocket_challenge.Hashing.{new_consistent_hashing}
use websocket_challenge.Chat.Hub.{
  Client, Hub, Result, ok, panicked, publish, room_of, replace_session, enter_room, announce_kick,
  announce_join, register_client, send_user_list, handle_register, handle_unregister,
  handle_broadcast,
}
use websocket_challenge.Chat.Hub.Invariant.{IsHub, is_session}
use websocket_challenge.Chat.Hub.Invariant.Cases.{handle_register_lem, handle_unregister_lem}
use websocket_challenge.Chat.Hub.Delivery.Dispatch.{private_confidential, handle_broadcast_local}
use websocket_challenge.Chat.Hub.Runs.{new_hub, enter, Step, Reach, reachable-IsHub}
use websocket_challenge.Chat.Hub.Subscriptions.{is_subscribed}
use websocket_challenge.Chat.Hub.Subscriptions.Late.{late_unsubscribe}
use websocket_challenge.Chat.Hub.{
  is_active, command, unsubscribe, leave_room, drop_session, after_lock,
}
use websocket_challenge.Hashing.Invariant.{is_some}
use websocket_challenge.Chat.Hub.{handle_signal}
use websocket_challenge.Chat.Hub.Signals.{published_as}
use websocket_challenge.Chat.Hub.Crossing.{crossing}
use websocket_challenge.Base.{split}
use websocket_challenge.Messages.{unmarshal}
use websocket_challenge.Limiter.{new_rate_limiter, refill_rate, allow}
use websocket_challenge.Chat.Hub.{Frame, live, history}
use websocket_challenge.Chat.Pump.{Reader, starts_with_slash, stamp, read_pump}
use websocket_challenge.Chat.Pump.Writing.{written, write_pump}
use websocket_challenge.Chat.Journey.{line_crosses}
use websocket_challenge.Chat.Hub.Settling.{settle, rows_written, settle-ends}
use websocket_challenge.Chat.Hub.Runs.Parts.{IsHub-of_rest}
use websocket_challenge.Chat.Hub.{deliver_in_room}
use websocket_challenge.Chat.Hub.{cleanup, cleanup_client, handle_signal, publish}
use websocket_challenge.Chat.Hub.Signals.{published_as}
use websocket_challenge.Messages.{ack}
use websocket_challenge.Chat.Hub.Races.{register_closed_panics}

abbrev pub zero_hash : Text → ℕ
zero_hash s = 0

-- Ann and Bob are new; the third client was closed before it could register.
abbrev pub guests : ℕ → Client
guests c = record {
  room_id = codes "general";
  name = if c == 0 then codes "ann" else if c == 1 then codes "bob" else codes "eve";
  send = [];
  closed = not (c == 0 || c == 1);
}

abbrev pub lobby : Hub
unfolding new_hub new_consistent_hashing
lobby = new_hub (codes "s:1") true (new_consistent_hashing 2) guests

abbrev hub_of : Result → Hub → Hub
hub_of (ok h) g = h
hub_of _ g = g

abbrev with_ann : Hub
unfolding lobby handle_register
with_ann = hub_of (handle_register 7 none 0 lobby) lobby

abbrev pub with_both : Hub
unfolding with_ann
with_both = hub_of (handle_register 8 none 1 with_ann) with_ann

both_present : lookup text_dec (codes "general") with_both.rooms ≡ some (0 ∷ 1 ∷ [])
unfolding with_both register_client replace_session enter_room announce_kick announce_join
    send_user_list lookup insert text_dec
both_present = refl

lobby-reached : Reach zero_hash lobby with_both
unfolding with_both enter register_client replace_session enter_room announce_kick announce_join
    send_user_list lookup insert text_dec
lobby-reached =
    Reach.next (Reach.next Reach.here (Step.enters 7 0 refl refl refl))
      (Step.enters 8 1 refl refl refl)

reachable-IsHub_example :
    IsHub with_both
    × ((published : Bool) (m : Message) → handle_broadcast published m with_both ≢ panicked)
unfolding lobby
reachable-IsHub_example =
    reachable-IsHub zero_hash (codes "s:1") true (new_consistent_hashing 2) guests with_both
      lobby-reached

pub both-IsHub : IsHub with_both
unfolding lobby
both-IsHub =
    (reachable-IsHub zero_hash (codes "s:1") true (new_consistent_hashing 2) guests with_both
      lobby-reached).0

lobby-IsHub : IsHub lobby
unfolding lobby
lobby-IsHub =
    (reachable-IsHub zero_hash (codes "s:1") true (new_consistent_hashing 2) guests lobby
      Reach.here).0

handle_register_lem_example :
    (h' : Hub) × (handle_register 7 (some (codes "[]")) 0 lobby ≡ ok h')
    × IsHub h'
    × ((n : Text)
        → lookup text_dec n h'.all_clients
          ≡ (if codes "ann" ≟ n then some 0 else lookup text_dec n lobby.all_clients))
    × (contains (room_of (codes "general") h') 0 ≡ true)
    × ((old : ℕ)
        → lookup text_dec (codes "ann") lobby.all_clients ≡ some old
        → (h'.client old).closed ≡ true)
unfolding lobby lookup
handle_register_lem_example =
    handle_register_lem 7 (some (codes "[]")) 0 lobby lobby-IsHub refl refl (inr (omega arith))

handle_unregister_lem_example :
    (h' : Hub) × (handle_unregister 9 none 0 with_both ≡ ok h')
    × IsHub h'
    × ((d : ℕ) → is_session d h' ≡ (is_session d with_both && not (d == 0)))
    × ((h'.client 0).closed ≡ true)
unfolding with_both register_client replace_session enter_room announce_kick announce_join
    send_user_list lookup insert text_dec
handle_unregister_lem_example = handle_unregister_lem 9 none 0 with_both both-IsHub refl (inl refl)

abbrev pub whisper : Message
whisper = record blank {
  room_id = codes "general";
  sender = codes "ann";
  content = codes "psst";
  kind = private;
  target = codes "bob";
  from_redis = true;
}

private_confidential_example :
    (h' : Hub) × (handle_broadcast true whisper with_both ≡ ok h')
    × (h'.client 1 ≢ with_both.client 1
        → ((with_both.client 1).room_id ≡ codes "general")
          × (((with_both.client 1).name ≡ codes "bob") ⊎ ((with_both.client 1).name ≡ codes "ann")))
private_confidential_example = private_confidential true whisper with_both 1 both-IsHub refl refl

abbrev with_closed : Hub
unfolding lobby handle_register
with_closed = hub_of (handle_register 7 none 2 lobby) lobby

abbrev pub greeting : Message
greeting = record whisper { kind = chat }

register_closed_panics_example : handle_broadcast true greeting with_closed ≡ panicked
unfolding with_closed handle_register send_user_list
register_closed_panics_example =
    register_closed_panics 7 none true 2 greeting lobby with_closed refl refl refl refl refl

-- Ann's session is the last of the room, and Bob joins before the goroutine ends the subscription.
after_ann : Hub
unfolding with_ann
after_ann = (after_lock 0 with_ann).0

abbrev late : Hub
unfolding handle_register
late = hub_of (handle_register 9 none 1 after_ann) after_ann

late_unsubscribe_example :
    ((after_lock 0 with_ann).1 ≡ true)
    × (is_active (codes "general") late ≡ true)
    × (is_subscribed (codes "general") (command (unsubscribe (codes "general")) late) ≡ false)
unfolding with_ann late after_ann after_lock leave_room drop_session register_client replace_session
    enter_room announce_kick announce_join send_user_list lookup insert text_dec
late_unsubscribe_example = late_unsubscribe 9 none 0 1 with_ann late refl refl refl
