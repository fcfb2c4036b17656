-- ===== src/Chat/Hub/Broadcast.antt =====
-- The case `message := <-h.Broadcast` of `Run`. `published` says whether Redis took the message.
use websocket_challenge.Base.{
  ℕ, ◌++◌, Bool, Option, none, some, List, [], ◌∷◌, length, ltb, if◌then◌else◌, Text, ◌≟◌, lookup,
  text_dec,
}
use websocket_challenge.Messages.{
  Message, Payload, MessageType, private, ack, kick, other, marshal, message_to_model, is_durable,
}
use websocket_challenge.Chat.Hub.State.{
  live, publish, unregister, Hub, Result, ok, waiting, panicked, ◌>>=◌, set_client, command, spawn,
  persistence_capacity, send_capacity,
}

-- `select { case client.Send <- payload: default: go … h.Unregister <- c }`
unfoldable pub deliver : Payload → ℕ → Hub → Result
deliver p c h =
    let cl = h.client c in
    if cl.closed
    then panicked
    else if ltb (length cl.send) send_capacity
    then ok (set_client c (record cl { send = cl.send ++ live p ∷ [] }) h)
    else ok (spawn (unregister c) h)

-- `for client := range clients`
unfoldable pub deliver_all : Payload → List ℕ → Hub → Result
deliver_all p [] h = ok h
deliver_all p (c ∷ cs) h = deliver p c h >>= deliver_all p cs

-- `if ok && c.RoomID == message.RoomID`
unfoldable pub deliver_in_room : Payload → Text → Option ℕ → Hub → Result
deliver_in_room p room_id none h = ok h
deliver_in_room p room_id (some c) h =
    if (h.client c).room_id ≟ room_id then deliver p c h else ok h

unfoldable pub deliver_found : Payload → Option ℕ → Hub → Result
deliver_found p none h = ok h
deliver_found p (some c) h = deliver p c h

-- A message that came through Redis goes to the clients of this server.
unfoldable pub deliver_by_type : MessageType → Message → Hub → Result
unfolding deliver_in_room deliver_found
deliver_by_type private m h = do
  h₁ ← deliver_in_room (marshal m) m.room_id (lookup text_dec m.target h.all_clients) h
  deliver_in_room (marshal m) m.room_id (lookup text_dec m.sender h.all_clients) h₁
deliver_by_type ack m h = deliver_found (marshal m) (lookup text_dec m.target h.all_clients) h
deliver_by_type kick m h = ok h
deliver_by_type (other s) m h = ok h
deliver_by_type _ m h = elim (lookup text_dec m.room_id h.rooms) [
  | none ↦ ok h
  | some clients ↦ deliver_all (marshal m) clients h
]

-- A message of a client of this server goes to Redis, and to the database if its type is durable.
unfoldable pub forward : Bool → Message → Hub → Result
forward published m h =
    let m' = record m { sender_server_id = h.server_id } in
    let h' = command (publish m.room_id (marshal m')) h in
    if published
    then if is_durable m.kind
      then if ltb (length h.persistence_queue) persistence_capacity
        then ok (record h' { persistence_queue = h.persistence_queue ++ message_to_model m' ∷ [] })
        else waiting
      else ok h'
    else ok h

unfoldable pub handle_broadcast : Bool → Message → Hub → Result
handle_broadcast published m h =
    if m.from_redis then deliver_by_type m.kind m h else forward published m h
