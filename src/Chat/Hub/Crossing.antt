-- ===== src/Chat/Hub/Crossing.antt =====
-- A message on its way from a client of one server to the clients of another.
use websocket_challenge.Base.{
  some, ℕ, ◌≡◌, ◌<◌, refl, ◌∙◌, Bool, true, false, [], ◌∷◌, ◌++◌, length, Text, arith,
}
use websocket_challenge.Messages.{
  Message, MessageType, Payload, marshal, chat, private, system, user_list, ack, typing, kick,
  other,
}
use websocket_challenge.Chat.Hub.State.{Hub, publish, ok, persistence_capacity}
use websocket_challenge.Chat.Hub.Broadcast.{handle_broadcast}
use websocket_challenge.Chat.Hub.Cluster.{is_ack, handle_signal}
use websocket_challenge.Chat.Hub.Invariant.{IsHub}
use websocket_challenge.Chat.Hub.Delivery.{after_message}
use websocket_challenge.Chat.Hub.Delivery.Dispatch.{handle_broadcast_remote, handle_broadcast_local}
use websocket_challenge.Chat.Hub.Signals.{published_as, IsPlain, relay}

-- The shares of a message depend on its room, its sender and its target, and on the hub's
-- maps and clients.
after_message-relayed :
    (k : MessageType) (m : Message) (server_id : Text) (p : Payload) (h : Hub) (d : ℕ)
    → after_message k
        (record m { sender_server_id = server_id; from_redis = true })
        p
        (record h { broadcast = [] })
        d
      ≡ after_message k m p h d
after_message-relayed chat m s p h d = refl
after_message-relayed private m s p h d = refl
after_message-relayed system m s p h d = refl
after_message-relayed user_list m s p h d = refl
after_message-relayed ack m s p h d = refl
after_message-relayed typing m s p h d = refl
after_message-relayed kick m s p h d = refl
after_message-relayed (other t) m s p h d = refl

-- A message of a client of the server `h`, no acknowledgement and without the text of a signal,
-- while the database's queue has room and Redis takes it: `h` publishes it to its room; a server
-- `g` with nothing else to broadcast that hears it queues it; and when the `Run` of `g` takes it,
-- which is well formed, each client of `g` holds what its share of the message says. The share of
-- a typing message, like that of a chat message, goes to every client of the room, also to one
-- that has the sender's name.
pub crossing :
    (hash : Text → ℕ) (now : ℕ) (published : Bool) (m : Message) (h g : Hub)
    → m.from_redis ≡ false
    → IsPlain m.content
    → is_ack m.kind ≡ false
    → length h.persistence_queue < persistence_capacity
    → IsHub (record g { broadcast = [] })
    → (h' g' : Hub) × (m' : Message) × (handle_broadcast true m h ≡ ok h')
      × (h'.commands ≡ h.commands ++ publish m.room_id (published_as m h) ∷ [])
      × (handle_signal hash now (some (published_as m h)) (record g { broadcast = [] })
          ≡ ok (record g { broadcast = m' ∷ [] }))
      × (handle_broadcast published m' (record g { broadcast = [] }) ≡ ok g')
      × ((d : ℕ) → g'.client d ≡ after_message m.kind m (published_as m h) g d)
unfolding marshal
crossing hash now published m h g here plain k space v =
    let (h', e, _, _, c) = handle_broadcast_local true m h here space in
    let m' : Message = record m { sender_server_id = h.server_id; from_redis = true } in
    let idle : Hub = record g { broadcast = [] } in
    let (g', e', _, _, f) = handle_broadcast_remote published m' idle v refl in
    (
      h',
      g',
      m',
      e,
      c,
      relay hash now m h idle plain k (omega arith),
      e',
      λ d. f d ∙ after_message-relayed m.kind m h.server_id (published_as m h) g d,
    )
