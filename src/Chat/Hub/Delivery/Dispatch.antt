-- ===== src/Chat/Hub/Delivery/Dispatch.antt =====
-- The broadcast case on a message that came through Redis, and on one of a local client.
use websocket_challenge.Base.{
  ℕ, lt→ltb, ◌≡◌, ◌≢◌, ◌⊎◌, ◌<◌, refl, ap, ◌∙◌, Bool, true, false, ◌&&◌, [], ◌∷◌, ◌++◌, arith,
  ==_iff, if◌then◌else◌, Option-cases, Text, lookup, text_dec, length,
}
use websocket_challenge.Messages.{
  Message, Payload, MessageType, marshal, message_to_model, is_durable, chat, private, system,
  user_list, ack, typing, kick, other,
}
use websocket_challenge.Chat.Hub.State.{Hub, publish, ok, persistence_capacity}
use websocket_challenge.Chat.Hub.Sessions.{room_of}
use websocket_challenge.Chat.Hub.Broadcast.{forward, handle_broadcast}
use websocket_challenge.Chat.Hub.Invariant.{IsHub}
use websocket_challenge.Chat.Hub.Delivery.{after_message}
use websocket_challenge.Chat.Hub.Delivery.Loop.{SameMaps}
use websocket_challenge.Chat.Hub.Delivery.Sent.{dispatch-SentBy}

-- A send leaves alone who a client is, where, and whether it is open.
after_message-identity :
    (k : MessageType) (m : Message) (p : Payload) (h : Hub) (d : ℕ)
    → let cl = after_message k m p h d in
      (cl.name ≡ (h.client d).name)
      × (cl.room_id ≡ (h.client d).room_id)
      × (cl.closed ≡ (h.client d).closed)
after_message-identity chat m p h d = ground arith
after_message-identity private m p h d = ground arith
after_message-identity system m p h d = ground arith
after_message-identity user_list m p h d = ground arith
after_message-identity ack m p h d = ground arith
after_message-identity typing m p h d = ground arith
after_message-identity kick m p h d = ground arith
after_message-identity (other s) m p h d = ground arith

IsHub-of_SameMaps :
    (h h' : Hub)
    → IsHub h
    → SameMaps h h'
    → ((d : ℕ)
        → ((h'.client d).name ≡ (h.client d).name)
          × ((h'.client d).room_id ≡ (h.client d).room_id)
          × ((h'.client d).closed ≡ (h.client d).closed))
    → IsHub h'
IsHub-of_SameMaps h h' v s same = record {
  members = λ r d. ground (arith, v.members r d, same d, s.all_clients, s.rooms);
  distinct = λ r. rw (room_of_same r) (v.distinct r);
  named = λ n d e. ground (arith, v.named n d, same d, s.all_clients);
  opened = λ d e. ground (arith, v.opened d, same d, s.all_clients);
  nonempty = λ r. rw (s.rooms) (v.nonempty r);
  subscribed = λ r. ground (arith, v.subscribed r, s.rooms, s.active_subs);
}
  where
    room_of_same : (r : Text) → room_of r h' ≡ room_of r h
    room_of_same r = ground (arith, s.rooms)

pub handle_broadcast_remote :
    (published : Bool) (m : Message) (h : Hub)
    → IsHub h
    → m.from_redis ≡ true
    → (h' : Hub) × (handle_broadcast published m h ≡ ok h')
      × IsHub h'
      × SameMaps h h'
      × ((d : ℕ) → h'.client d ≡ after_message m.kind m (marshal m) h d)
unfolding handle_broadcast
handle_broadcast_remote published m h v remote =
    let (h', e, s, f) = dispatch-SentBy m.kind m h v in
    (
      h',
      simp remote e,
      IsHub-of_SameMaps h h' v s (λ d. rw (f d) (after_message-identity m.kind m (marshal m) h d)),
      s,
      f,
    )

private_untouched :
    (m : Message) (p : Payload) (h : Hub) (d : ℕ)
    → IsHub h
    → after_message private m p h d ≢ h.client d
    → ((h.client d).room_id ≡ m.room_id)
      × (((h.client d).name ≡ m.target) ⊎ ((h.client d).name ≡ m.sender))
private_untouched m p h d v ne = ground (
  arith,
  v.named m.target d,
  v.named m.sender d,
  ==_iff d d,
  Option-cases (lookup text_dec m.target h.all_clients),
  Option-cases (lookup text_dec m.sender h.all_clients),
)

-- A private message changes what a client holds only if the client is in the message's room, under
-- the name of its target or of its sender.
pub private_confidential :
    (published : Bool) (m : Message) (h : Hub) (d : ℕ)
    → IsHub h
    → m.from_redis ≡ true
    → m.kind ≡ private
    → (h' : Hub) × (handle_broadcast published m h ≡ ok h')
      × (h'.client d ≢ h.client d
          → ((h.client d).room_id ≡ m.room_id)
            × (((h.client d).name ≡ m.target) ⊎ ((h.client d).name ≡ m.sender)))
private_confidential published m h d v remote k =
    let (h', e, _, _, f) = handle_broadcast_remote published m h v remote in
    (
      h',
      e,
      λ ne.
          private_untouched m (marshal m) h d v
            (λ same. ne (f d ∙ ap (λ t. after_message t m (marshal m) h d) k ∙ same)),
    )

-- A message of a local client, while the database's queue has room, changes no client's channel. It
-- is queued for the database exactly if its type is durable and Redis took it, and then it has been
-- published to its room under this server's name; where Redis did not take it, queue and commands
-- are as before.
pub handle_broadcast_local :
    (published : Bool) (m : Message) (h : Hub)
    → m.from_redis ≡ false
    → length h.persistence_queue < persistence_capacity
    → (h' : Hub) × (handle_broadcast published m h ≡ ok h')
      × (h'.client ≡ h.client)
      × (h'.persistence_queue ≡ (
          if published && is_durable m.kind
          then h.persistence_queue ++ message_to_model m ∷ []
          else h.persistence_queue))
      × (h'.commands ≡ (
          if published
          then h.commands
            ++ publish m.room_id (marshal (record m { sender_server_id = h.server_id })) ∷ []
          else h.commands))
unfolding handle_broadcast forward message_to_model
handle_broadcast_local published m h here space = go published (is_durable m.kind) refl
  where
    go :
        (b k : Bool)
        → is_durable m.kind ≡ k
        → (h' : Hub) × (handle_broadcast b m h ≡ ok h')
          × (h'.client ≡ h.client)
          × (h'.persistence_queue ≡ (
              if b && is_durable m.kind
              then h.persistence_queue ++ message_to_model m ∷ []
              else h.persistence_queue))
          × (h'.commands ≡ (
              if b
              then h.commands
                ++ publish m.room_id (marshal (record m { sender_server_id = h.server_id })) ∷ []
              else h.commands))
    go false k e = (h, simp here, refl, refl, refl)
    go true false e = (
      record h {
        commands =
            h.commands
            ++ publish m.room_id (marshal (record m { sender_server_id = h.server_id })) ∷ [];
      },
      simp (here, e),
      refl,
      simp e,
      refl,
    )
    go true true e = (
      record h {
        commands =
            h.commands
            ++ publish m.room_id (marshal (record m { sender_server_id = h.server_id })) ∷ [];
        persistence_queue = h.persistence_queue ++ message_to_model m ∷ [];
      },
      simp (here, e, lt→ltb _ _ space),
      refl,
      simp e,
      refl,
    )
