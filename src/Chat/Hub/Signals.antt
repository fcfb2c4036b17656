-- ===== src/Chat/Hub/Signals.antt =====
-- What the listener does with the messages that servers and clients publish.
use websocket_challenge.Base.{
  ℕ, ◌≡◌, ◌≢◌, ◌<◌, refl, ap, Bool, true, false, none, some, [], ◌∷◌, ◌++◌, arith, Text, codes,
  cut_prefix, cut_prefix-append, lookup, length, ℕ_discrete,
}
use websocket_challenge.Messages.{Message, Payload, kick, marshal, unmarshal}
use websocket_challenge.Hashing.Invariant.{add-refused}
use websocket_challenge.Chat.Hub.State.{Hub, ok, broadcast_capacity}
use websocket_challenge.Chat.Hub.Broadcast.{deliver_by_type, handle_broadcast}
use websocket_challenge.Chat.Hub.Cluster.{
  join_prefix, leave_prefix, is_ack, ingest, server_joined, handle_signal,
}

-- The payload that the broadcast case publishes for a message of a local client.
abbrev pub published_as : Message → Hub → Payload
published_as m h = marshal (record m { sender_server_id = h.server_id })

-- A text that the listener does not take for a signal.
abbrev pub IsPlain : Text → Type 0
IsPlain s = (cut_prefix s join_prefix ≡ none) × (cut_prefix s leave_prefix ≡ none)

module _ (hash : Text → ℕ) (now : ℕ) where
  -- A published message of a client that is neither an acknowledgement nor looks like a signal
  -- enters the broadcast queue of every server that receives it, while there is space: as the
  -- client sent it, but for the publishing server's name and the mark that it came through Redis.
  pub relay :
      (m : Message) (h g : Hub)
      → IsPlain m.content
      → is_ack m.kind ≡ false
      → length g.broadcast < broadcast_capacity
      → handle_signal hash now (some (published_as m h)) g
        ≡ ok (record g {
          broadcast =
              g.broadcast ++ record m { sender_server_id = h.server_id; from_redis = true } ∷ [];
        })
  unfolding handle_signal marshal unmarshal ingest
  relay m h g plain k space = ground (arith, plain.0, plain.1)

  -- The kick signal of another server closes no session: it is queued like a chat message, and the
  -- broadcast case then drops it.
  pub kick_ignored :
      (m : Message) (published : Bool) (h g : Hub)
      → IsPlain m.content
      → m.kind ≡ kick
      → length g.broadcast < broadcast_capacity
      → (g' : Hub) × (q : Message) × (handle_signal hash now (some (published_as m h)) g ≡ ok g')
        × (g'.broadcast ≡ g.broadcast ++ q ∷ [])
        × (handle_broadcast published q g' ≡ ok g')
        × (g'.client ≡ g.client)
        × (g'.tasks ≡ g.tasks)
  unfolding handle_signal marshal unmarshal ingest handle_broadcast deliver_by_type
  kick_ignored m published h g plain k space =
      let q : Message = record m { sender_server_id = h.server_id; from_redis = true } in
      (
        record g { broadcast = g.broadcast ++ q ∷ [] },
        q,
        ground (arith, plain.0, plain.1),
        refl,
        simp k,
        refl,
        refl,
      )

  -- The repeated announcement of a server that is on the ring changes nothing at all, so it does
  -- not renew the time at which the server was last seen.
  pub join_again-ignored :
      (p : Payload) (id : Text) (h : Hub) {s : Text}
      → p.content ≡ join_prefix ++ id
      → id ≢ h.server_id
      → lookup ℕ_discrete (hash (id ++ codes "#0")) h.ring.registry ≡ some s
      → handle_signal hash now (some p) h ≡ ok h
  unfolding handle_signal unmarshal server_joined
  join_again-ignored p id h e ne on = ground (
    arith,
    ap (λ t. cut_prefix t join_prefix) e,
    cut_prefix-append join_prefix id,
    add-refused hash id h.ring on,
  )
