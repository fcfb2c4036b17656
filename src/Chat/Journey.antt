-- ===== src/Chat/Journey.antt =====
-- A line of chat from the frame that a client of one server sends to the frame that a client of
-- another gets: `ReadPump`, `Run`, `ListenToRedis`, `Run` and `WritePump`.
use websocket_challenge.Base.{
  some, ℕ, ◌≡◌, ◌<◌, refl, ap, ◌∙◌, Bool, true, false, [], ◌∷◌, ◌++◌, length, Text, arith, contains,
  split,
}
use websocket_challenge.Limiter.{allow}
use websocket_challenge.Messages.{Message, Payload, marshal, unmarshal, chat}
use websocket_challenge.Chat.Hub.{
  Frame, live, Hub, publish, ok, persistence_capacity, handle_broadcast, handle_signal, is_ack,
}
use websocket_challenge.Chat.Hub.Invariant.{IsHub, is_session}
use websocket_challenge.Chat.Hub.Delivery.{after_message}
use websocket_challenge.Chat.Hub.Signals.{published_as, IsPlain}
use websocket_challenge.Chat.Hub.Crossing.{crossing}
use websocket_challenge.Chat.Pump.{
  Reader, starts_with_slash, stamp, submit, handle_message, handle_frame, read_pump,
}
use websocket_challenge.Chat.Pump.Writing.{written, write_pump, write_pump-split}

-- A line of chat that is no command goes into the broadcast channel with its stamps.
read_pump-line :
    (seconds now new_id c : ℕ) (p : Payload) (r : Reader) (h : Hub)
    → (allow seconds r.limiter).1 ≡ true
    → p.kind ≡ chat
    → starts_with_slash p.content ≡ false
    → (read_pump seconds now new_id c (some p) r (record h { broadcast = [] })).1
      ≡ ok (record h { broadcast = stamp now new_id c (unmarshal p) h ∷ [] })
unfolding read_pump handle_frame handle_message submit stamp unmarshal
read_pump-line seconds now new_id c p r h a k plain = ground (arith, a, k, plain)

-- The share of a client of the room whose channel is empty.
after_message-room :
    (m : Message) (p : Payload) (h : Hub) (d : ℕ)
    → is_session d h ≡ true
    → (h.client d).room_id ≡ m.room_id
    → (h.client d).send ≡ []
    → (after_message chat m p h d).send ≡ live p ∷ []
after_message-room m p h d s room empty = ground (arith, s, room, empty)

module _ (hash : Text → ℕ) (encode : Frame → Text)
    (single_line : (m : Frame) → contains (encode m) 10 ≡ false) where
  -- A client of the server `h` sends a line of chat, within its rate, no command and no signal's
  -- text, while `h` has nothing else to broadcast and room in the database's queue, and Redis takes
  -- it. Then every client of the room on a well-formed server `g` that has nothing else to
  -- broadcast gets, if its channel was empty, a frame of one line, the JSON of the message that
  -- `h` published: with the text of the sender, but the name and the room that `h` has for it.
  pub line_crosses :
      (published : Bool) (seconds now new_id later c d : ℕ) (p : Payload) (r : Reader) (h g : Hub)
      → (allow seconds r.limiter).1 ≡ true
      → p.kind ≡ chat
      → starts_with_slash p.content ≡ false
      → IsPlain p.content
      → length h.persistence_queue < persistence_capacity
      → IsHub (record g { broadcast = [] })
      → is_session d g ≡ true
      → (g.client d).room_id ≡ (h.client c).room_id
      → (g.client d).send ≡ []
      → let m = stamp now new_id c (unmarshal p) h in
        let sent = published_as m h in
        (h' g' g'' : Hub) × (m' : Message) × (s : Text) × ((read_pump seconds now new_id c
            (some p)
            r
            (record h { broadcast = [] })).1
          ≡ ok (record h { broadcast = m ∷ [] }))
        × (handle_broadcast true m (record h { broadcast = [] }) ≡ ok h')
        × (h'.commands ≡ h.commands ++ publish (h.client c).room_id sent ∷ [])
        × (handle_signal hash later (some sent) (record g { broadcast = [] })
            ≡ ok (record g { broadcast = m' ∷ [] }))
        × (handle_broadcast published m' (record g { broadcast = [] }) ≡ ok g')
        × (write_pump encode true true d g' ≡ (g'', written s))
        × (split 10 s ≡ encode (live sent) ∷ [])
        × (sent.sender ≡ (h.client c).name)
        × (sent.content ≡ p.content)
  unfolding stamp unmarshal marshal
  line_crosses published seconds now new_id later c d p r h g a k slash plain space v session room
        empty =
      let m = stamp now new_id c (unmarshal p) h in
      let (h', g', m', e₁, e₂, e₃, e₄, f) =
        crossing hash later published m (record h { broadcast = [] }) g refl plain (ap is_ack k)
          space v in
      let (g'', s, e₅, lines, _) =
        write_pump-split encode single_line d (live (published_as m h)) [] g' (
          ap (λ cl. cl.send) (f d)
          ∙ ap (λ t. (after_message t m (published_as m h) g d).send) k
          ∙ after_message-room m (published_as m h) g d session room empty) in
      (
        h',
        g',
        g'',
        m',
        s,
        read_pump-line seconds now new_id c p r h a k slash,
        e₁,
        e₂,
        e₃,
        e₄,
        e₅,
        lines,
        refl,
        refl,
      )
