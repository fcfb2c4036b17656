-- ===== src/Chat/Pump/Stamping.antt =====
-- What a client cannot forge.
use websocket_challenge.Base.{
  ℕ, ◌-◌, codes, ◌≡◌, ◌≢◌, ◌⊎◌, inl, inr, refl, false, ◌&&◌, Option, none, some, [], ◌∷◌, ◌++◌,
  arith, ltb, length, ==_iff, Bool-cases, Text, ◌≟◌,
}
use websocket_challenge.Limiter.{allow}
use websocket_challenge.Messages.{Message, Payload, unmarshal}
use websocket_challenge.Chat.Hub.{Hub, Result, ok}
use websocket_challenge.Chat.Hub.{is_ack}
use websocket_challenge.Chat.Pump.{
  Reader, is_chat, starts_with_slash, stamp, submit, expand, reply, run_command, handle_message,
  warn, handle_frame, read_pump,
}

-- The stamps that a message of the client must carry in this hub.
pub record IsStamped (now c : ℕ) (h : Hub) (m : Message) : Type 0 where
  pub sender : m.sender ≡ (h.client c).name
  pub room_id : m.room_id ≡ (h.client c).room_id
  pub server : m.sender_server_id ≡ h.server_id
  pub timestamp : m.timestamp ≡ now
  pub is_local : m.from_redis ≡ false
  pub identified : is_ack m.kind ≡ false → m.id ≢ 0

-- What a round of the pump does to the broadcast channel.
abbrev pub Sent : ℕ → ℕ → Hub → Result → Type 0
Sent now c h (ok h') =
    (h'.broadcast ≡ h.broadcast)
    ⊎ ((m : Message) × (h'.broadcast ≡ h.broadcast ++ m ∷ []) × IsStamped now c h m)
Sent now c h _ = Unit

stamp-IsStamped :
    (now new_id c : ℕ) (m : Message) (h : Hub)
    → new_id ≢ 0
    → IsStamped now c h (stamp now new_id c m h)
unfolding stamp
stamp-IsStamped now new_id c m h fresh = record {
  sender = refl;
  room_id = refl;
  server = refl;
  timestamp = refl;
  is_local = refl;
  identified = λ k. ground (arith, k, fresh, ==_iff m.id 0);
}

submit-Sent : (now c : ℕ) (m : Message) (h : Hub) → IsStamped now c h m → Sent now c h (submit m h)
unfolding submit
submit-Sent now c m h s = elim (Bool-cases (ltb (length h.broadcast) 2048)) [
  | inl space ↦ rw space (inr (m, refl, s))
  | inr full ↦ rw full tt
]

reply-Sent : (now c : ℕ) (content : Text) (h : Hub) → Sent now c h (reply content c h)
unfolding reply
reply-Sent now c content h = elim (Bool-cases (h.client c).closed) [
  | inl closed ↦ rw closed tt
  | inr opened ↦ elim (Bool-cases (ltb (length (h.client c).send) 256)) [
    | inl space ↦ rw (opened, space) (inl refl)
    | inr full ↦ rw (opened, full) tt
  ]
]

run_command-Sent :
    (now c : ℕ) (cmd rest : Text) (m : Message) (h : Hub)
    → IsStamped now c h m
    → Sent now c h (run_command cmd rest c m h)
unfolding run_command
run_command-Sent now c cmd rest m h s = elim (Bool-cases (cmd ≟ codes "/help")) [
  | inl e ↦ rw (e, run_command) (reply-Sent now c _ h)
  | inr e ↦ elim (Bool-cases (cmd ≟ codes "/ping")) [
    | inl e' ↦ rw (e, e', run_command) (reply-Sent now c _ h)
    | inr e' ↦
        rw (e, e', run_command)
          (submit-Sent now c (record m { content = expand cmd rest m.content }) h
            (record {
              sender = s.sender;
              room_id = s.room_id;
              server = s.server;
              timestamp = s.timestamp;
              is_local = s.is_local;
              identified = s.identified;
            }))
  ]
]

handle_message-Sent :
    (now c : ℕ) (m : Message) (h : Hub) → IsStamped now c h m → Sent now c h (handle_message c m h)
unfolding handle_message
handle_message-Sent now c m h s =
    elim (Bool-cases (is_chat m.kind && starts_with_slash m.content)) [
      | inl e ↦ rw (e, handle_message) (run_command-Sent now c _ _ m h s)
      | inr e ↦ rw (e, handle_message) (submit-Sent now c m h s)
    ]

handle_frame-Sent :
    (now new_id c : ℕ) (p : Option Payload) (h : Hub)
    → new_id ≢ 0
    → Sent now c h (handle_frame now new_id c p h)
unfolding handle_frame
handle_frame-Sent now new_id c none h fresh = inl refl
handle_frame-Sent now new_id c (some p) h fresh =
    handle_message-Sent now c _ h (stamp-IsStamped now new_id c (unmarshal p) h fresh)

warn-Sent : (now c : ℕ) (r : Reader) (h : Hub) → Sent now c h (warn now c r h).1
unfolding warn
warn-Sent now c r h = elim (Bool-cases (ltb 3000000000 (now - r.last_warning))) [
  | inr recent ↦ rw (recent, warn) (inl refl)
  | inl due ↦ elim (Bool-cases (h.client c).closed) [
    | inl closed ↦ rw (due, closed, warn) tt
    | inr opened ↦ elim (Bool-cases (ltb (length (h.client c).send) 256)) [
      | inl space ↦ rw (due, opened, space, warn) (inl refl)
      | inr full ↦ rw (due, opened, full, warn) (inl refl)
    ]
  ]
]

-- Whatever a client writes, in any frame and at any rate, a round of its read pump that ends puts
-- nothing into the broadcast channel or one message, which carries the client's own name and room,
-- this server's id and time, is marked as local, and has an id, if it is no acknowledgement and
-- the ids that the server makes are not nil.
pub read_pump-Sent :
    (seconds now new_id c : ℕ) (p : Option Payload) (r : Reader) (h : Hub)
    → new_id ≢ 0
    → Sent now c h (read_pump seconds now new_id c p r h).1
unfolding read_pump
read_pump-Sent seconds now new_id c p r h fresh = elim (Bool-cases (allow seconds r.limiter).1) [
  | inl e ↦ rw (e, read_pump) (handle_frame-Sent now new_id c p h fresh)
  | inr e ↦
      rw (e, read_pump) (warn-Sent now c (record r { limiter = (allow seconds r.limiter).0 }) h)
]
