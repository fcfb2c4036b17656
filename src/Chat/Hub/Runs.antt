-- ===== src/Chat/Hub/Runs.antt =====
-- Histories of the hub: the cases of `Run`, the goroutines of clients, the listener and the watcher
-- interleave in any order, one step at a time.
pub mod Parts
pub mod Panics
use websocket_challenge.Base.{
  ℕ, ◌≡◌, ◌≢◌, inl, inr, refl, ap, subst, sym, ◌∙◌, Bool, true, false, ◌&&◌, Option, none, some,
  List, [], ◌∷◌, arith, ==_iff, Bool-cases, Text, ◌≟◌, Dict, lookup, erase, text_dec,
}
use websocket_challenge.Messages.{
  Message, MessageType, private, ack, Payload, StoredMessage, unmarshal,
}
use websocket_challenge.Hashing.{Ring, remove}
use websocket_challenge.Chat.Hub.State.{
  Frame, Client, Hub, Command, ok, panicked, set_client, command, spawn, subscribe, s_add,
  replay_history, broadcast_user_list, users_key, global_signals, send_broadcast,
}
use websocket_challenge.Chat.Hub.Sessions.{
  leave_room, drop_session, after_lock, close_client, cleanup_client, manage_subscription,
  enter_room, announce_kick, announce_join,
}
use websocket_challenge.Chat.Hub.Broadcast.{deliver, forward, handle_broadcast}
use websocket_challenge.Chat.Hub.Cluster.{
  is_ack, kick_sender, ingest, act_on, server_joined, server_left, handle_signal, prune,
  subscribe_all, handle_tick, announce_server_add,
}
use websocket_challenge.Chat.Hub.Invariant.{is_session, IsHub}
use websocket_challenge.Chat.Hub.Invariant.Cleanup.{cleanup_client-IsHub, cleanup_client-is_session}
use websocket_challenge.Chat.Hub.Invariant.Register.{IsHub-same, enter_room-IsHub}
use websocket_challenge.Chat.Hub.Invariant.Cases.{manage_subscription-idle}
use websocket_challenge.Chat.Hub.Delivery.Dispatch.{handle_broadcast_remote}
use websocket_challenge.Chat.Hub.Runs.Parts.{
  ok-injective, IsHub-of_maps, IsHub-of_rest, send_broadcast-IsHub, forward-IsHub,
  handle_broadcast-IsHub, kick_sender-IsHub, ingest-IsHub, accept-IsHub,
}

-- The hub that `NewHub` makes, before any client.
unfoldable pub new_hub : Text → Bool → Ring → (ℕ → Client) → Hub
new_hub server_id redis_online ring client = record {
  client = client;
  all_clients = [];
  rooms = [];
  broadcast = [];
  persistence_queue = [];
  server_id = server_id;
  active_subs = [];
  ring = ring;
  redis_online = redis_online;
  last_seen = [];
  commands = [];
  tasks = [];
}

-- The register case from the point where the name is free: `AllClients` has no session to replace,
-- or `cleanupClient` of the old one has come back.
unfoldable pub enter : ℕ → ℕ → Hub → Hub
enter now c h =
    let h₂ =
      command (s_add (users_key (h.client c).room_id) (h.client c).name) (announce_kick c h) in
    announce_join now c (spawn (replay_history c) (enter_room c h₂))

-- `cleanupClient` from the point where it has given the lock back, but for `Unsubscribe`.
unfoldable pub after_unlock : ℕ → Hub → Hub
after_unlock c h = close_client c (spawn (broadcast_user_list (h.client c).room_id) h)

-- `message.Type` is one of those whose clients are looked up under the lock, and sent to after it
-- is given back.
abbrev pub is_addressed : MessageType → Bool
is_addressed private = true
is_addressed ack = true
is_addressed _ = false

module _ (hash : Text → ℕ) where
  -- Each step is a critical section of `mu`, or touches one channel or Redis only. `cleanupClient`,
  -- by whichever goroutine, is the steps `locks`, `issues` and `closes`; the register case is these
  -- for the old session, `enters`, `sends`; the unregister case is `cleanupClient`, `manages`,
  -- `sends`; a private message or an acknowledgement is `takes`, then `delivers` for each client
  -- found; and other steps may come between. `accepts` makes a client, `reads` is its write pump,
  -- and `sends` its read pump. The relation supposes that a client registers once, before its
  -- cleanup begins: `enters` needs it open, and `closes` needs that it is no session.
  pub data Step (h h' : Hub) : Type 0 where
    accepts : (c : ℕ) (cl : Client) → is_session c h ≡ false → h' ≡ set_client c cl h → Step h h'
    enters :
        (now c : ℕ)
        → (h.client c).closed ≡ false
        → lookup text_dec (h.client c).name h.all_clients ≡ none
        → h' ≡ enter now c h
        → Step h h'
    locks : (c : ℕ) → (h.client c).closed ≡ false → h' ≡ (after_lock c h).0 → Step h h'
    issues : (x : Command) → h' ≡ command x h → Step h h'
    closes : (c : ℕ) → is_session c h ≡ false → h' ≡ after_unlock c h → Step h h'
    manages : (room_id : Text) → h' ≡ manage_subscription room_id h → Step h h'
    broadcasts :
        (published : Bool) (m : Message) (rest : List Message)
        → h.broadcast ≡ m ∷ rest
        → m.from_redis && is_addressed m.kind ≡ false
        → handle_broadcast published m (record h { broadcast = rest }) ≡ ok h'
        → Step h h'
    takes :
        (m : Message) (rest : List Message)
        → h.broadcast ≡ m ∷ rest
        → m.from_redis && is_addressed m.kind ≡ true
        → h' ≡ record h { broadcast = rest }
        → Step h h'
    delivers : (p : Payload) (c : ℕ) → deliver p c h ≡ ok h' → Step h h'
    sends : (m : Message) → send_broadcast m h ≡ ok h' → Step h h'
    reads :
        (c : ℕ) (frames : List Frame)
        → h' ≡ set_client c (record (h.client c) { send = frames }) h
        → Step h h'
    stores :
        (m : StoredMessage) (rest : List StoredMessage)
        → h.persistence_queue ≡ m ∷ rest
        → h' ≡ record h { persistence_queue = rest }
        → Step h h'
    hears : (now : ℕ) (p : Option Payload) → handle_signal hash now p h ≡ ok h' → Step h h'
    ticks : (now : ℕ) (reached : Bool) → h' ≡ handle_tick hash now reached h → Step h h'

  pub data Reach (h : Hub) : Hub → Type 0 where
    here : Reach h h
    next : {g k : Hub} → Reach h g → Step g k → Reach h k

deliver-IsHub : (p : Payload) (c : ℕ) (h h' : Hub) → IsHub h → deliver p c h ≡ ok h' → IsHub h'
unfolding deliver
deliver-IsHub p c h h' v e =
    IsHub-of_maps h h' v (ground arith) (ground arith) (ground arith) (λ d. ground arith)

enter-IsHub :
    (now c : ℕ) (h : Hub)
    → (h.client c).closed ≡ false
    → lookup text_dec (h.client c).name h.all_clients ≡ none
    → IsHub h
    → IsHub (enter now c h)
unfolding enter announce_join announce_kick
enter-IsHub now c h up free v =
    IsHub-same _ _ _ _ (enter_room-IsHub c _ (IsHub-same h _ _ _ v) up free)

-- What `cleanupClient` leaves under the lock is what it leaves in the end, with the client open.
after_lock-IsHub :
    (c : ℕ) (h : Hub) → (h.client c).closed ≡ false → IsHub h → IsHub (after_lock c h).0
unfolding cleanup_client after_lock leave_room drop_session close_client
after_lock-IsHub c h up v =
    let old : is_session c (cleanup_client c h) ≡ false =
      ground (arith, cleanup_client-is_session c h up v c, ==_iff c c) in
    IsHub-of_maps (set_client c (h.client c) (cleanup_client c h)) (after_lock c h).0
      (accept-IsHub c (h.client c) (cleanup_client c h) old (cleanup_client-IsHub c h v))
      (ground arith) (ground arith) (ground arith) (λ d. ground arith)

module _ (hash : Text → ℕ) where
  prune-kept :
      (now : ℕ) (d : Dict Text ℕ) (h : Hub)
      → let g = prune hash now d h in
        (g.client ≡ h.client)
        × (g.all_clients ≡ h.all_clients)
        × (g.rooms ≡ h.rooms)
        × (g.active_subs ≡ h.active_subs)
  unfolding prune
  prune-kept now [] h = (refl, refl, refl, refl)
  prune-kept now ((server, last) ∷ rest) h = ground (
    arith,
    prune-kept now rest h,
    prune-kept now rest (record h {
      ring = (remove hash server h.ring).0;
      last_seen = erase text_dec server h.last_seen;
    }),
  )

  subscribe_all-kept :
      (d : Dict Text Bool) (h : Hub)
      → let g = subscribe_all hash d h in
        (g.client ≡ h.client)
        × (g.all_clients ≡ h.all_clients)
        × (g.rooms ≡ h.rooms)
        × (g.active_subs ≡ h.active_subs)
  unfolding subscribe_all
  subscribe_all-kept [] h = (refl, refl, refl, refl)
  subscribe_all-kept ((r, b) ∷ rest) h = subscribe_all-kept rest _

  handle_tick-IsHub :
      (now : ℕ) (reached : Bool) (h : Hub) → IsHub h → IsHub (handle_tick hash now reached h)
  unfolding handle_tick announce_server_add
  handle_tick-IsHub now false h v =
      IsHub-of_rest h _ v (ground arith) (ground arith) (ground arith) (ground arith)
  handle_tick-IsHub now true h v = elim (Bool-cases h.redis_online) [
    | inl on ↦
        let k = prune-kept now h.last_seen (announce_server_add h) in
        IsHub-of_rest h _ v (ground arith) (ground arith) (ground arith) (ground arith)
    | inr off ↦
        let k = subscribe_all-kept h.active_subs (
          command (subscribe global_signals)
            (announce_server_add (record h { redis_online = true }))) in
        IsHub-of_rest h _ v (ground arith) (ground arith) (ground arith) (ground arith)
  ]

  server_joined-IsHub :
      (now : ℕ) (id : Text) (h : Hub) → IsHub h → IsHub (server_joined hash now id h)
  unfolding server_joined announce_server_add
  server_joined-IsHub now id h v =
      IsHub-of_rest h _ v (ground arith) (ground arith) (ground arith) (ground arith)

  server_left-IsHub : (id : Text) (h : Hub) → IsHub h → IsHub (server_left hash id h)
  unfolding server_left
  server_left-IsHub id h v = IsHub-of_rest h _ v refl refl refl refl

  act_on-IsHub :
      (now : ℕ) (joined left : Option Text) (m : Message) (h h' : Hub)
      → IsHub h
      → act_on hash now joined left m h ≡ ok h'
      → IsHub h'
  unfolding act_on
  act_on-IsHub now (some id) left m h h' v e =
      subst IsHub (ok-injective _ h' e) (elim (Bool-cases (id ≟ h.server_id)) [
        | inl own ↦ rw own v
        | inr other_ ↦ rw other_ (server_joined-IsHub now id h v)
      ])
  act_on-IsHub now none (some id) m h h' v e =
      subst IsHub (ok-injective _ h' e) (elim (Bool-cases (id ≟ h.server_id)) [
        | inl own ↦ rw own v
        | inr other_ ↦ rw other_ (server_left-IsHub id h v)
      ])
  act_on-IsHub now none none m h h' v e = elim (Bool-cases (is_ack m.kind)) [
    | inl k ↦
        subst IsHub (ok-injective _ h' (ground (arith, e, k)))
          (kick_sender-IsHub (lookup text_dec m.sender h.all_clients) h v)
    | inr k ↦ ingest-IsHub m h h' v (ground (arith, e, k))
  ]

  handle_signal-IsHub :
      (now : ℕ) (p : Option Payload) (h h' : Hub)
      → IsHub h
      → handle_signal hash now p h ≡ ok h'
      → IsHub h'
  unfolding handle_signal
  handle_signal-IsHub now none h h' v e = subst IsHub (ok-injective h h' e) v
  handle_signal-IsHub now (some p) h h' v e = act_on-IsHub now _ _ (unmarshal p) h h' v e

  -- Every step keeps the hub well formed.
  pub Step-IsHub : {h h' : Hub} → Step hash h h' → IsHub h → IsHub h'
  unfolding after_unlock close_client
  Step-IsHub {h} {h'} (accepts c cl old e) v = rw e (accept-IsHub c cl h old v)
  Step-IsHub {h} {h'} (enters now c up free e) v = rw e (enter-IsHub now c h up free v)
  Step-IsHub {h} {h'} (locks c up e) v = rw e (after_lock-IsHub c h up v)
  Step-IsHub {h} {h'} (issues x e) v = rw e (IsHub-of_rest h _ v refl refl refl refl)
  Step-IsHub {h} {h'} (closes c old e) v = rw e (
      accept-IsHub c _ _ old (
        IsHub-of_rest h (spawn (broadcast_user_list (h.client c).room_id) h) v refl refl refl refl))
  Step-IsHub {h} {h'} (manages room_id e) v = rw (e, manage_subscription-idle room_id h v) v
  Step-IsHub {h} {h'} (broadcasts published m rest q k e) v =
      handle_broadcast-IsHub published m (record h { broadcast = rest }) h'
        (IsHub-of_rest h _ v refl refl refl refl) e
  Step-IsHub {h} {h'} (takes m rest q k e) v = rw e (IsHub-of_rest h _ v refl refl refl refl)
  Step-IsHub {h} {h'} (delivers p c e) v = deliver-IsHub p c h h' v e
  Step-IsHub {h} {h'} (sends m e) v = send_broadcast-IsHub m h h' v e
  Step-IsHub {h} {h'} (reads c frames e) v =
      rw e (IsHub-of_maps h _ v refl refl refl (λ d. ground arith))
  Step-IsHub {h} {h'} (stores m rest q e) v = rw e (IsHub-of_rest h _ v refl refl refl refl)
  Step-IsHub {h} {h'} (hears now p e) v = handle_signal-IsHub now p h h' v e
  Step-IsHub {h} {h'} (ticks now reached e) v = rw e (handle_tick-IsHub now reached h v)

  pub Reach-IsHub : {h h' : Hub} → IsHub h → Reach hash h h' → IsHub h'
  Reach-IsHub v here = v
  Reach-IsHub v (next r s) = Step-IsHub s (Reach-IsHub v r)

  pub new_hub-IsHub :
      (server_id : Text) (online : Bool) (ring : Ring) (client : ℕ → Client)
      → IsHub (new_hub server_id online ring client)
  unfolding new_hub lookup
  new_hub-IsHub server_id online ring client = record {
    members = λ r c. refl;
    distinct = λ r. tt;
    named = λ n c e. cc;
    opened = λ c e. cc;
    nonempty = λ r. λ e. cc;
    subscribed = λ r. refl;
  }

  forward-ne-panicked :
      (published : Bool) (m : Message) (h : Hub) → forward published m h ≢ panicked
  unfolding forward
  forward-ne-panicked published m h = ground arith

  -- In every hub that steps lead to from a new one, in any order and with any clients, each of
  -- which registers once and before its cleanup begins, the maps tell one story; and the broadcast
  -- case, run from there in one go, does not panic, whatever the message, local or from Redis.
  -- A local message and one for a room are handled in one go; a private message and an
  -- acknowledgement need not be, since the code gives the lock back before it sends.
  pub reachable-IsHub :
      (server_id : Text) (online : Bool) (ring : Ring) (client : ℕ → Client) (h : Hub)
      → Reach hash (new_hub server_id online ring client) h
      → IsHub h × ((published : Bool) (m : Message) → handle_broadcast published m h ≢ panicked)
  unfolding handle_broadcast
  reachable-IsHub server_id online ring client h r =
      let v = Reach-IsHub (new_hub-IsHub server_id online ring client) r in (v, safe v)
    where
      safe : IsHub h → (published : Bool) (m : Message) → handle_broadcast published m h ≢ panicked
      safe v published m e = elim (Bool-cases m.from_redis) [
        | inl remote ↦
            let (g, e', _, _, _) = handle_broadcast_remote published m h v remote in
            ground (arith, sym e' ∙ e)
        | inr local_ ↦ forward-ne-panicked published m h (ground (arith, e, local_))
      ]
