-- ===== src/Chat/Hub/Cluster.antt =====
-- `announceServerAdd`, `AnnounceServerLeave`, the loop of `ListenToRedis` on one message, and the
-- loop of `IsOnline` on one tick. Times are in nanoseconds.
use websocket_challenge.Base.{
  ℕ, ◌-◌, ◌++◌, Bool, true, false, Option, none, some, [], ◌∷◌, length, ltb, if◌then◌else◌, Text,
  ◌≟◌, codes, cut_prefix, Dict, lookup, insert, erase, text_dec,
}
use websocket_challenge.Messages.{
  Message, Payload, MessageType, ack, system, marshal, unmarshal, blank,
}
use websocket_challenge.Hashing.{add, remove}
use websocket_challenge.Chat.Hub.State.{
  Hub, publish, subscribe, cleanup, Result, ok, waiting, command, spawn, global_signals,
  broadcast_capacity,
}

abbrev pub join_prefix : Text
join_prefix = codes "JOIN:"

abbrev pub leave_prefix : Text
leave_prefix = codes "LEAVE:"

unfoldable pub announcement : Text → Text → Payload
announcement prefix server_id =
    marshal (record blank { sender = codes "SYSTEM"; content = prefix ++ server_id; kind = system })

unfoldable pub announce_server_add : Hub → Hub
announce_server_add h = command (publish global_signals (announcement join_prefix h.server_id)) h

unfoldable pub announce_server_leave : Hub → Hub
announce_server_leave h = command (publish global_signals (announcement leave_prefix h.server_id)) h

abbrev pub is_ack : MessageType → Bool
is_ack ack = true
is_ack _ = false

-- The branch `m.Type == types.TypeAck` of the listener: the local session of the sender is cleaned
-- up by a new goroutine.
unfoldable pub kick_sender : Option ℕ → Hub → Hub
kick_sender none h = h
kick_sender (some c) h = spawn (cleanup c) h

-- `h.Broadcast <- &m` from the listener, which may wait for `Run`.
unfoldable pub ingest : Message → Hub → Result
ingest m h =
    if ltb (length h.broadcast) broadcast_capacity
    then ok (record h { broadcast = h.broadcast ++ record m { from_redis = true } ∷ [] })
    else waiting

-- `now.Sub(lastTime) > 20*time.Second`
abbrev pub is_silent : ℕ → ℕ → Bool
is_silent now last = ltb 20000000000 (now - last)

module _ (hash : Text → ℕ) where
  unfoldable pub server_joined : ℕ → Text → Hub → Hub
  server_joined now new_id h =
      let (ring', added) = add hash new_id h.ring in
      if added
      then announce_server_add
          (record h { ring = ring'; last_seen = insert text_dec new_id now h.last_seen })
      else record h { ring = ring' }

  unfoldable pub server_left : Text → Hub → Hub
  server_left new_id h = record h { ring = (remove hash new_id h.ring).0 }

  -- The tests of the listener in their order; the texts are what `CutPrefix` found behind the
  -- prefixes "JOIN:" and "LEAVE:".
  unfoldable pub act_on : ℕ → Option Text → Option Text → Message → Hub → Result
  act_on now (some new_id) left m h =
      ok (if new_id ≟ h.server_id then h else server_joined now new_id h)
  act_on now none (some new_id) m h = ok (if new_id ≟ h.server_id then h else server_left new_id h)
  act_on now none none m h =
      if is_ack m.kind
      then ok (kick_sender (lookup text_dec m.sender h.all_clients) h)
      else ingest m h

  -- One message of the channel; `none` stands for a payload that is no JSON object.
  unfoldable pub handle_signal : ℕ → Option Payload → Hub → Result
  unfolding act_on
  handle_signal now none h = ok h
  handle_signal now (some p) h =
      let m = unmarshal p in
      act_on now (cut_prefix m.content join_prefix) (cut_prefix m.content leave_prefix) m h

  -- `for serverID, lastTime := range h.LastSeen`
  unfoldable pub prune : ℕ → Dict Text ℕ → Hub → Hub
  prune now [] h = h
  prune now ((server, last) ∷ rest) h = prune now rest (
      if is_silent now last
      then record h {
        ring = (remove hash server h.ring).0;
        last_seen = erase text_dec server h.last_seen;
      }
      else h)

  -- `for roomID := range h.ActiveSubs`
  unfoldable pub subscribe_all : Dict Text Bool → Hub → Hub
  subscribe_all [] h = h
  subscribe_all ((room_id, _) ∷ rest) h = subscribe_all rest (command (subscribe room_id) h)

  -- One tick of the watcher; `reached` says whether Redis answered the ping.
  unfoldable pub handle_tick : ℕ → Bool → Hub → Hub
  handle_tick now false h = if h.redis_online then record h { redis_online = false } else h
  handle_tick now true h =
      let back =
        command (subscribe global_signals)
          (announce_server_add (record h { redis_online = true })) in
      if h.redis_online
      then prune now h.last_seen (announce_server_add h)
      else subscribe_all h.active_subs back
