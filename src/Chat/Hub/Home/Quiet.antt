-- ===== src/Chat/Hub/Home/Quiet.antt =====
-- The ring is left alone by everything a hub does but for what it hears and its watcher's ticks.
use websocket_challenge.Base.{
  ℕ, ◌≡◌, ◌∙◌, sym, subst, refl, Bool, Option, none, some, arith, Bool-cases, inl, inr, Text,
}
use websocket_challenge.Messages.{Message, Payload}
use websocket_challenge.Chat.Hub.State.{Hub, ok, send_broadcast}
use websocket_challenge.Chat.Hub.Sessions.{
  leave_room, drop_session, after_lock, manage_subscription, enter_room, announce_kick,
  announce_join,
}
use websocket_challenge.Chat.Hub.Broadcast.{deliver, forward, handle_broadcast}
use websocket_challenge.Chat.Hub.Cluster.{kick_sender, ingest}
use websocket_challenge.Chat.Hub.Invariant.{IsHub}
use websocket_challenge.Chat.Hub.Delivery.Dispatch.{handle_broadcast_remote}
use websocket_challenge.Chat.Hub.Runs.{enter}
use websocket_challenge.Chat.Hub.Runs.Parts.{ok-injective}

-- The ring, the times of other servers and the server's name are the same.
pub record SameRing (h h' : Hub) : Type 0 where
  pub ring : h'.ring ≡ h.ring
  pub last_seen : h'.last_seen ≡ h.last_seen
  pub server_id : h'.server_id ≡ h.server_id

pub SameRing-refl : (h : Hub) → SameRing h h
SameRing-refl h = record { ring = refl; last_seen = refl; server_id = refl }

pub SameRing-trans : (a b c : Hub) → SameRing a b → SameRing b c → SameRing a c
SameRing-trans a b c p q = record {
  ring = q.ring ∙ p.ring;
  last_seen = q.last_seen ∙ p.last_seen;
  server_id = q.server_id ∙ p.server_id;
}

pub after_lock-SameRing : (c : ℕ) (h : Hub) → SameRing h (after_lock c h).0
unfolding after_lock leave_room drop_session
after_lock-SameRing c h = record {
  ring = ground arith;
  last_seen = ground arith;
  server_id = ground arith;
}

pub manage_subscription-SameRing : (r : Text) (h : Hub) → SameRing h (manage_subscription r h)
unfolding manage_subscription
manage_subscription-SameRing r h = record {
  ring = ground arith;
  last_seen = ground arith;
  server_id = ground arith;
}

pub send_broadcast-SameRing :
    (m : Message) (h h' : Hub) → send_broadcast m h ≡ ok h' → SameRing h h'
unfolding send_broadcast
send_broadcast-SameRing m h h' e = record {
  ring = ground arith;
  last_seen = ground arith;
  server_id = ground arith;
}

pub deliver-SameRing : (p : Payload) (c : ℕ) (h h' : Hub) → deliver p c h ≡ ok h' → SameRing h h'
unfolding deliver
deliver-SameRing p c h h' e = record {
  ring = ground arith;
  last_seen = ground arith;
  server_id = ground arith;
}

pub enter-SameRing : (now c : ℕ) (h : Hub) → SameRing h (enter now c h)
unfolding enter enter_room announce_kick announce_join
enter-SameRing now c h = record {
  ring = ground arith;
  last_seen = ground arith;
  server_id = ground arith;
}

forward-SameRing :
    (published : Bool) (m : Message) (h h' : Hub) → forward published m h ≡ ok h' → SameRing h h'
unfolding forward
forward-SameRing published m h h' e = record {
  ring = ground arith;
  last_seen = ground arith;
  server_id = ground arith;
}

pub handle_broadcast-SameRing :
    (published : Bool) (m : Message) (h h' : Hub)
    → IsHub h
    → handle_broadcast published m h ≡ ok h'
    → SameRing h h'
unfolding handle_broadcast
handle_broadcast-SameRing published m h h' v e = elim (Bool-cases m.from_redis) [
  | inl remote ↦
      let (g, e', _, s, _) = handle_broadcast_remote published m h v remote in
      subst (SameRing h) (ok-injective g h' (sym e' ∙ e))
        (record { ring = s.ring; last_seen = s.last_seen; server_id = s.server_id })
  | inr here_ ↦ forward-SameRing published m h h' (ground arith)
]

pub kick_sender-SameRing : (o : Option ℕ) (h : Hub) → SameRing h (kick_sender o h)
unfolding kick_sender
kick_sender-SameRing none h = SameRing-refl h
kick_sender-SameRing (some c) h = record { ring = refl; last_seen = refl; server_id = refl }

pub ingest-SameRing : (m : Message) (h h' : Hub) → ingest m h ≡ ok h' → SameRing h h'
unfolding ingest
ingest-SameRing m h h' e = record {
  ring = ground arith;
  last_seen = ground arith;
  server_id = ground arith;
}
