-- ===== src/Chat/Hub/Delivery/Loop.antt =====
-- The sends of the broadcast case, one and many, never panic on open clients.
use websocket_challenge.Base.{
  ℕ, ◌≡◌, inl, inr, refl, ap, ◌∙◌, Bool, true, false, List, [], ◌∷◌, arith, ltb, ◌==◌, ==_iff,
  Bool-cases, contains, IsNodup, length,
}
use websocket_challenge.Messages.{Payload}
use websocket_challenge.Chat.Hub.State.{
  Client, Hub, Task, unregister, set_client, spawn, Result, ok, send_capacity,
}
use websocket_challenge.Chat.Hub.Broadcast.{deliver, deliver_all}
use websocket_challenge.Chat.Hub.Delivery.{push, push_if}

-- Only channels and tasks differ.
pub record SameMaps (h h' : Hub) : Type 0 where
  pub all_clients : h'.all_clients ≡ h.all_clients
  pub rooms : h'.rooms ≡ h.rooms
  pub active_subs : h'.active_subs ≡ h.active_subs
  pub broadcast : h'.broadcast ≡ h.broadcast
  pub persistence_queue : h'.persistence_queue ≡ h.persistence_queue
  pub commands : h'.commands ≡ h.commands
  pub ring : h'.ring ≡ h.ring
  pub last_seen : h'.last_seen ≡ h.last_seen
  pub server_id : h'.server_id ≡ h.server_id

abbrev pub SentBy : Hub → Result → (ℕ → Client) → Type 0
SentBy h r f = (h' : Hub) × (r ≡ ok h') × SameMaps h h' × ((d : ℕ) → h'.client d ≡ f d)

pub SameMaps-touched :
    (h : Hub) (f : ℕ → Client) (t : List Task) → SameMaps h (record h { client = f; tasks = t })
SameMaps-touched h f t = record {
  all_clients = refl;
  rooms = refl;
  active_subs = refl;
  broadcast = refl;
  persistence_queue = refl;
  commands = refl;
  ring = refl;
  last_seen = refl;
  server_id = refl;
}

pub SameMaps-trans : (a b c : Hub) → SameMaps a b → SameMaps b c → SameMaps a c
SameMaps-trans a b c p q = record {
  all_clients = q.all_clients ∙ p.all_clients;
  rooms = q.rooms ∙ p.rooms;
  active_subs = q.active_subs ∙ p.active_subs;
  broadcast = q.broadcast ∙ p.broadcast;
  persistence_queue = q.persistence_queue ∙ p.persistence_queue;
  commands = q.commands ∙ p.commands;
  ring = q.ring ∙ p.ring;
  last_seen = q.last_seen ∙ p.last_seen;
  server_id = q.server_id ∙ p.server_id;
}

-- One send to an open client.
pub deliver-SentBy :
    (p : Payload) (c : ℕ) (h : Hub)
    → (h.client c).closed ≡ false
    → SentBy h (deliver p c h) (λ d. push_if (d == c) p (h.client d))
unfolding deliver
deliver-SentBy p c h e = elim (Bool-cases (ltb (length (h.client c).send) send_capacity)) [
  | inl space ↦ (
    set_client c (push p (h.client c)) h,
    ground arith,
    SameMaps-touched h _ h.tasks,
    λ d. ground arith,
  )
  | inr full ↦
      (spawn (unregister c) h, ground arith, SameMaps-touched h h.client _, λ d. ground arith)
]

pub push-closed : (b : Bool) (p : Payload) (cl : Client) → (push_if b p cl).closed ≡ cl.closed
push-closed b p cl = ground arith

-- The loop over the clients of a room, which are distinct and open.
pub deliver_all-SentBy :
    (p : Payload) (cs : List ℕ) (h : Hub)
    → IsNodup cs
    → ((d : ℕ) → contains cs d ≡ true → (h.client d).closed ≡ false)
    → SentBy h (deliver_all p cs h) (λ d. push_if (contains cs d) p (h.client d))
unfolding deliver_all
deliver_all-SentBy p [] h u opened = (h, refl, SameMaps-touched h h.client h.tasks, λ d. refl)
deliver_all-SentBy p (c ∷ cs) h u opened =
    let (h₁, e₁, s₁, f₁) = deliver-SentBy p c h (opened c (ground (arith, ==_iff c c))) in
    let (h₂, e₂, s₂, f₂) = deliver_all-SentBy p cs h₁ u.1 λ d i.
      ap (λ cl. cl.closed) (f₁ d) ∙ push-closed (d == c) p (h.client d) ∙ opened d (ground arith) in
    (
      h₂,
      rw e₁ e₂,
      SameMaps-trans h h₁ h₂ s₁ s₂,
      λ d. f₂ d ∙ ap (push_if (contains cs d) p) (f₁ d) ∙ once d,
    )
  where
    once :
        (d : ℕ)
        → push_if (contains cs d) p (push_if (d == c) p (h.client d))
          ≡ push_if (contains (c ∷ cs) d) p (h.client d)
    once d = elim (Bool-cases (d == c)) [ inl e ↦ rw (e, (==_iff d c).0 e, u.0) | inr e ↦ rw e ]
