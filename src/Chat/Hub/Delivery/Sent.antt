-- ===== src/Chat/Hub/Delivery/Sent.antt =====
-- What the sends of a broadcast leave in the channels.
use websocket_challenge.Base.{
  ℕ, ◌≡◌, inl, inr, refl, ap, subst, ◌∙◌, false, ◌&&◌, Option, none, some, List, arith, ◌==◌,
  ==_iff, Bool-cases, Option-cases, Text, ◌≟◌, lookup, text_dec, IsNodup,
}
use websocket_challenge.Messages.{
  Message, Payload, MessageType, marshal, chat, private, system, user_list, ack, typing, kick,
  other,
}
use websocket_challenge.Chat.Hub.State.{Hub, ok}
use websocket_challenge.Chat.Hub.Sessions.{holds, room_of}
use websocket_challenge.Chat.Hub.Broadcast.{
  deliver_all, deliver_in_room, deliver_found, deliver_by_type,
}
use websocket_challenge.Chat.Hub.Invariant.{is_session, IsHub}
use websocket_challenge.Chat.Hub.Delivery.{push_if, after_message}
use websocket_challenge.Chat.Hub.Delivery.Loop.{
  SameMaps-touched, SameMaps-trans, SentBy, deliver-SentBy, deliver_all-SentBy, push-closed,
}

pub held-opened :
    (h : Hub) (n : Text) (c : ℕ)
    → IsHub h
    → lookup text_dec n h.all_clients ≡ some c
    → (h.client c).closed ≡ false
held-opened h n c v e = v.opened c (ground (arith, v.named n c e))

-- The send to a session that was looked up.
pub deliver_found-SentBy :
    (p : Payload) (n : Text) (h : Hub)
    → IsHub h
    → SentBy h
        (deliver_found p (lookup text_dec n h.all_clients) h)
        (λ d. push_if (holds (lookup text_dec n h.all_clients) d) p (h.client d))
unfolding deliver_found
deliver_found-SentBy p n h v = elim (Option-cases (lookup text_dec n h.all_clients)) [
  | inl e ↦ rw e (h, refl, SameMaps-touched h h.client h.tasks, λ d. refl)
  | inr (c, e) ↦
      let (h', e', s, f) = deliver-SentBy p c h (held-opened h n c v e) in
      rw e (h', e', s, λ d. f d ∙ ground (arith, ==_iff c d, ==_iff d c))
]

-- The same with the test of the room. The lookup may have been made in an earlier hub `g`.
pub deliver_in_room-SentBy :
    (p : Payload) (room_id : Text) (o : Option ℕ) (h : Hub)
    → ((c : ℕ) → o ≡ some c → (h.client c).closed ≡ false)
    → SentBy h
        (deliver_in_room p room_id o h)
        (λ d. push_if (holds o d && (h.client d).room_id ≟ room_id) p (h.client d))
unfolding deliver_in_room
deliver_in_room-SentBy p room_id none h opened =
    (h, refl, SameMaps-touched h h.client h.tasks, λ d. refl)
deliver_in_room-SentBy p room_id (some c) h opened =
    elim (Bool-cases ((h.client c).room_id ≟ room_id)) [
      | inr e ↦ rw e (
        h,
        refl,
        SameMaps-touched h h.client h.tasks,
        λ d. elim (Bool-cases (c == d)) [
          | inl same ↦ rw (same, ← (==_iff c d).0 same, e)
          | inr differ ↦ rw differ
        ],
      )
      | inl e ↦
          let (h', e', s, f) = deliver-SentBy p c h (opened c refl) in
          rw e (h', e', s, λ d. f d ∙ ground (arith, ==_iff c d, ==_iff d c))
    ]

pub room_of-some :
    (r : Text) (h : Hub) {cs : List ℕ} → lookup text_dec r h.rooms ≡ some cs → room_of r h ≡ cs
room_of-some r h e = rw (e, room_of)

pub room-SentBy :
    (m : Message) (h : Hub)
    → IsHub h
    → SentBy h
        (elim (lookup text_dec m.room_id h.rooms) [
          | none ↦ ok h
          | some clients ↦ deliver_all (marshal m) clients h
        ])
        (λ d. push_if (is_session d h && (h.client d).room_id ≟ m.room_id) (marshal m) (h.client d))
room-SentBy m h v = elim (Option-cases (lookup text_dec m.room_id h.rooms)) [
  | inl e ↦
      rw e
        (h, refl, SameMaps-touched h h.client h.tasks, λ d. ground (arith, v.members m.room_id d))
  | inr (cs, e) ↦
      let (h', e', s, f) =
        deliver_all-SentBy (marshal m) cs h
          (subst IsNodup (room_of-some m.room_id h e) (v.distinct m.room_id))
          (λ d i. v.opened d (ground (arith, v.members m.room_id d))) in
      rw e (h', e', s, λ d. f d ∙ ground (arith, v.members m.room_id d))
]

pub dispatch-SentBy :
    (k : MessageType) (m : Message) (h : Hub)
    → IsHub h
    → SentBy h (deliver_by_type k m h) (after_message k m (marshal m) h)
unfolding deliver_by_type
dispatch-SentBy chat m h v = room-SentBy m h v
dispatch-SentBy system m h v = room-SentBy m h v
dispatch-SentBy user_list m h v = room-SentBy m h v
dispatch-SentBy typing m h v = room-SentBy m h v
dispatch-SentBy ack m h v = deliver_found-SentBy (marshal m) m.target h v
dispatch-SentBy kick m h v = (h, refl, SameMaps-touched h h.client h.tasks, λ d. refl)
dispatch-SentBy (other s) m h v = (h, refl, SameMaps-touched h h.client h.tasks, λ d. refl)
dispatch-SentBy private m h v =
    let p = marshal m in
    let (h₁, e₁, s₁, f₁) =
      deliver_in_room-SentBy p m.room_id (lookup text_dec m.target h.all_clients) h
        (λ c e. held-opened h m.target c v e) in
    let (h₂, e₂, s₂, f₂) =
      deliver_in_room-SentBy p m.room_id (lookup text_dec m.sender h.all_clients) h₁ (λ c e.
        ap (λ cl. cl.closed) (f₁ c)
        ∙ push-closed _ p (h.client c)
        ∙ held-opened h m.sender c v e) in
    (h₂, rw e₁ e₂, SameMaps-trans h h₁ h₂ s₁ s₂, λ d. f₂ d ∙ rw (f₁ d) (ground arith))
