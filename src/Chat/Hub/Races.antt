-- ===== src/Chat/Hub/Races.antt =====
-- `serveWS` starts a client's pumps before it registers the client, so the unregister case can run
-- first and close `Send`.
use websocket_challenge.Base.{
  ℕ, ◌≡◌, inl, inr, refl, ap, subst, ◌∙◌, Bool, true, Option, none, some, List, [], ◌∷◌, ◌++◌,
  arith, ==_iff, if◌then◌else◌, Bool-cases, Option-cases, Text, lookup, lookup-insert, text_dec,
  contains, contains-append,
}
use websocket_challenge.Messages.{Message, Payload, marshal, chat}
use websocket_challenge.Chat.Hub.State.{
  Hub, ok, panicked, set_client, spawn, unregister, live, command, s_add, users_key, send_broadcast,
}
use websocket_challenge.Chat.Hub.Sessions.{
  room_of, cleanup_client, replace_session, enter_room, announce_kick, announce_join,
  register_client, send_user_list, handle_register,
}
use websocket_challenge.Chat.Hub.Broadcast.{deliver, deliver_all, deliver_by_type, handle_broadcast}
use websocket_challenge.Chat.Hub.Invariant.Cleanup.{cleanup_client_closed, cleanup_client-client}

-- A closed client stays closed.
pub cleanup_client-closed :
    (d c : ℕ) (h : Hub) → (h.client c).closed ≡ true → ((cleanup_client d h).client c).closed ≡ true
cleanup_client-closed d c h e = elim (Bool-cases (h.client d).closed) [
  | inl done ↦ rw (cleanup_client_closed d h done) e
  | inr up ↦ ground (arith, cleanup_client-client d h up c)
]

replace_session-closed :
    (o : Option ℕ) (c : ℕ) (h : Hub)
    → (h.client c).closed ≡ true
    → ((replace_session o h).client c).closed ≡ true
unfolding replace_session
replace_session-closed none c h e = e
replace_session-closed (some d) c h e = cleanup_client-closed d c h e

pub replace_session-room_id :
    (o : Option ℕ) (c : ℕ) (h : Hub)
    → ((replace_session o h).client c).room_id ≡ (h.client c).room_id
unfolding replace_session
replace_session-room_id none c h = refl
replace_session-room_id (some d) c h = elim (Bool-cases (h.client d).closed) [
  | inl done ↦ rw (cleanup_client_closed d h done)
  | inr up ↦ ground (arith, cleanup_client-client d h up c, ==_iff c d)
]

enter_room-member :
    (c : ℕ) (h : Hub) → contains (room_of (h.client c).room_id (enter_room c h)) c ≡ true
unfolding enter_room
enter_room-member c h =
    let room = room_of (h.client c).room_id h in
    ground (
      arith,
      lookup-insert text_dec (h.client c).room_id (h.client c).room_id
          (if contains room c then room else room ++ c ∷ []) h.rooms,
      contains-append room (c ∷ []) c,
      ==_iff c c,
    )

deliver_all-panics :
    (p : Payload) (cs : List ℕ) (c : ℕ) (h : Hub)
    → contains cs c ≡ true
    → (h.client c).closed ≡ true
    → deliver_all p cs h ≡ panicked
unfolding deliver_all deliver
deliver_all-panics p [] c h m e = cc
deliver_all-panics p (d ∷ cs) c h m e = ground (
  arith,
  ==_iff c d,
  deliver_all-panics p cs c h,
  deliver_all-panics p cs c
      (set_client d (record (h.client d) { send = (h.client d).send ++ live p ∷ [] }) h),
  deliver_all-panics p cs c (spawn (unregister d) h),
)

dispatch_panics :
    (m : Message) (h : Hub) (c : ℕ)
    → contains (room_of m.room_id h) c ≡ true
    → (h.client c).closed ≡ true
    → deliver_by_type chat m h ≡ panicked
unfolding deliver_by_type
dispatch_panics m h c i f = elim (Option-cases (lookup text_dec m.room_id h.rooms)) [
  | inl none_ ↦ ground arith
  | inr (cs, e) ↦ rw (e, deliver_by_type) (deliver_all-panics (marshal m) cs c h (ground arith) f)
]

register_client-shape :
    (now c : ℕ) (h : Hub)
    → (h.client c).closed ≡ true
    → let q = register_client now c h in
      (contains (room_of (h.client c).room_id q) c ≡ true) × ((q.client c).closed ≡ true)
unfolding register_client announce_join announce_kick
register_client-shape now c h e =
    let o = lookup text_dec (h.client c).name h.all_clients in
    (
      subst (λ r. contains (room_of r (register_client now c h)) c ≡ true)
          (replace_session-room_id o c h)
          (enter_room-member c (
            command (s_add (users_key (h.client c).room_id) (h.client c).name)
              (announce_kick c (replace_session o h)))),
      unfold enter_room in ground (arith, replace_session-closed o c h e),
    )

send_user_list-maps :
    (now : ℕ) (users : Option Text) (room_id : Text) (h h' : Hub)
    → send_user_list now users room_id h ≡ ok h'
    → (h'.client ≡ h.client) × (h'.rooms ≡ h.rooms)
unfolding send_user_list send_broadcast
send_user_list-maps now none room_id h h' e = (ground arith, ground arith)
send_user_list-maps now (some u) room_id h h' e = (ground arith, ground arith)

-- If a client is registered after its `Send` was closed, as when its unregister request is taken
-- first, and the register case ends, then a chat message from Redis to its room makes the hub
-- panic.
pub register_closed_panics :
    (now : ℕ) (users : Option Text) (published : Bool) (c : ℕ) (m : Message) (h h' : Hub)
    → (h.client c).closed ≡ true
    → handle_register now users c h ≡ ok h'
    → m.from_redis ≡ true
    → m.kind ≡ chat
    → m.room_id ≡ (h.client c).room_id
    → handle_broadcast published m h' ≡ panicked
unfolding handle_register handle_broadcast
register_closed_panics now users published c m h h' e r remote k room =
    let q = register_client now c h in
    let (member, closed) = register_client-shape now c h e in
    let (clients, rooms) = send_user_list-maps now users (h.client c).room_id q h' r in
    let room' : contains (room_of m.room_id h') c ≡ true = ground (arith, member, rooms, room) in
    let closed' : (h'.client c).closed ≡ true = ap (λ f. (f c).closed) clients ∙ closed in
    simp remote (ap (λ t. deliver_by_type t m h') k ∙ dispatch_panics m h' c room' closed')
