-- ===== src/Chat/Hub/Runs/Parts.antt =====
-- The parts of a step keep the hub well formed.
use websocket_challenge.Base.{
  ℕ, ◌≡◌, inl, inr, refl, ap, subst, sym, ◌∙◌, Bool, false, Option, none, some, arith, ==_iff,
  Bool-cases, Text,
}
use websocket_challenge.Messages.{Message}
use websocket_challenge.Chat.Hub.State.{Client, Hub, ok, set_client, send_broadcast}
use websocket_challenge.Chat.Hub.Sessions.{room_of, user_list_message, send_user_list}
use websocket_challenge.Chat.Hub.Broadcast.{forward, handle_broadcast}
use websocket_challenge.Chat.Hub.Cluster.{kick_sender, ingest}
use websocket_challenge.Chat.Hub.Invariant.{is_session, IsHub}
use websocket_challenge.Chat.Hub.Delivery.Dispatch.{handle_broadcast_remote}

pub ok-injective : (a b : Hub) → ok a ≡ ok b → a ≡ b
ok-injective a b e = cc

-- A hub with the same maps, and the same clients but for their channels, is as well formed.
pub IsHub-of_maps :
    (h h' : Hub)
    → IsHub h
    → h'.all_clients ≡ h.all_clients
    → h'.rooms ≡ h.rooms
    → h'.active_subs ≡ h.active_subs
    → ((d : ℕ)
        → ((h'.client d).name ≡ (h.client d).name)
          × ((h'.client d).room_id ≡ (h.client d).room_id)
          × ((h'.client d).closed ≡ (h.client d).closed))
    → IsHub h'
IsHub-of_maps h h' v a r s same = record {
  members = λ q d. ground (arith, v.members q d, same d, a, r);
  distinct = λ q. rw (room_of_same q) (v.distinct q);
  named = λ n d e. ground (arith, v.named n d, same d, a);
  opened = λ d e. ground (arith, v.opened d, same d, a);
  nonempty = λ q. rw r (v.nonempty q);
  subscribed = λ q. ground (arith, v.subscribed q, r, s);
}
  where
    room_of_same : (q : Text) → room_of q h' ≡ room_of q h
    room_of_same q = ground (arith, r)

-- The fields besides the maps and the clients may change freely.
pub IsHub-of_rest :
    (h h' : Hub)
    → IsHub h
    → h'.client ≡ h.client
    → h'.all_clients ≡ h.all_clients
    → h'.rooms ≡ h.rooms
    → h'.active_subs ≡ h.active_subs
    → IsHub h'
IsHub-of_rest h h' v c a r s =
    IsHub-of_maps h h' v a r s
      (λ d. (ap (λ f. (f d).name) c, ap (λ f. (f d).room_id) c, ap (λ f. (f d).closed) c))

pub send_broadcast-IsHub :
    (m : Message) (h h' : Hub) → IsHub h → send_broadcast m h ≡ ok h' → IsHub h'
unfolding send_broadcast
send_broadcast-IsHub m h h' v e =
    IsHub-of_rest h h' v (ground arith) (ground arith) (ground arith) (ground arith)

pub send_user_list-IsHub :
    (now : ℕ) (users : Option Text) (room_id : Text) (h h' : Hub)
    → IsHub h
    → send_user_list now users room_id h ≡ ok h'
    → IsHub h'
unfolding send_user_list
send_user_list-IsHub now none room_id h h' v e = subst IsHub (ok-injective h h' e) v
send_user_list-IsHub now (some u) room_id h h' v e =
    send_broadcast-IsHub (user_list_message now u room_id h) h h' v e

pub forward-IsHub :
    (published : Bool) (m : Message) (h h' : Hub)
    → IsHub h
    → forward published m h ≡ ok h'
    → IsHub h'
unfolding forward
forward-IsHub published m h h' v e =
    IsHub-of_rest h h' v (ground arith) (ground arith) (ground arith) (ground arith)

pub handle_broadcast-IsHub :
    (published : Bool) (m : Message) (h h' : Hub)
    → IsHub h
    → handle_broadcast published m h ≡ ok h'
    → IsHub h'
unfolding handle_broadcast
handle_broadcast-IsHub published m h h' v e = elim (Bool-cases m.from_redis) [
  | inl remote ↦
      let (g, e', w, _, _) = handle_broadcast_remote published m h v remote in
      subst IsHub (ok-injective g h' (sym e' ∙ e)) w
  | inr here_ ↦ forward-IsHub published m h h' v (ground arith)
]

pub kick_sender-IsHub : (o : Option ℕ) (h : Hub) → IsHub h → IsHub (kick_sender o h)
unfolding kick_sender
kick_sender-IsHub none h v = v
kick_sender-IsHub (some c) h v = IsHub-of_rest h _ v refl refl refl refl

pub ingest-IsHub : (m : Message) (h h' : Hub) → IsHub h → ingest m h ≡ ok h' → IsHub h'
unfolding ingest
ingest-IsHub m h h' v e =
    IsHub-of_rest h h' v (ground arith) (ground arith) (ground arith) (ground arith)

-- A new client at an address that is no session.
pub accept-IsHub :
    (c : ℕ) (cl : Client) (h : Hub) → is_session c h ≡ false → IsHub h → IsHub (set_client c cl h)
accept-IsHub c cl h old v = record {
  members = λ r d. ground (arith, v.members r d, v.named cl.name c, ==_iff d c);
  distinct = v.distinct;
  named = λ n d e. ground (arith, v.named n d, v.named n c, ==_iff d c);
  opened = λ d e. ground (arith, v.opened d, v.named cl.name c, ==_iff d c);
  nonempty = v.nonempty;
  subscribed = v.subscribed;
}
