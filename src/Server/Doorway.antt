-- ===== src/Server/Doorway.antt =====
-- Who comes to the hub, and as whom.
use websocket_challenge.Base.{
  ℕ, ◌≡◌, ◌≢◌, ◌≤◌, ◌⊎◌, inl, inr, refl, sym, ap, subst, ◌∙◌, true, false, Bool-cases, Option, none,
  some, Text, codes, ◌≟◌, text_dec, if◌then◌else◌, byte_length, arith, [],
}
use websocket_challenge.Hashing.{get}
use websocket_challenge.Repository.Users.{User, UserTable}
use websocket_challenge.Api.{Crypto, Request, World, authenticate}
use websocket_challenge.Api.Access.{Admitted, authenticate-Admitted}
use websocket_challenge.Chat.Hub.{Client, Hub}
use websocket_challenge.Chat.Pump.{Reader}
use websocket_challenge.Chat.Entry.{
  Decision, reject, redirect, accept, is_match, sanitize, sanitize-IsRoom, accept_user, serve_ws,
}
use websocket_challenge.Server.{Query, cors, pass_on, ws_route}

cors-accept :
    (method : Text) (next : Decision) (cl : Client) (r : Reader)
    → cors method next ≡ accept cl r
    → (method ≢ codes "OPTIONS") × (next ≡ accept cl r)
unfolding cors
cors-accept method next cl r e = elim (text_dec method (codes "OPTIONS")) [
  | yes preflight ↦ absurd (ground (arith, preflight, e))
  | no request ↦ (request, ground (arith, request, e))
]

module _ (x : Crypto) (to_lower : Text → Text) (hash : Text → ℕ) (show_id : ℕ → Text) where
  -- What the hub may rely on about a client that comes in as the user `u`.
  pub record IsGuest (u : User) (q : Query) (h : Hub) (cl : Client) : Type 0 where
    pub name : cl.name ≡ u.username
    pub in_room : is_match cl.room_id ≡ true
    pub short : byte_length cl.room_id ≤ 32
    pub fresh : (cl.send ≡ []) × (cl.closed ≡ false)
    pub at_home :
        (get hash (show_id u.id) h.ring ≡ h.server_id)
        ⊎ (q.from_server ≡ get hash (show_id u.id) h.ring)

  -- A decision that accepts only guests.
  abbrev pub Guarded : User → Query → Hub → Decision → Type 0
  Guarded u q h (accept cl r) = IsGuest u q h cl
  Guarded u q h (reject status) = Unit
  Guarded u q h (redirect target from_server) = Unit

  named_room :
      (room : Text) → let r = sanitize to_lower room in (if r ≟ [] then codes "general" else r) ≡ r
  named_room room = elim (text_dec (sanitize to_lower room) []) [
    | yes empty ↦ absurd (ground (arith, ap is_match empty, (sanitize-IsRoom to_lower room).0))
    | no named ↦ ground (arith, named)
  ]

  accept_user-Guarded :
      (u : User) (q : Query) (h : Hub)
      → (get hash (show_id u.id) h.ring ≡ h.server_id)
        ⊎ (q.from_server ≡ get hash (show_id u.id) h.ring)
      → Guarded u q h (accept_user to_lower hash show_id q.seconds q.now u q.room)
  unfolding accept_user
  accept_user-Guarded u q h home =
      let (match, bound) = sanitize-IsRoom to_lower q.room in
      record {
        name = refl;
        in_room = ap is_match (named_room q.room) ∙ match;
        short = rw (named_room q.room) bound;
        fresh = (refl, refl);
        at_home = home;
      }

  serve_ws-cases :
      (u : User) (q : Query) (h : Hub)
      → let d = serve_ws to_lower hash show_id q.seconds q.now (some u) q.from_server q.room h in
        let target = get hash (show_id u.id) h.ring in
        (d ≡ reject 403)
        ⊎ (d ≡ redirect target h.server_id)
        ⊎ ((d ≡ accept_user to_lower hash show_id q.seconds q.now u q.room)
            × ((target ≡ h.server_id) ⊎ (q.from_server ≡ target)))
  unfolding serve_ws
  serve_ws-cases u q h = elim (Bool-cases u.is_banned) [
    | inl banned ↦ inl (ground (arith, banned))
    | inr free ↦ elim (text_dec (get hash (show_id u.id) h.ring) h.server_id) [
      | yes here ↦ inr (inr (ground (arith, free, here), inl here))
      | no elsewhere ↦ elim (text_dec q.from_server (get hash (show_id u.id) h.ring)) [
        | yes back ↦ inr (inr (ground (arith, free, elsewhere, back), inr back))
        | no onward ↦ inr (inl (ground (arith, free, elsewhere, onward)))
      ]
    ]
  ]

  serve_ws-Guarded :
      (u : User) (q : Query) (h : Hub)
      → Guarded u q h
          (serve_ws to_lower hash show_id q.seconds q.now (some u) q.from_server q.room h)
  serve_ws-Guarded u q h = elim (serve_ws-cases u q h) [
    | inl refused ↦ subst (Guarded u q h) (sym refused) tt
    | inr (inl sent) ↦ subst (Guarded u q h) (sym sent) tt
    | inr (inr (taken, home)) ↦ subst (Guarded u q h) (sym taken) (accept_user-Guarded u q h home)
  ]

  pass_on-IsGuest :
      (o : Option User) (status : ℕ) (q : Query) (h : Hub) (cl : Client) (r : Reader)
      → pass_on x to_lower hash show_id o status q h ≡ accept cl r
      → (u : User) × (o ≡ some u) × IsGuest u q h cl
  unfolding pass_on
  pass_on-IsGuest none status q h cl r e = cc
  pass_on-IsGuest (some u) status q h cl r e =
      (u, refl, subst (Guarded u q h) e (serve_ws-Guarded u q h))

  -- The route to the WebSocket accepts a client only for a request that is no preflight and that
  -- `Authenticate` lets pass as a user in the table who is not banned. The client then has that
  -- user's name, an open and empty channel and a room that matches the pattern and is at most 32
  -- bytes long; and the user belongs to this server, or comes from the server to which it belongs.
  pub ws_route-IsGuest :
      (method : Text) (w : World) (r : Request) (users : UserTable) (q : Query) (h : Hub)
      (cl : Client) (reader : Reader)
      → ws_route x to_lower hash show_id method w r users q h ≡ accept cl reader
      → (method ≢ codes "OPTIONS") × ((u : User) × Admitted x w r users u × IsGuest u q h cl)
  unfolding ws_route
  ws_route-IsGuest method w r users q h cl reader e =
      let (request, passed) = cors-accept method _ cl reader e in
      let (u, found, guest) =
        pass_on-IsGuest (authenticate x w r users).user (authenticate x w r users).status q h cl
          reader passed in
      (request, (u, authenticate-Admitted x w r users u found, guest))
