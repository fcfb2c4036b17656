-- ===== src/Chat/Hub/Invariant/Register.antt =====
-- The register and unregister cases keep the hub well formed, and when they end.
use websocket_challenge.Base.{
  ℕ, ◌≡◌, ◌≢◌, inl, inr, ap, ◌∙◌, true, false, ◌||◌, Option, none, some, List, [], ◌∷◌, ◌++◌, arith,
  ◌==◌, ==_iff, if◌then◌else◌, Bool-cases, Option-cases, Text, ◌≟◌, lookup, lookup-insert, text_dec,
  contains, append-IsNodup,
}
use websocket_challenge.Messages.{Message}
use websocket_challenge.Chat.Hub.State.{Hub, Command, Task}
use websocket_challenge.Chat.Hub.Sessions.{
  is_active, room_of, replace_session, enter_room, announce_kick, announce_join, register_client,
}
use websocket_challenge.Chat.Hub.Invariant.{is_some, is_session, IsHub}
use websocket_challenge.Chat.Hub.Invariant.Cleanup.{
  cleanup_client-IsHub, cleanup_client_closed, cleanup_client-client, cleanup_client-all_clients,
}

contains-append_one :
    (xs : List ℕ) (c d : ℕ) → contains (xs ++ c ∷ []) d ≡ (contains xs d || d == c)
contains-append_one [] c d = ground arith
contains-append_one (x ∷ xs) c d = ground (arith, contains-append_one xs c d)

append_one-ne-nil : (xs : List ℕ) (c : ℕ) → (xs ++ c ∷ []) ≢ []
append_one-ne-nil [] c e = cc
append_one-ne-nil (x ∷ xs) c e = cc

-- The queue, the commands and the tasks are not part of the story.
pub IsHub-same :
    (h : Hub) (b : List Message) (x : List Command) (t : List Task)
    → IsHub h
    → IsHub (record h { broadcast = b; commands = x; tasks = t })
IsHub-same h b x t v = record {
  members = v.members;
  distinct = v.distinct;
  named = v.named;
  opened = v.opened;
  nonempty = v.nonempty;
  subscribed = v.subscribed;
}

module _ (c : ℕ) (h : Hub) (v : IsHub h) (opened : (h.client c).closed ≡ false)
    (free : lookup text_dec (h.client c).name h.all_clients ≡ none) where
  pub enter_room-room_of :
      (r : Text)
      → room_of r (enter_room c h)
        ≡ (if (h.client c).room_id ≟ r then room_of r h ++ c ∷ [] else room_of r h)
  unfolding enter_room
  enter_room-room_of r = ground (
    arith,
    v.members (h.client c).room_id c,
    lookup-insert text_dec r (h.client c).room_id (room_of (h.client c).room_id h ++ c ∷ [])
        h.rooms,
  )

  pub enter_room-all_clients :
      (n : Text)
      → lookup text_dec n (enter_room c h).all_clients
        ≡ (if (h.client c).name ≟ n then some c else lookup text_dec n h.all_clients)
  unfolding enter_room
  enter_room-all_clients n =
      ground (arith, lookup-insert text_dec n (h.client c).name c h.all_clients)

  pub enter_room-client : (d : ℕ) → (enter_room c h).client d ≡ h.client d
  unfolding enter_room
  enter_room-client d = ground arith

  enter_room-is_session : (d : ℕ) → is_session d (enter_room c h) ≡ (is_session d h || d == c)
  enter_room-is_session d = ground (
    arith,
    enter_room-client d,
    enter_room-all_clients (h.client d).name,
    v.named (h.client d).name d,
  )

  enter_room-nonempty : (r : Text) → lookup text_dec r (enter_room c h).rooms ≢ some []
  unfolding enter_room
  enter_room-nonempty r = ground (
    arith,
    v.nonempty r,
    v.members (h.client c).room_id c,
    append_one-ne-nil (room_of (h.client c).room_id h) c,
    lookup-insert text_dec r (h.client c).room_id (room_of (h.client c).room_id h ++ c ∷ [])
        h.rooms,
  )

  enter_room-subscribed :
      (r : Text) → is_active r (enter_room c h) ≡ is_some (lookup text_dec r (enter_room c h).rooms)
  unfolding enter_room
  enter_room-subscribed r = ground (
    arith,
    v.subscribed r,
    v.members (h.client c).room_id c,
    lookup-insert text_dec r (h.client c).room_id true h.active_subs,
    lookup-insert text_dec r (h.client c).room_id (room_of (h.client c).room_id h ++ c ∷ [])
        h.rooms,
  )

  pub enter_room-IsHub : IsHub (enter_room c h)
  enter_room-IsHub = record {
    members = λ r d. ground (
      arith,
      enter_room-is_session d,
      enter_room-room_of r,
      enter_room-client d,
      contains-append_one (room_of r h) c d,
      v.members r d,
    );
    distinct = λ r. rw (enter_room-room_of r) (elim (Bool-cases ((h.client c).room_id ≟ r)) [
      | inl e ↦ rw e (append-IsNodup (room_of r h) c (ground (arith, v.members r c)) (v.distinct r))
      | inr e ↦ rw e (v.distinct r)
    ]);
    named = λ n d e. ground (arith, enter_room-all_clients n, enter_room-client d, v.named n d);
    opened = λ d e. ground (arith, enter_room-is_session d, enter_room-client d, v.opened d);
    nonempty = enter_room-nonempty;
    subscribed = enter_room-subscribed;
  }

-- Once the old session is cleaned up, the name is free.
pub replace_session-free :
    (n : Text) (h : Hub)
    → IsHub h
    → lookup text_dec n (replace_session (lookup text_dec n h.all_clients) h).all_clients ≡ none
unfolding replace_session
replace_session-free n h v = elim (Option-cases (lookup text_dec n h.all_clients)) [
  | inl e ↦ rw e e
  | inr (old, e) ↦ rw e (
      ground (
        arith,
        v.named n old e,
        v.opened old,
        cleanup_client-all_clients old h (v.opened old (ground (arith, v.named n old e))) n,
      ))
]

pub replace_session-IsHub : (o : Option ℕ) (h : Hub) → IsHub h → IsHub (replace_session o h)
unfolding replace_session
replace_session-IsHub none h v = v
replace_session-IsHub (some old) h v = cleanup_client-IsHub old h v

-- The client that registers is not the one that is replaced.
pub replace_session-client :
    (c : ℕ) (h : Hub)
    → IsHub h
    → is_session c h ≡ false
    → (replace_session (lookup text_dec (h.client c).name h.all_clients) h).client c ≡ h.client c
unfolding replace_session
replace_session-client c h v fresh =
    elim (Option-cases (lookup text_dec (h.client c).name h.all_clients)) [
      | inl e ↦ rw e
      | inr (old, e) ↦ elim (Bool-cases (h.client old).closed) [
        | inl done ↦ rw (e, cleanup_client_closed old h done)
        | inr up ↦ rw (e, cleanup_client-client old h up c) (ground (arith, ==_iff c old))
      ]
    ]

module _ (now c : ℕ) (h : Hub) where
  -- Registering an open client that is no session yet keeps the hub well formed, also where it
  -- replaces a session of the same name.
  pub register_client-IsHub :
      IsHub h
      → (h.client c).closed ≡ false
      → is_session c h ≡ false
      → IsHub (register_client now c h)
  unfolding register_client announce_join announce_kick
  register_client-IsHub v opened fresh =
      let n = (h.client c).name in
      let h₁ = replace_session (lookup text_dec n h.all_clients) h in
      let same = replace_session-client c h v fresh in
      IsHub-same _ _ _ _ (
        enter_room-IsHub c _ (IsHub-same h₁ _ _ _ (replace_session-IsHub _ h v))
          (ap (λ cl. cl.closed) same ∙ opened)
          (ap (λ cl. lookup text_dec cl.name h₁.all_clients) same ∙ replace_session-free n h v))
