-- ===== src/Chat/Hub/Invariant/Cleanup.antt =====
-- `cleanupClient` keeps the hub well formed.
use websocket_challenge.Base.{
  ℕ, ◌≡◌, ◌≢◌, inl, inr, refl, true, false, not, ◌&&◌, none, some, List, [], ◌∷◌, arith, ◌==◌,
  if◌then◌else◌, Bool-cases, Text, ◌≟◌, lookup, lookup-insert, lookup-erase, text_dec, contains,
  IsNodup,
}
use websocket_challenge.Chat.Hub.State.{Hub}
use websocket_challenge.Chat.Hub.Sessions.{without, is_active, room_of, cleanup_client}
use websocket_challenge.Chat.Hub.Invariant.{is_some, is_session, IsHub}

pub contains-without :
    (c : ℕ) (ds : List ℕ) (d : ℕ) → contains (without c ds) d ≡ (contains ds d && not (d == c))
contains-without c [] d = refl
contains-without c (x ∷ xs) d = ground (arith, contains-without c xs d)

without-IsNodup : (c : ℕ) (ds : List ℕ) → IsNodup ds → IsNodup (without c ds)
without-IsNodup c [] u = tt
without-IsNodup c (x ∷ xs) u = ground (arith, without-IsNodup c xs u.1, contains-without c xs x)

pub cleanup_client_closed : (c : ℕ) (h : Hub) → (h.client c).closed ≡ true → cleanup_client c h ≡ h
unfolding cleanup_client
cleanup_client_closed c h e = rw e

module _ (c : ℕ) (h : Hub) (opened : (h.client c).closed ≡ false) where
  pub cleanup_client-client :
      (d : ℕ)
      → (cleanup_client c h).client d
        ≡ (if d == c then record (h.client c) { closed = true } else h.client d)
  unfolding cleanup_client
  cleanup_client-client d = ground arith

  pub cleanup_client-all_clients :
      (n : Text)
      → lookup text_dec n (cleanup_client c h).all_clients ≡ (
          if is_session c h && (h.client c).name ≟ n then none else lookup text_dec n h.all_clients)
  unfolding cleanup_client
  cleanup_client-all_clients n =
      ground (arith, lookup-erase text_dec n (h.client c).name h.all_clients)

  pub cleanup_client-room_of :
      (r : Text)
      → room_of r (cleanup_client c h)
        ≡ (if (h.client c).room_id ≟ r then without c (room_of r h) else room_of r h)
  unfolding cleanup_client
  cleanup_client-room_of r = ground (
    arith,
    lookup-erase text_dec r (h.client c).room_id h.rooms,
    lookup-insert text_dec r (h.client c).room_id (without c (room_of (h.client c).room_id h))
        h.rooms,
  )

  cleanup_client-nonempty :
      (r : Text)
      → lookup text_dec r h.rooms ≢ some []
      → lookup text_dec r (cleanup_client c h).rooms ≢ some []
  unfolding cleanup_client
  cleanup_client-nonempty r ne = ground (
    arith,
    lookup-erase text_dec r (h.client c).room_id h.rooms,
    lookup-insert text_dec r (h.client c).room_id (without c (room_of (h.client c).room_id h))
        h.rooms,
  )

  cleanup_client-subscribed :
      (r : Text)
      → is_active r h ≡ is_some (lookup text_dec r h.rooms)
      → is_active r (cleanup_client c h) ≡ is_some (lookup text_dec r (cleanup_client c h).rooms)
  unfolding cleanup_client
  cleanup_client-subscribed r s = ground (
    arith,
    lookup-erase text_dec r (h.client c).room_id h.rooms,
    lookup-erase text_dec r (h.client c).room_id h.active_subs,
    lookup-insert text_dec r (h.client c).room_id (without c (room_of (h.client c).room_id h))
        h.rooms,
  )

  -- A session other than `c` stays one, and `c` is one no longer.
  pub cleanup_client-is_session :
      IsHub h → (d : ℕ) → is_session d (cleanup_client c h) ≡ (is_session d h && not (d == c))
  cleanup_client-is_session v d = ground (
    arith,
    cleanup_client-client d,
    cleanup_client-all_clients (h.client d).name,
    cleanup_client-all_clients (h.client c).name,
  )

  open_cleanup-IsHub : IsHub h → IsHub (cleanup_client c h)
  open_cleanup-IsHub v = record {
    members = λ r d. ground (
      arith,
      cleanup_client-is_session v d,
      cleanup_client-room_of r,
      cleanup_client-client d,
      contains-without c (room_of r h) d,
      v.members r d,
    );
    distinct = λ r. rw (cleanup_client-room_of r) (elim (Bool-cases ((h.client c).room_id ≟ r)) [
      | inl e ↦ rw e (without-IsNodup c (room_of r h) (v.distinct r))
      | inr e ↦ rw e (v.distinct r)
    ]);
    named =
        λ n d e. ground (arith, cleanup_client-all_clients n, cleanup_client-client d, v.named n d);
    opened =
        λ d e. ground (arith, cleanup_client-is_session v d, cleanup_client-client d, v.opened d);
    nonempty = λ r. cleanup_client-nonempty r (v.nonempty r);
    subscribed = λ r. cleanup_client-subscribed r (v.subscribed r);
  }

-- Cleaning up any client, a session or not, for the first time or again, keeps the hub well formed.
pub cleanup_client-IsHub : (c : ℕ) (h : Hub) → IsHub h → IsHub (cleanup_client c h)
cleanup_client-IsHub c h v = elim (Bool-cases (h.client c).closed) [
  | inl e ↦ rw (cleanup_client_closed c h e) v
  | inr e ↦ open_cleanup-IsHub c h e v
]
