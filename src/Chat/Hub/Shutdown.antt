-- ===== src/Chat/Hub/Shutdown.antt =====
-- The quit case of `Run` closes every session.
use websocket_challenge.Base.{
  ℕ, ◌≡◌, subst, ==_iff, true, Bool-cases, inl, inr, some, [], ◌∷◌, arith, Text, Dict, lookup,
  text_dec,
}
use websocket_challenge.Chat.Hub.State.{Hub}
use websocket_challenge.Chat.Hub.Sessions.{cleanup_client, close_all, handle_quit}
use websocket_challenge.Chat.Hub.Invariant.{IsHub}
use websocket_challenge.Chat.Hub.Invariant.Cleanup.{
  cleanup_client-IsHub, cleanup_client-client, cleanup_client_closed,
}
use websocket_challenge.Chat.Hub.Races.{cleanup_client-closed}

close_all-IsHub : (d : Dict Text ℕ) (h : Hub) → IsHub h → IsHub (close_all d h)
unfolding close_all
close_all-IsHub [] h v = v
close_all-IsHub ((n, c) ∷ d) h v =
    close_all-IsHub d (cleanup_client c h) (cleanup_client-IsHub c h v)

close_all-closed :
    (d : Dict Text ℕ) (c : ℕ) (h : Hub)
    → (h.client c).closed ≡ true
    → ((close_all d h).client c).closed ≡ true
unfolding close_all
close_all-closed [] c h e = e
close_all-closed ((n, b) ∷ d) c h e =
    close_all-closed d c (cleanup_client b h) (cleanup_client-closed b c h e)

cleanup_client-closes : (c : ℕ) (h : Hub) → ((cleanup_client c h).client c).closed ≡ true
cleanup_client-closes c h = elim (Bool-cases (h.client c).closed) [
  | inl done ↦ rw (cleanup_client_closed c h done) done
  | inr up ↦ ground (arith, cleanup_client-client c h up c, ==_iff c c)
]

close_all-lookup :
    (d : Dict Text ℕ) (n : Text) (c : ℕ) (h : Hub)
    → lookup text_dec n d ≡ some c
    → ((close_all d h).client c).closed ≡ true
unfolding close_all lookup
close_all-lookup [] n c h e = ground (arith, e)
close_all-lookup ((m, b) ∷ d) n c h e = elim (text_dec m n) [
  | yes same ↦
      subst (λ i. ((close_all d (cleanup_client b h)).client i).closed ≡ true) (ground (arith, e))
        (close_all-closed d b (cleanup_client b h) (cleanup_client-closes b h))
  | no differ ↦ close_all-lookup d n c (cleanup_client b h) (ground (arith, e))
]

-- The quit case, in a well-formed hub, closes every session and leaves a well-formed hub.
pub handle_quit-closes :
    (h : Hub)
    → IsHub h
    → IsHub (handle_quit h)
      × ((n : Text) (c : ℕ)
          → lookup text_dec n h.all_clients ≡ some c
          → ((handle_quit h).client c).closed ≡ true)
unfolding handle_quit
handle_quit-closes h v =
    (close_all-IsHub h.all_clients h v, λ n c e. close_all-lookup h.all_clients n c h e)
