-- ===== src/Chat/Hub/Watching.antt =====
-- The watcher removes a server 20 seconds after it joined, however often it announces itself.
use websocket_challenge.Base.{
  ℕ, ◌-◌, ◌≡◌, ◌≢◌, ◌<◌, inl, inr, refl, ap, ◌∙◌, Bool, true, false, ◌&&◌, ◌||◌, none, some, [],
  ◌∷◌, ◌++◌, arith, lt→ltb, if◌then◌else◌, Bool-cases, Text, ◌≟◌, codes, Dict, lookup, erase,
  lookup-erase, text_dec, ℕ_discrete,
}
use websocket_challenge.Messages.{Payload}
use websocket_challenge.Hashing.{remove}
use websocket_challenge.Hashing.Restore.{
  remove-replicas, remove-registry_none, remove-registry_self,
}
use websocket_challenge.Chat.Hub.State.{Hub, ok}
use websocket_challenge.Chat.Hub.Cluster.{
  join_prefix, is_silent, prune, announce_server_add, handle_signal, handle_tick,
}
use websocket_challenge.Chat.Hub.Signals.{join_again-ignored}

-- Some entry of the server is older than 20 seconds.
abbrev pub has_silent : ℕ → Text → Dict Text ℕ → Bool
has_silent now s [] = false
has_silent now s ((server, last) ∷ rest) =
    (server ≟ s && is_silent now last) || has_silent now s rest

has_silent_of_lookup :
    (now last : ℕ) (s : Text) (d : Dict Text ℕ)
    → lookup text_dec s d ≡ some last
    → is_silent now last ≡ true
    → has_silent now s d ≡ true
unfolding lookup
has_silent_of_lookup now last s [] e old = cc
has_silent_of_lookup now last s ((server, t) ∷ rest) e old =
    ground (arith, has_silent_of_lookup now last s rest)

module _ (hash : Text → ℕ) where
  prune-last_seen :
      (now : ℕ) (d : Dict Text ℕ) (s : Text) (h : Hub)
      → lookup text_dec s (prune hash now d h).last_seen
        ≡ (if has_silent now s d then none else lookup text_dec s h.last_seen)
  unfolding prune
  prune-last_seen now [] s h = refl
  prune-last_seen now ((server, last) ∷ rest) s h = elim (Bool-cases (is_silent now last)) [
    | inl old ↦
        rw (old, prune)
          (ground (
            arith,
            prune-last_seen now rest s (record h {
              ring = (remove hash server h.ring).0;
              last_seen = erase text_dec server h.last_seen;
            }),
            lookup-erase text_dec s server h.last_seen,
          ))
    | inr recent ↦ rw (recent, prune) (ground (arith, prune-last_seen now rest s h))
  ]

  prune-registry_none :
      (now : ℕ) (d : Dict Text ℕ) (n : ℕ) (h : Hub)
      → lookup ℕ_discrete n h.ring.registry ≡ none
      → lookup ℕ_discrete n (prune hash now d h).ring.registry ≡ none
  unfolding prune
  prune-registry_none now [] n h e = e
  prune-registry_none now ((server, last) ∷ rest) n h e = elim (Bool-cases (is_silent now last)) [
    | inl old ↦
        rw (old, prune)
          (prune-registry_none now rest n _ (remove-registry_none hash server n h.ring e))
    | inr recent ↦ rw (recent, prune) (prune-registry_none now rest n h e)
  ]

  prune-registry_silent :
      (now : ℕ) (d : Dict Text ℕ) (s : Text) (h : Hub)
      → 0 < h.ring.replicas
      → has_silent now s d ≡ true
      → lookup ℕ_discrete (hash (s ++ codes "#0")) (prune hash now d h).ring.registry ≡ none
  unfolding prune
  prune-registry_silent now [] s h pos old = cc
  prune-registry_silent now ((server, last) ∷ rest) s h pos old =
      elim (Bool-cases (is_silent now last)) [
        | inr recent ↦ rw (recent, prune) (prune-registry_silent now rest s h pos (ground arith))
        | inl silent ↦ elim (text_dec server s) [
          | yes same ↦
              rw (silent, prune)
                (prune-registry_none now rest _ _
                  (rw same (remove-registry_self hash s h.ring pos)))
          | no differ ↦
              rw (silent, prune)
                (prune-registry_silent now rest s _
                  (omega (arith, remove-replicas hash server h.ring)) (ground arith))
        ]
      ]

  tick_online :
      (now : ℕ) (h : Hub)
      → h.redis_online ≡ true
      → handle_tick hash now true h ≡ prune hash now h.last_seen (announce_server_add h)
  unfolding handle_tick
  tick_online now h e = ground arith

  -- A server that joined at time `t`, and that announces itself again at any later time, is taken
  -- off the ring and forgotten by the first tick that comes more than 20 seconds after `t`: the
  -- announcement leaves the hub as it was, and the tick removes the server all the same.
  pub announced_server-removed :
      (now later t : ℕ) (p : Payload) (id : Text) (h : Hub) {s : Text}
      → h.redis_online ≡ true
      → 0 < h.ring.replicas
      → lookup text_dec id h.last_seen ≡ some t
      → lookup ℕ_discrete (hash (id ++ codes "#0")) h.ring.registry ≡ some s
      → p.content ≡ join_prefix ++ id
      → id ≢ h.server_id
      → 20000000000 < later - t
      → (handle_signal hash now (some p) h ≡ ok h)
        × (lookup text_dec id (handle_tick hash later true h).last_seen ≡ none)
        × (lookup ℕ_discrete (hash (id ++ codes "#0")) (handle_tick hash later true h).ring.registry
            ≡ none)
  unfolding announce_server_add
  announced_server-removed now later t p id h online pos at on says ne old =
      let silent = has_silent_of_lookup later t id h.last_seen at (lt→ltb _ _ old) in
      (
        join_again-ignored hash now p id h says ne on,
        ap (λ g. lookup text_dec id g.last_seen) (tick_online later h online)
            ∙ prune-last_seen later h.last_seen id (announce_server_add h)
            ∙ ap (λ b. if b then none else lookup text_dec id (announce_server_add h).last_seen)
                silent,
        ap (λ g. lookup ℕ_discrete (hash (id ++ codes "#0")) g.ring.registry)
              (tick_online later h online)
            ∙ prune-registry_silent later h.last_seen id (announce_server_add h) pos silent,
      )
