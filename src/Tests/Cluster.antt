-- ===== src/Tests/Cluster.antt =====
-- Two servers that exchange signals.
use websocket_challenge.Base.{
  ℕ, ◌≡◌, refl, true, false, none, some, [], ◌∷◌, ◌++◌, arith, Text, codes, itoa, lookup, insert,
  text_dec, ℕ_discrete,
}
use websocket_challenge.Messages.{marshal}
use websocket_challenge.Hashing.{new_consistent_hashing, add, identity}
use websocket_challenge.Chat.Hub.{
  Client, Hub, ok, announcement, join_prefix, handle_signal, handle_tick,
}
use websocket_challenge.Chat.Hub.Watching.{announced_server-removed}
use websocket_challenge.Chat.Hub.Runs.{new_hub}

-- A hash for tests: the length of the text and its last code point.
abbrev tail_hash : Text → ℕ
tail_hash [] = 0
tail_hash (c ∷ []) = c
tail_hash (c ∷ d ∷ s) = tail_hash (d ∷ s)

abbrev nobody : ℕ → Client
nobody c = record { room_id = codes "general"; name = codes "ann"; send = []; closed = false }

abbrev first : Hub
unfolding new_hub new_consistent_hashing
first = new_hub (codes "s:1") true (new_consistent_hashing 2) nobody

-- The second server holds the session of Ann, and has seen the first one join at time 5.
abbrev second : Hub
unfolding first add
second = record first {
  server_id = codes "s:2";
  all_clients = (codes "ann", 0) ∷ [];
  ring = (add tail_hash (codes "s:1") first.ring).0;
  last_seen = (codes "s:1", 5) ∷ [];
}

announced_server-removed_example :
    (handle_signal tail_hash 15000000000 (some (announcement join_prefix (codes "s:1"))) second
      ≡ ok second)
    × (lookup text_dec (codes "s:1") (handle_tick tail_hash 25000000000 true second).last_seen
        ≡ none)
    × (lookup ℕ_discrete
          (tail_hash (codes "s:1" ++ codes "#0"))
          (handle_tick tail_hash 25000000000 true second).ring.registry
        ≡ none)
unfolding second add new_hub new_consistent_hashing identity lookup insert text_dec ℕ_discrete
    announcement itoa marshal
announced_server-removed_example =
    announced_server-removed tail_hash 15000000000 25000000000 5
      (announcement join_prefix (codes "s:1")) (codes "s:1") second refl (omega arith) refl refl
      refl (λ e. ground (arith, e)) (omega arith)
