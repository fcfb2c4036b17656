-- ===== src/Tests/Processes.antt =====
-- The start and the end of the process.
use websocket_challenge.Base.{
  ℕ, ◌+◌, ◌≡◌, ◌≢◌, ◌⊎◌, refl, true, false, none, some, List, [], ◌∷◌, ◌++◌, Text, codes, ◌≟◌,
  text_dec, if◌then◌else◌,
}
use websocket_challenge.Hashing.{get}
use websocket_challenge.Chat.Hub.{Client, Hub}
use websocket_challenge.Server.Startup.{
  Surroundings, start_up, is_ready, port_of, name_of, start_up-ready,
}
use websocket_challenge.Server.Stopping.{
  Process, awaiting, finished, launched, Event, interrupt, hub_returns, listener_returns,
  watcher_returns, happen, pursue, one_if, shutdown-hangs,
}

abbrev nobody : ℕ → Client
nobody c = record { name = []; room_id = []; send = []; closed = false }

abbrev length_hash : Text → ℕ
length_hash [] = 0
length_hash (c ∷ s) = 1 + length_hash s

-- `PORT` is there, but empty.
abbrev machine : Surroundings
machine = record {
  env = λ key.
      if key ≟ codes "PORT"
      then some []
      else if key ≟ codes "HOST"
      then none
      else some (codes "secret");
  parses = λ url. true;
  pools = λ url. true;
  database_up = λ url. true;
  redis_up = true;
  redis_online = false;
}

machine-runs : (port_of machine ≡ codes "8080") × (name_of machine ≡ codes "localhost:8080")
unfolding text_dec
machine-runs = (refl, refl)

start_up-ready_example :
    ((is_ready machine ≡ false) × (start_up length_hash nobody machine ≡ none))
    ⊎ ((is_ready machine ≡ true)
        × ((h : Hub) × (start_up length_hash nobody machine
              ≡ some (h, codes ":" ++ port_of machine))
            × (h.server_id ≡ name_of machine)
            × (h.redis_online ≡ machine.redis_online)
            × ((key : Text) → get length_hash key h.ring ≡ h.server_id)))
start_up-ready_example = start_up-ready length_hash nobody machine

-- Everything that can return after a signal.
abbrev ends : List Event
ends = interrupt ∷ watcher_returns ∷ hub_returns ∷ listener_returns ∷ []

abbrev at_end : Process
unfolding launched
at_end = record launched {
  phase = awaiting;
  count = 2;
  quit_closed = true;
  pub_sub_closed = true;
  hub = false;
  listener = false;
  watcher = false;
}

shutdown-hangs_example :
    (at_end.phase ≢ finished)
    × (at_end.worker ≡ true)
    × (at_end.count ≡ one_if at_end.hub + one_if at_end.listener + one_if at_end.watcher + 2)
unfolding at_end happen pursue
shutdown-hangs_example = shutdown-hangs ends at_end refl
