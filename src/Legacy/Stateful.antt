-- ===== src/Legacy/Stateful.antt =====
-- legacy/challenge-1/stateful-hub.go, whose hub challenge-2 keeps: a set of clients, each with a
-- channel. A `*Client` is an address in the store `client`; no case of the hub blocks.
pub mod Closing
use websocket_challenge.Base.{
  ℕ, Bool, true, false, not, Option, none, some, List, [], ◌∷◌, ◌++◌, length, contains, keep, ltb,
  ◌==◌, if◌then◌else◌, Text,
}

pub record Client : Type 0 where
  pub send : List Text
  pub closed : Bool

pub record Hub : Type 0 where
  pub client : ℕ → Client
  pub clients : List ℕ

-- No hub is left after a panic.
infixl 5 ◌>>=◌
abbrev pub ◌>>=◌ : Option Hub → (Hub → Option Hub) → Option Hub
none >>= f = none
some h >>= f = f h

abbrev pub send_capacity : ℕ
send_capacity = 256

-- The store holds the clients that `serveWs` will make, each with an empty channel.
unfoldable pub new_hub : Hub
new_hub = record { client = λ c. record { send = []; closed = false }; clients = [] }

abbrev pub set_client : ℕ → Client → Hub → Hub
set_client c cl h = record h { client = λ d. if d == c then cl else h.client d }

-- `close(client.send)`
unfoldable pub close_send : ℕ → Hub → Option Hub
close_send c h =
    if (h.client c).closed
    then none
    else some (set_client c (record (h.client c) { closed = true }) h)

-- `delete(h.clients, client)` and the `close` that follows it in both places.
unfoldable pub drop_client : ℕ → Hub → Option Hub
unfolding close_send
drop_client c h = close_send c (record h { clients = keep (λ d. not (d == c)) h.clients })

unfoldable pub handle_register : ℕ → Hub → Hub
handle_register c h = record h {
  clients = if contains h.clients c then h.clients else h.clients ++ c ∷ [];
}

unfoldable pub handle_unregister : ℕ → Hub → Option Hub
unfolding drop_client
handle_unregister c h = if contains h.clients c then drop_client c h else some h

-- The `select` of the broadcast case: a client whose channel is full is dropped.
unfoldable pub offer : Text → ℕ → Hub → Option Hub
unfolding drop_client
offer m c h =
    let cl = h.client c in
    if cl.closed
    then none
    else if ltb (length cl.send) send_capacity
    then some (set_client c (record cl { send = cl.send ++ m ∷ [] }) h)
    else drop_client c h

unfoldable pub offer_all : Text → List ℕ → Hub → Option Hub
unfolding offer
offer_all m [] h = some h
offer_all m (c ∷ cs) h = offer m c h >>= offer_all m cs

unfoldable pub handle_broadcast : Text → Hub → Option Hub
unfolding offer_all
handle_broadcast m h = offer_all m h.clients h

-- `message := <-c.send` in `writePump`.
unfoldable pub rest_of : List Text → List Text
rest_of [] = []
rest_of (m ∷ ms) = ms

unfoldable pub write_pump : ℕ → Hub → Hub
unfolding rest_of
write_pump c h = set_client c (record (h.client c) { send = rest_of (h.client c).send }) h

-- What `Run` and the write pumps do, in the order in which they do it.
pub data Event : Type 0 where
  registers unregisters writes : ℕ → Event
  broadcasts : Text → Event

unfoldable pub step : Event → Hub → Option Hub
unfolding handle_register handle_unregister handle_broadcast write_pump
step (registers c) h = some (handle_register c h)
step (unregisters c) h = handle_unregister c h
step (writes c) h = some (write_pump c h)
step (broadcasts m) h = handle_broadcast m h

unfoldable pub run : List Event → Hub → Option Hub
unfolding step
run [] h = some h
run (e ∷ es) h = step e h >>= run es

-- The clients that are registered, in order.
abbrev pub registered : List Event → List ℕ
registered [] = []
registered (registers c ∷ es) = c ∷ registered es
registered (_ ∷ es) = registered es
