-- ===== src/Legacy/Parsing.antt =====
-- legacy/challenge-6/content-parsing.go: names, a history of 20 chat messages, and four commands. A
-- `*Client` is an address in the store `client`; a frame is the message that it encodes.
pub mod Rejoin
pub mod Reader
use websocket_challenge.Base.{
  ℕ, ◌++◌, Bool, true, false, ◌&&◌, Option, none, some, List, [], ◌∷◌, length, ltb, ◌==◌,
  if◌then◌else◌, Text, codes, ◌≟◌, Dict, lookup, insert, erase, text_dec,
}

pub data MessageType : Type 0 where
  chat private system user_list : MessageType
  other : Text → MessageType

pub record Message : Type 0 where
  pub sender : Text
  pub target : Text
  pub kind : MessageType
  pub content : Text

pub record Client : Type 0 where
  pub name : Text
  pub send : List Message
  pub closed : Bool

-- `unregistering` are the clients that goroutines wait to send to `unregister`.
pub record Hub : Type 0 where
  pub client : ℕ → Client
  pub clients : Dict Text ℕ
  pub history : List Message
  pub broadcast : List Message
  pub unregistering : List ℕ

-- A case ends, waits for a client's channel or for the hub itself, or panics.
pub data Result : Type 0 where
  ok : Hub → Result
  waiting deadlocked panicked : Result

infixl 5 ◌>>=◌
abbrev pub ◌>>=◌ : Result → (Hub → Result) → Result
ok h >>= f = f h
waiting >>= f = waiting
deadlocked >>= f = deadlocked
panicked >>= f = panicked

abbrev pub send_capacity : ℕ
send_capacity = 256

abbrev pub broadcast_capacity : ℕ
broadcast_capacity = 256

unfoldable pub new_hub : (ℕ → Client) → Hub
new_hub client = record {
  client = client;
  clients = [];
  history = [];
  broadcast = [];
  unregistering = [];
}

abbrev pub set_client : ℕ → Client → Hub → Hub
set_client c cl h = record h { client = λ d. if d == c then cl else h.client d }

-- `close(c.send)`
unfoldable pub close_send : ℕ → Hub → Result
close_send c h =
    if (h.client c).closed
    then panicked
    else ok (set_client c (record (h.client c) { closed = true }) h)

-- `client.send <- payload`
unfoldable pub send : Message → ℕ → Hub → Result
send m c h =
    let cl = h.client c in
    if cl.closed
    then panicked
    else if ltb (length cl.send) send_capacity
    then ok (set_client c (record cl { send = cl.send ++ m ∷ [] }) h)
    else waiting

-- The `select` with a default, which starts a goroutine that unregisters the client.
unfoldable pub offer : Message → ℕ → Hub → Result
offer m c h =
    let cl = h.client c in
    if cl.closed
    then panicked
    else if ltb (length cl.send) send_capacity
    then ok (set_client c (record cl { send = cl.send ++ m ∷ [] }) h)
    else ok (record h { unregistering = h.unregistering ++ c ∷ [] })

-- `h.broadcast <- message` from `Run`, whose own loop is the only reader; `users` is the JSON list
-- of the names.
unfoldable pub broadcast_user_list : Text → Hub → Result
broadcast_user_list users h =
    if ltb (length h.broadcast) broadcast_capacity
    then ok (record h {
      broadcast =
          h.broadcast
          ++ record { sender = codes "SYSTEM"; target = []; kind = user_list; content = users }
            ∷ [];
    })
    else deadlocked

-- The entry that holds the name goes, and the channel of `c` is closed, whoever is held there.
unfoldable pub cleanup_found : Option ℕ → ℕ → Hub → Result
unfolding close_send
cleanup_found none c h = ok h
cleanup_found (some d) c h =
    close_send c (record h { clients = erase text_dec (h.client c).name h.clients })

unfoldable pub cleanup_client : ℕ → Hub → Result
unfolding cleanup_found
cleanup_client c h = cleanup_found (lookup text_dec (h.client c).name h.clients) c h

-- The first step of the register case: `close(oldClient.send)` and `delete`.
unfoldable pub replace_session : Option ℕ → Text → Hub → Result
unfolding close_send
replace_session none name h = ok h
replace_session (some old) name h =
    close_send old h >>= λ g. ok (record g { clients = erase text_dec name g.clients })

-- `for _, msg := range h.history`
unfoldable pub send_history : List Message → ℕ → Hub → Result
unfolding send
send_history [] c h = ok h
send_history (m ∷ ms) c h = send m c h >>= send_history ms c

-- The case `client := <-h.register`.
unfoldable pub handle_register : Text → ℕ → Hub → Result
unfolding replace_session send_history broadcast_user_list
handle_register users c h = do
  let name = (h.client c).name
  h₁ ← replace_session (lookup text_dec name h.clients) name h
  h₂ ← send_history h₁.history c (record h₁ { clients = insert text_dec name c h₁.clients })
  broadcast_user_list users h₂

-- The case `client := <-h.unregister`.
unfoldable pub unregister_found : Option ℕ → Text → ℕ → Hub → Result
unfolding cleanup_client
unregister_found none users c h = ok h
unregister_found (some d) users c h = cleanup_client c h >>= broadcast_user_list users

unfoldable pub handle_unregister : Text → ℕ → Hub → Result
unfolding unregister_found
handle_unregister users c h =
    unregister_found (lookup text_dec (h.client c).name h.clients) users c h

unfoldable pub offer_all : Message → Dict Text ℕ → Hub → Result
unfolding offer
offer_all m [] h = ok h
offer_all m ((_, c) ∷ rest) h = offer m c h >>= offer_all m rest

-- `h.history = append(h.history, message)`, of which more than 20 lose the first.
unfoldable pub remember : Message → List Message → List Message
remember m [] = m ∷ []
remember m (x ∷ xs) =
    let longer = (x ∷ xs) ++ m ∷ [] in if ltb 20 (length longer) then xs ++ m ∷ [] else longer

unfoldable pub send_found : Message → Option ℕ → Hub → Result
unfolding send
send_found m none h = ok h
send_found m (some c) h = send m c h

-- The case `message := <-h.broadcast`, by the type of the message.
unfoldable pub deliver : MessageType → Message → Hub → Result
unfolding offer_all remember send_found
deliver chat m h = offer_all m h.clients h >>= λ g. ok (record g { history = remember m g.history })
deliver system m h = offer_all m h.clients h
deliver user_list m h = offer_all m h.clients h
deliver private m h = send_found m (lookup text_dec m.sender h.clients) h >>= λ g.
    send_found m (lookup text_dec m.target g.clients) g
deliver (other s) m h = ok h

unfoldable pub handle_broadcast : Message → Hub → Result
unfolding deliver
handle_broadcast m h = deliver m.kind m h

-- The case `<-h.quit`.
unfoldable pub close_all : Dict Text ℕ → Hub → Result
unfolding cleanup_client
close_all [] h = ok h
close_all ((_, c) ∷ rest) h = cleanup_client c h >>= close_all rest

unfoldable pub handle_quit : Hub → Result
unfolding close_all
handle_quit h = close_all h.clients h
