-- ===== src/Chat/Pump.antt =====
-- The read pump of internal/chat/client.go, one frame at a time. Its writes to the client's own
-- `Send` and to `Broadcast` are those of the source; the connection's deadlines are I/O.
pub mod Stamping
pub mod Writing
use websocket_challenge.Base.{
  ℕ, ◌-◌, ◌++◌, Bool, true, false, not, ◌&&◌, Option, none, some, List, [], ◌∷◌, length, ltb, ◌==◌,
  if◌then◌else◌, Text, codes, ◌≟◌, trim_space,
}
use websocket_challenge.Limiter.{RateLimiter, allow}
use websocket_challenge.Messages.{
  Message, MessageType, Payload, chat, system, ack, blank, marshal, unmarshal,
}
use websocket_challenge.Chat.Hub.{
  Client, Hub, Result, ok, waiting, panicked, live, set_client, send_capacity, broadcast_capacity,
}
use websocket_challenge.Chat.Hub.{is_ack}

-- The fields `Limiter` and `LastWarning` of a client, which only its read pump uses.
pub record Reader : Type 0 where
  pub limiter : RateLimiter
  pub last_warning : ℕ

abbrev pub is_chat : MessageType → Bool
is_chat chat = true
is_chat _ = false

-- A system message for the client alone.
unfoldable pub notice : Text → ℕ → Hub → Payload
notice content c h = marshal (record blank {
  kind = system;
  sender = codes "SYSTEM";
  content = content;
  room_id = (h.client c).room_id;
})

-- `strings.SplitN(content, " ", 2)`: the word before the first space, and the rest or "".
unfoldable pub first_word : Text → Text
first_word [] = []
first_word (c ∷ s) = let word = first_word s in if c == 32 then [] else c ∷ word

unfoldable pub after_space : Text → Text
after_space [] = []
after_space (c ∷ s) = let rest = after_space s in if c == 32 then s else rest

unfoldable pub starts_with_slash : Text → Bool
starts_with_slash [] = false
starts_with_slash (c ∷ s) = c == 47

-- The cases of the switch that replace the text; an unknown command is sent as it was typed.
unfoldable pub expand_rest : Text → Text → Text → Text
expand_rest cmd rest content =
    if cmd ≟ codes "/sparkles"
    then codes "✨ " ++ trim_space rest ++ codes " ✨"
    else if cmd ≟ codes "/flex"
    then rest ++ codes " ᕦ(ò_ó)ᕤ"
    else if cmd ≟ codes "/cry"
    then rest ++ codes " (╥﹏╥)"
    else if cmd ≟ codes "/coffee"
    then rest ++ codes " ☕"
    else if cmd ≟ codes "/fix"
    then rest ++ codes " 🛠" ++ 65039 ∷ []
    else if cmd ≟ codes "/deploy"
    then rest ++ codes " 🚀"
    else content

unfoldable pub expand : Text → Text → Text → Text
unfolding expand_rest
expand cmd rest content =
    if cmd ≟ codes "/shrug"
    then rest ++ codes " ¯\\_(ツ)_/¯"
    else if cmd ≟ codes "/lenny"
    then rest ++ codes " ( ͡° ͜ʖ ͡°)"
    else if cmd ≟ codes "/tableflip"
    then rest ++ codes " (╯°□°）╯︵ ┻━┻"
    else if cmd ≟ codes "/unflip"
    then rest ++ codes " ┬─┬ノ( º _ ºノ)"
    else if cmd ≟ codes "/bear"
    then rest ++ codes " ʕ •ᴥ•ʔ"
    else if cmd ≟ codes "/disapprove"
    then rest ++ codes " ಠ_ಠ"
    else if cmd ≟ codes "/hug"
    then rest ++ codes " (づ｡◕‿‿◕｡)づ"
    else if cmd ≟ codes "/dance"
    then rest ++ codes " └|∵|┐  ♪  ┌|∵|┘"
    else expand_rest cmd rest content

-- The stamps of the server on what the client sent.
unfoldable pub stamp : ℕ → ℕ → ℕ → Message → Hub → Message
stamp now new_id c m h = record m {
  id = if m.id == 0 && not (is_ack m.kind) then new_id else m.id;
  sender = (h.client c).name;
  room_id = (h.client c).room_id;
  from_redis = false;
  sender_server_id = h.server_id;
  timestamp = now;
}

-- `c.Hub.Broadcast <- payload`
unfoldable pub submit : Message → Hub → Result
submit m h =
    if ltb (length h.broadcast) broadcast_capacity
    then ok (record h { broadcast = h.broadcast ++ m ∷ [] })
    else waiting

-- `c.Send <- resp`
unfoldable pub reply : Text → ℕ → Hub → Result
reply content c h =
    let cl = h.client c in
    if cl.closed
    then panicked
    else if ltb (length cl.send) send_capacity
    then ok (set_client c (record cl { send = cl.send ++ live (notice content c h) ∷ [] }) h)
    else waiting

unfoldable pub run_command : Text → Text → ℕ → Message → Hub → Result
unfolding reply submit expand
run_command cmd rest c m h =
    if cmd ≟ codes "/help"
    then reply
        (codes
          "Commands: /shrug, /lenny, /tableflip, /unflip, /bear, /disapprove, /hug, /dance, /sparkles, /flex, /cry, /coffee, /fix, /deploy, /ping")
        c h
    else if cmd ≟ codes "/ping"
    then reply (codes "Pong! 🏓") c h
    else submit (record m { content = expand cmd rest m.content }) h

unfoldable pub handle_message : ℕ → Message → Hub → Result
unfolding run_command
handle_message c m h =
    if is_chat m.kind && starts_with_slash m.content
    then run_command (first_word m.content) (after_space m.content) c m h
    else submit m h

-- The warning of a client over its rate, at most every three seconds; it is dropped if `Send` is
-- full.
unfoldable pub warn : ℕ → ℕ → Reader → Hub → Reader × Result
warn now c r h =
    let cl = h.client c in
    if ltb 3000000000 (now - r.last_warning)
    then if cl.closed
      then (r, panicked)
      else if ltb (length cl.send) send_capacity
      then (
        record r { last_warning = now },
        ok (
            set_client c
              (record cl {
                send =
                    cl.send
                    ++ live (notice (codes "⚠" ++ 65039 ∷ codes " Rate limit exceeded.") c h) ∷ [];
              })
              h),
      )
      else (r, ok h)
    else (r, ok h)

-- A frame that is no JSON object is skipped.
unfoldable pub handle_frame : ℕ → ℕ → ℕ → Option Payload → Hub → Result
unfolding handle_message stamp
handle_frame now new_id c none h = ok h
handle_frame now new_id c (some p) h = handle_message c (stamp now new_id c (unmarshal p) h) h

-- One round of the loop; `seconds` and `now` are the clock in seconds and in nanoseconds.
unfoldable pub read_pump : ℕ → ℕ → ℕ → ℕ → Option Payload → Reader → Hub → Reader × Result
unfolding warn handle_frame
read_pump seconds now new_id c p r h =
    let (limiter, allowed) = allow seconds r.limiter in
    let r' : Reader = record r { limiter = limiter } in
    if allowed then (r', handle_frame now new_id c p h) else warn now c r' h
