-- ===== src/Legacy/Chat/Reader.antt =====
-- The read pump of legacy/challenge-7/chat.go, one frame at a time.
use websocket_challenge.Base.{
  ℕ, ◌<◌, ◌≡◌, refl, ◌++◌, true, false, ◌&&◌, [], ◌∷◌, length, ltb, ◌==◌, if◌then◌else◌, Text,
  codes, ◌≟◌, trim_space, arith,
}
use websocket_challenge.Chat.Pump.{first_word, starts_with_slash}
use websocket_challenge.Legacy.Chat.{
  Message, system, Hub, Result, ok, waiting, panicked, send, broadcast_capacity,
}
use websocket_challenge.Legacy.Chat.History.{is_chat}
use websocket_challenge.Legacy.Chat.Bucket.{RateLimiter, allow}

-- A frame as the JSON parser takes it: no message, the literal `null`, or an object.
pub data Frame : Type 0 where
  malformed null : Frame
  object : Message → Frame

-- `rest`, which is `parts[1] + " "` where the text has a space.
unfoldable pub rest_of : Text → Text
rest_of [] = []
rest_of (c ∷ s) = let rest = rest_of s in if c == 32 then s ++ codes " " else rest

-- The later cases of the switch that replace the text.
unfoldable pub expand_rest : Text → Text → Text → Text
expand_rest cmd rest content =
    if cmd ≟ codes "/sparkles"
    then codes "✨ " ++ trim_space rest ++ codes " ✨"
    else if cmd ≟ codes "/flex"
    then rest ++ codes "ᕦ(ò_ó)ᕤ"
    else if cmd ≟ codes "/cry"
    then rest ++ codes "(╥﹏╥)"
    else if cmd ≟ codes "/coffee"
    then rest ++ codes "☕ Fueling the developer..."
    else if cmd ≟ codes "/fix"
    then rest ++ codes "🛠" ++ 65039 ∷ codes " It's not a bug, it's a feature!"
    else if cmd ≟ codes "/deploy"
    then rest ++ codes "🚀 Ship it!"
    else if cmd ≟ codes "/ping"
    then codes "Pong! 🏓"
    else content

unfoldable pub expand : Text → Text → Text → Text
unfolding expand_rest
expand cmd rest content =
    if cmd ≟ codes "/shrug"
    then rest ++ codes "¯\\_(ツ)_/¯"
    else if cmd ≟ codes "/lenny"
    then rest ++ codes "( ͡° ͜ʖ ͡°)"
    else if cmd ≟ codes "/tableflip"
    then rest ++ codes "(╯°□°）╯︵ ┻━┻"
    else if cmd ≟ codes "/unflip"
    then rest ++ codes "┬─┬ノ( º _ ºノ)"
    else if cmd ≟ codes "/bear"
    then rest ++ codes "ʕ •ᴥ•ʔ"
    else if cmd ≟ codes "/disapprove"
    then rest ++ codes "ಠ_ಠ"
    else if cmd ≟ codes "/hug"
    then rest ++ codes "(づ｡◕‿‿◕｡)づ"
    else if cmd ≟ codes "/dance"
    then rest ++ codes "└|∵|┐  ♪  ┌|∵|┘"
    else expand_rest cmd rest content

-- The switch; the help goes to the whole room, as a system message.
unfoldable pub run_command : Text → Text → Message → Message
unfolding expand
run_command cmd rest m =
    if cmd ≟ codes "/help"
    then record m {
      kind = system;
      content =
          codes
            "Commands: /shrug, /lenny, /tableflip, /unflip, /bear, /disapprove, /hug, /dance, /sparkles, /flex, /cry, /coffee, /fix, /deploy";
    }
    else record m { content = expand cmd rest m.content }

unfoldable pub expand_command : Message → Message
unfolding run_command
expand_command m =
    if is_chat m.kind && starts_with_slash m.content
    then run_command (first_word m.content) (rest_of m.content) m
    else m

-- The warning that a client over its rate gets; its other fields are zero.
unfoldable pub warning : Message
warning = record {
  sender = codes "SYSTEM";
  content = codes "TOO MANY MESSAGES SENT .... Take a CHILL PILL";
  kind = system;
  target = [];
  timestamp = 0;
}

-- `c.hub.broadcast <- payload`
unfoldable pub submit : Message → Hub → Result
submit m h =
    if ltb (length h.broadcast) broadcast_capacity
    then ok (record h { broadcast = h.broadcast ++ m ∷ [] })
    else waiting

-- After `null` the parser has set `payload` to nil, and reading its fields panics.
unfoldable pub handle_frame : ℕ → ℕ → Frame → Hub → Result
unfolding expand_command submit
handle_frame now c malformed h = ok h
handle_frame now c null h = panicked
handle_frame now c (object m) h =
    submit (record (expand_command m) { sender = (h.client c).name; timestamp = now }) h

-- One round of the loop: `now` is the clock in nanoseconds, `seconds` in seconds.
unfoldable pub read_pump : ℕ → ℕ → ℕ → Frame → RateLimiter → Hub → RateLimiter × Result
unfolding handle_frame warning send
read_pump now seconds c f l h =
    let (l', allowed) = allow now l in
    (l', if allowed then handle_frame seconds c f h else send warning c h)

expand_command-target : (m : Message) → (expand_command m).target ≡ m.target
unfolding expand_command
expand_command-target m = ground arith

-- What a message looks like to the hub when the client `c` has sent `m`.
pub record IsSigned (seconds c : ℕ) (m sent : Message) (h : Hub) : Type 0 where
  pub sender : sent.sender ≡ (h.client c).name
  pub timestamp : sent.timestamp ≡ seconds
  pub target : sent.target ≡ m.target
  pub verbatim :
      (is_chat m.kind && starts_with_slash m.content) ≡ false
      → (sent.content ≡ m.content) × (sent.kind ≡ m.kind)

-- The results of a round in which the bucket has allowed the frame.
abbrev pub Answered : ℕ → ℕ → Frame → Hub → Result → Type 0
Answered seconds c malformed h r = r ≡ ok h
Answered seconds c null h r = r ≡ panicked
Answered seconds c (object m) h r =
    (sent : Message) × IsSigned seconds c m sent h
    × (r ≡ ok (record h { broadcast = h.broadcast ++ sent ∷ [] }))

-- x
pub read_pump-Answered :
    (now seconds c : ℕ) (f : Frame) (l : RateLimiter) (h : Hub)
    → (allow now l).1 ≡ true
    → length h.broadcast < 256
    → Answered seconds c f h (read_pump now seconds c f l h).1
unfolding read_pump handle_frame
read_pump-Answered now seconds c malformed l h a room = rw a refl
read_pump-Answered now seconds c null l h a room = rw a refl
read_pump-Answered now seconds c (object m) l h a room =
    let sent : Message = record (expand_command m) {
      sender = (h.client c).name;
      timestamp = seconds;
    } in
    rw a (
      sent,
      record {
        sender = refl;
        timestamp = refl;
        target = expand_command-target m;
        verbatim = λ plain. ground (arith, plain);
      },
      ground (arith, room),
    )
