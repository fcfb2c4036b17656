-- ===== src/Legacy/Parsing/Reader.antt =====
-- The read pump of legacy/challenge-6/content-parsing.go, one frame at a time.
use websocket_challenge.Base.{
  ℕ, ◌++◌, Bool, false, Option, none, some, [], ◌∷◌, length, ltb, ◌==◌, if◌then◌else◌, Text, codes,
  ◌≟◌,
}
use websocket_challenge.Legacy.Parsing.{
  MessageType, chat, Message, Hub, Result, ok, waiting, broadcast_capacity,
}

-- `parts[0]` of `strings.SplitN(payload.Content, " ", 2)`.
unfoldable pub first_word : Text → Text
first_word [] = []
first_word (c ∷ s) = let word = first_word s in if c == 32 then [] else c ∷ word

-- `rest`, which is `parts[1] + " "` where the text has a space.
unfoldable pub rest_of : Text → Text
rest_of [] = []
rest_of (c ∷ s) = let rest = rest_of s in if c == 32 then s ++ codes " " else rest

abbrev pub is_command : MessageType → Text → Bool
is_command chat (c ∷ s) = c == 47
is_command _ _ = false

unfoldable pub expand : Text → Text → Text → Text
expand cmd rest content =
    if cmd ≟ codes "/shrug"
    then rest ++ codes " ¯\\_(ツ)_/¯"
    else if cmd ≟ codes "/tableflip"
    then rest ++ codes " (╯°□°）╯︵ ┻━┻"
    else if cmd ≟ codes "/unflip"
    then rest ++ codes " ┬─┬ノ( º _ ºノ)"
    else if cmd ≟ codes "/lenny"
    then rest ++ codes " ( ͡° ͜ʖ ͡°)"
    else content

-- One round of `readPump`; `none` stands for a frame that the JSON parser refuses.
unfoldable pub read_pump : Option Message → ℕ → Hub → Result
unfolding first_word rest_of expand
read_pump none c h = ok h
read_pump (some m) c h =
    let content =
      if is_command m.kind m.content
      then expand (first_word m.content) (rest_of m.content) m.content
      else m.content in
    if ltb (length h.broadcast) broadcast_capacity
    then ok (record h {
      broadcast = h.broadcast ++ record m { content = content; sender = (h.client c).name } ∷ [];
    })
    else waiting
