-- ===== src/Tests/Rooms/Losses.antt =====
-- Sessions that end while something is on its way to them.
use websocket_challenge.Base.{false, [], ◌∷◌, codes}
use websocket_challenge.Messages.{Message}
use websocket_challenge.Chat.Hub.{Hub, publish}
use websocket_challenge.Chat.Hub.{handle_signal}
use websocket_challenge.Chat.Hub.Signals.{published_as}
use websocket_challenge.Chat.Hub.{handle_signal, publish}
use websocket_challenge.Chat.Hub.Signals.{published_as}
use websocket_challenge.Messages.{ack}
use websocket_challenge.Tests.Rooms.{with_both, whisper, greeting}

-- Bob is told in private, and his session is cleaned up before the send.
abbrev with_whisper : Hub
unfolding with_both
with_whisper = record with_both { broadcast = whisper ∷ [] }

-- Bob acknowledges a message.
abbrev receipt : Message
receipt = record greeting { kind = ack; sender = codes "bob"; from_redis = false }
