-- ===== src/Chat/Hub/Kicking.antt =====
-- An acknowledgement, from the client that sends it to the end of its session.
use websocket_challenge.Chat.Hub.State.{Hub}
