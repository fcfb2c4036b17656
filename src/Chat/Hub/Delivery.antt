-- ===== src/Chat/Hub/Delivery.antt =====
-- What the broadcast case of `Run` delivers: an account of each client's share, by the type of the
-- message, and that the code sends exactly that.
pub mod Loop
pub mod Dispatch
pub mod Sent
use websocket_challenge.Base.{
  ℕ, zero, suc, ◌+◌, ◌++◌, Bool, true, false, ◌&&◌, Option, none, some, List, [], ◌∷◌, length, ltb,
  ◌==◌, if◌then◌else◌, Text, ◌≟◌, lookup, text_dec, contains,
}
use websocket_challenge.Messages.{
  Message, Payload, MessageType, chat, private, system, user_list, ack, typing, kick, other,
}
use websocket_challenge.Chat.Hub.State.{Frame, live, Client, Hub, send_capacity}
use websocket_challenge.Chat.Hub.Sessions.{holds, room_of}
use websocket_challenge.Chat.Hub.Invariant.{is_session}

-- A client's channel after a message that it is sent: the message is dropped where it is full.
abbrev pub push : Payload → Client → Client
push p cl =
    if ltb (length cl.send) send_capacity then record cl { send = cl.send ++ live p ∷ [] } else cl

abbrev pub push_if : Bool → Payload → Client → Client
push_if b p cl = if b then push p cl else cl

-- The session of a name, if it is in the room.
abbrev pub is_named_in : Text → Text → ℕ → Hub → Bool
is_named_in name room_id d h =
    holds (lookup text_dec name h.all_clients) d && (h.client d).room_id ≟ room_id

-- What a client holds after a message: a message to a room goes to the sessions in it; a private
-- one to its target and then to its sender, if these are in the room; an acknowledgement to its
-- target, wherever that is; a message of another type to nobody.
abbrev pub after_message : MessageType → Message → Payload → Hub → ℕ → Client
after_message private m p h d =
    push_if (is_named_in m.sender m.room_id d h) p
      (push_if (is_named_in m.target m.room_id d h) p (h.client d))
after_message ack m p h d =
    push_if (holds (lookup text_dec m.target h.all_clients) d) p (h.client d)
after_message kick m p h d = h.client d
after_message (other s) m p h d = h.client d
after_message _ m p h d =
    push_if (is_session d h && (h.client d).room_id ≟ m.room_id) p (h.client d)
