-- ===== src/Messages.antt =====
-- The messages of internal/types/message_types.go and internal/models/Messages.go, and
-- `MessageToModel` of internal/chat/hub.go. A UUID is a number, with 0 for `uuid.Nil`; a time is a
-- number of nanoseconds, with 0 for the zero time.
use websocket_challenge.Base.{ℕ, Bool, true, false, Text, codes, ℤ, pos, [], ◌≟◌, if◌then◌else◌}

-- `MessageType`; a client may send any other string.
pub data MessageType : Type 0 where
  chat private system user_list ack typing kick : MessageType
  other : Text → MessageType

-- The string of a type, in JSON and in the database.
abbrev pub type_name : MessageType → Text
type_name chat = codes "chat"
type_name private = codes "private"
type_name system = codes "system"
type_name user_list = codes "user_list"
type_name ack = codes "user_ack"
type_name typing = codes "user_typing"
type_name kick = codes "user_kick"
type_name (other s) = s

-- Reading that string: a string that is no constant's name is kept.
unfoldable pub type_of : Text → MessageType
type_of s =
    if s ≟ codes "chat"
    then chat
    else if s ≟ codes "private"
    then private
    else if s ≟ codes "system"
    then system
    else if s ≟ codes "user_list"
    then user_list
    else if s ≟ codes "user_ack"
    then ack
    else if s ≟ codes "user_typing"
    then typing
    else if s ≟ codes "user_kick"
    then kick
    else other s

-- `StatusSaved`, `StatusDelivered` and `StatusSeen`.
abbrev pub saved : ℤ
saved = pos 0

abbrev pub delivered : ℤ
delivered = pos 1

abbrev pub seen : ℤ
seen = pos 2

-- `types.Message`
pub record Message : Type 0 where
  pub id : ℕ
  pub room_id : Text
  pub sender : Text
  pub content : Text
  pub kind : MessageType
  pub target : Text
  pub timestamp : ℕ
  pub status : ℤ
  pub sender_server_id : Text
  pub from_redis : Bool

-- `models.Message`
pub record StoredMessage : Type 0 where
  pub id : ℕ
  pub room_id : Text
  pub sender : Text
  pub content : Text
  pub kind : MessageType
  pub target : Text
  pub timestamp : ℕ
  pub status : ℤ

unfoldable pub message_to_model : Message → StoredMessage
message_to_model m = record {
  id = m.id;
  room_id = m.room_id;
  sender = m.sender;
  content = m.content;
  kind = m.kind;
  target = m.target;
  timestamp = m.timestamp;
  status = m.status;
}

-- The JSON object of a `types.Message`: `FromRedis` is tagged "-" and is not part of it.
pub record Payload : Type 0 where
  pub id : ℕ
  pub room_id : Text
  pub sender : Text
  pub content : Text
  pub kind : MessageType
  pub target : Text
  pub timestamp : ℕ
  pub status : ℤ
  pub sender_server_id : Text

unfoldable pub marshal : Message → Payload
marshal m = record {
  id = m.id;
  room_id = m.room_id;
  sender = m.sender;
  content = m.content;
  kind = m.kind;
  target = m.target;
  timestamp = m.timestamp;
  status = m.status;
  sender_server_id = m.sender_server_id;
}

-- Decoding into a new `types.Message`, whose `FromRedis` stays false.
unfoldable pub unmarshal : Payload → Message
unmarshal p = record {
  id = p.id;
  room_id = p.room_id;
  sender = p.sender;
  content = p.content;
  kind = p.kind;
  target = p.target;
  timestamp = p.timestamp;
  status = p.status;
  sender_server_id = p.sender_server_id;
  from_redis = false;
}

-- `&types.Message{}`: every field has its zero value.
abbrev pub blank : Message
blank = record {
  id = 0;
  room_id = [];
  sender = [];
  content = [];
  kind = other [];
  target = [];
  timestamp = 0;
  status = pos 0;
  sender_server_id = [];
  from_redis = false;
}

-- The types that the broadcast loop hands to the database.
abbrev pub is_durable : MessageType → Bool
is_durable chat = true
is_durable private = true
is_durable ack = true
is_durable _ = false
