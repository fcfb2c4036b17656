-- ===== src/Tests/Rejoining.antt =====
-- The program of challenge-6 with two clients of one name.
use websocket_challenge.Base.{
  ℕ, ◌≡◌, refl, false, some, [], ◌∷◌, codes, lookup, insert, erase, text_dec,
}
use websocket_challenge.Legacy.Parsing.{
  Message, chat, Client, Hub, new_hub, panicked, ok, ◌>>=◌, replace_session, send_history,
  broadcast_user_list, cleanup_found, handle_register, handle_unregister,
}
use websocket_challenge.Legacy.Parsing.Reader.{read_pump, first_word, rest_of, expand}

abbrev twin : ℕ → Client
twin c = record { name = codes "User_abcd"; send = []; closed = false }

abbrev empty_room : Hub
unfolding new_hub
empty_room = new_hub twin

-- The second replaces the first, and the server ends when the first leaves.
crash :
    (handle_register (codes "[]") 0 empty_room
      >>= handle_register (codes "[]") 1
      >>= handle_unregister (codes "[]") 0)
    ≡ panicked
unfolding empty_room handle_register handle_unregister replace_session send_history
    broadcast_user_list cleanup_found insert erase lookup text_dec
crash = refl

abbrev typed : Message
typed = record { sender = []; target = []; kind = chat; content = codes "/shrug so what" }

shrugs :
    read_pump (some typed) 0 empty_room
    ≡ ok (record empty_room {
      broadcast =
          record typed { sender = codes "User_abcd"; content = codes "so what  ¯\\_(ツ)_/¯" } ∷ [];
    })
unfolding empty_room read_pump first_word rest_of expand text_dec
shrugs = refl
