-- ===== src/Tests/Rows.antt =====
-- The table of messages with three rows.
use websocket_challenge.Base.{
  ◌≡◌, ◌⊎◌, inl, ◌≤◌, refl, true, none, some, take, [], ◌∷◌, arith, text_dec, codes, pos, All,
  length,
}
use websocket_challenge.Messages.{StoredMessage, chat, private}
use websocket_challenge.Repository.History.{Table, fetch, insert_newest}
use websocket_challenge.Repository.History.Reading.{fetch-Answer, Answer, fetch_complete, In}

abbrev hello : StoredMessage
hello = record {
  id = 1;
  room_id = codes "general";
  sender = codes "ann";
  content = codes "hello";
  kind = chat;
  target = [];
  timestamp = 10;
  status = pos 0;
}

abbrev secret : StoredMessage
secret = record hello { id = 2; kind = private; target = codes "bob"; timestamp = 20 }

abbrev reply : StoredMessage
reply = record hello { id = 3; sender = codes "bob"; timestamp = 30 }

abbrev rows : Table
rows = hello ∷ secret ∷ reply ∷ []

-- Eve reads the room without the private message, the newest first.
fetch_eve :
    fetch true none (codes "general") (codes "eve") 50 0 9900 rows ≡ inl (reply ∷ hello ∷ [])
unfolding fetch insert_newest text_dec
fetch_eve = refl

fetch-Answer_example :
    Answer
      (codes "general")
      (codes "eve")
      50
      0
      9900
      rows
      (fetch true none (codes "general") (codes "eve") 50 0 9900 rows)
fetch-Answer_example = fetch-Answer (codes "general") (codes "eve") 50 0 9900 rows true none

fetch_complete_example :
    (t : Table) × (fetch true none (codes "general") (codes "bob") 2 0 9900 rows ≡ inl t)
    × (In hello t ⊎ ((length t ≡ 2) × All (λ x. 10 ≤ x.timestamp) t))
    × (fetch true (some 1) (codes "general") (codes "bob") 2 0 9900 rows ≡ inl (take 1 t))
fetch_complete_example =
    fetch_complete (codes "general") (codes "bob") 2 0 9900 1 rows hello (inl refl)
      (record { in_room = refl; earlier = omega arith; own_private = λ e. cc })
