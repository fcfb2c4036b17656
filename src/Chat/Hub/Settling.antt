-- ===== src/Chat/Hub/Settling.antt =====
-- `Run` empties its broadcast queue, one case after another, while nothing new arrives.
use websocket_challenge.Base.{
  append-nil, append_assoc, length-append, ◌+◌, ◌≤◌, ◌≡◌, ◌∙◌, ap, sym, refl, Bool, ◌&&◌, not, ◌<◌,
  List, [], ◌∷◌, ◌++◌, arith, length, if◌then◌else◌, Bool-cases, inl, inr,
}
use websocket_challenge.Messages.{Message, StoredMessage, message_to_model, is_durable}
use websocket_challenge.Chat.Hub.State.{Hub, Result, ok, ◌>>=◌, persistence_capacity}
use websocket_challenge.Chat.Hub.Broadcast.{forward, handle_broadcast}
use websocket_challenge.Chat.Hub.Invariant.{IsHub}
use websocket_challenge.Chat.Hub.Delivery.Dispatch.{handle_broadcast_remote, handle_broadcast_local}
use websocket_challenge.Chat.Hub.Runs.Parts.{IsHub-of_rest, handle_broadcast-IsHub}

-- The case `message := <-h.Broadcast`, where there is one.
unfoldable pub take_round : Bool → List Message → Hub → Result
take_round published [] h = ok h
take_round published (m ∷ rest) h = handle_broadcast published m (record h { broadcast = rest })

-- The rounds of `Run` on the broadcast case, one for each answer of Redis that is given.
unfoldable pub settle : List Bool → Hub → Result
settle [] h = ok h
settle (published ∷ answers) h = take_round published h.broadcast h >>= settle answers

-- The row for the database of a message of a local client, if its type is durable and Redis took
-- it.
abbrev pub rows_of : Bool → Message → List StoredMessage
rows_of published m =
    if not m.from_redis && (published && is_durable m.kind) then message_to_model m ∷ [] else []

-- The rows of a queue of messages, in their order.
unfoldable pub rows_written : List Bool → List Message → List StoredMessage
rows_written [] ms = []
rows_written (published ∷ answers) [] = []
rows_written (published ∷ answers) (m ∷ ms) = rows_of published m ++ rows_written answers ms

rows_written-nil : (answers : List Bool) → rows_written answers [] ≡ []
unfolding rows_written
rows_written-nil [] = refl
rows_written-nil (b ∷ answers) = refl

forward-broadcast :
    (published : Bool) (m : Message) (h h' : Hub)
    → forward published m h ≡ ok h'
    → h'.broadcast ≡ h.broadcast
unfolding forward
forward-broadcast published m h h' e = ground arith

-- One round takes one message, and writes what it has to.
round-takes :
    (published : Bool) (m : Message) (rest : List Message) (h : Hub)
    → IsHub h
    → length h.persistence_queue < persistence_capacity
    → (h' : Hub) × (take_round published (m ∷ rest) h ≡ ok h')
      × IsHub h'
      × (h'.broadcast ≡ rest)
      × (h'.persistence_queue ≡ h.persistence_queue ++ rows_of published m)
unfolding take_round handle_broadcast
round-takes published m rest h v space =
    let g : Hub = record h { broadcast = rest } in
    let w : IsHub g = IsHub-of_rest h g v refl refl refl refl in
    elim (Bool-cases m.from_redis) [
      | inl remote ↦
          let (h', e, u, s, _) = handle_broadcast_remote published m g w remote in
          (h', e, u, s.broadcast, s.persistence_queue ∙ rw remote (sym (append-nil _)))
      | inr here_ ↦
          let (h', e, _, q, _) = handle_broadcast_local published m g here_ space in
          (
            h',
            e,
            handle_broadcast-IsHub published m g h' w e,
            forward-broadcast published m g h' (ground (arith, e)),
            q ∙ ground (arith, here_, append-nil h.persistence_queue),
          )
    ]

rows_of-length : (published : Bool) (m : Message) → length (rows_of published m) ≤ 1
rows_of-length published m = ground arith

settle-queue :
    (answers : List Bool) (ms : List Message) (h : Hub)
    → IsHub h
    → h.broadcast ≡ ms
    → length ms ≤ length answers
    → length h.persistence_queue + length ms ≤ persistence_capacity
    → (h' : Hub) × (settle answers h ≡ ok h')
      × IsHub h'
      × (h'.broadcast ≡ [])
      × (h'.persistence_queue ≡ h.persistence_queue ++ rows_written answers ms)
unfolding settle rows_written take_round
settle-queue [] [] h v e enough space = (h, refl, v, e, sym (append-nil _))
settle-queue [] (m ∷ ms) h v e enough space = absurd (omega (arith, enough))
settle-queue (b ∷ answers) [] h v e enough space =
    let (h', r, u, q, w) = settle-queue answers [] h v e (omega arith) space in
    (
      h',
      ap (λ q. take_round b q h >>= settle answers) e ∙ r,
      u,
      q,
      w ∙ ap (λ xs. h.persistence_queue ++ xs) (rows_written-nil answers),
    )
settle-queue (b ∷ answers) (m ∷ ms) h v e enough space =
    let (g, r, u, q, w) = round-takes b m ms h v (omega (arith, space)) in
    let (h', r', u', q', w') = settle-queue answers ms g u q (omega (arith, enough)) (
      omega (
        arith,
        space,
        ap length w,
        length-append h.persistence_queue (rows_of b m),
        rows_of-length b m,
      )) in
    (
      h',
      ap (λ q. take_round b q h >>= settle answers) e ∙ ap (λ x. x >>= settle answers) r ∙ r',
      u',
      q',
      w'
          ∙ ap (λ xs. xs ++ rows_written answers ms) w
          ∙ append_assoc h.persistence_queue (rows_of b m) _,
    )

-- In a well-formed hub, at least as many rounds as there are messages in the broadcast queue empty
-- it, in whatever way Redis answers and without a panic or a wait, if the database's queue has room
-- for one row each; the hub is as well formed as before, and the database's queue has got the rows
-- of the local clients' durable messages that Redis took, in their order.
pub settle-ends :
    (answers : List Bool) (h : Hub)
    → IsHub h
    → length h.broadcast ≤ length answers
    → length h.persistence_queue + length h.broadcast ≤ persistence_capacity
    → (h' : Hub) × (settle answers h ≡ ok h')
      × IsHub h'
      × (h'.broadcast ≡ [])
      × (h'.persistence_queue ≡ h.persistence_queue ++ rows_written answers h.broadcast)
settle-ends answers h v = settle-queue answers h.broadcast h v refl
