-- ===== src/Chat/Hub/Worker.antt =====
-- `PersistMessageWorker` on one message and on the rest of its queue, and `replayHistory`. `up`
-- says whether the database answers.
use websocket_challenge.Base.{
  ℕ, ◌++◌, Option, Bool, List, [], ◌∷◌, ◌⊎◌, inl, inr, reverse, length, ltb, if◌then◌else◌,
}
use websocket_challenge.Messages.{MessageType, StoredMessage, chat, private, ack}
use websocket_challenge.Repository.History.{Table, DbError, save, update_status, fetch}
use websocket_challenge.Chat.Hub.State.{
  Hub, Result, ok, waiting, panicked, ◌>>=◌, set_client, send_capacity, history,
}

-- An error is logged, and the table is as the failed call left it.
unfoldable pub persist : Bool → MessageType → StoredMessage → Table → Table
persist up chat m t = (save up m t).0
persist up private m t = (save up m t).0
persist up ack m t = (update_status up m.id m.status t).0
persist up _ m t = t

-- The loop over the closed channel, in the order of the queue.
unfoldable pub drain : List (Bool × StoredMessage) → Table → Table
unfolding persist
drain [] t = t
drain ((up, m) ∷ queue) t = drain queue (persist up m.kind m t)

-- `c.Send <- data`, which waits for the client's write pump where the channel is full.
unfoldable pub send_row : StoredMessage → ℕ → Hub → Result
send_row m c h =
    let cl = h.client c in
    if cl.closed
    then panicked
    else if ltb (length cl.send) send_capacity
    then ok (set_client c (record cl { send = cl.send ++ history m ∷ [] }) h)
    else waiting

unfoldable pub send_rows : List StoredMessage → ℕ → Hub → Result
send_rows [] c h = ok h
send_rows (m ∷ ms) c h = send_row m c h >>= send_rows ms c

-- The rows go to the client from the last to the first; on an error the client gets nothing.
unfoldable pub replay : Table ⊎ DbError → ℕ → Hub → Result
unfolding send_rows
replay (inr e) c h = ok h
replay (inl rows) c h = send_rows (reverse rows) c h

unfoldable pub replay_history_of : Bool → Option ℕ → ℕ → Table → ℕ → Hub → Result
unfolding replay
replay_history_of up broken now t c h =
    replay (fetch up broken (h.client c).room_id (h.client c).name 50 now now t) c h
