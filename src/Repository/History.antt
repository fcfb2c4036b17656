-- ===== src/Repository/History.antt =====
-- internal/repository/message_repository.go: the table `messages`.
pub mod Status
pub mod Reading
use websocket_challenge.Base.{
  ℕ, zero, suc, ◌-◌, ◌%◌, contains, pos, negsuc, Bool, true, false, not, ◌&&◌, ◌||◌, Option, none,
  some, List, [], ◌∷◌, ◌++◌, map, leb, ltb, ◌==◌, if◌then◌else◌, Text, ◌≟◌, ℤ, ltb_ℤ, keep, take,
  ◌⊎◌, inl, inr,
}
use websocket_challenge.Messages.{
  MessageType, chat, private, system, user_list, ack, typing, kick, other, StoredMessage, type_name,
  type_of,
}

-- An error of the pool, wrapped or not.
pub data DbError : Type 0 where
  database_failed : DbError

abbrev pub Table : Type 0
Table = List StoredMessage

abbrev pub has_id : ℕ → Table → Bool
has_id i [] = false
has_id i (m ∷ t) = m.id == i || has_id i t

-- A `TIMESTAMPTZ` keeps microseconds, and so does a bound that a query compares with it.
abbrev pub microseconds : ℕ → ℕ
microseconds t = t - t % 1000

-- All of a text after its first `n` characters is spaces.
abbrev pub blank_after : ℕ → Text → Bool
blank_after n [] = true
blank_after zero (c ∷ s) = c == 32 && blank_after zero s
blank_after (suc n) (c ∷ s) = blank_after n s

-- What a `VARCHAR(n)` keeps of a text: a longer one is cut if it goes on with spaces only, and
-- otherwise refused, as is one with a character 0.
unfoldable pub varchar : ℕ → Text → Option Text
varchar n s = if contains s 0 || not (blank_after n s) then none else some (take n s)

-- A `SMALLINT`
abbrev pub is_smallint : ℤ → Bool
is_smallint (pos n) = ltb n 32768
is_smallint (negsuc n) = ltb n 32768

unfoldable pub fit_row :
    Option Text → Option Text → Option Text → Option Text → StoredMessage → Option StoredMessage
fit_row (some room_id) (some sender) (some target) (some kind) m =
    if contains m.content 0 || not (is_smallint m.status)
    then none
    else some (record m {
      room_id = room_id;
      sender = sender;
      target = target;
      kind = type_of kind;
      timestamp = microseconds m.timestamp;
    })
fit_row _ _ _ _ m = none

-- The row that the columns of the table make of a message, if they can hold it.
unfoldable pub columns : StoredMessage → Option StoredMessage
unfolding varchar fit_row
columns m =
    fit_row (varchar 64 m.room_id) (varchar 255 m.sender) (varchar 255 m.target)
      (varchar 20 (type_name m.kind)) m

-- `INSERT … ON CONFLICT (id) DO NOTHING`
unfoldable pub insert_row : Option StoredMessage → Table → Table × Option DbError
insert_row none t = (t, some database_failed)
insert_row (some m) t = if has_id m.id t then (t, none) else (t ++ m ∷ [], none)

unfoldable pub save : Bool → StoredMessage → Table → Table × Option DbError
unfolding columns insert_row
save false m t = (t, some database_failed)
save true m t = insert_row (columns m) t

abbrev pub is_private : MessageType → Bool
is_private private = true
is_private _ = false

-- The `WHERE` clause of `Fetch`.
abbrev pub visible : Text → Text → ℕ → StoredMessage → Bool
visible room_id user_name before m =
    m.room_id ≟ room_id
    && (ltb m.timestamp before
        && (not (is_private m.kind) || (m.sender ≟ user_name || m.target ≟ user_name)))

-- `ORDER BY created_at DESC`
unfoldable pub insert_newest : StoredMessage → Table → Table
insert_newest m [] = m ∷ []
insert_newest m (x ∷ t) = if leb x.timestamp m.timestamp then m ∷ x ∷ t else x ∷ insert_newest m t

unfoldable pub newest_first : Table → Table
unfolding insert_newest
newest_first [] = []
newest_first (m ∷ t) = insert_newest m (newest_first t)

-- The rows that are read before the connection breaks, if it does.
abbrev pub rows_read : Option ℕ → Table → Table
rows_read none t = t
rows_read (some n) t = take n t

-- `up` says whether the query is answered and every row scanned; `broken` after how many rows the
-- reading breaks off. `rows.Next` then gives `false`, and since `rows.Err` is not asked, no error
-- is returned.
unfoldable pub fetch : Bool → Option ℕ → Text → Text → ℕ → ℕ → ℕ → Table → Table ⊎ DbError
unfolding newest_first
fetch false broken room_id user_name limit before now t = inr database_failed
fetch true broken room_id user_name limit before now t =
    let until = microseconds (if before == 0 then now else before) in
    inl (rows_read broken (take limit (newest_first (keep (visible room_id user_name until) t))))

-- `UPDATE messages SET status = $2 WHERE id = $1 and status < $2`, on one row.
unfoldable pub raise_status : ℕ → ℤ → StoredMessage → StoredMessage
raise_status i s m = if m.id == i && ltb_ℤ m.status s then record m { status = s } else m

unfoldable pub update_status : Bool → ℕ → ℤ → Table → Table × Option DbError
unfolding raise_status
update_status false i s t = (t, some database_failed)
update_status true i s t =
    if is_smallint s then (map (raise_status i s) t, none) else (t, some database_failed)
