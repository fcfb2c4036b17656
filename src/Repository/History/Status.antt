-- ===== src/Repository/History/Status.antt =====
-- The row of a stored message.
use websocket_challenge.Base.{
  ℕ, ◌≡◌, refl, ◌||◌, Option, none, some, [], ◌∷◌, ◌++◌, arith, ◌==◌, if◌then◌else◌,
}
use websocket_challenge.Messages.{StoredMessage}
use websocket_challenge.Repository.History.{Table, has_id}

pub has_id-append :
    (i : ℕ) (t : Table) (m : StoredMessage) → has_id i (t ++ m ∷ []) ≡ (has_id i t || m.id == i)
has_id-append i [] m = ground arith
has_id-append i (x ∷ t) m = ground (arith, has_id-append i t m)

-- The first row with the id.
abbrev pub row_of : ℕ → Table → Option StoredMessage
row_of i [] = none
row_of i (m ∷ t) = if m.id == i then some m else row_of i t

pub row_of-append :
    (i : ℕ) (t : Table) (m : StoredMessage)
    → row_of i (t ++ m ∷ []) ≡ (if has_id i t then row_of i t else row_of i (m ∷ []))
row_of-append i [] m = refl
row_of-append i (x ∷ t) m = ground (arith, row_of-append i t m)
