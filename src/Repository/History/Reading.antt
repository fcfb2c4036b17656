-- ===== src/Repository/History/Reading.antt =====
-- What `Fetch` returns.
use websocket_challenge.Base.{
  ℕ, suc, zero, ◌≤◌, ◌<◌, ◌≡◌, ◌⊎◌, inl, inr, refl, ap, Bool, true, false, not, ◌||◌, [], ◌∷◌,
  arith, leb, ◌==◌, if◌then◌else◌, Bool-cases, Text, ◌≟◌, keep, take, length, Option, none, some,
  length-take-le, All, All-map, All-take,
}
use websocket_challenge.Messages.{
  StoredMessage, MessageType, chat, private, system, user_list, ack, typing, kick, other,
}
use websocket_challenge.Repository.History.{
  Table, DbError, visible, is_private, insert_newest, newest_first, fetch, microseconds, rows_read,
}

-- The rows stand in the order of time, the newest first.
abbrev pub IsNewestFirst : Table → Type 0
IsNewestFirst [] = Unit
IsNewestFirst (m ∷ t) = All (λ x. x.timestamp ≤ m.timestamp) t × IsNewestFirst t

-- What a user may read in a room: messages of the room from before `until`, and of the private
-- ones those that the user sent or is the target of.
pub record Readable (room_id user_name : Text) (until : ℕ) (m : StoredMessage) : Type 0 where
  pub in_room : m.room_id ≡ room_id
  pub earlier : m.timestamp < until
  pub own_private : m.kind ≡ private → (m.sender ≡ user_name) ⊎ (m.target ≡ user_name)

visible-Readable :
    (room_id user_name : Text) (until : ℕ) (m : StoredMessage)
    → visible room_id user_name until m ≡ true
    → Readable room_id user_name until m
visible-Readable room_id user_name until m h = record {
  in_room = ground arith;
  earlier = ground arith;
  own_private = λ p. ground arith;
}

own_private_test :
    (user_name sender target : Text) (k : MessageType)
    → (k ≡ private → (sender ≡ user_name) ⊎ (target ≡ user_name))
    → (not (is_private k) || (sender ≟ user_name || target ≟ user_name)) ≡ true
own_private_test user_name sender target private h = elim (h refl) [
  | inl e ↦ ground arith
  | inr e ↦ ground arith
]
own_private_test user_name sender target chat h = refl
own_private_test user_name sender target system h = refl
own_private_test user_name sender target user_list h = refl
own_private_test user_name sender target ack h = refl
own_private_test user_name sender target typing h = refl
own_private_test user_name sender target kick h = refl
own_private_test user_name sender target (other s) h = refl

visible_of_Readable :
    (room_id user_name : Text) (until : ℕ) (m : StoredMessage)
    → Readable room_id user_name until m
    → visible room_id user_name until m ≡ true
visible_of_Readable room_id user_name until m r =
    ground (
      arith,
      r.in_room,
      r.earlier,
      own_private_test user_name m.sender m.target m.kind r.own_private,
    )

keep-All : (p : StoredMessage → Bool) (t : Table) → All (λ m. p m ≡ true) (keep p t)
keep-All p [] = tt
keep-All p (m ∷ t) = ground (arith, keep-All p t)

insert_newest-All :
    (P : StoredMessage → Type 0) (m : StoredMessage) (t : Table)
    → P m
    → All P t
    → All P (insert_newest m t)
unfolding insert_newest
insert_newest-All P m [] h a = (h, tt)
insert_newest-All P m (x ∷ t) h a = elim (Bool-cases (leb x.timestamp m.timestamp)) [
  | inl e ↦ rw e (h, a)
  | inr e ↦ rw e (a.0, insert_newest-All P m t h a.1)
]

newest_first-All : (P : StoredMessage → Type 0) (t : Table) → All P t → All P (newest_first t)
unfolding newest_first
newest_first-All P [] a = tt
newest_first-All P (m ∷ t) a = insert_newest-All P m (newest_first t) a.0 (newest_first-All P t a.1)

insert_newest-IsNewestFirst :
    (m : StoredMessage) (t : Table) → IsNewestFirst t → IsNewestFirst (insert_newest m t)
unfolding insert_newest
insert_newest-IsNewestFirst m [] s = (tt, tt)
insert_newest-IsNewestFirst m (x ∷ t) s = elim (Bool-cases (leb x.timestamp m.timestamp)) [
  | inl e ↦ rw e (
    (
      ground arith,
      All-map _ _ (λ (y : StoredMessage) (h : y.timestamp ≤ x.timestamp). ground arith) t s.0,
    ),
    s,
  )
  | inr e ↦ rw e (
    insert_newest-All (λ y. y.timestamp ≤ x.timestamp) m t (ground arith) s.0,
    insert_newest-IsNewestFirst m t s.1,
  )
]

newest_first-IsNewestFirst : (t : Table) → IsNewestFirst (newest_first t)
unfolding newest_first
newest_first-IsNewestFirst [] = tt
newest_first-IsNewestFirst (m ∷ t) =
    insert_newest-IsNewestFirst m (newest_first t) (newest_first-IsNewestFirst t)

take-IsNewestFirst : (n : ℕ) (t : Table) → IsNewestFirst t → IsNewestFirst (take n t)
take-IsNewestFirst zero t s = tt
take-IsNewestFirst (suc n) [] s = tt
take-IsNewestFirst (suc n) (m ∷ t) s = (All-take _ n t s.0, take-IsNewestFirst n t s.1)

length-take : (n : ℕ) (t : Table) → length (take n t) ≤ length t
length-take zero t = omega arith
length-take (suc n) [] = omega arith
length-take (suc n) (m ∷ t) = omega (arith, length-take n t)

module _ (room_id user_name : Text) (limit before now : ℕ) (t : Table) where
  earlier-Readable :
      (a b : ℕ) (m : StoredMessage)
      → b ≤ a
      → Readable room_id user_name b m
      → Readable room_id user_name a m
  earlier-Readable a b m h r = record {
    in_room = r.in_room;
    earlier = omega (arith, r.earlier, h);
    own_private = r.own_private;
  }

  -- What an answer of `Fetch` holds: rows that the user may read, the newest first, and no more
  -- than the limit. The zero time stands for the present.
  abbrev pub Answer : Table ⊎ DbError → Type 0
  Answer (inr e) = Unit
  Answer (inl rows) =
      All (Readable room_id user_name (if before == 0 then now else before)) rows
      × IsNewestFirst rows
      × (length rows ≤ limit)

  -- Rows that `Fetch` returns are at most `limit` in number and the newest first, and each is one
  -- that the user may read: of the room, earlier than the bound,
  -- and private only if the user sent it or was its target.
  pub fetch-Answer :
      (up : Bool) (broken : Option ℕ)
      → Answer (fetch up broken room_id user_name limit before now t)
  unfolding fetch
  fetch-Answer false broken = tt
  fetch-Answer true broken =
      let whole : ℕ = if before == 0 then now else before in
      let until : ℕ = microseconds whole in
      let found : Table = newest_first (keep (visible room_id user_name until) t) in
      rows_read-Answer broken (take limit found) (
        All-take _ limit found (
            newest_first-All _ _ (
              All-map _ _
                (λ m (h : visible room_id user_name until m ≡ true).
                  earlier-Readable whole until m (omega arith)
                    (visible-Readable room_id user_name until m h))
                _ (keep-All (visible room_id user_name until) t))),
        take-IsNewestFirst limit found
            (newest_first-IsNewestFirst (keep (visible room_id user_name until) t)),
        length-take-le limit found,
      )
    where
      rows_read-Answer :
          (b : Option ℕ) (rows : Table) → Answer (inl rows) → Answer (inl (rows_read b rows))
      rows_read-Answer none rows a = a
      rows_read-Answer (some n) rows (a, s, l) =
          (All-take _ n rows a, take-IsNewestFirst n rows s, omega (arith, l, length-take n rows))

abbrev pub In : StoredMessage → Table → Type 0
In m [] = ⊥
In m (x ∷ t) = (m ≡ x) ⊎ In m t

In-keep :
    (p : StoredMessage → Bool) (m : StoredMessage) (t : Table)
    → p m ≡ true
    → In m t
    → In m (keep p t)
In-keep p m [] h i = i
In-keep p m (x ∷ t) h (inl e) = rw (rw e at h) (inl e)
In-keep p m (x ∷ t) h (inr i) = elim (Bool-cases (p x)) [
  | inl e ↦ rw e (inr (In-keep p m t h i))
  | inr e ↦ rw e (In-keep p m t h i)
]

In-insert_newest : (m x : StoredMessage) (t : Table) → (m ≡ x) ⊎ In m t → In m (insert_newest x t)
unfolding insert_newest
In-insert_newest m x [] i = i
In-insert_newest m x (y ∷ t) i = elim (Bool-cases (leb y.timestamp x.timestamp)) [
  | inl e ↦ rw e i
  | inr e ↦ rw e (elim i [
    | inl h ↦ inr (In-insert_newest m x t (inl h))
    | inr (inl h) ↦ inl h
    | inr (inr h) ↦ inr (In-insert_newest m x t (inr h))
  ])
]

In-newest_first : (m : StoredMessage) (t : Table) → In m t → In m (newest_first t)
unfolding newest_first
In-newest_first m [] i = i
In-newest_first m (x ∷ t) (inl e) = In-insert_newest m x (newest_first t) (inl e)
In-newest_first m (x ∷ t) (inr i) =
    In-insert_newest m x (newest_first t) (inr (In-newest_first m t i))

le_of_In :
    (m : StoredMessage) (b : ℕ) (t : Table)
    → All (λ x. x.timestamp ≤ b) t
    → In m t
    → m.timestamp ≤ b
le_of_In m b [] a i = absurd i
le_of_In m b (x ∷ t) a (inl e) = rw e a.0
le_of_In m b (x ∷ t) a (inr i) = le_of_In m b t a.1 i

-- A row of a list in order is among the first `n`, or those are `n` rows that are no older.
In-take :
    (m : StoredMessage) (n : ℕ) (t : Table)
    → IsNewestFirst t
    → In m t
    → In m (take n t) ⊎ ((length (take n t) ≡ n) × All (λ x. m.timestamp ≤ x.timestamp) (take n t))
In-take m zero t s i = inr (refl, tt)
In-take m (suc n) [] s i = absurd i
In-take m (suc n) (x ∷ t) s (inl e) = inl (inl e)
In-take m (suc n) (x ∷ t) s (inr i) = elim (In-take m n t s.1 i) [
  | inl j ↦ inl (inr j)
  | inr (l, a) ↦ inr (ap suc l, (le_of_In m x.timestamp t s.0 i, a))
]

-- `Fetch` misses no row that the user may read and that is earlier than the bound in microseconds,
-- where the database answers and the reading does not break off, unless it returns as many rows as
-- the limit allows and the row is no newer than any of them. Where the reading breaks off after
-- some rows, it returns those of this answer without an error.
pub fetch_complete :
    (room_id user_name : Text) (limit before now n : ℕ) (t : Table) (m : StoredMessage)
    → In m t
    → Readable room_id user_name (microseconds (if before == 0 then now else before)) m
    → (rows : Table) × (fetch true none room_id user_name limit before now t ≡ inl rows)
      × (In m rows ⊎ ((length rows ≡ limit) × All (λ x. m.timestamp ≤ x.timestamp) rows))
      × (fetch true (some n) room_id user_name limit before now t ≡ inl (take n rows))
unfolding fetch
fetch_complete room_id user_name limit before now n t m i h =
    let until : ℕ = microseconds (if before == 0 then now else before) in
    let kept : Table = keep (visible room_id user_name until) t in
    (
      take limit (newest_first kept),
      refl,
      In-take m limit (newest_first kept) (newest_first-IsNewestFirst kept) (
          In-newest_first m kept (
            In-keep (visible room_id user_name until) m t
              (visible_of_Readable room_id user_name until m h) i)),
      refl,
    )
