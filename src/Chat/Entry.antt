-- ===== src/Chat/Entry.antt =====
-- `sanitize` and `serveWS` of cmd/server/main.go: the room that a request names, and whether it is
-- answered, sent to another server or accepted. The parameter `to_lower` is `strings.ToLower`, and
-- `show_id` the text of a UUID.
pub mod Reserved
use websocket_challenge.Base.{
  ℕ, ◌≡◌, ◌≤◌, refl, arith, Bool, true, false, not, ◌&&◌, ◌||◌, Option, none, some, [], ◌∷◌, leb,
  ltb, ◌==◌, if◌then◌else◌, Bool-cases, inl, inr, Text, codes, ◌≟◌, byte_length, trim_space,
}
use websocket_challenge.Hashing.{get}
use websocket_challenge.Repository.Users.{User}
use websocket_challenge.Limiter.{new_rate_limiter, refill_rate}
use websocket_challenge.Chat.Hub.{Client, Hub}
use websocket_challenge.Chat.Pump.{Reader}

-- The class `[a-z0-9-_]`
abbrev pub is_room_char : ℕ → Bool
is_room_char c = ((leb 97 c && leb c 122) || (leb 48 c && leb c 57)) || (c == 45 || c == 95)

abbrev pub all_room_chars : Text → Bool
all_room_chars [] = true
all_room_chars (c ∷ s) = is_room_char c && all_room_chars s

-- `^[a-z0-9-_]+$`
abbrev pub is_match : Text → Bool
is_match [] = false
is_match (c ∷ s) = all_room_chars (c ∷ s)

unfoldable pub checked_room : Text → Text
checked_room room =
    if ltb 32 (byte_length room) || not (is_match room) then codes "general" else room

-- What becomes of a request: an answer of that status, a redirect with its target and `from`, or a
-- client with the fields that its read pump uses.
pub data Decision : Type 0 where
  reject : ℕ → Decision
  redirect : Text → Text → Decision
  accept : Client → Reader → Decision

module _ (to_lower : Text → Text) where
  unfoldable pub sanitize : Text → Text
  unfolding checked_room
  sanitize [] = codes "general"
  sanitize (c ∷ s) = checked_room (trim_space (to_lower (c ∷ s)))

  module _ (hash : Text → ℕ) (show_id : ℕ → Text) where
    -- `seconds` and `now` are the clock in seconds and in nanoseconds.
    unfoldable pub accept_user : ℕ → ℕ → User → Text → Decision
    accept_user seconds now user room =
        accept
          (record {
            room_id = if sanitize room ≟ [] then codes "general" else sanitize room;
            name = user.username;
            send = [];
            closed = false;
          })
          (record { limiter = new_rate_limiter seconds 5 refill_rate; last_warning = now })

    unfoldable pub serve_ws : ℕ → ℕ → Option User → Text → Text → Hub → Decision
    unfolding accept_user
    serve_ws seconds now none from_server room h = reject 401
    serve_ws seconds now (some user) from_server room h =
        let target = get hash (show_id user.id) h.ring in
        if user.is_banned
        then reject 403
        else if target ≟ h.server_id
        then accept_user seconds now user room
        else if from_server ≟ target
        then accept_user seconds now user room
        else redirect target h.server_id

    abbrev pub is_redirect_to : Text → Decision → Bool
    is_redirect_to server (redirect target from_server) = target ≟ server
    is_redirect_to server _ = false

    -- A server never redirects a client to itself, nor back to the server that the client says it
    -- comes from: two servers whose rings disagree do not send it to and fro.
    pub serve_ws-no_bounce :
        (seconds now : ℕ) (user : Option User) (from_server room : Text) (h : Hub)
        → (is_redirect_to h.server_id (serve_ws seconds now user from_server room h) ≡ false)
          × (is_redirect_to from_server (serve_ws seconds now user from_server room h) ≡ false)
    unfolding serve_ws accept_user
    serve_ws-no_bounce seconds now none from_server room h = (refl, refl)
    serve_ws-no_bounce seconds now (some user) from_server room h = (ground arith, ground arith)

  checked_room-IsRoom :
      (room : Text) → (is_match (checked_room room) ≡ true) × (byte_length (checked_room room) ≤ 32)
  unfolding checked_room
  checked_room-IsRoom room = elim (Bool-cases (ltb 32 (byte_length room) || not (is_match room))) [
    | inl bad ↦ rw bad (refl, omega arith)
    | inr good ↦ rw good (ground arith, ground arith)
  ]

  -- Whatever a request writes for its room, the room that it gets matches the pattern, and is at
  -- most 32 bytes long.
  pub sanitize-IsRoom :
      (room : Text) → (is_match (sanitize room) ≡ true) × (byte_length (sanitize room) ≤ 32)
  unfolding sanitize
  sanitize-IsRoom [] = (refl, omega arith)
  sanitize-IsRoom (c ∷ s) = checked_room-IsRoom (trim_space (to_lower (c ∷ s)))
