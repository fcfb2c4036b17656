-- ===== src/Chat/Pump/Writing.antt =====
-- The write pump of internal/chat/client.go: what it takes from `Send` and writes to the
-- connection. `encode` is the JSON text of a message.
use websocket_challenge.Base.{
  ℕ, ◌≡◌, refl, ap, ◌∙◌, Bool, true, false, List, [], ◌∷◌, ◌++◌, ◌==◌, map, if◌then◌else◌, Text,
  contains, append-nil, split, split-part, split-whole,
}
use websocket_challenge.Chat.Hub.{Frame, Hub, set_client}

-- What a round of the loop does to the connection. After a frame that fails and after a close frame
-- the pump ends, and unregisters the client.
pub data Written : Type 0 where
  nothing failed closing : Written
  written : Text → Written

module _ (encode : Frame → Text) where
  -- The messages that are queued, each after a newline.
  unfoldable pub more_lines : List Frame → Text
  more_lines [] = []
  more_lines (m ∷ ms) = 10 ∷ encode m ++ more_lines ms

  -- `opened` says whether `NextWriter` gives a writer, `sent` whether its `Close` succeeds. The
  -- pump is the only reader of `Send`, so that the messages it has counted are there; a closed
  -- channel is seen only when it is empty.
  unfoldable pub write_queued : Bool → Bool → ℕ → List Frame → Hub → Hub × Written
  unfolding more_lines
  write_queued opened sent c [] h = (h, if (h.client c).closed then closing else nothing)
  write_queued opened sent c (m ∷ ms) h =
      let rest : List Frame = if opened then [] else ms in
      (
        set_client c (record (h.client c) { send = rest }) h,
        if opened then if sent then written (encode m ++ more_lines ms) else failed else failed,
      )

  unfoldable pub write_pump : Bool → Bool → ℕ → Hub → Hub × Written
  unfolding write_queued
  write_pump opened sent c h = write_queued opened sent c (h.client c).send h

  module _ (single_line : (m : Frame) → contains (encode m) 10 ≡ false) where
    split-lines :
        (m : Frame) (ms : List Frame) → split 10 (encode m ++ more_lines ms) ≡ map encode (m ∷ ms)
    unfolding more_lines
    split-lines m [] =
        ap (split 10) (append-nil (encode m)) ∙ split-whole 10 (encode m) (single_line m)
    split-lines m (x ∷ ms) =
        split-part 10 (encode m) (encode x ++ more_lines ms) (single_line m)
        ∙ ap (λ (ls : List Text). encode m ∷ ls) (split-lines x ms)

    -- Where no message has a newline in its text and the connection takes the frame, a round on a
    -- channel that is not empty writes one frame, whose lines are the queued messages in order, and
    -- empties the channel, whether or not it has been closed; it touches no other client.
    pub write_pump-split :
        (c : ℕ) (m : Frame) (ms : List Frame) (h : Hub)
        → (h.client c).send ≡ m ∷ ms
        → (h' : Hub) × (s : Text) × (write_pump true true c h ≡ (h', written s))
          × (split 10 s ≡ map encode (m ∷ ms))
          × ((d : ℕ)
              → h'.client d ≡ (if d == c then record (h.client c) { send = [] } else h.client d))
    unfolding write_pump
    write_pump-split c m ms h e = (
      set_client c (record (h.client c) { send = [] }) h,
      encode m ++ more_lines ms,
      ap (λ q. write_queued true true c q h) e,
      split-lines m ms,
      λ d. refl,
    )
