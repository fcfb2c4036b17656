-- ===== src/Config/Masking.antt =====
-- What the log shows of the address of the database.
use websocket_challenge.Base.{
  ℕ, ◌≡◌, ap, ◌∙◌, false, List, [], ◌∷◌, ◌++◌, if◌then◌else◌, Text, codes, length, ltb, get_or,
  contains, arith, split, split-part, split-whole, append-nil,
}
use websocket_challenge.Config.{mask_db_source}

-- The end of a text, or a separator.
abbrev pub IsBoundary : ℕ → Text → Type 0
IsBoundary sep [] = Unit
IsBoundary sep (c ∷ s) = c ≡ sep

-- The first part ends at a separator or at the end.
split-first :
    (sep : ℕ) (part rest : Text)
    → contains part sep ≡ false
    → IsBoundary sep rest
    → (others : List Text) × (split sep (part ++ rest) ≡ part ∷ others)
split-first sep part [] free b = ([], ap (split sep) (append-nil part) ∙ split-whole sep part free)
split-first sep part (c ∷ rest) free b = (split sep rest, rw b (split-part sep part rest free))

-- The masked address of a text with an at sign shows what stands between the first at sign and the
-- next one or the end, and nothing else of the text.
pub mask_db_source-shows :
    (hidden shown rest : Text)
    → contains hidden 64 ≡ false
    → contains shown 64 ≡ false
    → IsBoundary 64 rest
    → mask_db_source (hidden ++ 64 ∷ (shown ++ rest)) ≡ codes "postgres://****:****@" ++ shown
unfolding mask_db_source
mask_db_source-shows hidden shown rest h s b =
    let (others, e) = split-first 64 shown rest s b in
    ap
      (λ (parts : List Text).
        if ltb (length parts) 2
        then codes "invalid-dsn-format"
        else codes "postgres://****:****@" ++ get_or parts 1 [])
      (split-part 64 hidden (shown ++ rest) h ∙ ap (λ (ps : List Text). hidden ∷ ps) e)
    ∙ ground arith
