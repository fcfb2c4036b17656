-- ===== src/Base/Strings.antt =====
-- A Go string, as the list of its code points, with an equality that decides. `len`, which counts
-- bytes, is `byte_length`.
use Prim.Native.Nat.{ℕ, zero, suc, ◌+◌, ◌/◌, ◌%◌}
use Prim.Native.Char.{code}
use Prim.Native.String.{String}
use mathlib.Core.Path.{◌≡◌, refl, ap₂}
use mathlib.Core.Logic.{ite, dite}
use mathlib.Core.Bool.{Bool, true, false, ◌&&◌, ◌||◌, Bool-discrete}
use mathlib.Core.List.{reverse, List, [], ◌∷◌, ◌++◌}
use mathlib.Core.Option.{Option, none, some}
use native.Mathlib.Omega.{arith}
use websocket_challenge.Base.Lists.{contains}
use websocket_challenge.Base.Compare.{leb, ltb, ◌==◌, ==_iff, if◌then◌else◌}

abbrev pub Text : Type 0
Text = List ℕ

abbrev pub codes : String → Text
codes String.[] = []
codes (String.◌∷◌ c s) = code c ∷ codes s

pub text_beq : Text → Text → Bool
text_beq [] [] = true
text_beq (c ∷ s) (d ∷ t) = c == d && text_beq s t
text_beq _ _ = false

pub text_beq→eq : (s t : Text) → text_beq s t ≡ true → s ≡ t
unfolding text_beq
text_beq→eq [] [] h = refl
text_beq→eq (c ∷ s) (d ∷ t) h =
    ap₂ ◌∷◌ ((==_iff c d).0 (ground arith)) (text_beq→eq s t (ground arith))
text_beq→eq [] (d ∷ t) h = cc
text_beq→eq (c ∷ s) [] h = cc

text_beq_refl : (s : Text) → text_beq s s ≡ true
unfolding text_beq
text_beq_refl [] = refl
text_beq_refl (c ∷ s) = ground (arith, text_beq_refl s)

pub text_beq_of_eq : (s t : Text) → s ≡ t → text_beq s t ≡ true
text_beq_of_eq s t e = rw e (text_beq_refl t)

unfoldable pub text_dec : Discrete Text
unfolding text_beq
text_dec s t =
    dite (Bool-discrete (text_beq s t) true) (λ same. yes (text_beq→eq s t same))
      (λ differ. no (λ p. differ (text_beq_of_eq s t p)))

-- `s == t` on strings. A split on it yields the equation or its negation.
infix 50 ◌≟◌
abbrev pub ◌≟◌ : Text → Text → Bool
s ≟ t = ite (text_dec s t) true false

-- `len(s)`: the bytes of the UTF-8 encoding.
abbrev pub byte_length : Text → ℕ
byte_length [] = 0
byte_length (c ∷ s) =
    (if ltb c 0x80 then 1 else if ltb c 0x800 then 2 else if ltb c 0x10000 then 3 else 4)
    + byte_length s

-- `strings.CutPrefix`: the rest behind the prefix, if the string has it.
abbrev pub cut_prefix : Text → Text → Option Text
cut_prefix s [] = some s
cut_prefix [] (p ∷ ps) = none
cut_prefix (c ∷ s) (p ∷ ps) = let rest = cut_prefix s ps in if c == p then rest else none

pub cut_prefix-append : (p s : Text) → cut_prefix (p ++ s) p ≡ some s
cut_prefix-append [] s = refl
cut_prefix-append (c ∷ p) s = ground (arith, cut_prefix-append p s)

-- `strconv.Itoa` on non-negative ints: the digits, most significant first.
digits_onto : ℕ → ℕ → Text → Text
digits_onto zero n acc = acc
digits_onto (suc fuel) n acc =
    let more = digits_onto fuel (n / 10) ((b'0' + n % 10) ∷ acc) in
    if ltb n 10 then (b'0' + n) ∷ acc else more

-- `n + 1` rounds are enough, as each divides `n` by ten.
unfoldable pub itoa : ℕ → Text
unfolding digits_onto
itoa n = digits_onto (suc n) n []

-- White space as package unicode has it, for `strings.TrimSpace`.
abbrev pub is_space : ℕ → Bool
is_space c =
    (leb 9 c && leb c 13)
    || (c == 32 || c == 133)
    || (c == 160 || c == 5760)
    || (leb 8192 c && leb c 8202)
    || (c == 8232 || c == 8233)
    || (c == 8239 || c == 8287)
    || c == 12288

unfoldable pub trim_left : Text → Text
trim_left [] = []
trim_left (c ∷ s) = let rest = trim_left s in if is_space c then rest else c ∷ s

unfoldable pub trim_space : Text → Text
unfolding trim_left
trim_space s = reverse (trim_left (reverse (trim_left s)))

-- `strings.Split` for a separator of one code point.
abbrev pub onto_first : ℕ → List Text → List Text
onto_first c [] = (c ∷ []) ∷ []
onto_first c (part ∷ parts) = (c ∷ part) ∷ parts

unfoldable pub split : ℕ → Text → List Text
split sep [] = [] ∷ []
split sep (c ∷ s) = let parts = split sep s in if c == sep then [] ∷ parts else onto_first c parts

-- A part without the separator, and what comes after the separator.
pub split-part :
    (sep : ℕ) (part rest : Text)
    → contains part sep ≡ false
    → split sep (part ++ sep ∷ rest) ≡ part ∷ split sep rest
unfolding split
split-part sep [] rest free = ground (arith, ==_iff sep sep)
split-part sep (c ∷ part) rest free =
    ground
      (arith, free, split-part sep part rest (ground (arith, free)), ==_iff c sep, ==_iff sep c)

pub split-whole : (sep : ℕ) (s : Text) → contains s sep ≡ false → split sep s ≡ s ∷ []
unfolding split
split-whole sep [] free = refl
split-whole sep (c ∷ s) free =
    ground (arith, free, split-whole sep s (ground (arith, free)), ==_iff c sep, ==_iff sep c)
