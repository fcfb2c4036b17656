-- ===== src/Base/Maps.antt =====
-- Go maps, as association lists with at most one entry for each key: writes go to the entry that
-- is there. A `range` over a map reads the list, whose order stands for Go's unspecified one.
use mathlib.Core.Path.{◌≡◌, refl}
use mathlib.Core.Logic.{ite}
use mathlib.Core.List.{List, [], ◌∷◌}
use mathlib.Core.Option.{Option, none, some}
use native.Mathlib.Omega.{arith}
use websocket_challenge.Base.Lists.{All}

abbrev pub Dict {ℓ} : Type ℓ → Type ℓ → Type ℓ
Dict K V = List (K × V)

module _ {ℓ} {K V : Type ℓ} (dec : Discrete K) where
  unfoldable pub lookup : K → Dict K V → Option V
  lookup k [] = none
  lookup k ((j, v) ∷ d) = ite (dec j k) (some v) (lookup k d)

  -- `d[k] = v`
  unfoldable pub insert : K → V → Dict K V → Dict K V
  insert k v [] = (k, v) ∷ []
  insert k v ((j, w) ∷ d) = ite (dec j k) ((k, v) ∷ d) ((j, w) ∷ insert k v d)

  -- `delete(d, k)`
  unfoldable pub erase : K → Dict K V → Dict K V
  erase k [] = []
  erase k ((j, w) ∷ d) = let rest = erase k d in ite (dec j k) rest ((j, w) ∷ rest)

  pub lookup-nil : (k : K) → lookup k [] ≡ none
  unfolding lookup
  lookup-nil k = refl

  pub lookup-insert :
      (j k : K) (v : V) (d : Dict K V)
      → lookup j (insert k v d) ≡ ite (dec k j) (some v) (lookup j d)
  unfolding insert lookup
  lookup-insert j k v [] = refl
  lookup-insert j k v ((i, w) ∷ d) = ground (arith, lookup-insert j k v d)

  pub lookup-erase :
      (j k : K) (d : Dict K V) → lookup j (erase k d) ≡ ite (dec k j) none (lookup j d)
  unfolding erase lookup
  lookup-erase j k [] = ground arith
  lookup-erase j k ((i, w) ∷ d) = ground (arith, lookup-erase j k d)

module _ {ℓ κ} {K V : Type ℓ} (dec : Discrete K) where
  pub All-insert :
      (P : K × V → Type κ) (k : K) (t : V) (d : Dict K V)
      → P (k, t)
      → All P d
      → All P (insert dec k t d)
  unfolding insert
  All-insert P k t [] p a = (p, tt)
  All-insert P k t ((j, w) ∷ d) p a =
      elim (dec j k) as (λ x. All P (ite x ((k, t) ∷ d) ((j, w) ∷ insert dec k t d))) [
        | yes e ↦ (p, a.1)
        | no n ↦ (a.0, All-insert P k t d p a.1)
      ]

  pub All-erase : (P : K × V → Type κ) (k : K) (d : Dict K V) → All P d → All P (erase dec k d)
  unfolding erase
  All-erase P k [] a = tt
  All-erase P k ((j, w) ∷ d) a =
      let rest = All-erase P k d a.1 in
      elim (dec j k) as (λ x. All P (ite x (erase dec k d) ((j, w) ∷ erase dec k d))) [
        | yes e ↦ rest
        | no n ↦ (a.0, rest)
      ]
