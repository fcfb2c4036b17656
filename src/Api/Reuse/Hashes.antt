-- ===== src/Api/Reuse/Hashes.antt =====
-- The hashes of a table of refresh tokens, and the rows that are live.
use websocket_challenge.Base.{
  ℕ, ◌≡◌, Bool, true, false, not, ◌&&◌, ◌||◌, none, some, [], ◌∷◌, ◌++◌, arith, ◌==◌, ==_iff, map,
  Text, ◌≟◌,
}
use websocket_challenge.Repository.Tokens.{
  RefreshToken, TokenTable, has_token, find_token, is_live, revoke_row, revoke_token,
}

pub find-append :
    (p : RefreshToken → Bool) (t : TokenTable) (k : RefreshToken)
    → find_token p t ≡ none
    → p k ≡ false
    → find_token p (t ++ k ∷ []) ≡ none
unfolding find_token
find-append p [] k e f = ground (arith, f)
find-append p (x ∷ t) k e f = ground (arith, e, find-append p t k, f)

pub find-has :
    (hash : Text) (t : TokenTable) (k : RefreshToken)
    → find_token (is_live hash) t ≡ some k
    → has_token (λ x. x.id == k.id && not x.is_revoked) t ≡ true
unfolding find_token
find-has hash [] k e = cc
find-has hash (x ∷ t) k e = ground (arith, e, find-has hash t k, ==_iff k.id k.id)

pub has-revoked :
    (hash : Text) (p : RefreshToken → Bool) (t : TokenTable) (k : RefreshToken)
    → find_token (is_live hash) t ≡ some k
    → has_token (λ x. x.token_hashed ≟ hash) (map (revoke_row p) t) ≡ true
unfolding find_token revoke_row
has-revoked hash p [] k e = cc
has-revoked hash p (x ∷ t) k e = ground (arith, e, has-revoked hash p t k)

pub has-distinct :
    (hash g : Text) (id : ℕ) (t : TokenTable)
    → has_token (λ x. x.token_hashed ≟ hash) t ≡ true
    → has_token (λ x. x.id == id || x.token_hashed ≟ g) t ≡ false
    → (g ≟ hash) ≡ false
has-distinct hash g id [] h f = cc
has-distinct hash g id (x ∷ t) h f = ground (arith, h, f, has-distinct hash g id t)

pub revoke_done :
    (id : ℕ) (t : TokenTable)
    → has_token (λ k. k.id == id && not k.is_revoked) t ≡ true
    → (revoke_token true id t).1 ≡ none
unfolding revoke_token
revoke_done id t h = ground (arith, h)
