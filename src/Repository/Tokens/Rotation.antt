-- ===== src/Repository/Tokens/Rotation.antt =====
-- A token that was revoked is never found again, and clearing the table loses no live token.
use websocket_challenge.Base.{
  ℕ, ◌≡◌, ◌≤◌, refl, sym, ◌∙◌, ap, Bool, true, false, not, ◌&&◌, ◌||◌, Option, none, some, [], ◌∷◌,
  arith, ltb, ◌==◌, ==_iff, map, keep, Bool-cases, Option-cases, All, Text, ◌≟◌, ◌⊎◌, inl, inr,
}
use websocket_challenge.Repository.Tokens.{
  RefreshToken, RepoError, not_found, TokenTable, has_token, find_token, is_live, found_token,
  get_token_by_hash, revoke_row, revoke_token, delete_expired_tokens,
}

revoke_row-live :
    (id : ℕ) (hash : Text) (k : RefreshToken)
    → is_live hash (revoke_row (λ x. x.id == id) k) ≡ (is_live hash k && not (k.id == id))
unfolding revoke_row
revoke_row-live id hash k = ground arith

find-revoked :
    (id : ℕ) (hash : Text) (t : TokenTable) (r : RefreshToken)
    → find_token (is_live hash) (map (revoke_row (λ x. x.id == id)) t) ≡ some r
    → (r.id == id) ≡ false
unfolding find_token revoke_row
find-revoked id hash [] r e = cc
find-revoked id hash (k ∷ t) r e = ground (arith, find-revoked id hash t r)

none-left :
    (id : ℕ) (t : TokenTable)
    → has_token (λ k. k.id == id && not k.is_revoked) (map (revoke_row (λ x. x.id == id)) t) ≡ false
unfolding revoke_row
none-left id [] = refl
none-left id (k ∷ t) = ground (arith, none-left id t)

-- Whether an answer is a token of this id.
abbrev pub is_answer : ℕ → RefreshToken ⊎ RepoError → Bool
is_answer id (inl r) = r.id == id
is_answer id (inr e) = false

found_token-is_answer :
    (scan_ip : Option ℕ → Option ℕ) (id : ℕ) (o : Option RefreshToken)
    → ((r : RefreshToken) → o ≡ some r → (r.id == id) ≡ false)
    → is_answer id (found_token scan_ip o) ≡ false
unfolding found_token
found_token-is_answer scan_ip id none h = refl
found_token-is_answer scan_ip id (some r) h = h r refl

pub revoke_token-rows :
    (id : ℕ) (t : TokenTable)
    → (revoke_token true id t).1 ≡ none
    → (revoke_token true id t).0 ≡ map (revoke_row (λ x. x.id == id)) t
unfolding revoke_token
revoke_token-rows id t e = ground (arith, e)

revoke_token-again :
    (id : ℕ) (t : TokenTable)
    → let t' = map (revoke_row (λ x. x.id == id)) t in
      revoke_token true id t' ≡ (t', some not_found)
unfolding revoke_token
revoke_token-again id t = rw (none-left id t) refl

-- Once `RevokeToken` has ended without an error, `GetTokenByHash` returns the token for no hash,
-- and revoking it again reports that it is not found and changes nothing.
pub revoke_token-final :
    (scan_ip : Option ℕ → Option ℕ) (id : ℕ) (hash : Text) (t : TokenTable)
    → (revoke_token true id t).1 ≡ none
    → let t' = (revoke_token true id t).0 in
      (is_answer id (get_token_by_hash scan_ip true hash t') ≡ false)
      × (revoke_token true id t' ≡ (t', some not_found))
unfolding get_token_by_hash
revoke_token-final scan_ip id hash t e =
    rw (revoke_token-rows id t e)
      (found_token-is_answer scan_ip id _ (find-revoked id hash t), revoke_token-again id t)

find-kept :
    (hash : Text) (now : ℕ) (t : TokenTable) (r : RefreshToken)
    → find_token (is_live hash) t ≡ some r
    → now ≤ r.expires_at
    → find_token (is_live hash) (keep (λ k. not (ltb k.expires_at now || k.is_revoked)) t) ≡ some r
unfolding find_token
find-kept hash now [] r e l = e
find-kept hash now (k ∷ t) r e l = ground (arith, find-kept hash now t r)

All-kept :
    (now : ℕ) (t : TokenTable)
    → All
        (λ k. (ltb k.expires_at now || k.is_revoked) ≡ false)
        (keep (λ k. not (ltb k.expires_at now || k.is_revoked)) t)
All-kept now [] = tt
All-kept now (k ∷ t) = ground (arith, All-kept now t)

-- The cleanup leaves no token that is revoked or expired, and loses none that is neither: what
-- `GetTokenByHash` returned before, it returns after, unless that token has expired.
pub delete_expired_tokens_lem :
    (scan_ip : Option ℕ → Option ℕ) (hash : Text) (now : ℕ) (t : TokenTable) (r : RefreshToken)
    → get_token_by_hash scan_ip true hash t ≡ inl r
    → now ≤ r.expires_at
    → let t' = (delete_expired_tokens true now t).0 in
      (get_token_by_hash scan_ip true hash t' ≡ inl r)
      × All (λ k. (ltb k.expires_at now || k.is_revoked) ≡ false) t'
unfolding get_token_by_hash delete_expired_tokens found_token
delete_expired_tokens_lem scan_ip hash now t r e l =
    elim (Option-cases (find_token (is_live hash) t)) [
      | inl n ↦ ground (arith, e, n)
      | inr (k, f) ↦ (
        ap (found_token scan_ip) (find-kept hash now t k f (ground (arith, e, f, l)))
            ∙ sym (ap (found_token scan_ip) f)
            ∙ e,
        All-kept now t,
      )
    ]

-- The constraint on the column `token_hash`.
abbrev pub UniqueHashes : TokenTable → Type 0
UniqueHashes [] = Unit
UniqueHashes (k ∷ t) = (has_token (λ x. x.token_hashed ≟ k.token_hashed) t ≡ false) × UniqueHashes t

find-absent :
    (hash : Text) (id : ℕ) (t : TokenTable)
    → has_token (λ x. x.token_hashed ≟ hash) t ≡ false
    → find_token (is_live hash) (map (revoke_row (λ x. x.id == id)) t) ≡ none
unfolding find_token revoke_row
find-absent hash id [] h = refl
find-absent hash id (k ∷ t) h = ground (arith, find-absent hash id t)

pub find-dead :
    (hash : Text) (k : RefreshToken) (t : TokenTable)
    → UniqueHashes t
    → find_token (is_live hash) t ≡ some k
    → find_token (is_live hash) (map (revoke_row (λ x. x.id == k.id)) t) ≡ none
unfolding find_token revoke_row
find-dead hash k [] u e = refl
find-dead hash k (y ∷ t) u e = elim (Bool-cases (is_live hash y)) [
  | inl live ↦ ground (arith, e, live, find-absent hash k.id t, u.0, ==_iff k.id k.id)
  | inr dead ↦ ground (arith, e, dead, find-dead hash k t u.1)
]
