-- ===== src/Repository/Tokens/Unique.antt =====
-- Every change of the table of refresh tokens keeps their hashes unique.
use websocket_challenge.Base.{
  ℕ, ◌≡◌, ◌∙◌, refl, ap, Bool, true, false, not, ◌&&◌, ◌||◌, [], ◌∷◌, ◌++◌, ◌==◌, arith, map, Text,
  ◌≟◌, inl, inr, Bool-cases, keep, ltb,
}
use websocket_challenge.Repository.Tokens.{
  RefreshToken, TokenTable, has_token, is_address, revoke_row, revoke_token, save_refresh_token,
  delete_expired_tokens,
}
use websocket_challenge.Repository.Tokens.Rotation.{UniqueHashes}

has-append :
    (p : RefreshToken → Bool) (t : TokenTable) (k : RefreshToken)
    → has_token p t ≡ false
    → p k ≡ false
    → has_token p (t ++ k ∷ []) ≡ false
has-append p [] k h f = ground (arith, f)
has-append p (y ∷ t) k h f = ground (arith, h, has-append p t k)

append-UniqueHashes :
    (k : RefreshToken) (t : TokenTable)
    → UniqueHashes t
    → has_token (λ x. x.token_hashed ≟ k.token_hashed) t ≡ false
    → UniqueHashes (t ++ k ∷ [])
append-UniqueHashes k [] v h = (refl, tt)
append-UniqueHashes k (y ∷ t) v h = (
  has-append (λ x. x.token_hashed ≟ y.token_hashed) t k v.0 (ground (arith, h)),
  append-UniqueHashes k t v.1 (ground (arith, h)),
)

fresh_hash :
    (id : ℕ) (g : Text) (t : TokenTable)
    → has_token (λ x. x.id == id || x.token_hashed ≟ g) t ≡ false
    → has_token (λ x. x.token_hashed ≟ g) t ≡ false
fresh_hash id g [] h = refl
fresh_hash id g (y ∷ t) h = ground (arith, h, fresh_hash id g t)

pub save-UniqueHashes :
    (up known : Bool) (id now : ℕ) (k : RefreshToken) (t : TokenTable)
    → UniqueHashes t
    → UniqueHashes (save_refresh_token up known id now k t).0
unfolding save_refresh_token
save-UniqueHashes up known id now k t v =
    let taken = has_token (λ x. x.id == id || x.token_hashed ≟ k.token_hashed) t in
    elim (Bool-cases ((up && known) && (is_address k.client_ip && not taken))) [
      | inl stored ↦
          rw stored
            (append-UniqueHashes _ t v (fresh_hash id k.token_hashed t (ground (arith, stored))))
      | inr refused ↦ rw refused v
    ]

has-revoked_row :
    (g : Text) (p : RefreshToken → Bool) (t : TokenTable)
    → has_token (λ x. x.token_hashed ≟ g) (map (revoke_row p) t)
      ≡ has_token (λ x. x.token_hashed ≟ g) t
unfolding revoke_row
has-revoked_row g p [] = refl
has-revoked_row g p (y ∷ t) = ground (arith, has-revoked_row g p t)

revoke_row-hash :
    (p : RefreshToken → Bool) (k : RefreshToken) → (revoke_row p k).token_hashed ≡ k.token_hashed
unfolding revoke_row
revoke_row-hash p k = ground arith

revoked-UniqueHashes :
    (p : RefreshToken → Bool) (t : TokenTable)
    → UniqueHashes t
    → UniqueHashes (map (revoke_row p) t)
revoked-UniqueHashes p [] v = tt
revoked-UniqueHashes p (y ∷ t) v = (
  ap (λ g. has_token (λ x. x.token_hashed ≟ g) (map (revoke_row p) t)) (revoke_row-hash p y)
      ∙ has-revoked_row y.token_hashed p t
      ∙ v.0,
  revoked-UniqueHashes p t v.1,
)

pub revoke-UniqueHashes :
    (up : Bool) (id : ℕ) (t : TokenTable) → UniqueHashes t → UniqueHashes (revoke_token up id t).0
unfolding revoke_token
revoke-UniqueHashes false id t v = v
revoke-UniqueHashes true id t v =
    elim (Bool-cases (has_token (λ k. k.id == id && not k.is_revoked) t)) [
      | inl e ↦ rw e (revoked-UniqueHashes (λ k. k.id == id) t v)
      | inr e ↦ rw e v
    ]

has-kept :
    (g : Text) (p : RefreshToken → Bool) (t : TokenTable)
    → has_token (λ x. x.token_hashed ≟ g) t ≡ false
    → has_token (λ x. x.token_hashed ≟ g) (keep p t) ≡ false
has-kept g p [] h = refl
has-kept g p (y ∷ t) h = ground (arith, h, has-kept g p t)

kept-UniqueHashes :
    (p : RefreshToken → Bool) (t : TokenTable) → UniqueHashes t → UniqueHashes (keep p t)
kept-UniqueHashes p [] v = tt
kept-UniqueHashes p (y ∷ t) v = elim (Bool-cases (p y)) [
  | inl e ↦ rw (e, keep) (has-kept y.token_hashed p t v.0, kept-UniqueHashes p t v.1)
  | inr e ↦ rw (e, keep) (kept-UniqueHashes p t v.1)
]

pub delete_expired_tokens-UniqueHashes :
    (up : Bool) (now : ℕ) (t : TokenTable)
    → UniqueHashes t
    → UniqueHashes (delete_expired_tokens up now t).0
unfolding delete_expired_tokens
delete_expired_tokens-UniqueHashes false now t v = v
delete_expired_tokens-UniqueHashes true now t v =
    kept-UniqueHashes (λ k. not (ltb k.expires_at now || k.is_revoked)) t v
