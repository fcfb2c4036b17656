-- ===== src/Repository/Tokens.antt =====
-- internal/repository/refresh_token-repository.go: the table `refresh_tokens`, with the constraints
-- of its migrations: unique ids and hashes, a user that exists, an address of type INET.
pub mod Rotation
pub mod Unique
use websocket_challenge.Base.{
  ℕ, Bool, true, false, not, ◌&&◌, ◌||◌, Option, none, some, List, [], ◌∷◌, ◌++◌, map, ltb, ◌==◌,
  if◌then◌else◌, Text, ◌≟◌, keep, ◌⊎◌, inl, inr,
}

-- What the code tells apart: an error that wraps `pgx.ErrNoRows`, one that wraps
-- `context.DeadlineExceeded`, one that says that nothing was found but wraps no other error, and
-- any other error of the pool.
pub data RepoError : Type 0 where
  no_rows : RepoError
  timed_out : RepoError
  not_found : RepoError
  failed : RepoError

-- `models.RefreshToken`; an address is a number, and `none` is the nil `net.IP`.
pub record RefreshToken : Type 0 where
  pub id : ℕ
  pub user_id : ℕ
  pub token_hashed : Text
  pub user_agent : Text
  pub client_ip : Option ℕ
  pub is_revoked : Bool
  pub expires_at : ℕ
  pub created_at : ℕ

abbrev pub TokenTable : Type 0
TokenTable = List RefreshToken

abbrev pub has_token : (RefreshToken → Bool) → TokenTable → Bool
has_token p [] = false
has_token p (k ∷ t) = p k || has_token p t

unfoldable pub find_token : (RefreshToken → Bool) → TokenTable → Option RefreshToken
find_token p [] = none
find_token p (k ∷ t) = let rest = find_token p t in if p k then some k else rest

abbrev pub is_address : Option ℕ → Bool
is_address none = false
is_address (some ip) = true

-- The database gives the row its id, its time and `is_revoked = false`. `known` says whether the
-- user exists. The text of a nil address, "<nil>", is none that a column of type INET takes.
unfoldable pub save_refresh_token :
    Bool → Bool → ℕ → ℕ → RefreshToken → TokenTable → TokenTable × Option RepoError
save_refresh_token up known id now k t =
    if (up && known)
      && (is_address k.client_ip
          && not (has_token (λ x. x.id == id || x.token_hashed ≟ k.token_hashed) t))
    then (t ++ record k { id = id; is_revoked = false; created_at = now } ∷ [], none)
    else (t, some failed)

-- `WHERE token_hash = $1 AND is_revoked = false`
abbrev pub is_live : Text → RefreshToken → Bool
is_live hash k = k.token_hashed ≟ hash && not k.is_revoked

-- `scan_ip` is what reading the column as a text and `net.ParseIP` make of an address.
unfoldable pub found_token : (Option ℕ → Option ℕ) → Option RefreshToken → RefreshToken ⊎ RepoError
found_token scan_ip none = inr not_found
found_token scan_ip (some k) =
    inl (record k { client_ip = scan_ip k.client_ip; is_revoked = false })

unfoldable pub get_token_by_hash :
    (Option ℕ → Option ℕ) → Bool → Text → TokenTable → RefreshToken ⊎ RepoError
unfolding found_token
get_token_by_hash scan_ip false hash t = inr failed
get_token_by_hash scan_ip true hash t = found_token scan_ip (find_token (is_live hash) t)

-- `UPDATE refresh_tokens SET is_revoked = true WHERE …` on one row
unfoldable pub revoke_row : (RefreshToken → Bool) → RefreshToken → RefreshToken
revoke_row p k = if p k && not k.is_revoked then record k { is_revoked = true } else k

unfoldable pub revoke_token : Bool → ℕ → TokenTable → TokenTable × Option RepoError
unfolding revoke_row
revoke_token false id t = (t, some failed)
revoke_token true id t =
    if has_token (λ k. k.id == id && not k.is_revoked) t
    then (map (revoke_row (λ k. k.id == id)) t, none)
    else (t, some not_found)

unfoldable pub revoke_all_user_tokens : Bool → ℕ → TokenTable → TokenTable × Option RepoError
unfolding revoke_row
revoke_all_user_tokens false user_id t = (t, some failed)
revoke_all_user_tokens true user_id t = (map (revoke_row (λ k. k.user_id == user_id)) t, none)

unfoldable pub delete_token : Bool → Text → TokenTable → TokenTable × Option RepoError
delete_token false hash t = (t, some failed)
delete_token true hash t =
    if has_token (λ k. k.token_hashed ≟ hash) t
    then (keep (λ k. not (k.token_hashed ≟ hash)) t, none)
    else (t, some not_found)

-- `now` is the database's `NOW()`.
unfoldable pub delete_expired_tokens : Bool → ℕ → TokenTable → TokenTable × Option RepoError
delete_expired_tokens false now t = (t, some failed)
delete_expired_tokens true now t = (keep (λ k. not (ltb k.expires_at now || k.is_revoked)) t, none)
