-- ===== src/Repository/Users.antt =====
-- internal/repository/user_repository.go: the table `users`, whose ids, names and addresses are
-- unique. Names are bounded to 32 characters and addresses to 255.
use websocket_challenge.Base.{
  ℕ, Bool, false, not, ◌&&◌, ◌||◌, Option, none, some, List, [], ◌∷◌, ◌++◌, length, leb, ◌==◌,
  if◌then◌else◌, Text, ◌≟◌, ◌⊎◌, inl, inr,
}
use websocket_challenge.Repository.Tokens.{RepoError, no_rows, failed}

-- `models.User`
pub record User : Type 0 where
  pub id : ℕ
  pub username : Text
  pub password_hash : Text
  pub email : Text
  pub created_at : ℕ
  pub updated_at : ℕ
  pub is_banned : Bool

abbrev pub UserTable : Type 0
UserTable = List User

unfoldable pub find_user : (User → Bool) → UserTable → Option User
find_user p [] = none
find_user p (u ∷ t) = let rest = find_user p t in if p u then some u else rest

-- Whether the new row breaks a constraint of the table.
abbrev pub clashes : User → UserTable → Bool
clashes u [] = false
clashes u (x ∷ t) = (x.id == u.id || (x.username ≟ u.username || x.email ≟ u.email)) || clashes u t

-- The database sets both times to its own and `is_banned` to false.
unfoldable pub create_user : Bool → ℕ → User → UserTable → UserTable × Option RepoError
create_user up now u t =
    if up && (leb (length u.username) 32 && (leb (length u.email) 255 && not (clashes u t)))
    then (t ++ record u { created_at = now; updated_at = now; is_banned = false } ∷ [], none)
    else (t, some failed)

-- Each `SELECT` wraps the error of the pool, which is `pgx.ErrNoRows` if there is no row.
unfoldable pub found_user : Option User → User ⊎ RepoError
found_user none = inr no_rows
found_user (some u) = inl u

-- `fault` is the error of the pool, if it fails.
unfoldable pub get_user_by_username : Option RepoError → Text → UserTable → User ⊎ RepoError
unfolding found_user
get_user_by_username (some fault) username t = inr fault
get_user_by_username none username t = found_user (find_user (λ u. u.username ≟ username) t)

unfoldable pub get_user_by_email : Option RepoError → Text → UserTable → User ⊎ RepoError
unfolding found_user
get_user_by_email (some fault) email t = inr fault
get_user_by_email none email t = found_user (find_user (λ u. u.email ≟ email) t)

unfoldable pub get_user_by_id : Option RepoError → ℕ → UserTable → User ⊎ RepoError
unfolding found_user
get_user_by_id (some fault) id t = inr fault
get_user_by_id none id t = found_user (find_user (λ u. u.id == id) t)
