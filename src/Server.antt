-- ===== src/Server.antt =====
-- The route to the WebSocket that `main` of cmd/server/main.go sets up: `CorsMiddleware` of
-- internal/middleware/cors.go around `Authenticate` around `serveWS`. `Startup` and `Stopping` are
-- its beginning and its end.
pub mod Doorway
pub mod Startup
pub mod Stopping
use websocket_challenge.Base.{ℕ, Option, none, some, Text, codes, ◌≟◌, if◌then◌else◌}
use websocket_challenge.Repository.Users.{User, UserTable}
use websocket_challenge.Api.{Crypto, Request, World, Response, authenticate}
use websocket_challenge.Chat.Hub.{Hub}
use websocket_challenge.Chat.Entry.{Decision, reject, serve_ws}

-- What `serveWS` reads of a request besides: the query, and the clock in seconds and nanoseconds.
pub record Query : Type 0 where
  pub from_server : Text
  pub room : Text
  pub seconds : ℕ
  pub now : ℕ

-- A preflight request is answered at once with status 204; every answer has the same four headers.
unfoldable pub cors : Text → Decision → Decision
cors method next = if method ≟ codes "OPTIONS" then reject 204 else next

module _ (x : Crypto) (to_lower : Text → Text) (hash : Text → ℕ) (show_id : ℕ → Text) where
  -- `next` runs with the user that the middleware has put into the context.
  unfoldable pub pass_on : Option User → ℕ → Query → Hub → Decision
  pass_on none status q h = reject status
  pass_on (some u) status q h =
      serve_ws to_lower hash show_id q.seconds q.now (some u) q.from_server q.room h

  unfoldable pub ws_route : Text → World → Request → UserTable → Query → Hub → Decision
  unfolding cors pass_on
  ws_route method w r users q h =
      let answer = authenticate x w r users in cors method (pass_on answer.user answer.status q h)
