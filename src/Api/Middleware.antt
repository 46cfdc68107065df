-- ===== src/Api/Middleware.antt =====
-- internal/api/middleware.go: the token of a request, the identity, and the minimum role. A handler
-- behind a middleware runs where it answers `ok`; `err` carries the status of the refusal.
pub mod Admitted
use gocontrolpanel.Base.{
  ℕ, Bool, true, false, not, ◌&&◌, ◌||◌, Option, none, some, List, [], ◌∷◌, Result, ok, err,
  if◌then◌else◌,
}
use gocontrolpanel.Go.Strings.{Text, codes, text_eq, is_empty, has_prefix, drop_bytes, trim_space}
use gocontrolpanel.Models.{Role, at_least, User}
use gocontrolpanel.Panel.{Error, World}
use gocontrolpanel.Store.Users.{get_user_by_id}
use gocontrolpanel.Auth.Tokens.{AuthError, Claims, Jwt, TokenIssuer, parse}
use gocontrolpanel.Api.Access.{Identity}
use gocontrolpanel.Api.RateLimit.{RateLimiter, allow}

-- The parts of a request that the middleware reads.
pub record Request : Type 0 where
  pub authorization : Text
  pub access_token : Text
  pub origin : Text
  pub is_options : Bool
  pub client_ip : Text

-- The header, and the query where the header has none (`EventSource`).
unfoldable pub token_of : Request → Text
unfolding has_prefix drop_bytes trim_space
token_of r =
    let bearer =
      if has_prefix r.authorization (codes "Bearer ")
      then trim_space (drop_bytes 7 r.authorization)
      else [] in
    if is_empty bearer then r.access_token else bearer

user_admitted : Result Error User × World → Result ℕ Identity × World
user_admitted (err e, w) = (err 401, w)
user_admitted (ok u, w) =
    if not u.is_active
    then (err 401, w)
    else (ok record { user_id = u.id; username = u.username; role = u.role }, w)

claims_admitted : Result AuthError Claims → World → Result ℕ Identity × World
unfolding user_admitted get_user_by_id
claims_admitted (err e) w = (err 401, w)
claims_admitted (ok c) w = user_admitted (get_user_by_id c.user_id w)

unfoldable pub require_auth : Jwt → TokenIssuer → Request → World → Result ℕ Identity × World
unfolding claims_admitted parse token_of
require_auth jwt t r w =
    let token = token_of r in
    if is_empty token then (err 401, w) else claims_admitted (parse jwt t w.clock token) w

-- `none`: no identity in the context.
unfoldable pub require_role : Role → Option Identity → Result ℕ Identity
unfolding at_least
require_role min none = err 403
require_role min (some id) = if not (at_least id.role min) then err 403 else ok id

-- The origins let in, and whether the request ends at `cors`.
unfoldable pub origin_allowed : (public_url : Text) → (is_production : Bool) → Text → Bool
origin_allowed public_url is_production origin =
    not (is_empty origin)
    && (text_eq origin public_url
        || (not is_production
            && (text_eq origin (codes "http://localhost:5173")
                || text_eq origin (codes "http://127.0.0.1:5173"))))

-- `rateLimiter.middleware`, by the client's address.
unfoldable pub limit_rate : RateLimiter → Request → ℕ → RateLimiter × Result ℕ (Unit {0})
unfolding allow
limit_rate rl r now =
    let (rl', admitted) = allow rl r.client_ip now in (rl', if not admitted then err 429 else ok tt)
