-- ===== src/Api/Login.antt =====
-- internal/api/handlers_auth.go: the handlers of sessions, from a request that is decoded. A handler
-- takes the limiter of failed logins and the world. Password hashing, the random refresh token and
-- its hash are parameters; so is signing, which for HS256 does not fail. The time of the last login
-- is not kept, its UPDATE is a call that may fail.
pub mod Issued
pub mod Sessions
pub mod Replay
use gocontrolpanel.Base.{
  ℕ, ◌+◌, Bool, true, false, not, ◌&&◌, ◌||◌, Option, none, some, List, [], ◌∷◌, Result, ok, err,
  if◌then◌else◌,
}
use gocontrolpanel.Go.Strings.{Text, codes, is_empty}
use gocontrolpanel.Models.{Uuid, User}
use gocontrolpanel.Panel.{
  Error, Call, audit, World, Exec, ◌>>=◌, ◌>>◌, pure, ignore, remote, request,
}
use gocontrolpanel.Store.Users.{
  get_user_by_login, get_user_by_id, create_session, consume_session, record_totp_step,
  revoke_user_sessions, set_totp_secret, confirm_totp, disable_totp,
}
use gocontrolpanel.Provision.Input.{to_lower}
use gocontrolpanel.Auth.Tokens.{
  AuthError, Claims, Jwt, TokenIssuer, issue_access, issue_totp_ticket, parse_totp_ticket,
}
use gocontrolpanel.Auth.Totp.{Hotp, validate_totp}
use gocontrolpanel.Api.RateLimit.{RateLimiter, allow}

-- What the handlers call outside the repository. `random n` is the token drawn for the n-th row.
pub record Crypto : Type 0 where
  pub jwt : Jwt
  pub hotp : Hotp
  pub issuer : TokenIssuer
  pub verify_password : (hash password : Text) → Bool
  pub random : ℕ → Text
  pub hash_refresh : Text → Text
  pub new_secret : ℕ → Text

-- `refused` carries the HTTP status.
pub data Reply : Type 0 where
  refused : ℕ → Reply
  totp_required : Text → Reply
  tokens : (access refresh : Text) → User → Reply
  new_totp_secret : Text → Reply
  no_content : Reply

abbrev pub Guarded : Type 0
Guarded = RateLimiter → World → Reply × (RateLimiter × World)

abbrev pub Respond : Type 0
Respond = World → Reply × World

unfoldable pub issue_tokens : Crypto → User → Exec (Text × Text)
unfolding create_session issue_access
issue_tokens c u w =
    (do
      row ← create_session u.id (c.hash_refresh (c.random w.next_id)) c.issuer.refresh_ttl
      pure (issue_access c.jwt c.issuer w.clock w.next_id u, c.random w.next_id))
      w

-- `TouchLogin` and `Audit` after the tokens are there.
pub signed_in : User → Result Error (Text × Text) × World → Reply × World
unfolding remote request
signed_in u (err e, w) = (refused 500, w)
signed_in u (ok (access, refresh), w) = (
  tokens access refresh u,
  ((ignore remote >> ignore (request (audit (codes "auth.login")))) w).1,
)

password_checked : Crypto → Text → Result Error User × World → Reply × World
unfolding issue_tokens issue_totp_ticket signed_in
password_checked c password (err e, w) = (refused 401, w)
password_checked c password (ok u, w) =
    if not (c.verify_password u.password_hash password)
    then (refused 401, w)
    else if not u.is_active
    then (refused 403, w)
    else if u.totp_enabled
    then (totp_required (issue_totp_ticket c.jwt c.issuer w.clock w.next_id u), w)
    else signed_in u (issue_tokens c u w)

-- The limiter's verdict before the rest.
guarded : RateLimiter × Bool → Respond → World → Reply × (RateLimiter × World)
guarded (rl, false) respond w = (refused 429, (rl, w))
guarded (rl, true) respond w = let (reply, w') = respond w in (reply, (rl, w'))

unfoldable pub handle_login : Crypto → (login password : Text) → Guarded
unfolding guarded password_checked get_user_by_login allow
handle_login c login password rl w =
    if is_empty login || is_empty password
    then (refused 400, (rl, w))
    else guarded (allow rl (to_lower login) w.clock)
        (λ v. password_checked c password (get_user_by_login login v)) w

code_checked : Crypto → User → Option ℕ → World → Reply × World
unfolding signed_in issue_tokens record_totp_step
code_checked c u none w = (refused 401, w)
code_checked c u (some step) w =
    let v = (ignore (record_totp_step u.id step) w).1 in signed_in u (issue_tokens c u v)

unfoldable pub with_secret : Option Text → (Text → Respond) → ℕ → Respond
with_secret none respond status w = (refused status, w)
with_secret (some s) respond status w = respond s w

ticket_user_checked : Crypto → Text → Result Error User × World → Reply × World
unfolding code_checked with_secret validate_totp
ticket_user_checked c code (err e, w) = (refused 401, w)
ticket_user_checked c code (ok u, w) =
    if not u.is_active || not u.totp_enabled
    then (refused 401, w)
    else with_secret u.totp_secret
        (λ s v. code_checked c u (validate_totp c.hotp s code v.clock u.totp_last_step) v) 401 w

ticket_checked : Crypto → Text → Result AuthError Claims → Guarded
unfolding guarded ticket_user_checked get_user_by_id allow
ticket_checked c code (err e) rl w = (refused 401, (rl, w))
ticket_checked c code (ok claims) rl w =
    guarded (allow rl (to_lower claims.username) w.clock)
      (λ v. ticket_user_checked c code (get_user_by_id claims.user_id v)) w

unfoldable pub handle_totp_verify : Crypto → (ticket code : Text) → Guarded
unfolding ticket_checked parse_totp_ticket
handle_totp_verify c ticket code rl w =
    ticket_checked c code (parse_totp_ticket c.jwt c.issuer w.clock ticket) rl w

pub renewed : User → Result Error (Text × Text) × World → Reply × World
renewed u (err e, w) = (refused 500, w)
renewed u (ok (access, refresh), w) = (tokens access refresh u, w)

session_user_checked : Crypto → Result Error User × World → Reply × World
unfolding renewed issue_tokens
session_user_checked c (err e, w) = (refused 401, w)
session_user_checked c (ok u, w) =
    if not u.is_active then (refused 401, w) else renewed u (issue_tokens c u w)

session_checked : Crypto → Result Error Uuid × World → Reply × World
unfolding session_user_checked get_user_by_id
session_checked c (err e, w) = (refused 401, w)
session_checked c (ok id, w) = session_user_checked c (get_user_by_id id w)

unfoldable pub handle_refresh : Crypto → Text → Respond
unfolding session_checked consume_session
handle_refresh c token w =
    if is_empty token
    then (refused 400, w)
    else session_checked c (consume_session (c.hash_refresh token) w)

unfoldable pub handle_logout : Uuid → Respond
unfolding revoke_user_sessions request
handle_logout id w = logged_out (revoke_user_sessions id w)
  where
    logged_out : Result Error (Unit {0}) × World → Reply × World
    logged_out (err e, v) = (refused 500, v)
    logged_out (ok u, v) = (no_content, (ignore (request (audit (codes "auth.logout"))) v).1)

-- A secret that is not confirmed yet; it replaces the one in force.
unfoldable pub handle_totp_setup : Crypto → Uuid → Respond
unfolding set_totp_secret
handle_totp_setup c id w = stored (set_totp_secret id (c.new_secret w.next_id) w)
  where
    stored : Result Error (Unit {0}) × World → Reply × World
    stored (err e, v) = (refused 500, v)
    stored (ok u, v) = (new_totp_secret (c.new_secret w.next_id), v)

-- The end of a change of the second factor.
changed : Text → Result Error (Unit {0}) × World → Reply × World
unfolding request
changed action (err e, w) = (refused 500, w)
changed action (ok u, w) = (no_content, (ignore (request (audit action)) w).1)

confirmed : Uuid → Option ℕ → World → Reply × World
unfolding changed confirm_totp
confirmed id none w = (refused 400, w)
confirmed id (some step) w = changed (codes "auth.totp_enabled") (confirm_totp id step w)

unfoldable pub handle_totp_confirm : Crypto → Uuid → Text → Respond
unfolding get_user_by_id with_secret confirmed validate_totp
handle_totp_confirm c id code w = user_checked (get_user_by_id id w)
  where
    user_checked : Result Error User × World → Reply × World
    user_checked (err e, v) = (refused 400, v)
    user_checked (ok u, v) =
        with_secret u.totp_secret
          (λ s v'. confirmed id (validate_totp c.hotp s code v'.clock u.totp_last_step) v') 400 v

unfoldable pub handle_totp_disable : Crypto → Uuid → Text → Respond
unfolding get_user_by_id changed disable_totp
handle_totp_disable c id password w = user_checked (get_user_by_id id w)
  where
    user_checked : Result Error User × World → Reply × World
    user_checked (err e, v) = (refused 404, v)
    user_checked (ok u, v) =
        if c.verify_password u.password_hash password
        then changed (codes "auth.totp_disabled") (disable_totp id v)
        else (refused 403, v)
