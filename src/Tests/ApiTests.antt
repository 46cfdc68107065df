-- ===== src/Tests/ApiTests.antt =====
-- Handlers, access and the limiter at concrete inputs.
use gocontrolpanel.Base.{
  ◌<◌, ℕ, ◌≤◌, ◌≡◌, refl, inr, true, false, ◌||◌, some, List, [], ◌∷◌, ok, arith, find?,
}
use gocontrolpanel.Go.Strings.{Text, codes, text_eq, has_prefix, drop_bytes, trim_space}
use gocontrolpanel.Models.{rank, is_admin, is_reseller, User}
use gocontrolpanel.Panel.{Session, World}
use gocontrolpanel.Store.Users.{has_id, is_usable, consume_session, get_user_by_id}
use gocontrolpanel.Store.Users.Once.{consume_session_once}
use gocontrolpanel.Store.Accounts.{is_account, get_account}
use gocontrolpanel.Store.Sites.{is_site, get_site}
use gocontrolpanel.Provision.Input.{to_lower}
use gocontrolpanel.Auth.Tokens.{
  Claims, issue_access, issue_totp_ticket, access_claims, ticket_claims, parse, parse_claims,
  parse_totp_ticket,
}
use gocontrolpanel.Auth.Totp.{validate_totp, totp_step_at, totp_code_at_step}
use gocontrolpanel.Api.RateLimit.{RateLimiter, new_rate_limiter, allow}
use gocontrolpanel.Api.RateLimit.Ideal.{decisions}
use gocontrolpanel.Api.Access.{Identity, authorize_account, authorize_site}
use gocontrolpanel.Api.Access.Manages.{
  MayManage, MayManage-authorize_account, authorize_site-MayManage,
}
use gocontrolpanel.Api.Middleware.{Request, token_of, require_auth, require_role}
use gocontrolpanel.Api.Middleware.Admitted.{require_auth-active}
use gocontrolpanel.Api.Login.{
  Reply, tokens, totp_required, handle_login, handle_totp_verify, handle_refresh,
}
use gocontrolpanel.Api.Login.Issued.{AreTokensOf}
use gocontrolpanel.Api.Login.Sessions.{
  HasCode, handle_login-tokens, handle_totp_verify-tokens, handle_refresh-tokens,
}
use gocontrolpanel.Api.Login.Replay.{handle_totp_verify-later}
use gocontrolpanel.Tests.Fixtures.{jwt, issuer, crypto, ben, eva, bens, blog, calm, as_ana}

runs : Unit {0}
unfolding jwt handle_login handle_totp_verify handle_refresh new_rate_limiter authorize_account
    authorize_site get_site get_account get_user_by_id is_admin is_reseller consume_session allow
    require_auth token_of has_prefix drop_bytes trim_space text_eq parse parse_totp_ticket
    issue_access issue_totp_ticket validate_totp access_claims ticket_claims require_role rank
    is_usable parse_claims totp_step_at totp_code_at_step decisions
runs = tt

abbrev limiter : RateLimiter
limiter = new_rate_limiter 6 900 0

abbrev after_login : Reply × (RateLimiter × World)
after_login = handle_login crypto (codes "ben") (codes "pw") limiter calm

logs_in : handle_login crypto (codes "ben") (codes "pw") limiter calm ≡ (
  tokens (issue_access jwt issuer 100 100 ben) (100 ∷ []) ben,
  (after_login.1.0, after_login.1.1),
)
unfolding runs
logs_in = refl

handle_login-tokens_example :
    ((allow limiter (to_lower (codes "ben")) 100).1 ≡ true)
    × (find? (λ v. text_eq v.username (codes "ben") || text_eq v.email (codes "ben")) calm.db.users
        ≡ some ben)
    × (crypto.verify_password ben.password_hash (codes "pw") ≡ true)
    × (ben.is_active ≡ true)
    × (ben.totp_enabled ≡ false)
    × AreTokensOf crypto ben (issue_access jwt issuer 100 100 ben) (100 ∷ []) 100 after_login.1.1.db
handle_login-tokens_example =
    handle_login-tokens crypto (codes "ben") (codes "pw") limiter calm logs_in

-- With a second factor there is a ticket in place of tokens.
login_eva :
    (handle_login crypto (codes "eva") (codes "pw") limiter calm).0
    ≡ totp_required (issue_totp_ticket jwt issuer 100 100 eva)
unfolding runs
login_eva = refl

abbrev evas_ticket : Text
evas_ticket = issue_totp_ticket jwt issuer 100 100 eva

abbrev after_code : Reply × (RateLimiter × World)
after_code = handle_totp_verify crypto evas_ticket (codes "000000") limiter calm

verifies : handle_totp_verify crypto evas_ticket (codes "000000") limiter calm ≡ (
  tokens (issue_access jwt issuer 100 100 eva) (100 ∷ []) eva,
  (after_code.1.0, after_code.1.1),
)
unfolding runs
verifies = refl

handle_totp_verify-tokens_example :
    (claims : Claims) × (parse_totp_ticket jwt issuer 100 evas_ticket ≡ ok claims)
    × ((allow limiter (to_lower claims.username) 100).1 ≡ true)
    × (find? (has_id claims.user_id) calm.db.users ≡ some eva)
    × HasCode crypto (codes "000000") 100 eva
    × AreTokensOf crypto eva (issue_access jwt issuer 100 100 eva) (100 ∷ []) 100 after_code.1.1.db
handle_totp_verify-tokens_example =
    handle_totp_verify-tokens crypto evas_ticket (codes "000000") limiter calm verifies

-- The same code in the next step of the clock.
abbrev next_step : World
next_step = record after_code.1.1 { clock = 130 }

abbrev evas_second : Text
evas_second = issue_totp_ticket jwt issuer 120 101 eva

abbrev eva_again : User
eva_again = record eva { totp_last_step = 3 }

abbrev after_second : Reply × (RateLimiter × World)
after_second = handle_totp_verify crypto evas_second (codes "000000") limiter next_step

verifies_again : handle_totp_verify crypto evas_second (codes "000000") limiter next_step ≡ (
  tokens (issue_access jwt issuer 130 101 eva_again) (101 ∷ []) eva_again,
  (after_second.1.0, after_second.1.1),
)
unfolding runs
verifies_again = refl

handle_totp_verify-later_example :
    (s : Text) × (s' : Text) × (step : ℕ) × (step' : ℕ) × (eva.totp_secret ≡ some s)
    × (validate_totp crypto.hotp s (codes "000000") 100 0 ≡ some step)
    × (eva_again.totp_secret ≡ some s')
    × (validate_totp crypto.hotp s' (codes "000000") 130 3 ≡ some step')
    × (step < step')
handle_totp_verify-later_example =
    handle_totp_verify-later crypto evas_ticket (codes "000000") evas_second (codes "000000")
      limiter limiter calm next_step refl verifies refl verifies_again refl

abbrev after_refresh : Reply × World
after_refresh = handle_refresh crypto (7 ∷ []) calm

renews :
    handle_refresh crypto (7 ∷ []) calm
    ≡ (tokens (issue_access jwt issuer 100 100 ben) (100 ∷ []) ben, after_refresh.1)
unfolding runs
renews = refl

handle_refresh-tokens_example :
    (ben.is_active ≡ true)
    × ((s : Session) × (find? (is_usable (9 ∷ 7 ∷ []) 100) calm.db.sessions ≡ some s)
        × (s.user_id ≡ 3))
    × AreTokensOf crypto ben (issue_access jwt issuer 100 100 ben) (100 ∷ []) 100 after_refresh.1.db
handle_refresh-tokens_example = handle_refresh-tokens crypto (7 ∷ []) calm renews

abbrev consumed : World
consumed = (consume_session (9 ∷ 7 ∷ []) calm).1

consumes : consume_session (9 ∷ 7 ∷ []) calm ≡ (ok 3, consumed)
unfolding runs
consumes = refl

in_time : consumed.clock ≤ consumed.clock
in_time = omega arith

consume_session_once_example : ¬ (consume_session (9 ∷ 7 ∷ []) consumed ≡ (ok 3, consumed))
consume_session_once_example = consume_session_once (9 ∷ 7 ∷ []) calm consumed consumes refl in_time

found : find? (is_account 10) calm.db.accounts ≡ some bens
found = refl

anas : MayManage calm.db as_ana bens
anas = inr (inr (refl, (ben, refl, refl)))

MayManage-authorize_account_example : authorize_account as_ana 10 calm ≡ (ok bens, calm)
MayManage-authorize_account_example = MayManage-authorize_account as_ana 10 calm refl found anas

allowed : authorize_account as_ana 10 calm ≡ (ok bens, calm)
unfolding runs
allowed = refl

allowed_site : authorize_site as_ana 20 calm ≡ (ok (blog, bens), calm)
unfolding runs
allowed_site = refl

authorize_site-MayManage_example :
    (find? (is_site 20) calm.db.sites ≡ some blog)
    × (find? (is_account 10) calm.db.accounts ≡ some bens)
    × MayManage calm.db as_ana bens
authorize_site-MayManage_example = authorize_site-MayManage as_ana 20 calm allowed_site

abbrev bearer : Request
bearer = record {
  authorization = [];
  access_token = issue_access jwt issuer 100 7 ben;
  origin = [];
  is_options = false;
  client_ip = codes "::1";
}

abbrev as_ben : Identity
as_ben = record { user_id = 3; username = codes "ben"; role = ben.role }

passes : require_auth jwt issuer bearer calm ≡ (ok as_ben, calm)
unfolding runs
passes = refl

require_auth-active_example :
    (c : Claims) × (u : User) × (parse jwt issuer 100 (token_of bearer) ≡ ok c)
    × (find? (has_id c.user_id) calm.db.users ≡ some u)
    × (u.is_active ≡ true)
    × (as_ben ≡ record { user_id = u.id; username = u.username; role = u.role })
require_auth-active_example = require_auth-active jwt issuer bearer calm passes

abbrev requests : List (ℕ × Text)
requests = (1, codes "a") ∷ (2, codes "a") ∷ (3, codes "b") ∷ (4, codes "a") ∷ (63, codes "a") ∷ []

-- Two a minute.
decided : decisions (new_rate_limiter 2 60 0) requests ≡ true ∷ true ∷ true ∷ false ∷ true ∷ []
unfolding runs
decided = refl
