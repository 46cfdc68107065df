-- ===== src/Auth/Tokens.antt =====
-- internal/auth/auth.go: access tokens and the tickets of a pending second factor. Signing and
-- verifying are the JWT library's and come in as `Jwt`.
pub mod Purpose
use gocontrolpanel.Base.{
  ℕ, ◌+◌, ◌-◌, ◌≡◌, Bool, true, false, not, ◌&&◌, Option, none, some, List, [], ◌∷◌, Result, ok,
  err, ltb, leb, if◌then◌else◌,
}
use gocontrolpanel.Go.Strings.{Text, codes, text_eq, is_empty}
use gocontrolpanel.Models.{Uuid, User, Role}

pub data AuthError : Type 0 where
  invalid_token password_policy : AuthError

pub record Claims : Type 0 where
  pub user_id : Uuid
  pub username : Text
  pub role : Role
  pub purpose : Text
  pub issuer : Text
  pub not_before : ℕ
  pub expires_at : ℕ
  pub token_id : Uuid

-- Whether the claims hold at an instant for an issuer, as `jwt.WithIssuer` and the registered
-- claims are documented.
abbrev pub in_force : Text → ℕ → Claims → Bool
in_force issuer now c = text_eq c.issuer issuer && (leb c.not_before now && ltb now c.expires_at)

-- `verify secret issuer now token` is `jwt.ParseWithClaims` with the options of `parseClaims`:
-- HS256 only, the issuer and the time claims checked.
pub record Jwt : Type 0 where
  pub sign : Text → Claims → Text
  pub verify : Text → Text → ℕ → Text → Option Claims
  pub verify-sign :
      (secret issuer : Text) (now : ℕ) (c : Claims)
      → verify secret issuer now (sign secret c) ≡ (if in_force issuer now c then some c else none)

pub record TokenIssuer : Type 0 where
  pub secret : Text
  pub access_ttl : ℕ
  pub refresh_ttl : ℕ
  pub issuer : Text

unfoldable pub new_token_issuer : Text → ℕ → ℕ → TokenIssuer
new_token_issuer secret access_ttl refresh_ttl = record {
  secret = secret;
  access_ttl = access_ttl;
  refresh_ttl = refresh_ttl;
  issuer = codes "gocontrolpanel";
}

-- Five minutes.
abbrev pub totp_ticket_ttl : ℕ
totp_ticket_ttl = 300

unfoldable pub access_claims : TokenIssuer → ℕ → Uuid → User → Claims
access_claims t now token_id u = record {
  user_id = u.id;
  username = u.username;
  role = u.role;
  purpose = [];
  issuer = t.issuer;
  not_before = now - 30;
  expires_at = now + t.access_ttl;
  token_id = token_id;
}

-- A ticket has no `NotBefore`.
unfoldable pub ticket_claims : TokenIssuer → ℕ → Uuid → User → Claims
ticket_claims t now token_id u = record {
  user_id = u.id;
  username = u.username;
  role = u.role;
  purpose = codes "totp";
  issuer = t.issuer;
  not_before = 0;
  expires_at = now + totp_ticket_ttl;
  token_id = token_id;
}

require_claims : Option Claims → Result AuthError Claims
require_claims none = err invalid_token
require_claims (some c) = ok c

-- The tests on `Purpose` of `Parse` and of `ParseTOTPTicket`.
unfoldable pub access_only : Result AuthError Claims → Result AuthError Claims
access_only (err e) = err e
access_only (ok c) =
    if not (is_empty c.purpose) && not (text_eq c.purpose (codes "access"))
    then err invalid_token
    else ok c

unfoldable pub ticket_only : Result AuthError Claims → Result AuthError Claims
ticket_only (err e) = err e
ticket_only (ok c) = if not (text_eq c.purpose (codes "totp")) then err invalid_token else ok c

module _ (jwt : Jwt) where
  unfoldable pub issue_access : TokenIssuer → ℕ → Uuid → User → Text
  issue_access t now token_id u = jwt.sign t.secret (access_claims t now token_id u)

  unfoldable pub issue_totp_ticket : TokenIssuer → ℕ → Uuid → User → Text
  issue_totp_ticket t now token_id u = jwt.sign t.secret (ticket_claims t now token_id u)

  unfoldable pub parse_claims : TokenIssuer → ℕ → Text → Result AuthError Claims
  unfolding require_claims
  parse_claims t now token = require_claims (jwt.verify t.secret t.issuer now token)

  unfoldable pub parse : TokenIssuer → ℕ → Text → Result AuthError Claims
  unfolding access_only
  parse t now token = access_only (parse_claims t now token)

  unfoldable pub parse_totp_ticket : TokenIssuer → ℕ → Text → Result AuthError Claims
  unfolding ticket_only
  parse_totp_ticket t now token = ticket_only (parse_claims t now token)
