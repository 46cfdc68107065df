-- ===== src/Auth/Tokens/Purpose.antt =====
-- A pending second factor is never a session, and what was issued is accepted while it is in force.
use gocontrolpanel.Base.{ℕ, ◌+◌, ◌≤◌, ◌<◌, ◌≡◌, refl, Result, ok, err, arith, ltb, if◌then◌else◌}
use gocontrolpanel.Go.Strings.{Text, codes, text_eq}
use gocontrolpanel.Go.Strings.Laws.{text_eq_refl, text_eq_iff}
use gocontrolpanel.Models.{Uuid, User}
use gocontrolpanel.Auth.Tokens.{
  Claims, AuthError, invalid_token, Jwt, TokenIssuer, totp_ticket_ttl, access_claims, ticket_claims,
  access_only, ticket_only, issue_access, issue_totp_ticket, parse_claims, parse, parse_totp_ticket,
}

exclusive :
    (r : Result AuthError Claims) (c : Claims)
    → access_only r ≡ ok c
    → ticket_only r ≡ err invalid_token
unfolding access_only ticket_only text_eq
exclusive (err invalid_token) c h = cc
exclusive (err e) c h = cc
exclusive (ok d) c h = by_purpose d.purpose refl
  where
    by_purpose : (p : Text) → d.purpose ≡ p → ticket_only (ok d) ≡ err invalid_token
    by_purpose p e = ground (arith, text_eq_iff d.purpose (codes "totp"))

module _ (jwt : Jwt) (t : TokenIssuer) where
  -- No token is accepted both as an access token and as a ticket of a pending second factor.
  pub parse-parse_totp_ticket :
      (now : ℕ) (token : Text) (c : Claims)
      → parse jwt t now token ≡ ok c
      → parse_totp_ticket jwt t now token ≡ err invalid_token
  unfolding parse parse_totp_ticket
  parse-parse_totp_ticket now token c h = exclusive (parse_claims jwt t now token) c h

  -- From the second in which it was issued until its five minutes are over, a ticket is refused as
  -- an access token and accepted as a ticket with the claims it was issued with.
  pub issue_totp_ticket_lem :
      (now later : ℕ) (token_id : Uuid) (u : User)
      → now ≤ later
      → later < now + totp_ticket_ttl
      → (parse jwt t later (issue_totp_ticket jwt t now token_id u) ≡ err invalid_token)
        × (parse_totp_ticket jwt t later (issue_totp_ticket jwt t now token_id u)
            ≡ ok (ticket_claims t now token_id u))
  unfolding issue_totp_ticket parse parse_totp_ticket parse_claims ticket_claims text_eq
  issue_totp_ticket_lem now later token_id u p q =
      rw (jwt.verify-sign t.secret t.issuer later (ticket_claims t now token_id u))
        (ground (arith, text_eq_refl t.issuer), ground (arith, text_eq_refl t.issuer))

  -- From the second in which it was issued on, an access token is accepted with the claims it was
  -- issued with until it expires, and refused from then on.
  pub issue_access_lem :
      (now later : ℕ) (token_id : Uuid) (u : User)
      → now ≤ later
      → parse jwt t later (issue_access jwt t now token_id u) ≡ (
          if ltb later (now + t.access_ttl)
          then ok (access_claims t now token_id u)
          else err invalid_token)
  unfolding issue_access parse parse_claims access_claims
  issue_access_lem now later token_id u p =
      rw (jwt.verify-sign t.secret t.issuer later (access_claims t now token_id u))
        (ground (arith, text_eq_refl t.issuer))
