-- ===== src/Api/Login/Replay.antt =====
-- A code that was accepted is not accepted again: `handleTOTPVerify` twice.
use gocontrolpanel.Base.{
  ℕ, ◌≡◌, ◌<◌, refl, sym, ap, subst, ◌∙◌, inl, inr, Bool, true, false, Option, none, some, List, [],
  ◌∷◌, ◌==◌, Result, ok, err, find?, map_where, Bool-cases,
}
use gocontrolpanel.Go.Strings.{Text}
use gocontrolpanel.Models.{Uuid, User}
use gocontrolpanel.Panel.{Error, World, ignore}
use gocontrolpanel.Panel.Rules.{query_one_calm}
use gocontrolpanel.Panel.Calm.{update_calm}
use gocontrolpanel.Panel.Keeps.{
  Keeps-then, Keeps-bind, Keeps-insert, Keeps-pure, Keeps-ignore, Keeps-remote, Keeps-request,
}
use gocontrolpanel.Store.Users.{has_id, record_totp_step, get_user_by_id, create_session}
use gocontrolpanel.Provision.Input.{to_lower}
use gocontrolpanel.Auth.Totp.{validate_totp}
use gocontrolpanel.Api.RateLimit.{RateLimiter, allow}
use gocontrolpanel.Api.Login.{
  Crypto, Reply, tokens, Respond, issue_tokens, signed_in, guarded, code_checked, with_secret,
  ticket_user_checked, ticket_checked, handle_totp_verify,
}
use gocontrolpanel.Api.Login.Sessions.{find_id, handle_totp_verify-tokens}

abbrev at_step : ℕ → User → User
at_step step u = record u { totp_last_step = step }

find-at_step :
    (id : Uuid) (step : ℕ) (l : List User) {y : User}
    → find? (has_id id) (map_where (has_id id) (at_step step) l) ≡ some y
    → y.totp_last_step ≡ step
find-at_step id step [] h = cc
find-at_step id step (x ∷ l) {y} h = elim (Bool-cases (x.id == id)) [
  | inl e ↦ let g = rw (e, e) at h in ap step_of (sym g)
  | inr e ↦ find-at_step id step l (rw (e, e) at h)
]
  where
    step_of : Option User → ℕ
    step_of none = step
    step_of (some u) = u.totp_last_step

-- Handing out tokens changes no user.
issue_tokens-users :
    (c : Crypto) (u : User) (w : World) → (issue_tokens c u w).1.db.users ≡ w.db.users
unfolding issue_tokens create_session
issue_tokens-users c u w =
    (Keeps-bind {P = λ d. d.users ≡ w.db.users} _ _ (Keeps-insert _ _ (λ id db e h. h))
        (λ row. Keeps-pure _)).at
      w refl

signed_in-users :
    (u : User) (p : Result Error (Text × Text) × World) → (signed_in u p).1.db.users ≡ p.1.db.users
unfolding signed_in
signed_in-users u (err e, x) = refl
signed_in-users u (ok (access, refresh), x) =
    (Keeps-then {P = λ d. d.users ≡ x.db.users} _ _ (Keeps-ignore _ Keeps-remote)
        (Keeps-ignore _ (Keeps-request _))).at
      x refl

-- The step is recorded.
code_checked-users :
    (c : Crypto) (u : User) (step : ℕ) (w : World)
    → w.faults ≡ []
    → (code_checked c u (some step) w).1.db.users
      ≡ map_where (has_id u.id) (at_step step) w.db.users
unfolding code_checked record_totp_step
code_checked-users c u step w calm =
    signed_in-users u (issue_tokens c u v)
    ∙ issue_tokens-users c u v
    ∙ ap (λ (p : Result Error (Unit {0}) × World). p.1.db.users) (update_calm _ w calm)
  where
    v : World
    v = (ignore (record_totp_step u.id step) w).1

guarded-through :
    (d : RateLimiter × Bool) (f : Respond) (w : World)
    → d.1 ≡ true
    → guarded d f w ≡ ((f w).0, (d.0, (f w).1))
unfolding guarded
guarded-through (rl, true) f w e = refl
guarded-through (rl, false) f w e = cc

ticket_user_checked-code :
    (c : Crypto) (code : Text) (u : User) (w : World) (s : Text) (step : ℕ)
    → u.is_active ≡ true
    → u.totp_enabled ≡ true
    → u.totp_secret ≡ some s
    → validate_totp c.hotp s code w.clock u.totp_last_step ≡ some step
    → ticket_user_checked c code (ok u, w) ≡ code_checked c u (some step) w
unfolding ticket_user_checked with_secret
ticket_user_checked-code c code u w s step a b d e = rw (a, b, d, e) refl

-- Where no call fails, the users are as before but for the step of the one that is let in.
recorded :
    (c : Crypto) (ticket code : Text) (rl : RateLimiter) (w : World) {access refresh : Text}
    {u : User} {rl' : RateLimiter} {w' : World}
    → w.faults ≡ []
    → handle_totp_verify c ticket code rl w ≡ (tokens access refresh u, (rl', w'))
    → (s : Text) × (step : ℕ) × (u.totp_secret ≡ some s)
      × (validate_totp c.hotp s code w.clock u.totp_last_step ≡ some step)
      × (w'.db.users ≡ map_where (has_id u.id) (at_step step) w.db.users)
unfolding handle_totp_verify ticket_checked get_user_by_id
recorded c ticket code rl w {u = u} {w' = w'} calm h =
    let (claims, parsed, passed, found, has, theirs) =
      handle_totp_verify-tokens c ticket code rl w h in
    let (on, enabled, (s, step, secret, valid, later)) = has in
    let looked = query_one_calm (λ db. find? (has_id claims.user_id) db.users) w calm found in
    let answered =
      ap (λ p. ticket_user_checked c code p) looked
      ∙ ticket_user_checked-code c code u w s step on enabled secret valid in
    let whole =
      ap (λ r. ticket_checked c code r rl w) parsed
      ∙ guarded-through (allow rl (to_lower claims.username) w.clock)
          (λ v. ticket_user_checked c code (get_user_by_id claims.user_id v)) w passed in
    (
      s,
      step,
      secret,
      valid,
      ap (λ (q : Reply × (RateLimiter × World)). q.1.1.db.users) (sym h ∙ whole)
          ∙ ap (λ (q : Reply × World). q.1.db.users) answered
          ∙ code_checked-users c u step w calm,
    )

-- When handleTOTPVerify answers with tokens while no call fails, and answers with tokens for the
-- same user again on rows of users that were not changed in between, the code is accepted the
-- second time at a later step than the first, whatever the tickets, the codes and the times.
pub handle_totp_verify-later :
    (c : Crypto) (ticket code ticket' code' : Text) (rl limiter : RateLimiter) (w v : World)
    {access refresh access' refresh' : Text} {u u' : User} {rl' limiter' : RateLimiter}
    {w' v' : World}
    → w.faults ≡ []
    → handle_totp_verify c ticket code rl w ≡ (tokens access refresh u, (rl', w'))
    → v.db.users ≡ w'.db.users
    → handle_totp_verify c ticket' code' limiter v ≡ (tokens access' refresh' u', (limiter', v'))
    → u'.id ≡ u.id
    → (s : Text) × (s' : Text) × (step : ℕ) × (step' : ℕ) × (u.totp_secret ≡ some s)
      × (validate_totp c.hotp s code w.clock u.totp_last_step ≡ some step)
      × (u'.totp_secret ≡ some s')
      × (validate_totp c.hotp s' code' v.clock u'.totp_last_step ≡ some step')
      × (step < step')
handle_totp_verify-later c ticket code ticket' code' rl limiter w v {u = u} {u' = u'} calm first
      users second same =
    let (s, step, secret, valid, stored) = recorded c ticket code rl w calm first in
    let (claims, parsed, passed, found, has, theirs) =
      handle_totp_verify-tokens c ticket' code' limiter v second in
    let (on, enabled, (s', step', secret', valid', later)) = has in
    let key = sym (find_id claims.user_id v.db.users found) ∙ same in
    let last = find-at_step u.id step w.db.users (
      subst (λ l. find? (has_id u.id) l ≡ some u') (users ∙ stored)
        (subst (λ i. find? (has_id i) v.db.users ≡ some u') key found)) in
    (s, s', step, step', secret, valid, secret', valid', subst (λ n. n < step') last later)
