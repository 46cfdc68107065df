-- ===== src/Api/Login/Sessions.antt =====
-- What a handler that hands out tokens has seen.
use gocontrolpanel.Base.{
  ◌<◌, ℕ, ◌≡◌, refl, sym, ap, subst, ◌∙◌, inl, inr, arith, Bool, true, false, not, ◌||◌, Option,
  none, some, List, [], ◌∷◌, Result, ok, err, find?, if-eq, ◌==◌, Bool-cases,
}
use gocontrolpanel.Go.Strings.{Text, text_eq, is_empty}
use gocontrolpanel.Models.{Uuid, User}
use gocontrolpanel.Panel.{Error, Session, World, ignore}
use gocontrolpanel.Panel.Rules.{query_one_ok, query_one-clock, update-clock}
use gocontrolpanel.Store.Users.{
  record_totp_step, get_user_by_login, is_usable, get_user_by_id, has_id,
}
use gocontrolpanel.Store.Users.Once.{consume_session_ok}
use gocontrolpanel.Provision.Input.{to_lower}
use gocontrolpanel.Auth.Tokens.{Claims, AuthError, parse_totp_ticket}
use gocontrolpanel.Auth.Totp.{validate_totp}
use gocontrolpanel.Api.RateLimit.{RateLimiter, allow}
use gocontrolpanel.Auth.Totp.Replay.{validate_totp_sound}
use gocontrolpanel.Api.Login.Issued.{AreTokensOf, signed_in-AreTokensOf, renewed-AreTokensOf}
use gocontrolpanel.Api.Login.{
  Crypto, Reply, tokens, Respond, password_checked, guarded, handle_login, code_checked,
  with_secret, ticket_user_checked, ticket_checked, handle_totp_verify, session_user_checked,
  session_checked, handle_refresh,
}

abbrev Answer : Reply × World → Text → Text → User → World → Type 0
Answer p access refresh u w = p ≡ (tokens access refresh u, w)

guarded_ok :
    (d : RateLimiter × Bool) (f : Respond) (w : World) {a r : Text} {u : User} {rl : RateLimiter}
    {w' : World}
    → guarded d f w ≡ (tokens a r u, (rl, w'))
    → (d.1 ≡ true) × Answer (f w) a r u w'
unfolding guarded
guarded_ok (rl, false) f w h = cc
guarded_ok (rl, true) f w h = (refl, cc)

password_checked_ok :
    (c : Crypto) (password : Text) (p : Result Error User × World) {a r : Text} {u : User}
    {w' : World}
    → Answer (password_checked c password p) a r u w'
    → (p ≡ (ok u, p.1))
      × (c.verify_password u.password_hash password ≡ true)
      × (u.is_active ≡ true)
      × (u.totp_enabled ≡ false)
      × AreTokensOf c u a r p.1.clock w'.db
unfolding password_checked
password_checked_ok c password (err e, w) h = cc
password_checked_ok c password (ok u, w) {a} {r} {u = u'} {w'} h =
    elim (if-eq (not (c.verify_password u.password_hash password)) h) [
      | inl (b, g) ↦ cc
      | inr (b, g) ↦ elim (if-eq (not u.is_active) g) [
        | inl (d, k) ↦ cc
        | inr (d, k) ↦ elim (if-eq u.totp_enabled k) [
          | inl (e, l) ↦ cc
          | inr (e, l) ↦ finish (signed_in-AreTokensOf c u w l) (ground arith) (ground arith) e
        ]
      ]
    ]
  where
    finish :
        (u ≡ u') × AreTokensOf c u' a r w.clock w'.db
        → c.verify_password u.password_hash password ≡ true
        → u.is_active ≡ true
        → u.totp_enabled ≡ false
        → (◌≡◌ {A = Result Error User × World} (ok u, w) (ok u', w))
          × (c.verify_password u'.password_hash password ≡ true)
          × (u'.is_active ≡ true)
          × (u'.totp_enabled ≡ false)
          × AreTokensOf c u' a r w.clock w'.db
    finish (same, t) b d e = (cc, cc, cc, cc, t)

-- When handleLogin answers with tokens, the limiter let the name through, there is a user with that
-- name or mail address whose password was verified, who is active and has no second factor, the
-- access token is accepted as this user's as long as it is in force, and the session opened last is
-- this user's, with the hash of the refresh token and the lifetime set for it, whatever calls fail.
pub handle_login-tokens :
    (c : Crypto) (login password : Text) (rl : RateLimiter) (w : World) {access refresh : Text}
    {u : User} {rl' : RateLimiter} {w' : World}
    → handle_login c login password rl w ≡ (tokens access refresh u, (rl', w'))
    → ((allow rl (to_lower login) w.clock).1 ≡ true)
      × (find? (λ v. text_eq v.username login || text_eq v.email login) w.db.users ≡ some u)
      × (c.verify_password u.password_hash password ≡ true)
      × (u.is_active ≡ true)
      × (u.totp_enabled ≡ false)
      × AreTokensOf c u access refresh w.clock w'.db
unfolding handle_login get_user_by_login
handle_login-tokens c login password rl w {access} {refresh} {u} {rl'} {w'} h =
    elim (Bool-cases (is_empty login || is_empty password)) [
      | inl b ↦ let g = rw b at h in cc
      | inr b ↦
          let (passed, answer) = guarded_ok _ _ w (rw b at h) in
          let (same, verified, is_on, single, theirs) = password_checked_ok c password _ answer in
          let (found, l) = query_one_ok _ w same in
          (
            passed,
            found,
            verified,
            is_on,
            single,
            subst (λ n. AreTokensOf c u access refresh n w'.db) (query_one-clock _ w same) theirs,
          )
    ]

session_user_checked_ok :
    (c : Crypto) (p : Result Error User × World) {a r : Text} {u : User} {w' : World}
    → Answer (session_user_checked c p) a r u w'
    → (p ≡ (ok u, p.1)) × (u.is_active ≡ true) × AreTokensOf c u a r p.1.clock w'.db
unfolding session_user_checked
session_user_checked_ok c (err e, w) h = cc
session_user_checked_ok c (ok u, w) {a} {r} {u = u'} {w'} h = elim (if-eq (not u.is_active) h) [
  | inl (b, g) ↦ cc
  | inr (b, g) ↦ finish (renewed-AreTokensOf c u w g) (ground arith)
]
  where
    finish :
        (u ≡ u') × AreTokensOf c u' a r w.clock w'.db
        → u.is_active ≡ true
        → (◌≡◌ {A = Result Error User × World} (ok u, w) (ok u', w))
          × (u'.is_active ≡ true)
          × AreTokensOf c u' a r w.clock w'.db
    finish (same, t) b = (cc, cc, t)

session_checked_ok :
    (c : Crypto) (p : Result Error Uuid × World) {a r : Text} {u : User} {w' : World}
    → Answer (session_checked c p) a r u w'
    → (id : Uuid) × (p ≡ (ok id, p.1))
      × (find? (has_id id) p.1.db.users ≡ some u)
      × (u.is_active ≡ true)
      × AreTokensOf c u a r p.1.clock w'.db
unfolding session_checked get_user_by_id
session_checked_ok c (err e, w) h = cc
session_checked_ok c (ok id, w) {a} {r} {u} {w'} h =
    let (same, is_on, theirs) = session_user_checked_ok c _ h in
    let (found, l) = query_one_ok _ w same in
    (
      id,
      refl,
      found,
      is_on,
      subst (λ n. AreTokensOf c u a r n w'.db) (query_one-clock _ w same) theirs,
    )

pub find_id : (id : Uuid) (l : List User) {u : User} → find? (has_id id) l ≡ some u → u.id ≡ id
find_id id [] e = cc
find_id id (v ∷ l) {u} e = elim (if-eq (v.id == id) e) [
  | inl (b, g) ↦ ap (λ (o : Option User). id_of o) (sym g) ∙ ground arith
  | inr (b, g) ↦ find_id id l g
]
  where
    id_of : Option User → Uuid
    id_of none = id
    id_of (some x) = x.id

-- When handleRefresh answers with tokens, the hash of the token was that of a session neither
-- revoked nor expired, whose user is active, the new access token is accepted as this user's as
-- long as it is in force, and the session opened last is this user's, with the hash of the new
-- refresh token and the lifetime set for it, whatever calls fail.
pub handle_refresh-tokens :
    (c : Crypto) (token : Text) (w : World) {access refresh : Text} {u : User} {w' : World}
    → handle_refresh c token w ≡ (tokens access refresh u, w')
    → (u.is_active ≡ true)
      × ((s : Session) × (find? (is_usable (c.hash_refresh token) w.clock) w.db.sessions ≡ some s)
          × (s.user_id ≡ u.id))
      × AreTokensOf c u access refresh w.clock w'.db
unfolding handle_refresh
handle_refresh-tokens c token w {access} {refresh} {u} {w'} h = elim (Bool-cases (is_empty token)) [
  | inl b ↦ let g = rw b at h in cc
  | inr b ↦
      let (id, same, found, is_on, theirs) = session_checked_ok c _ (rw b at h) in
      let ((s, usable, owner), left, clock) = consume_session_ok (c.hash_refresh token) w same in
      (
        is_on,
        (s, usable, owner ∙ sym (find_id id _ found)),
        subst (λ n. AreTokensOf c u access refresh n w'.db) clock theirs,
      )
]

code_checked_ok :
    (c : Crypto) (u : User) (o : Option ℕ) (w : World) {a r : Text} {v : User} {w' : World}
    → Answer (code_checked c u o w) a r v w'
    → (u ≡ v) × ((step : ℕ) × (o ≡ some step)) × AreTokensOf c v a r w.clock w'.db
unfolding code_checked record_totp_step
code_checked_ok c u none w h = cc
code_checked_ok c u (some step) w {a} {r} {v} {w'} h =
    let (same, theirs) = signed_in-AreTokensOf c u (ignore (record_totp_step u.id step) w).1 h in
    (same, (step, refl), subst (λ n. AreTokensOf c v a r n w'.db) (update-clock _ w) theirs)

-- A user with a second factor, and a code that the secret accepts at a step later than the last one
-- that the row has.
abbrev pub HasCode : Crypto → Text → ℕ → User → Type 0
HasCode c code now u =
    (u.is_active ≡ true)
    × (u.totp_enabled ≡ true)
    × ((s : Text) × (step : ℕ) × (u.totp_secret ≡ some s)
        × (validate_totp c.hotp s code now u.totp_last_step ≡ some step)
        × (u.totp_last_step < step))

with_secret_ok :
    (c : Crypto) (code : Text) (u : User) (o : Option Text) (w : World) {a r : Text} {v : User}
    {w' : World}
    → Answer
        (with_secret o
          (λ s x. code_checked c u (validate_totp c.hotp s code x.clock u.totp_last_step) x)
          401
          w)
        a
        r
        v
        w'
    → (u ≡ v)
      × ((s : Text) × (step : ℕ) × (o ≡ some s)
          × (validate_totp c.hotp s code w.clock u.totp_last_step ≡ some step)
          × (u.totp_last_step < step))
      × AreTokensOf c v a r w.clock w'.db
unfolding with_secret
with_secret_ok c code u none w h = cc
with_secret_ok c code u (some s) w h =
    let (same, (step, valid), theirs) = code_checked_ok c u _ w h in
    (
      same,
      (
        s,
        step,
        refl,
        valid,
        (validate_totp_sound c.hotp s code w.clock u.totp_last_step step valid).0,
      ),
      theirs,
    )

ticket_user_checked_ok :
    (c : Crypto) (code : Text) (p : Result Error User × World) {a r : Text} {u : User} {w' : World}
    → Answer (ticket_user_checked c code p) a r u w'
    → (p ≡ (ok u, p.1)) × HasCode c code p.1.clock u × AreTokensOf c u a r p.1.clock w'.db
unfolding ticket_user_checked
ticket_user_checked_ok c code (err e, w) h = cc
ticket_user_checked_ok c code (ok u, w) {u = u'} h =
    elim (if-eq (not u.is_active || not u.totp_enabled) h) [
      | inl (b, g) ↦ cc
      | inr (b, g) ↦
          let (same, rest, theirs) = with_secret_ok c code u u.totp_secret w g in
          (
            ap (λ x. (ok x, w)) same,
            subst (HasCode c code w.clock) same (ground arith, ground arith, rest),
            theirs,
          )
    ]

ticket_checked_ok :
    (c : Crypto) (code : Text) (p : Result AuthError Claims) (rl : RateLimiter) (w : World)
    {a r : Text} {u : User} {rl' : RateLimiter} {w' : World}
    → ticket_checked c code p rl w ≡ (tokens a r u, (rl', w'))
    → (claims : Claims) × (p ≡ ok claims)
      × ((allow rl (to_lower claims.username) w.clock).1 ≡ true)
      × (find? (has_id claims.user_id) w.db.users ≡ some u)
      × HasCode c code w.clock u
      × AreTokensOf c u a r w.clock w'.db
unfolding ticket_checked get_user_by_id
ticket_checked_ok c code (err e) rl w h = cc
ticket_checked_ok c code (ok claims) rl w {a} {r} {u} {rl'} {w'} h =
    let (passed, answer) = guarded_ok _ _ w h in
    let (same, has, theirs) = ticket_user_checked_ok c code _ answer in
    let (found, l) = query_one_ok _ w same in
    (
      claims,
      refl,
      passed,
      found,
      subst (λ n. HasCode c code n u) (query_one-clock _ w same) has,
      subst (λ n. AreTokensOf c u a r n w'.db) (query_one-clock _ w same) theirs,
    )

-- When handleTOTPVerify answers with tokens, the ticket parses as a ticket at that instant, the
-- limiter let its name through, the user of the ticket is active and has a second factor, whose
-- secret accepts the code at a step later than the last one that the row had, the access token is
-- accepted as this user's as long as it is in force, and the session opened last is this user's,
-- with the hash of the refresh token and the lifetime set for it, whatever calls fail.
pub handle_totp_verify-tokens :
    (c : Crypto) (ticket code : Text) (rl : RateLimiter) (w : World) {access refresh : Text}
    {u : User} {rl' : RateLimiter} {w' : World}
    → handle_totp_verify c ticket code rl w ≡ (tokens access refresh u, (rl', w'))
    → (claims : Claims) × (parse_totp_ticket c.jwt c.issuer w.clock ticket ≡ ok claims)
      × ((allow rl (to_lower claims.username) w.clock).1 ≡ true)
      × (find? (has_id claims.user_id) w.db.users ≡ some u)
      × HasCode c code w.clock u
      × AreTokensOf c u access refresh w.clock w'.db
unfolding handle_totp_verify
handle_totp_verify-tokens c ticket code rl w h =
    ticket_checked_ok c code (parse_totp_ticket c.jwt c.issuer w.clock ticket) rl w h
