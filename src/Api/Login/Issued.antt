-- ===== src/Api/Login/Issued.antt =====
-- `issueTokens`: whose tokens are handed out.
use gocontrolpanel.Base.{
  ℕ, ◌+◌, ◌≤◌, ◌<◌, ◌≡◌, refl, sym, ap, subst, ◌∙◌, true, false, List, ◌∷◌, Result, ok, err, arith,
  ltb,
}
use gocontrolpanel.Go.Strings.{Text}
use gocontrolpanel.Models.{Uuid, User}
use gocontrolpanel.Panel.{Error, Session, Db, World, pure}
use gocontrolpanel.Panel.Rules.{bind-eq-ok, insert_ok}
use gocontrolpanel.Panel.Keeps.{Keeps-then, Keeps-ignore, Keeps-remote, Keeps-request}
use gocontrolpanel.Store.Users.{create_session}
use gocontrolpanel.Auth.Tokens.{Claims, parse, issue_access, access_claims}
use gocontrolpanel.Auth.Tokens.Purpose.{issue_access_lem}
use gocontrolpanel.Api.Login.{Crypto, Reply, tokens, issue_tokens, signed_in, renewed}

-- The access token is accepted as the user's while it is in force, and the refresh token is that of
-- the user's session that was opened last.
pub record AreTokensOf (c : Crypto) (u : User) (access refresh : Text) (now : ℕ) (db : Db)
    : Type 0 where
  pub accepted :
      (later : ℕ)
      → now ≤ later
      → later < now + c.issuer.access_ttl
      → (claims : Claims) × (parse c.jwt c.issuer later access ≡ ok claims)
        × (claims.user_id ≡ u.id)
        × (claims.username ≡ u.username)
        × (claims.role ≡ u.role)
  pub opened :
      (s : Session) × (older : List Session) × (db.sessions ≡ s ∷ older)
      × (s.user_id ≡ u.id)
      × (s.refresh_hash ≡ c.hash_refresh refresh)
      × (s.is_revoked ≡ false)
      × (s.expires_at ≡ now + c.issuer.refresh_ttl)

issue_access-accepted :
    (c : Crypto) (u : User) (now : ℕ) (token_id : Uuid) (later : ℕ)
    → now ≤ later
    → later < now + c.issuer.access_ttl
    → (claims : Claims) × (parse c.jwt c.issuer later (issue_access c.jwt c.issuer now token_id u)
        ≡ ok claims)
      × (claims.user_id ≡ u.id)
      × (claims.username ≡ u.username)
      × (claims.role ≡ u.role)
unfolding access_claims
issue_access-accepted c u now token_id later from until = (
  access_claims c.issuer now token_id u,
  issue_access_lem c.jwt c.issuer now later token_id u from ∙ rw in_force refl,
  refl,
  refl,
  refl,
)
  where
    in_force : ltb later (now + c.issuer.access_ttl) ≡ true
    in_force = ground arith

pub issue_tokens-AreTokensOf :
    (c : Crypto) (u : User) (w : World) {access refresh : Text} {w' : World}
    → issue_tokens c u w ≡ (ok (access, refresh), w')
    → AreTokensOf c u access refresh w.clock w'.db
unfolding issue_tokens create_session
issue_tokens-AreTokensOf c u w {access} {refresh} {w'} h =
    let (row, v, e, g) =
      bind-eq-ok (create_session u.id (c.hash_refresh (c.random w.next_id)) c.issuer.refresh_ttl) _
        w h in
    let (signed, drawn, world) = parts g in
    let stored = insert_ok _ _ w e in
    record {
      accepted = λ later from until.
          subst
            (λ t.
              (claims : Claims) × (parse c.jwt c.issuer later t ≡ ok claims)
              × (claims.user_id ≡ u.id)
              × (claims.username ≡ u.username)
              × (claims.role ≡ u.role))
            signed (issue_access-accepted c u w.clock w.next_id later from until);
      opened = (
        _,
        _,
        ap (λ (d : World). d.db.sessions) (sym world) ∙ ap (λ (d : Db). d.sessions) stored,
        refl,
        ap c.hash_refresh drawn,
        refl,
        refl,
      );
    }
  where
    parts :
        {a r : Text} {v : World}
        → pure {A = Text × Text} (a, r) v ≡ (ok (access, refresh), w')
        → (a ≡ access) × (r ≡ refresh) × (v ≡ w')
    parts g = (cc, cc, cc)

signed_in_ok :
    (u : User) (p : Result Error (Text × Text) × World) {a r : Text} {v : User} {w' : World}
    → signed_in u p ≡ (tokens a r v, w')
    → (u ≡ v) × ((x : World) × (p ≡ (ok (a, r), x)) × (w'.db ≡ x.db))
unfolding signed_in
signed_in_ok u (err e, x) h = cc
signed_in_ok u (ok (access, refresh), x) {w'} h = (
  cc,
  (
    x,
    cc,
    ap (λ (q : Reply × World). q.1.db) (sym h)
        ∙ (Keeps-then {P = λ d. d ≡ x.db} _ _ (Keeps-ignore _ Keeps-remote)
              (Keeps-ignore _ (Keeps-request _))).at
            x refl,
  ),
)

pub signed_in-AreTokensOf :
    (c : Crypto) (u : User) (w : World) {a r : Text} {v : User} {w' : World}
    → signed_in u (issue_tokens c u w) ≡ (tokens a r v, w')
    → (u ≡ v) × AreTokensOf c v a r w.clock w'.db
signed_in-AreTokensOf c u w {a} {r} {v} {w'} h =
    let (same, (x, e, db)) = signed_in_ok u (issue_tokens c u w) h in
    (
      same,
      subst (λ y. AreTokensOf c y a r w.clock w'.db) same
          (subst (AreTokensOf c u a r w.clock) (sym db) (issue_tokens-AreTokensOf c u w e)),
    )

renewed_ok :
    (u : User) (p : Result Error (Text × Text) × World) {a r : Text} {v : User} {w' : World}
    → renewed u p ≡ (tokens a r v, w')
    → (u ≡ v) × (p ≡ (ok (a, r), w'))
unfolding renewed
renewed_ok u (err e, x) h = cc
renewed_ok u (ok (access, refresh), x) h = (cc, cc)

pub renewed-AreTokensOf :
    (c : Crypto) (u : User) (w : World) {a r : Text} {v : User} {w' : World}
    → renewed u (issue_tokens c u w) ≡ (tokens a r v, w')
    → (u ≡ v) × AreTokensOf c v a r w.clock w'.db
renewed-AreTokensOf c u w {a} {r} {w'} h =
    let (same, e) = renewed_ok u (issue_tokens c u w) h in
    (same, subst (λ y. AreTokensOf c y a r w.clock w'.db) same (issue_tokens-AreTokensOf c u w e))
