-- ===== src/Api/Middleware/Admitted.antt =====
-- Whose requests pass `requireAuth` and `requireRole`.
use gocontrolpanel.Base.{
  ◌≡◌, ◌≤◌, refl, inl, inr, ◌↔◌, true, not, some, Result, ok, err, find?, if-eq, arith, leb,
}
use gocontrolpanel.Go.Strings.{is_empty}
use gocontrolpanel.Models.{User, Role, rank, at_least}
use gocontrolpanel.Panel.{Error, World}
use gocontrolpanel.Panel.Rules.{query_one_ok}
use gocontrolpanel.Store.Users.{get_user_by_id, has_id}
use gocontrolpanel.Auth.Tokens.{AuthError, Claims, Jwt, TokenIssuer, parse}
use gocontrolpanel.Api.Access.{Identity}
use gocontrolpanel.Api.Middleware.{
  Request, token_of, user_admitted, claims_admitted, require_auth, require_role,
}

user_admitted_ok :
    (p : Result Error User × World) {id : Identity} {w' : World}
    → user_admitted p ≡ (ok id, w')
    → (u : User) × (p ≡ (ok u, p.1))
      × (u.is_active ≡ true)
      × (id ≡ record { user_id = u.id; username = u.username; role = u.role })
unfolding user_admitted
user_admitted_ok (err e, w) h = cc
user_admitted_ok (ok u, w) h = elim (if-eq (not u.is_active) h) [
  | inl (b, g) ↦ cc
  | inr (b, g) ↦ (u, refl, ground arith, cc)
]

claims_admitted_ok :
    (r : Result AuthError Claims) (w : World) {id : Identity} {w' : World}
    → claims_admitted r w ≡ (ok id, w')
    → (c : Claims) × (u : User) × (r ≡ ok c)
      × (find? (has_id c.user_id) w.db.users ≡ some u)
      × (u.is_active ≡ true)
      × (id ≡ record { user_id = u.id; username = u.username; role = u.role })
unfolding claims_admitted get_user_by_id
claims_admitted_ok (err e) w h = cc
claims_admitted_ok (ok c) w h =
    let (u, same, is_on, identity) = user_admitted_ok _ h in
    let (found, l) = query_one_ok _ w same in (c, u, refl, found, is_on, identity)

-- When requireAuth lets a request through, its token parses as an access token at that instant, the
-- user it names has a row that is active, and the identity carries the name and the role of that
-- row.
pub require_auth-active :
    (jwt : Jwt) (t : TokenIssuer) (r : Request) (w : World) {id : Identity} {w' : World}
    → require_auth jwt t r w ≡ (ok id, w')
    → (c : Claims) × (u : User) × (parse jwt t w.clock (token_of r) ≡ ok c)
      × (find? (has_id c.user_id) w.db.users ≡ some u)
      × (u.is_active ≡ true)
      × (id ≡ record { user_id = u.id; username = u.username; role = u.role })
unfolding require_auth
require_auth-active jwt t r w h = elim (if-eq (is_empty (token_of r)) h) [
  | inl (b, g) ↦ cc
  | inr (b, g) ↦ claims_admitted_ok (parse jwt t w.clock (token_of r)) w g
]

-- requireRole lets exactly the identities through whose role ranks at least as high as the minimum.
pub require_role_iff :
    (min : Role) (id : Identity) → (require_role min (some id) ≡ ok id) ↔ (rank min ≤ rank id.role)
unfolding require_role at_least
require_role_iff min id = (to, λ h. ground arith)
  where
    to : require_role min (some id) ≡ ok id → rank min ≤ rank id.role
    to h = elim (if-eq (not (leb (rank min) (rank id.role))) h) [
      | inl (b, g) ↦ cc
      | inr (b, g) ↦ ground arith
    ]
