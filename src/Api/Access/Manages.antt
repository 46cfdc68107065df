-- ===== src/Api/Access/Manages.antt =====
-- Who `authorize_account` and `authorize_site` let through.
use gocontrolpanel.Base.{
  ◌≡◌, refl, sym, ap, subst, ◌∙◌, ◌⊎◌, inl, inr, ◌↔◌, arith, true, Option, none, some, [], Result,
  ok, err, ◌==◌, ◌||◌, find?, Bool-cases,
}
use gocontrolpanel.Models.{
  Uuid, Role, admin, reseller, user, other, is_admin, is_reseller, User, Account, Site,
}
use gocontrolpanel.Panel.{Error, Db, World, after, ◌>>=◌, attempt}
use gocontrolpanel.Panel.Rules.{query_one_calm, bind-eq-ok, query_one_ok, attempt-eq-ok}
use gocontrolpanel.Store.Users.{get_user_by_id, has_id}
use gocontrolpanel.Store.Accounts.{get_account, is_account}
use gocontrolpanel.Store.Sites.Found.{get_site_ok}
use gocontrolpanel.Store.Sites.{get_site, is_site}
use gocontrolpanel.Api.Access.{
  Identity, parent_is, has_parent, granted, parent_granted, authorize_account, authorize_site,
}

-- The rule of the panel, over the rows.
abbrev pub MayManage : Db → Identity → Account → Type 0
MayManage db id acct =
    (id.role ≡ admin)
    ⊎ (acct.owner_id ≡ id.user_id)
    ⊎ ((id.role ≡ reseller)
        × ((owner : User) × (find? (has_id acct.owner_id) db.users ≡ some owner)
            × (owner.parent_id ≡ some id.user_id)))

pub is_admin_iff : (r : Role) → (is_admin r ≡ true) ↔ (r ≡ admin)
unfolding is_admin
is_admin_iff admin = (λ h. refl, λ h. refl)
is_admin_iff reseller = (λ h. cc, λ h. cc)
is_admin_iff user = (λ h. cc, λ h. cc)
is_admin_iff (other n) = (λ h. cc, λ h. cc)

is_reseller_iff : (r : Role) → (is_reseller r ≡ true) ↔ (r ≡ reseller)
unfolding is_reseller
is_reseller_iff admin = (λ h. cc, λ h. cc)
is_reseller_iff reseller = (λ h. refl, λ h. refl)
is_reseller_iff user = (λ h. cc, λ h. cc)
is_reseller_iff (other n) = (λ h. cc, λ h. cc)

pub parent_is_iff : (id : Uuid) (p : Option Uuid) → (parent_is id p ≡ true) ↔ (p ≡ some id)
parent_is_iff id none = (λ h. cc, λ h. cc)
parent_is_iff id (some p) = (λ h. ap some (ground arith), λ h. ground arith)

parent_granted_ok :
    (id : Identity) (acct : Account) (r : Result Error User) (w : World) {a : Account} {w' : World}
    → parent_granted id acct r w ≡ (ok a, w')
    → (acct ≡ a)
      × (w ≡ w')
      × ((owner : User) × (r ≡ ok owner) × (owner.parent_id ≡ some id.user_id))
unfolding parent_granted has_parent
parent_granted_ok id acct (err e) w h = cc
parent_granted_ok id acct (ok owner) w h =
    elim (Bool-cases (parent_is id.user_id owner.parent_id)) [
      | inl b ↦
          let g = rw b at h in
          (cc, cc, (owner, refl, (parent_is_iff id.user_id owner.parent_id).0 b))
      | inr b ↦ let g = rw b at h in cc
    ]

admin_or_owner :
    (id : Identity) (acct : Account)
    → (is_admin id.role || (acct.owner_id == id.user_id)) ≡ true
    → (id.role ≡ admin) ⊎ (acct.owner_id ≡ id.user_id)
admin_or_owner id acct h = elim (Bool-cases (is_admin id.role)) [
  | inl b ↦ inl ((is_admin_iff id.role).0 b)
  | inr b ↦ inr (ground arith)
]

granted_ok :
    (id : Identity) (acct : Account) (w : World) {a : Account} {w' : World}
    → granted id acct w ≡ (ok a, w')
    → (acct ≡ a) × MayManage w.db id acct
unfolding granted get_user_by_id
granted_ok id acct w {a} {w'} h =
    elim (Bool-cases (is_admin id.role || (acct.owner_id == id.user_id))) [
      | inl b ↦
          let g = rw b at h in
          (cc, elim (admin_or_owner id acct b) [ inl e ↦ inl e | inr e ↦ inr (inl e) ])
      | inr b ↦ elim (Bool-cases (is_reseller id.role)) [
        | inl c ↦ by_parent ((is_reseller_iff id.role).0 c) (rw (b, c) at h)
        | inr c ↦ let g = rw (b, c) at h in cc
      ]
    ]
  where
    by_parent :
        id.role ≡ reseller
        → (attempt (get_user_by_id acct.owner_id) >>= parent_granted id acct) w ≡ (ok a, w')
        → (acct ≡ a) × MayManage w.db id acct
    by_parent r k =
        let (res, v, e, g) =
          bind-eq-ok (attempt (get_user_by_id acct.owner_id)) (parent_granted id acct) w k in
        let (same, world, (owner, found, parent)) = parent_granted_ok id acct res v g in
        let (row, l) =
          query_one_ok _ w
            (attempt-eq-ok (get_user_by_id acct.owner_id) w e ∙ ap (λ x. (x, v)) found) in
        (same, inr (inr (r, (owner, row, parent))))

-- When authorizeAccount returns an account it is the row with that identifier, and the caller is an
-- admin, owns it, or is a reseller and the parent of its owner, whatever calls fail.
pub authorize_account-MayManage :
    (id : Identity) (account_id : Uuid) (w : World) {acct : Account} {w' : World}
    → authorize_account id account_id w ≡ (ok acct, w')
    → (find? (is_account account_id) w.db.accounts ≡ some acct) × MayManage w.db id acct
unfolding authorize_account get_account
authorize_account-MayManage id account_id w {acct} h =
    let (a, v, e, g) = bind-eq-ok (get_account account_id) (granted id) w h in
    let (row, l) = query_one_ok _ w e in
    let (same, may) = granted_ok id a v g in
    (
      row ∙ ap some same,
      subst (λ x. MayManage x id acct) l.db (subst (λ x. MayManage v.db id x) same may),
    )

granted_calm :
    (id : Identity) (acct : Account) (w : World)
    → w.faults ≡ []
    → MayManage w.db id acct
    → granted id acct w ≡ (ok acct, w)
unfolding granted get_user_by_id parent_granted has_parent
granted_calm id acct w calm (inl e) = rw ((is_admin_iff id.role).1 e) refl
granted_calm id acct w calm (inr (inl e)) = elim (Bool-cases (is_admin id.role)) [
  | inl b ↦ rw b refl
  | inr b ↦ rw (b, same) refl
]
  where
    same : acct.owner_id == id.user_id ≡ true
    same = ground arith
granted_calm id acct w calm (inr (inr (r, (owner, found, parent)))) =
    elim (Bool-cases (is_admin id.role || (acct.owner_id == id.user_id))) [
      | inl b ↦ rw b refl
      | inr b ↦
          rw (b, (is_reseller_iff id.role).1 r)
            (ap (λ p. after (ok p.0, p.1) (parent_granted id acct)) (query_one_calm _ w calm found)
              ∙ allowed)
    ]
  where
    allowed : parent_granted id acct (ok owner) w ≡ (ok acct, w)
    allowed = rw ((parent_is_iff id.user_id owner.parent_id).1 parent) refl

-- Where no call fails, an admin, the owner of the row with that identifier, and a reseller that is
-- the parent of its owner get the account from authorizeAccount, and nothing changes.
pub MayManage-authorize_account :
    (id : Identity) (account_id : Uuid) (w : World) {acct : Account}
    → w.faults ≡ []
    → find? (is_account account_id) w.db.accounts ≡ some acct
    → MayManage w.db id acct
    → authorize_account id account_id w ≡ (ok acct, w)
unfolding authorize_account get_account
MayManage-authorize_account id account_id w {acct} calm found may =
    ap (λ p. after p (granted id)) (query_one_calm _ w calm found) ∙ granted_calm id acct w calm may

-- When authorizeSite returns, it returns the row with that identifier and the row of its account,
-- and the caller is an admin, owns the account, or is a reseller and the parent of its owner,
-- whatever calls fail.
pub authorize_site-MayManage :
    (id : Identity) (site_id : Uuid) (w : World) {site : Site} {acct : Account} {w' : World}
    → authorize_site id site_id w ≡ (ok (site, acct), w')
    → (find? (is_site site_id) w.db.sites ≡ some site)
      × (find? (is_account site.account_id) w.db.accounts ≡ some acct)
      × MayManage w.db id acct
unfolding authorize_site
authorize_site-MayManage id site_id w {site} {acct} h =
    let (a, v, e, g) = bind-eq-ok (get_site site_id) _ w h in
    let (b, u, e', g') = bind-eq-ok (authorize_account id a.account_id) _ v g in
    let (row, l) = get_site_ok site_id w e in
    let (found, may) = authorize_account-MayManage id a.account_id v e' in
    let (site_same, acct_same) = pair_ok g' in
    (
      row ∙ ap some site_same,
      subst (λ (x : Site). find? (is_account x.account_id) w.db.accounts ≡ some acct) site_same
          (ap (λ (d : Db). find? (is_account a.account_id) d.accounts) (sym l.db)
            ∙ found
            ∙ ap some acct_same),
      subst (λ x. MayManage x id acct) l.db (subst (λ x. MayManage v.db id x) acct_same may),
    )
  where
    pair_ok :
        {a : Site} {b : Account} {u v : World}
        → ◌≡◌ {A = Result Error (Site × Account) × World} (ok (a, b), u) (ok (site, acct), v)
        → (a ≡ site) × (b ≡ acct)
    pair_ok e = (cc, cc)
