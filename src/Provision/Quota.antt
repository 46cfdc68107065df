-- ===== src/Provision/Quota.antt =====
-- The checks that a new site or a new domain has passed.
use gocontrolpanel.Base.{
  ℕ, ◌≡◌, ◌<◌, refl, sym, ap, subst, ◌∙◌, Bool, true, false, not, ◌||◌, some, ok, leb, find?,
  length, arith,
}
use gocontrolpanel.Go.Strings.{Text, codes, trim_space}
use gocontrolpanel.Models.{Uuid, Account, Plan, Site, DomainKind}
use gocontrolpanel.Panel.{Error, Db, World}
use gocontrolpanel.Panel.Rules.{bind-eq-ok, then-eq-ok, query_one_ok, query_ok, Leaves}
use gocontrolpanel.Store.Accounts.{
  get_account, get_plan, is_account, is_plan, sites_of, domains_of, count_account_sites,
  count_account_domains,
}
use gocontrolpanel.Store.Sites.{get_site, is_site}
use gocontrolpanel.Store.Sites.Found.{get_site_ok}
use gocontrolpanel.Provision.Edge.{Settings}
use gocontrolpanel.Provision.Input.{
  to_lower, valid_site_name, valid_fqdn, normalize_domain, contains_dots, starts_at_root,
}
use gocontrolpanel.Provision.Sites.{
  guard, CreateSiteInput, or_text, check_site, create_site_op, add_domain,
}

guard_ok :
    (b : Bool) (e : Error) (w : World) {w' : World}
    → guard b e w ≡ (ok tt, w')
    → (b ≡ true) × (w ≡ w')
guard_ok true e w h = (refl, cc)
guard_ok false e w h = cc

-- The account, its plan, and fewer sites than the plan has room for.
abbrev pub HasRoom : Db → Uuid → (Plan → ℕ) → (Uuid → Db → ℕ) → Type 0
HasRoom db account_id limit used =
    (acct : Account) × (plan : Plan) × (find? (is_account account_id) db.accounts ≡ some acct)
    × (find? (is_plan acct.plan_id) db.plans ≡ some plan)
    × (used acct.id db < limit plan)

-- The shared part of both: the rows that were read at three instants are those of the first.
room :
    (w v u : World) (account_id : Uuid) (limit : Plan → ℕ) (used : Uuid → Db → ℕ) (acct : Account)
    (plan : Plan) (count : ℕ)
    → Leaves w v
    → Leaves v u
    → find? (is_account account_id) w.db.accounts ≡ some acct
    → find? (is_plan acct.plan_id) v.db.plans ≡ some plan
    → count ≡ used acct.id u.db
    → not (leb (limit plan) count) ≡ true
    → HasRoom w.db account_id limit used
room w v u account_id limit used acct plan count l l' a p c free =
    (acct, plan, a, ap (λ (d : Db). find? (is_plan acct.plan_id) d.plans) (sym l.db) ∙ p, below)
  where
    same : count ≡ used acct.id w.db
    same = c ∙ ap (used acct.id) (l'.db ∙ l.db)

    below : used acct.id w.db < limit plan
    below = ground arith

-- When AddDomain returns, the normalized name is valid, and before the call the site and its
-- account existed with a plan that has room for more domains than the account had.
pub add_domain-HasRoom :
    (cfg : Settings) (site_id : Uuid) (raw : Text) (kind : DomainKind) (redirect_to : Text)
    (w : World) {id : Uuid} {w' : World}
    → add_domain cfg site_id raw kind redirect_to w ≡ (ok id, w')
    → (valid_fqdn (normalize_domain raw) ≡ true)
      × ((site : Site) × (find? (is_site site_id) w.db.sites ≡ some site)
          × HasRoom w.db site.account_id
              (λ plan. plan.max_domains)
              (λ a db. length (domains_of a db)))
unfolding add_domain get_account get_plan count_account_domains
add_domain-HasRoom cfg site_id raw kind redirect_to w h =
    let (w1, e1, g1) = then-eq-ok (guard (valid_fqdn (normalize_domain raw)) _) _ w h in
    let (named, same1) = guard_ok _ _ w e1 in
    let (site, w2, e2, g2) = bind-eq-ok (get_site site_id) _ w1 g1 in
    let (row, l2) = get_site_ok site_id w1 e2 in
    let (acct, w3, e3, g3) = bind-eq-ok (get_account site.account_id) _ w2 g2 in
    let (arow, l3) = query_one_ok _ w2 e3 in
    let (plan, w4, e4, g4) = bind-eq-ok (get_plan acct.plan_id) _ w3 g3 in
    let (prow, l4) = query_one_ok _ w3 e4 in
    let (count, w5, e5, g5) = bind-eq-ok (count_account_domains acct.id) _ w4 g4 in
    let (counted, l5) = query_ok _ w4 e5 in
    let (w6, e6, g6) = then-eq-ok (guard (not (leb plan.max_domains count)) _) _ w5 g5 in
    let (free, same6) = guard_ok _ _ w5 e6 in
    let start : w2.db ≡ w.db = l2.db ∙ ap (λ u. u.db) (sym same1) in
    (
      named,
      (
        site,
        ap (λ (u : World). find? (is_site site_id) u.db.sites) same1 ∙ row,
        subst
            (λ (d : Db).
              HasRoom d site.account_id (λ plan. plan.max_domains)
                (λ a db. length (domains_of a db)))
            start
            (room w2 w3 w4 site.account_id (λ p. p.max_domains) (λ a db. length (domains_of a db))
              acct plan count l3 l4 arow prow counted free),
      ),
    )

-- Neither absolute nor with `..`.
abbrev pub IsInside : Text → Type 0
IsInside docroot = (contains_dots docroot || starts_at_root docroot) ≡ false

not-true : (b : Bool) → not b ≡ true → b ≡ false
not-true true h = cc
not-true false h = refl

check_site-HasRoom :
    (cfg : Settings) (in' : CreateSiteInput) (w : World) {draft : Account × Plan × Site}
    {w' : World}
    → check_site cfg in' w ≡ (ok draft, w')
    → (valid_site_name (to_lower (trim_space in'.name)) ≡ true)
      × IsInside (or_text in'.document_root (codes "public"))
      × HasRoom w.db in'.account_id (λ plan. plan.max_sites) (λ a db. length (sites_of a db))
unfolding check_site get_account get_plan count_account_sites
check_site-HasRoom cfg in' w h =
    let (w1, e1, g1) =
      then-eq-ok (guard (valid_site_name (to_lower (trim_space in'.name))) _) _ w h in
    let (named, same1) = guard_ok _ _ w e1 in
    let docroot = or_text in'.document_root (codes "public") in
    let (w2, e2, g2) =
      then-eq-ok (guard (not (contains_dots docroot || starts_at_root docroot)) _) _ w1 g1 in
    let (inside, same2) = guard_ok _ _ w1 e2 in
    let (acct, w3, e3, g3) = bind-eq-ok (get_account in'.account_id) _ w2 g2 in
    let (arow, l3) = query_one_ok _ w2 e3 in
    let (plan, w4, e4, g4) = bind-eq-ok (get_plan acct.plan_id) _ w3 g3 in
    let (prow, l4) = query_one_ok _ w3 e4 in
    let (count, w5, e5, g5) = bind-eq-ok (count_account_sites acct.id) _ w4 g4 in
    let (counted, l5) = query_ok _ w4 e5 in
    let (w6, e6, g6) = then-eq-ok (guard (not (leb plan.max_sites count)) _) _ w5 g5 in
    let (free, same6) = guard_ok _ _ w5 e6 in
    (
      named,
      not-true _ inside,
      subst
          (λ (u : World).
            HasRoom u.db in'.account_id (λ plan. plan.max_sites) (λ a db. length (sites_of a db)))
          (sym (same1 ∙ same2))
          (room w2 w3 w4 in'.account_id (λ p. p.max_sites) (λ a db. length (sites_of a db)) acct
            plan count l3 l4 arow prow counted free),
    )

-- When CreateSite returns a site, its name in lower case is valid, its document root is neither
-- absolute nor has two dots in it, and before the call the account existed with a plan that has
-- room for more sites than the account had.
pub create_site_op-HasRoom :
    (cfg : Settings) (in' : CreateSiteInput) (w : World) {site : Site} {w' : World}
    → create_site_op cfg in' w ≡ (ok site, w')
    → (valid_site_name (to_lower (trim_space in'.name)) ≡ true)
      × IsInside (or_text in'.document_root (codes "public"))
      × HasRoom w.db in'.account_id (λ plan. plan.max_sites) (λ a db. length (sites_of a db))
unfolding create_site_op
create_site_op-HasRoom cfg in' w h =
    let (draft, v, e, g) = bind-eq-ok (check_site cfg in') _ w h in check_site-HasRoom cfg in' w e
