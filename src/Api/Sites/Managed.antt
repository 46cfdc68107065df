-- ===== src/Api/Sites/Managed.antt =====
-- A request on a site changes nothing for whoever may not manage it.
use gocontrolpanel.Base.{◌≡◌, ◌⊎◌, some, [], find?}
use gocontrolpanel.Models.{Uuid, Site, Account}
use gocontrolpanel.Panel.{Db, World}
use gocontrolpanel.Store.Accounts.{is_account}
use gocontrolpanel.Store.Sites.{is_site}
use gocontrolpanel.Provision.Edge.{Settings}
use gocontrolpanel.Api.Access.{Identity, authorize_site}
use gocontrolpanel.Api.Access.Confined.{
  Confines-authorize_site, Keeps-authorize_site, checked_first,
}
use gocontrolpanel.Api.Access.Manages.{MayManage, authorize_site-MayManage}
use gocontrolpanel.Api.Sites.{SiteOp, resolved, handle_site}

-- Who sent the request may manage the account of the site.
abbrev pub ManagesSite : Db → Identity → Uuid → Type 0
ManagesSite db id site_id =
    (site : Site) × (acct : Account) × (find? (is_site site_id) db.sites ≡ some site)
    × (find? (is_account site.account_id) db.accounts ≡ some acct)
    × MayManage db id acct

-- Where no call was made before, an operation on a site leaves the rows and makes no call, unless
-- the rows had the site and its account and the caller is an admin, owns the account, or is a
-- reseller and the parent of its owner.
pub handle_site-ManagesSite :
    (cfg : Settings) (id : Identity) (site_id : Uuid) (op : SiteOp) (w : World) {w' : World}
    → w.calls ≡ []
    → (handle_site cfg id site_id op w).1 ≡ w'
    → ((w'.db ≡ w.db) × (w'.calls ≡ [])) ⊎ ManagesSite w.db id site_id
unfolding handle_site
handle_site-ManagesSite cfg id site_id op w none_yet h =
    checked_first (authorize_site id site_id) (resolved cfg op) w none_yet
      (Keeps-authorize_site id site_id) (Confines-authorize_site id site_id)
      (λ (site, acct) v e.
        let (row, account, may) = authorize_site-MayManage id site_id w e in
        (site, acct, row, account, may))
      h
