-- ===== src/Api/Sites.antt =====
-- internal/api/handlers_sites.go, from requests that are decoded. Logs, statistics and the history of
-- use are read only and left out, and so is a reply's body but for the row that it shows.
pub mod Managed
use gocontrolpanel.Base.{
  ℕ, Bool, true, false, Option, none, some, List, Result, ok, err, if◌then◌else◌,
}
use gocontrolpanel.Go.Strings.{Text, codes}
use gocontrolpanel.Models.{Uuid, is_admin, Account, Site, DomainKind}
use gocontrolpanel.Panel.{
  Error, refused, audit, World, Exec, ◌>>=◌, ◌>>◌, pure, fail, attempt, ignore, request,
}
use gocontrolpanel.Store.Sites.{get_site, list_sites}
use gocontrolpanel.Store.Sites.Config.{update_site_config, get_domain, list_sites_for_owner}
use gocontrolpanel.Provision.Edge.{Settings}
use gocontrolpanel.Provision.Sites.{
  CreateSiteInput, create_site_op, start_site, stop_site, restart_site, redeploy_site, delete_site,
  add_domain, remove_domain,
}
use gocontrolpanel.Api.Access.{Identity, authorize_account, authorize_site}
use gocontrolpanel.Api.Users.{or_kept, or_refuse}

unfoldable pub handle_list_sites : Identity → Option Uuid → Exec (List Site)
unfolding authorize_account list_sites list_sites_for_owner is_admin
handle_list_sites id (some account_id) = do
  acct ← authorize_account id account_id
  list_sites (some account_id)
handle_list_sites id none =
    if is_admin id.role then list_sites none else list_sites_for_owner id.user_id

unfoldable pub handle_create_site : Settings → Identity → CreateSiteInput → Exec Site
unfolding authorize_account create_site_op request
handle_create_site cfg id req = do
  acct ← authorize_account id req.account_id
  site ← create_site_op cfg req
  ignore (request (audit (codes "site.create")))
  pure site

pub record UpdateSiteRequest : Type 0 where
  pub php_version : Option Text
  pub document_root : Option Text
  pub worker_script : Option Text
  pub worker_count : Option ℕ
  pub env_vars : Option (List (Text × Text))
  pub redeploy : Bool

-- The row as the request asks for it; nothing is checked.
unfoldable pub updated_site : UpdateSiteRequest → Site → Site
updated_site req s = record s {
  php_version = or_kept req.php_version s.php_version;
  document_root = or_kept req.document_root s.document_root;
  worker_script = or_kept req.worker_script s.worker_script;
  worker_count = or_kept req.worker_count s.worker_count;
  env_vars = or_kept req.env_vars s.env_vars;
}

redeploy_if : Settings → Bool → Uuid → Exec (Unit {0})
unfolding or_refuse redeploy_site
redeploy_if cfg true id = or_refuse 500 (redeploy_site cfg id)
redeploy_if cfg false id = pure tt

pub data SiteOp : Type 0 where
  start_it stop_it restart_it redeploy_it : SiteOp
  update_it : UpdateSiteRequest → SiteOp
  delete_it : (delete_files : Bool) → SiteOp
  add_domain_to : Text → DomainKind → Text → SiteOp

-- `siteAction`.
site_action : Exec (Unit {0}) → Text → Uuid → Exec (Unit {0})
unfolding or_refuse request get_site
site_action action name id = do
  or_refuse 500 action
  ignore (request (audit name))
  ignore (get_site id)

unfoldable pub site_op : Settings → Site → SiteOp → Exec (Unit {0})
unfolding site_action start_site stop_site restart_site redeploy_site updated_site
    update_site_config redeploy_if get_site delete_site request add_domain
site_op cfg site start_it = site_action (start_site cfg site.id) (codes "site.start") site.id
site_op cfg site stop_it = site_action (stop_site cfg site.id) (codes "site.stop") site.id
site_op cfg site restart_it = site_action (restart_site cfg site.id) (codes "site.restart") site.id
site_op cfg site redeploy_it =
    site_action (redeploy_site cfg site.id) (codes "site.redeploy") site.id
site_op cfg site (update_it req) = do
  update_site_config (updated_site req site)
  redeploy_if cfg req.redeploy site.id
  updated ← get_site site.id
  pure tt
site_op cfg site (delete_it delete_files) = do
  delete_site cfg site.id delete_files
  ignore (request (audit (codes "site.delete")))
site_op cfg site (add_domain_to fqdn kind redirect_to) = do
  domain ← add_domain cfg site.id fqdn kind redirect_to
  pure tt

resolved : Settings → SiteOp → Site × Account → Exec (Unit {0})
unfolding site_op
resolved cfg op (site, acct) = site_op cfg site op

-- `resolveSite` and what follows it.
unfoldable pub handle_site : Settings → Identity → Uuid → SiteOp → Exec (Unit {0})
unfolding authorize_site resolved
handle_site cfg id site_id op = do found ← authorize_site id site_id; resolved cfg op found

unfoldable pub handle_delete_domain : Settings → Identity → Uuid → Exec (Unit {0})
unfolding get_domain authorize_site remove_domain
handle_delete_domain cfg id domain_id = do
  domain ← get_domain domain_id
  found ← authorize_site id domain.site_id
  remove_domain cfg domain_id
