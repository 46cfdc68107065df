-- ===== src/Provision/Sites.antt =====
-- The operations on sites and domains of internal/provision/service.go.
use gocontrolpanel.Base.{
  ℕ, Bool, true, false, not, ◌&&◌, ◌||◌, List, [], ◌∷◌, ◌++◌, Result, ok, err, leb, if◌then◌else◌,
}
use gocontrolpanel.Go.Strings.{Text, codes, is_empty, trim_space, has_prefix}
use gocontrolpanel.Go.Filepath.{join_path}
use gocontrolpanel.Models.{
  Uuid, Plan, Account, Site, provisioning, running, stopped, error, deleting, Domain, DomainKind,
  primary,
}
use gocontrolpanel.Panel.{
  Error, validation, start, stop, restart, remove_container, wait_healthy, create_container,
  SiteSpec, make_dirs, remove_all, Exec, ◌>>=◌, ◌>>◌, pure, fail, attempt, ignore, remote, request,
}
use gocontrolpanel.Store.Accounts.{
  get_plan, get_account, count_account_sites, count_account_domains,
}
use gocontrolpanel.Store.Sites.{
  create_site, get_site, update_site_runtime, update_site_status, delete_site_row, create_domain,
  delete_domain,
}
use gocontrolpanel.Provision.Edge.{Settings, sync_caddy}
use gocontrolpanel.Provision.Input.{
  to_lower, normalize_domain, valid_site_name, valid_fqdn, contains_dots, starts_at_root,
  contains_text,
}

-- What `err.Error()` puts in `last_error`; its wording is not modelled.
abbrev pub message : Error → Text
message e = codes "error"

unfoldable pub image_for : Settings → Text → Text
image_for cfg php =
    if is_empty cfg.site_image_prefix
    then cfg.site_image_default
    else cfg.site_image_prefix ++ (codes ":php" ++ php)

-- `CreateOrReplace` of internal/dockerx/manager.go: the old container goes, the image is pulled where
-- it is missing, the new one is made. The identifier that the engine gives is the name's here, since
-- the engine takes either.
create_or_replace : SiteSpec → Exec Text
unfolding request remote
create_or_replace spec = do
  request (remove_container spec.name)
  remote
  request (create_container spec)
  pure spec.name

unfoldable pub site_spec : Settings → Site → Account → Plan → SiteSpec
unfolding image_for
site_spec cfg site acct plan = record {
  name = site.container_name;
  image = image_for cfg site.php_version;
  site_id = site.id;
  account_user = acct.system_user;
  host_path = site.host_path;
  document_root = site.document_root;
  env = site.env_vars;
  worker_script = site.worker_script;
  worker_count = site.worker_count;
  cpu_limit = plan.cpu_limit;
  memory_limit_mb = plan.memory_limit_mb;
  read_only_root = true;
}

unfoldable pub deploy_site : Settings → Site → Account → Plan → Exec (Unit {0})
unfolding create_or_replace site_spec request update_site_runtime
deploy_site cfg site acct plan = do
  container_id ← create_or_replace (site_spec cfg site acct plan)
  request (start container_id)
  request (wait_healthy site.container_name)
  update_site_runtime site.id container_id (site.container_name ++ codes ":8080") running []

-- The error of a step is recorded on the site and returned.
unfoldable pub mark_error : Uuid → Result Error (Unit {0}) → Exec (Unit {0})
unfolding update_site_status
mark_error id (ok u) = pure tt
mark_error id (err e) = do ignore (update_site_status id error (message e)); fail e

unfoldable pub or_mark_error : Uuid → Exec (Unit {0}) → Exec (Unit {0})
unfolding mark_error
or_mark_error id m = do r ← attempt m; mark_error id r

unfoldable pub redeploy_site : Settings → Uuid → Exec (Unit {0})
unfolding get_site get_account get_plan or_mark_error deploy_site
redeploy_site cfg id = do
  site ← get_site id
  acct ← get_account site.account_id
  plan ← get_plan acct.plan_id
  or_mark_error id (deploy_site cfg site acct plan)
  sync_caddy cfg

unfoldable pub start_site : Settings → Uuid → Exec (Unit {0})
unfolding get_site or_mark_error request update_site_status
start_site cfg id = do
  site ← get_site id
  or_mark_error id (request (start site.container_name))
  update_site_status id running []
  sync_caddy cfg

unfoldable pub stop_site : Settings → Uuid → Exec (Unit {0})
unfolding get_site request update_site_status
stop_site cfg id = do
  site ← get_site id
  request (stop site.container_name)
  update_site_status id stopped []
  sync_caddy cfg

unfoldable pub restart_site : Settings → Uuid → Exec (Unit {0})
unfolding get_site or_mark_error request update_site_status
restart_site cfg id = do
  site ← get_site id
  or_mark_error id (request (restart site.container_name))
  update_site_status id running []

remove_files : Bool → Text → Exec (Unit {0})
unfolding request
remove_files true path = ignore (request (remove_all path))
remove_files false path = pure tt

unfoldable pub delete_site : Settings → Uuid → Bool → Exec (Unit {0})
unfolding get_site request update_site_status delete_site_row remove_files has_prefix
delete_site cfg id delete_files = do
  site ← get_site id
  ignore (update_site_status id deleting [])
  request (remove_container site.container_name)
  delete_site_row id
  remove_files (delete_files && has_prefix site.host_path cfg.sites_root) site.host_path
  sync_caddy cfg

pub record CreateSiteInput : Type 0 where
  pub account_id : Uuid
  pub name : Text
  pub php_version : Text
  pub domain : Text
  pub document_root : Text
  pub worker_script : Text
  pub worker_count : ℕ
  pub env_vars : List (Text × Text)

abbrev pub guard : Bool → Error → Exec (Unit {0})
guard true e w = (ok tt, w)
guard false e w = (err e, w)

abbrev pub or_text : Text → Text → Text
or_text [] default = default
or_text (c ∷ s) default = c ∷ s

unfoldable pub new_site : Settings → Account → CreateSiteInput → Text → Text → Text → Site
unfolding join_path
new_site cfg acct in' name docroot php = record {
  id = 0;
  account_id = acct.id;
  name = name;
  php_version = php;
  document_root = docroot;
  host_path =
      join_path (join_path (join_path cfg.sites_root acct.system_user) (codes "sites")) name;
  container_id = [];
  container_name = cfg.container_prefix ++ (b'-' ∷ (acct.system_user ++ b'-' ∷ name));
  upstream_host = [];
  worker_script = in'.worker_script;
  worker_count = in'.worker_count;
  env_vars = in'.env_vars;
  status = provisioning;
  last_error = [];
  net_rx_mb = 0;
  net_tx_mb = 0;
}

-- `prepareSiteDirs`: the directories, then the default page. Whether a page is there already is not
-- in the state: the look at it and the write are one outside call, which fails where the write does.
prepare_site_dirs : Text → Text → Exec (Unit {0})
unfolding request remote join_path
prepare_site_dirs host_path docroot = do request (make_dirs (join_path host_path docroot)); remote

unfoldable pub new_domain : Uuid → Text → DomainKind → Text → Domain
new_domain site_id fqdn kind redirect_to = record {
  id = 0;
  site_id = site_id;
  fqdn = fqdn;
  kind = kind;
  redirect_to = redirect_to;
  tls_mode = codes "auto";
  force_https = true;
}

-- The primary domain, where one is given.
primary_domain : Uuid → Text → Exec (Unit {0})
unfolding create_domain new_domain normalize_domain valid_fqdn
primary_domain site_id [] = pure tt
primary_domain site_id (c ∷ s) = do
  guard (valid_fqdn (normalize_domain (c ∷ s))) (validation (codes "domain"))
  new_id ← create_domain (new_domain site_id (normalize_domain (c ∷ s)) primary [])
  pure tt

-- The checks before the row is written: the plan's number of sites among them.
unfoldable pub check_site : Settings → CreateSiteInput → Exec (Account × Plan × Site)
unfolding get_account get_plan count_account_sites new_site to_lower trim_space valid_site_name
    contains_dots starts_at_root contains_text
check_site cfg in' = do
  let name = to_lower (trim_space in'.name)
  let docroot = or_text in'.document_root (codes "public")
  guard (valid_site_name name) (validation (codes "name"))
  guard (not (contains_dots docroot || starts_at_root docroot)) (validation (codes "document_root"))
  acct ← get_account in'.account_id
  plan ← get_plan acct.plan_id
  count ← count_account_sites acct.id
  guard (not (leb plan.max_sites count)) (validation (codes "plan"))
  let php = or_text in'.php_version (codes "8.4")
  guard (contains_text plan.php_versions php) (validation (codes "php_version"))
  pure (acct, plan, new_site cfg acct in' name docroot php)

-- From the row on: an error of the directories or of the deployment is recorded on the site, one
-- of its domain is not.
unfoldable pub provision_site : Settings → Text → Account × Plan × Site → Exec Site
unfolding create_site prepare_site_dirs primary_domain or_mark_error deploy_site get_site
provision_site cfg domain (acct, plan, draft) = do
  id ← create_site draft
  let site = record draft { id = id }
  or_mark_error id (prepare_site_dirs site.host_path site.document_root)
  primary_domain id domain
  or_mark_error id (deploy_site cfg site acct plan)
  ignore (sync_caddy cfg)
  get_site id

unfoldable pub create_site_op : Settings → CreateSiteInput → Exec Site
unfolding check_site provision_site
create_site_op cfg in' = do draft ← check_site cfg in'; provision_site cfg in'.domain draft

-- The check of the plan's number of domains, and the row. `kind` is decoded, and `addon` where none
-- is given.
unfoldable pub add_domain : Settings → Uuid → Text → DomainKind → Text → Exec Uuid
unfolding get_site get_account get_plan count_account_domains create_domain new_domain
    normalize_domain valid_fqdn
add_domain cfg site_id raw kind redirect_to = do
  let fqdn = normalize_domain raw
  guard (valid_fqdn fqdn) (validation (codes "fqdn"))
  site ← get_site site_id
  acct ← get_account site.account_id
  plan ← get_plan acct.plan_id
  count ← count_account_domains acct.id
  guard (not (leb plan.max_domains count)) (validation (codes "plan"))
  id ← create_domain (new_domain site_id fqdn kind redirect_to)
  sync_caddy cfg
  pure id

unfoldable pub remove_domain : Settings → Uuid → Exec (Unit {0})
unfolding delete_domain
remove_domain cfg id = do delete_domain id; sync_caddy cfg
