-- ===== src/Store/Sites/Config.antt =====
-- internal/store/sites.go: the queries of the handlers of sites.
use gocontrolpanel.Base.{◌==◌, ◌&&◌, List, any, find?, keep, ok}
use gocontrolpanel.Models.{Uuid, Site, Domain}
use gocontrolpanel.Panel.{Exec, ◌>>=◌, ◌>>◌, query, query_one, update_found}
use gocontrolpanel.Store.Accounts.{owns_site}
use gocontrolpanel.Store.Sites.{site_exists, set_site, list_domains_of}

-- `php_ini_overrides` is not among the columns that are modelled.
abbrev pub with_config : Site → Site → Site
with_config s t = record t {
  php_version = s.php_version;
  document_root = s.document_root;
  worker_script = s.worker_script;
  worker_count = s.worker_count;
  env_vars = s.env_vars;
}

unfoldable pub update_site_config : Site → Exec (Unit {0})
unfolding update_found
update_site_config s = update_found (site_exists s.id) (set_site s.id (with_config s))

unfoldable pub get_domain : Uuid → Exec Domain
unfolding query_one
get_domain id = query_one (λ db. find? (λ d. d.id == id) db.domains)

unfoldable pub list_sites_for_owner : Uuid → Exec (List Site)
unfolding query list_domains_of
list_sites_for_owner owner_id = do
  out ←
      query (λ db.
        keep (λ s. any (λ a. a.owner_id == owner_id && owns_site a.id s) db.accounts) db.sites)
  list_domains_of out
  λ w. (ok out, w)
