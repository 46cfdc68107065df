-- ===== src/Store/Sites.antt =====
-- internal/store/sites.go: sites, domains and the routing table.
pub mod Found
pub mod Config
use gocontrolpanel.Base.{
  ℕ, Bool, true, false, not, ◌&&◌, ◌||◌, Option, none, some, List, [], ◌∷◌, ◌++◌, ok, ◌==◌,
  if◌then◌else◌, any, find?, keep, map_where,
}
use gocontrolpanel.Go.Strings.{Text, text_eq}
use gocontrolpanel.Go.Sort.{sort_by}
use gocontrolpanel.Models.{
  Uuid, Account, AccountStatus, active, Site, SiteStatus, running, stopped, Domain,
}
use gocontrolpanel.Panel.{
  Error, violation, Db, Exec, ◌>>=◌, ◌>>◌, remote, query, query_one, update, update_found, insert,
}
use gocontrolpanel.Store.Accounts.{is_account, owns_site, drop_domains_of}

abbrev pub is_site : Uuid → Site → Bool
is_site id s = s.id == id

abbrev pub site_exists : Uuid → Db → Bool
site_exists id db = any (is_site id) db.sites

-- The container's name is UNIQUE, the site's within its account; the account is a reference.
site_check : Site → Db → Option Error
site_check s db =
    violation
      (any
        (λ t.
          text_eq s.container_name t.container_name
          || (s.account_id == t.account_id && text_eq s.name t.name))
        db.sites)
      (any (is_account s.account_id) db.accounts)

unfoldable pub create_site : Site → Exec Uuid
unfolding insert site_check
create_site s = insert (site_check s) (λ id db. record db {
  sites =
      record s {
        id = id;
        container_id = [];
        upstream_host = [];
        last_error = [];
        net_rx_mb = 0;
        net_tx_mb = 0;
      }
      ∷ db.sites;
})

-- The row, then its domains in a second query. The callers modelled here read the row only.
unfoldable pub get_site : Uuid → Exec Site
unfolding query_one remote
get_site id = do site ← query_one (λ db. find? (is_site id) db.sites); remote; λ w. (ok site, w)

abbrev pub of_account : Option Uuid → Site → Bool
of_account none s = true
of_account (some id) s = owns_site id s

-- One more query for the domains of each row.
unfoldable pub list_domains_of : List Site → Exec (Unit {0})
unfolding remote
list_domains_of [] w = (ok tt, w)
list_domains_of (s ∷ ss) w = (do remote; list_domains_of ss) w

unfoldable pub list_sites : Option Uuid → Exec (List Site)
unfolding query list_domains_of
list_sites account_id = do
  out ← query (λ db. keep (of_account account_id) db.sites)
  list_domains_of out
  λ w. (ok out, w)

abbrev pub set_site : Uuid → (Site → Site) → Db → Db
set_site id f db = record db { sites = map_where (is_site id) f db.sites }

unfoldable pub update_site_runtime : Uuid → Text → Text → SiteStatus → Text → Exec (Unit {0})
unfolding update_found
update_site_runtime id container_id upstream status last_err = update_found (site_exists id) (
    set_site id (λ s. record s {
      container_id = container_id;
      upstream_host = upstream;
      status = status;
      last_error = last_err;
    }))

abbrev pub with_site_status : SiteStatus → Text → Site → Site
with_site_status status last_err s = record s { status = status; last_error = last_err }

unfoldable pub update_site_status : Uuid → SiteStatus → Text → Exec (Unit {0})
unfolding update_found
update_site_status id status last_err =
    update_found (site_exists id) (set_site id (with_site_status status last_err))

-- internal/store/quota.go: the last reading of a site's traffic, in bytes here.
baseline_of : Option Site → Option (ℕ × ℕ)
baseline_of none = none
baseline_of (some s) = some (s.net_rx_mb, s.net_tx_mb)

unfoldable pub get_site_net_baseline : Uuid → Exec (ℕ × ℕ)
unfolding query_one baseline_of
get_site_net_baseline id = query_one (λ db. baseline_of (find? (is_site id) db.sites))

unfoldable pub set_site_net_baseline : Uuid → ℕ → ℕ → Exec (Unit {0})
unfolding update
set_site_net_baseline id rx tx =
    update (set_site id (λ s. record s { net_rx_mb = rx; net_tx_mb = tx }))

unfoldable pub delete_site_row : Uuid → Exec (Unit {0})
unfolding update_found
delete_site_row id = update_found (site_exists id) (λ db. record db {
  sites = keep (λ s. not (is_site id s)) db.sites;
  domains = drop_domains_of (is_site id) db.sites db.domains;
})

domain_check : Domain → Db → Option Error
domain_check d db =
    violation (any (λ e. text_eq d.fqdn e.fqdn) db.domains) (any (is_site d.site_id) db.sites)

unfoldable pub create_domain : Domain → Exec Uuid
unfolding insert domain_check
create_domain d =
    insert (domain_check d) (λ id db. record db { domains = record d { id = id } ∷ db.domains })

unfoldable pub delete_domain : Uuid → Exec (Unit {0})
unfolding update_found
delete_domain id =
    update_found (λ db. any (λ d. d.id == id) db.domains)
      (λ db. record db { domains = keep (λ d. not (d.id == id)) db.domains })

-- `Route`: a row of the routing table.
pub record RouteRow : Type 0 where
  pub fqdn : Text
  pub upstream : Text
  pub redirect_to : Text
  pub tls_mode : Text
  pub force_https : Bool
  pub site_id : Uuid
  pub site_status : SiteStatus

abbrev pub is_routed : SiteStatus → Bool
is_routed running = true
is_routed stopped = true
is_routed s = false

abbrev pub is_active : AccountStatus → Bool
is_active active = true
is_active s = false

unfoldable pub row_of : Domain → Site → RouteRow
row_of d s = record {
  fqdn = d.fqdn;
  upstream = s.upstream_host;
  redirect_to = d.redirect_to;
  tls_mode = d.tls_mode;
  force_https = d.force_https;
  site_id = s.id;
  site_status = s.status;
}

-- The WHERE clause, at a row of the join of domains and sites.
unfoldable pub is_published : List Account → Domain → Site → Bool
is_published accounts d s =
    s.id == d.site_id
    && is_routed s.status
    && any (λ a. is_account s.account_id a && is_active a.status) accounts

unfoldable pub rows_of_domain : List Account → List Site → Domain → List RouteRow
unfolding is_published row_of
rows_of_domain accounts [] d = []
rows_of_domain accounts (s ∷ ss) d =
    let rest = rows_of_domain accounts ss d in
    if is_published accounts d s then row_of d s ∷ rest else rest

unfoldable pub join_rows : List Account → List Site → List Domain → List RouteRow
join_rows accounts sites [] = []
join_rows accounts sites (d ∷ ds) = rows_of_domain accounts sites d ++ join_rows accounts sites ds

unfoldable pub routing_rows : Db → List RouteRow
unfolding join_rows rows_of_domain
routing_rows db = sort_by (λ r. r.fqdn) (join_rows db.accounts db.sites db.domains)

unfoldable pub routing_table : Exec (List RouteRow)
unfolding query
routing_table = query routing_rows
