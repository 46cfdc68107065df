-- ===== src/Tests/PanelTests.antt =====
-- Operations on accounts, sites and domains at concrete rows.
use gocontrolpanel.Base.{◌≡◌, refl, none, some, [], ok}
use gocontrolpanel.Go.Strings.{codes, text_eq, cut, trim_prefix}
use gocontrolpanel.Models.{Site, running, addon}
use gocontrolpanel.Caddy.{Config}
use gocontrolpanel.Caddy.Routes.{serve}
use gocontrolpanel.Panel.{World}
use gocontrolpanel.Provision.Edge.{sync_caddy, panel_host, webmail_host}
use gocontrolpanel.Provision.Sites.{
  CreateSiteInput, or_text, new_site, create_site_op, add_domain, restart_site, start_site,
}
use gocontrolpanel.Provision.Accounts.{suspend_account}
use gocontrolpanel.Provision.Restart.{restart_site_lem}
use gocontrolpanel.Store.Sites.{set_site, with_site_status}
use gocontrolpanel.Provision.Input.{to_lower, valid_site_name, valid_fqdn, normalize_domain}
use gocontrolpanel.Provision.Quota.{HasRoom, IsInside, add_domain-HasRoom, create_site_op-HasRoom}
use gocontrolpanel.Store.Accounts.{sites_of, domains_of}
use gocontrolpanel.Store.Sites.{is_site}
use gocontrolpanel.Base.{find?, length, true}
use gocontrolpanel.Go.Strings.{trim_space}
use gocontrolpanel.Provision.Synced.{IsSynced, start_it, run, run-IsSynced, add_domain-IsSynced}
use gocontrolpanel.Provision.Suspension.{BelongsTo, IsForeign, suspend_account-serve}
use gocontrolpanel.Tests.Matcher.{star_matcher, star_covers}
use gocontrolpanel.Tests.Fixtures.{cfg, calm, bens}

runs : Unit {0}
unfolding star_covers text_eq create_site_op new_site add_domain suspend_account restart_site
    start_site sync_caddy panel_host webmail_host cut trim_prefix
runs = tt

abbrev started : World
started = (run cfg (start_it 20) calm).1

starts : run cfg (start_it 20) calm ≡ (ok tt, started)
unfolding runs
starts = refl

run-IsSynced_example : IsSynced cfg started
run-IsSynced_example = run-IsSynced cfg (start_it 20) calm started starts

abbrev added : World
added = (add_domain cfg 20 (codes "c.io") addon [] calm).1

adds : add_domain cfg 20 (codes "c.io") addon [] calm ≡ (ok 100, added)
unfolding runs
adds = refl

add_domain-IsSynced_example : IsSynced cfg added
add_domain-IsSynced_example = add_domain-IsSynced cfg 20 (codes "c.io") addon [] calm added 100 adds

abbrev closed : World
closed = (suspend_account cfg 10 (codes "unpaid") calm).1

suspends : suspend_account cfg 10 (codes "unpaid") calm ≡ (ok tt, closed)
unfolding runs
suspends = refl

foreign : IsForeign star_matcher cfg (codes "b.io")
unfolding runs
foreign = record { not_panel = λ e. refl; not_webmail = λ e. refl }

bens_names : BelongsTo star_matcher (codes "b.io") 10 calm.db.sites calm.db.domains
bens_names = (λ same. (λ here. refl, tt), tt)

suspend_account-serve_example :
    (c : Config) × (closed.edge ≡ some c) × (serve star_matcher c.edge.routes (codes "b.io") ≡ none)
suspend_account-serve_example =
    suspend_account-serve star_matcher cfg 10 (codes "unpaid") (codes "b.io") calm closed suspends
      foreign bens_names

abbrev restarted : World
restarted = (restart_site cfg 20 calm).1

restarts : restart_site cfg 20 calm ≡ (ok tt, restarted)
unfolding runs
restarts = refl

restart_site_lem_example :
    (restarted.db ≡ set_site 20 (with_site_status running []) calm.db)
    × (restarted.edge ≡ calm.edge)
restart_site_lem_example = restart_site_lem cfg 20 calm restarts

add_domain-HasRoom_example :
    (valid_fqdn (normalize_domain (codes "c.io")) ≡ true)
    × ((site : Site) × (find? (is_site 20) calm.db.sites ≡ some site)
        × HasRoom calm.db site.account_id
            (λ plan. plan.max_domains)
            (λ a db. length (domains_of a db)))
add_domain-HasRoom_example = add_domain-HasRoom cfg 20 (codes "c.io") addon [] calm adds

abbrev shop : CreateSiteInput
shop = record {
  account_id = 10;
  name = codes "shop";
  php_version = [];
  domain = [];
  document_root = [];
  worker_script = [];
  worker_count = 0;
  env_vars = [];
}

abbrev opened : World
opened = (create_site_op cfg shop calm).1

abbrev new_shop : Site
new_shop = record (new_site cfg bens shop (codes "shop") (codes "public") (codes "8.4")) {
  id = 100;
  container_id = codes "gcp--ben-shop";
  upstream_host = codes "gcp--ben-shop:8080";
  status = running;
}

opens : create_site_op cfg shop calm ≡ (ok new_shop, opened)
unfolding runs
opens = refl

create_site_op-HasRoom_example :
    (valid_site_name (to_lower (trim_space (codes "shop"))) ≡ true)
    × IsInside (or_text [] (codes "public"))
    × HasRoom calm.db 10 (λ plan. plan.max_sites) (λ a db. length (sites_of a db))
create_site_op-HasRoom_example = create_site_op-HasRoom cfg shop calm opens
