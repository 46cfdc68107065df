-- ===== src/Provision/Calm.antt =====
-- Lists of sites and the edge's update where no call fails.
use gocontrolpanel.Base.{◌≡◌, refl, ap, ◌∙◌, true, none, some, List, [], ◌∷◌, keep, ok}
use gocontrolpanel.Panel.{World, after}
use gocontrolpanel.Panel.Rules.{remote_calm}
use gocontrolpanel.Panel.Calm.{after-ok, query_calm}
use gocontrolpanel.Models.{Site}
use gocontrolpanel.Store.Accounts.{get_system_settings}
use gocontrolpanel.Store.Sites.{list_sites, list_domains_of, of_account, routing_table}
use gocontrolpanel.Provision.Edge.{Settings, edge_config, sync_caddy, load}

list_domains_calm :
    (sites : List Site) (w : World) → w.faults ≡ [] → list_domains_of sites w ≡ (ok tt, w)
unfolding list_domains_of
list_domains_calm [] w calm = refl
list_domains_calm (s ∷ ss) w calm =
    ap (λ p. after p (λ u. list_domains_of ss)) (remote_calm w calm) ∙ list_domains_calm ss w calm

keep-all : {A : Type 0} (l : List A) → keep (λ a. true) l ≡ l
keep-all [] = refl
keep-all (a ∷ l) = ap (λ x. a ∷ x) (keep-all l)

pub list_sites_calm : (w : World) → w.faults ≡ [] → list_sites none w ≡ (ok w.db.sites, w)
unfolding list_sites
list_sites_calm w calm = after-ok _ (query_calm _ w calm) (
    after-ok (λ u v. (ok (keep (of_account none) w.db.sites), v))
      (list_domains_calm (keep (of_account none) w.db.sites) w calm)
      (ap (λ l. (ok l, w)) (keep-all w.db.sites)))

pub sync_caddy_calm :
    (cfg : Settings) (w : World)
    → w.faults ≡ []
    → sync_caddy cfg w ≡ (ok tt, record w { edge = some (edge_config cfg w.db) })
unfolding sync_caddy routing_table get_system_settings load edge_config
sync_caddy_calm cfg w calm =
    after-ok _ (query_calm _ w calm)
      (after-ok _ (query_calm _ w calm) (after-ok _ (remote_calm w calm) refl))
