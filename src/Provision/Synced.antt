-- ===== src/Provision/Synced.antt =====
-- After which operations the edge serves what the database says.
use gocontrolpanel.Base.{◌≡◌, sym, ap, ap₂, subst, ◌∙◌, Bool, some, List, ok}
use gocontrolpanel.Go.Strings.{Text}
use gocontrolpanel.Models.{Uuid, DomainKind, SystemSettings}
use gocontrolpanel.Caddy.{Config}
use gocontrolpanel.Caddy.Build.{build}
use gocontrolpanel.Panel.{Db, World, Exec, ◌>>=◌, ◌>>◌, remote}
use gocontrolpanel.Panel.Rules.{bind-eq-ok, then-eq-ok, Leaves, remote_ok, query_ok}
use gocontrolpanel.Store.Accounts.{get_system_settings}
use gocontrolpanel.Store.Sites.{RouteRow, routing_table, routing_rows}
use gocontrolpanel.Provision.Edge.{
  Settings, edge_config, load, sync_caddy, site_route_list, build_options,
}
use gocontrolpanel.Provision.Sites.{
  redeploy_site, start_site, stop_site, delete_site, add_domain, remove_domain,
}
use gocontrolpanel.Provision.Accounts.{suspend_account, unsuspend_account, terminate_account}

-- The edge has the configuration that the rows ask for.
pub record IsSynced (cfg : Settings) (w : World) : Type 0 where
  pub loaded : w.edge ≡ some (edge_config cfg w.db)

load_ok :
    (c : Config) (w : World) {w' : World}
    → load c w ≡ (ok tt, w')
    → (w'.db ≡ w.db) × (w'.edge ≡ some c)
unfolding load
load_ok c w h =
    let (v, e, g) = then-eq-ok remote (λ v. (ok tt, record v { edge = some c })) w h in
    (ap (λ p. p.1.db) (sym g) ∙ (remote_ok w e).db, ap (λ p. p.1.edge) (sym g))

routing_table_ok :
    (w : World) {rows : List RouteRow} {w' : World}
    → routing_table w ≡ (ok rows, w')
    → (rows ≡ routing_rows w.db) × Leaves w w'
unfolding routing_table
routing_table_ok w h = query_ok routing_rows w h

settings_ok :
    (w : World) {s : SystemSettings} {w' : World}
    → get_system_settings w ≡ (ok s, w')
    → (s ≡ w.db.settings) × Leaves w w'
unfolding get_system_settings
settings_ok w h = query_ok (λ db. db.settings) w h

-- A synchronisation that returns leaves the edge in step with the rows, which it does not change.
pub sync_caddy_ok :
    (cfg : Settings) (w : World) {w' : World}
    → sync_caddy cfg w ≡ (ok tt, w')
    → IsSynced cfg w' × (w'.db ≡ w.db)
unfolding sync_caddy edge_config
sync_caddy_ok cfg w {w'} h =
    let (rows, v, e, g) = bind-eq-ok routing_table _ w h in
    let (s, u, e', g') = bind-eq-ok get_system_settings _ v g in
    let (same_rows, l) = routing_table_ok w e in
    let (same_settings, l') = settings_ok v e' in
    let (same_db, loaded) = load_ok _ u g' in
    let db_u : u.db ≡ w.db = l'.db ∙ l.db in
    (
      record {
        loaded =
            loaded
            ∙ ap₂ (λ r o. some (build (site_route_list r) (build_options cfg o)))
                (same_rows ∙ ap routing_rows (sym (same_db ∙ db_u)))
                (same_settings ∙ ap (λ (d : Db). d.settings) (l.db ∙ sym (same_db ∙ db_u)));
      },
      same_db ∙ db_u,
    )

-- Where the action returns, the edge is in step.
pub record Publishes (cfg : Settings) {A : Type 0} (m : Exec A) : Type 0 where
  pub at : (w w' : World) (a : A) → m w ≡ (ok a, w') → IsSynced cfg w'

module _ (cfg : Settings) where
  Publishes-sync : Publishes cfg (sync_caddy cfg)
  Publishes-sync = record { at = λ w w' u h. (sync_caddy_ok cfg w h).0 }

  Publishes-bind :
      {A B : Type 0} (m : Exec A) (f : A → Exec B)
      → ((a : A) → Publishes cfg (f a))
      → Publishes cfg (m >>= f)
  Publishes-bind m f p = record {
    at = λ w w' b h. let (a, v, e, g) = bind-eq-ok m f w h in (p a).at v w' b g;
  }

  Publishes-then :
      {B : Type 0} (m : Exec (Unit {0})) (k : Exec B) → Publishes cfg k → Publishes cfg (m >> k)
  Publishes-then m k p = record {
    at = λ w w' b h. let (v, e, g) = then-eq-ok m k w h in p.at v w' b g;
  }

  Publishes-pure :
      {A : Type 0} (m : Exec (Unit {0})) (a : A)
      → Publishes cfg m
      → Publishes cfg (m >> λ w. (ok a, w))
  Publishes-pure m a p = record {
    at = λ w w' b h.
        let (v, e, g) = then-eq-ok m (λ u. (ok a, u)) w h in
        record {
          loaded =
              subst (λ u. u.edge ≡ some (edge_config cfg u.db)) (ap (λ q. q.1) g)
                (p.at w v tt e).loaded;
        };
  }

ruleset publishing = (Publishes-sync, Publishes-bind, Publishes-then, Publishes-pure)

-- The operations that end by publishing.
pub data SyncOp : Type 0 where
  redeploy start_it stop_it : Uuid → SyncOp
  delete_it : Uuid → Bool → SyncOp
  remove_domain_of : Uuid → SyncOp
  suspend : Uuid → Text → SyncOp
  unsuspend : Uuid → SyncOp
  terminate : Uuid → Bool → SyncOp

abbrev pub run : Settings → SyncOp → Exec (Unit {0})
run cfg (redeploy id) = redeploy_site cfg id
run cfg (start_it id) = start_site cfg id
run cfg (stop_it id) = stop_site cfg id
run cfg (delete_it id files) = delete_site cfg id files
run cfg (remove_domain_of id) = remove_domain cfg id
run cfg (suspend id reason) = suspend_account cfg id reason
run cfg (unsuspend id) = unsuspend_account cfg id
run cfg (terminate id files) = terminate_account cfg id files

run-Publishes : (cfg : Settings) (op : SyncOp) → Publishes cfg (run cfg op)
unfolding redeploy_site start_site stop_site delete_site remove_domain suspend_account
    unsuspend_account terminate_account
run-Publishes cfg (redeploy id) = search publishing depth 8
run-Publishes cfg _ = search publishing depth 8

-- When redeploying, starting, stopping or deleting a site, removing a domain, or suspending,
-- unsuspending or terminating an account returns without an error, the edge has exactly the
-- configuration that the rows ask for, whatever failed on the way and was passed over.
pub run-IsSynced :
    (cfg : Settings) (op : SyncOp) (w w' : World) → run cfg op w ≡ (ok tt, w') → IsSynced cfg w'
run-IsSynced cfg op w w' h = (run-Publishes cfg op).at w w' tt h

-- When AddDomain returns, the edge has exactly the configuration that the rows ask for.
pub add_domain-IsSynced :
    (cfg : Settings) (site : Uuid) (raw : Text) (kind : DomainKind) (redirect_to : Text)
    (w w' : World) (id : Uuid)
    → add_domain cfg site raw kind redirect_to w ≡ (ok id, w')
    → IsSynced cfg w'
unfolding add_domain
add_domain-IsSynced cfg site raw kind redirect_to w w' id h = published.at w w' id h
  where
    published : Publishes cfg (add_domain cfg site raw kind redirect_to)
    published = search publishing depth 12
