-- ===== src/Worker/Reconcile.antt =====
-- `reconcileLoop` of internal/worker/worker.go: one tick.
pub mod Settled
pub mod Repeated
pub mod Agrees
use gocontrolpanel.Base.{
  Bool, true, false, not, ◌||◌, Option, none, some, List, [], ◌∷◌, Result, ok, err, if◌then◌else◌,
}
use gocontrolpanel.Go.Strings.{Text, codes, text_eq}
use gocontrolpanel.Models.{Site, SiteStatus, provisioning, running, stopped, error, deleting}
use gocontrolpanel.Panel.{Error, World, Exec, ◌>>=◌, ◌>>◌, pure, attempt, ignore}
use gocontrolpanel.Store.Sites.{list_sites, update_site_status}
use gocontrolpanel.Provision.Edge.{Settings, sync_caddy}
use gocontrolpanel.Worker.{Engine, state}

abbrev pub is_left_alone : SiteStatus → Bool
is_left_alone provisioning = true
is_left_alone deleting = true
is_left_alone s = false

-- The state that the site should have; any other state of a container changes nothing.
unfoldable pub wanted : SiteStatus → Text → SiteStatus
unfolding text_eq
wanted status t =
    if text_eq t (codes "running")
    then running
    else if text_eq t (codes "exited") || text_eq t (codes "created") || text_eq t (codes "paused")
    then stopped
    else if text_eq t (codes "missing")
    then error
    else status

abbrev pub same_status : SiteStatus → SiteStatus → Bool
same_status provisioning provisioning = true
same_status running running = true
same_status stopped stopped = true
same_status error error = true
same_status deleting deleting = true
same_status s t = false

abbrev pub reconcile_message : SiteStatus → Text
reconcile_message error = codes "el contenedor no existe; usa 'redesplegar' para recrearlo"
reconcile_message s = []

-- Whether the row was changed; an error of the update is passed over.
bring_to : Site → SiteStatus → Exec Bool
unfolding update_site_status
bring_to s want =
    if same_status want s.status
    then pure false
    else (do ignore (update_site_status s.id want (reconcile_message want)); pure true)

bring_to_state : Site → Option Text → Exec Bool
unfolding bring_to wanted
bring_to_state s none = pure false
bring_to_state s (some t) = bring_to s (wanted s.status t)

unfoldable pub reconcile_site : Engine → Site → Exec Bool
unfolding bring_to_state state
reconcile_site engine s =
    if is_left_alone s.status then pure false else bring_to_state s (state engine s.container_name)

unfoldable pub reconcile_all : Engine → List Site → Exec Bool
unfolding reconcile_site
reconcile_all engine [] w = (ok false, w)
reconcile_all engine (s ∷ ss) w =
    (do changed ← reconcile_site engine s; later ← reconcile_all engine ss; pure (changed || later))
      w

sync_if : Settings → Bool → Exec (Unit {0})
unfolding sync_caddy
sync_if cfg true = ignore (sync_caddy cfg)
sync_if cfg false = pure tt

reconcile_listed : Settings → Engine → Result Error (List Site) → Exec (Unit {0})
unfolding reconcile_all sync_if
reconcile_listed cfg engine (err e) = pure tt
reconcile_listed cfg engine (ok sites) = do
  changed ← reconcile_all engine sites
  sync_if cfg changed

unfoldable pub reconcile : Settings → Engine → Exec (Unit {0})
unfolding list_sites reconcile_listed
reconcile cfg engine = do sites ← attempt (list_sites none); reconcile_listed cfg engine sites
