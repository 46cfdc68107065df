-- ===== src/Provision/Accounts.antt =====
-- The operations on accounts of internal/provision/service.go.
use gocontrolpanel.Base.{Bool, true, false, some, List, [], ◌∷◌, Result, ok, err}
use gocontrolpanel.Go.Strings.{Text, codes}
use gocontrolpanel.Go.Filepath.{join_path}
use gocontrolpanel.Models.{Uuid, active, suspended, Site, running, stopped, error}
use gocontrolpanel.Panel.{
  Error, start, stop, remove_container, remove_all, Exec, ◌>>=◌, ◌>>◌, pure, attempt, ignore,
  request,
}
use gocontrolpanel.Store.Accounts.{get_account, update_account_status, delete_account}
use gocontrolpanel.Store.Sites.{list_sites, update_site_status}
use gocontrolpanel.Provision.Edge.{Settings, sync_caddy}
use gocontrolpanel.Provision.Sites.{message}

-- The loop of `SuspendAccount`: a container that cannot be stopped is passed over.
unfoldable pub stop_all : List Site → Exec (Unit {0})
unfolding request update_site_status
stop_all [] w = (ok tt, w)
stop_all (s ∷ ss) w =
    (do
      ignore (request (stop s.container_name))
      ignore (update_site_status s.id stopped (codes "cuenta suspendida"))
      stop_all ss)
      w

unfoldable pub suspend_account : Settings → Uuid → Text → Exec (Unit {0})
unfolding update_account_status list_sites stop_all
suspend_account cfg id reason = do
  update_account_status id suspended reason
  sites ← list_sites (some id)
  stop_all sites
  sync_caddy cfg

-- One round of the loop of `UnsuspendAccount`.
unfoldable pub started : Uuid → Result Error (Unit {0}) → Exec (Unit {0})
unfolding update_site_status
started id (ok u) = ignore (update_site_status id running [])
started id (err e) = ignore (update_site_status id error (message e))

unfoldable pub start_all : List Site → Exec (Unit {0})
unfolding request started
start_all [] w = (ok tt, w)
start_all (s ∷ ss) w =
    (do r ← attempt (request (start s.container_name)); started s.id r; start_all ss) w

unfoldable pub unsuspend_account : Settings → Uuid → Exec (Unit {0})
unfolding update_account_status list_sites start_all
unsuspend_account cfg id = do
  update_account_status id active []
  sites ← list_sites (some id)
  start_all sites
  sync_caddy cfg

remove_containers : List Site → Exec (Unit {0})
unfolding request
remove_containers [] w = (ok tt, w)
remove_containers (s ∷ ss) w =
    (do ignore (request (remove_container s.container_name)); remove_containers ss) w

remove_account_files : Settings → Bool → Text → Exec (Unit {0})
unfolding request join_path
remove_account_files cfg true name = ignore (request (remove_all (join_path cfg.sites_root name)))
remove_account_files cfg false name = pure tt

-- Without the MySQL and SFTP managers, which the service may lack (`nil`).
unfoldable pub terminate_account : Settings → Uuid → Bool → Exec (Unit {0})
unfolding get_account list_sites remove_containers delete_account remove_account_files
terminate_account cfg id delete_files = do
  acct ← get_account id
  sites ← list_sites (some id)
  remove_containers sites
  delete_account id
  remove_account_files cfg delete_files acct.system_user
  sync_caddy cfg
