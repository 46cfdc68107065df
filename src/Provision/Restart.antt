-- ===== src/Provision/Restart.antt =====
-- What `RestartSite` does to the rows and to the edge.
use gocontrolpanel.Base.{◌≡◌, refl, sym, ap, ◌∙◌, [], Result, ok, err}
use gocontrolpanel.Models.{Uuid, running}
use gocontrolpanel.Panel.{Error, Call, World, Exec, attempt, remote, request, restart}
use gocontrolpanel.Panel.Rules.{
  bind-eq-ok, then-eq-ok, attempt-eq-ok, remote_ok, update_found_ok, Leaves,
}
use gocontrolpanel.Store.Sites.{
  get_site, site_exists, set_site, with_site_status, update_site_status,
}
use gocontrolpanel.Store.Sites.Found.{get_site_ok}
use gocontrolpanel.Provision.Edge.{Settings}
use gocontrolpanel.Provision.Sites.{mark_error, or_mark_error, restart_site}

request_ok : (c : Call) (w : World) {w' : World} → request c w ≡ (ok tt, w') → Leaves w w'
unfolding request
request_ok c w h =
    let (v, e, g) = then-eq-ok remote _ w h in
    let l = remote_ok w e in
    record { db = ap (λ p. p.1.db) (sym g) ∙ l.db; edge = ap (λ p. p.1.edge) (sym g) ∙ l.edge }

mark_error_ok :
    (id : Uuid) (r : Result Error (Unit {0})) (w : World) {w' : World}
    → mark_error id r w ≡ (ok tt, w')
    → (r ≡ ok tt) × (w ≡ w')
unfolding mark_error
mark_error_ok id (ok u) w h = (refl, cc)
mark_error_ok id (err e) w h = cc

or_mark_error_ok :
    (id : Uuid) (m : Exec (Unit {0})) (w : World) {w' : World}
    → or_mark_error id m w ≡ (ok tt, w')
    → m w ≡ (ok tt, w')
unfolding or_mark_error
or_mark_error_ok id m w h =
    let (r, v, e, g) = bind-eq-ok (attempt m) (mark_error id) w h in
    let (fine, same) = mark_error_ok id r v g in
    attempt-eq-ok m w e ∙ ap (λ x. (x, v)) fine ∙ ap (λ x. (ok tt, x)) same

-- When RestartSite returns without an error, the site with that identifier is marked running with
-- an empty error, no other row differs, and the edge keeps the configuration it had.
pub restart_site_lem :
    (cfg : Settings) (id : Uuid) (w : World) {w' : World}
    → restart_site cfg id w ≡ (ok tt, w')
    → (w'.db ≡ set_site id (with_site_status running []) w.db) × (w'.edge ≡ w.edge)
unfolding restart_site update_site_status
restart_site_lem cfg id w h =
    let (site, v, e, g) = bind-eq-ok (get_site id) _ w h in
    let (u, e', g') = then-eq-ok (or_mark_error id (request (restart site.container_name))) _ v g in
    let (row, l) = get_site_ok id w e in
    let l' =
      request_ok (restart site.container_name) v
        (or_mark_error_ok id (request (restart site.container_name)) v e') in
    let (there, db, edge) =
      update_found_ok (site_exists id) (set_site id (with_site_status running [])) u g' in
    (db ∙ ap (set_site id (with_site_status running [])) (l'.db ∙ l.db), edge ∙ l'.edge ∙ l.edge)
