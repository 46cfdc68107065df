-- ===== src/Worker/Reconcile/Agrees.antt =====
-- After a tick of `reconcileLoop` the rows agree with the containers and the edge with the rows.
use gocontrolpanel.Base.{some, map, any, if◌then◌else◌}
use gocontrolpanel.Panel.{World}
use gocontrolpanel.Provision.Edge.{Settings, edge_config}
use gocontrolpanel.Worker.{Engine}
use gocontrolpanel.Worker.Reconcile.Settled.{is_moved, settle, with_sites}

-- The world after a tick.
abbrev ticked : Settings → Engine → World → World
ticked cfg engine w =
    let v = with_sites w (map (settle engine) w.db.sites) in
    if any (is_moved engine) w.db.sites then record v { edge = some (edge_config cfg v.db) } else v
