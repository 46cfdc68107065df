-- ===== src/Store/Sites/Found.antt =====
-- What `GetSite` returns, and what it leaves alone.
use gocontrolpanel.Base.{◌≡◌, ◌∙◌, some, ok, find?}
use gocontrolpanel.Models.{Uuid, Site}
use gocontrolpanel.Panel.{World, query_one, remote}
use gocontrolpanel.Panel.Rules.{bind-eq-ok, then-eq-ok, remote_ok, query_one_ok, Leaves}
use gocontrolpanel.Store.Sites.{get_site, is_site}

pub get_site_ok :
    (site_id : Uuid) (w : World) {site : Site} {w' : World}
    → get_site site_id w ≡ (ok site, w')
    → (find? (is_site site_id) w.db.sites ≡ some site) × Leaves w w'
unfolding get_site
get_site_ok site_id w h =
    let (a, v, e, g) = bind-eq-ok (query_one (λ db. find? (is_site site_id) db.sites)) _ w h in
    let (u, e', g') = then-eq-ok remote _ v g in
    let (row, l) = query_one_ok _ w e in
    let l' = remote_ok v e' in
    (row ∙ cc, record { db = cc (l.db, l'.db); edge = cc (l.edge, l'.edge) })
