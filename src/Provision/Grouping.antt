-- ===== src/Provision/Grouping.antt =====
-- The routes that `SyncCaddy` makes of the routing table: they list the hosts of its rows, and no
-- other.
use gocontrolpanel.Base.{
  ◌≡◌, refl, ◌∙◌, Bool, true, false, not, ◌&&◌, ◌||◌, List, [], ◌∷◌, ◌++◌, arith, any,
}
use gocontrolpanel.Go.Strings.{Text, text_eq, is_empty}
use gocontrolpanel.Models.{Uuid}
use gocontrolpanel.Caddy.{SiteRoute}
use gocontrolpanel.Caddy.Build.{is_nil}
use gocontrolpanel.Caddy.Routes.{lists}
use gocontrolpanel.Store.Sites.{RouteRow}
use gocontrolpanel.Provision.Edge.{
  new_route, add_host, add_row, by_site, hosted, redirect_route, redirects, site_route_list,
}

abbrev pub has_fqdn : Text → RouteRow → Bool
has_fqdn h r = text_eq h r.fqdn

pub any-append {ℓ} :
    {A : Type ℓ} (p : A → Bool) (xs ys : List A) → any p (xs ++ ys) ≡ (any p xs || any p ys)
any-append p [] ys = refl
any-append p (x ∷ xs) ys = ground (arith, any-append p xs ys)

abbrev pub is_plain : RouteRow → Bool
is_plain r = is_empty r.redirect_to

-- What holds of a host in place of a name: any test of it.
module _ (p : Text → Bool) where
  abbrev on_route : SiteRoute → Bool
  on_route sr = any p sr.hosts

  abbrev in_group : Uuid × SiteRoute → Bool
  in_group g = on_route g.1

  on_route-add_host :
      (r : RouteRow) (sr : SiteRoute)
      → on_route (add_host r sr) ≡ (on_route sr || (is_empty r.redirect_to && p r.fqdn))
  unfolding add_host
  on_route-add_host r sr = ground (arith, any-append p sr.hosts (r.fqdn ∷ []))

  on_route-new_route : (r : RouteRow) → on_route (new_route r) ≡ false
  unfolding new_route
  on_route-new_route r = refl

  any-add_row :
      (r : RouteRow) (groups : List (Uuid × SiteRoute))
      → any in_group (add_row r groups)
        ≡ (any in_group groups || (is_empty r.redirect_to && p r.fqdn))
  unfolding add_row
  any-add_row r [] = ground (arith, on_route-add_host r (new_route r), on_route-new_route r)
  any-add_row r ((id, sr) ∷ rest) = ground (arith, any-add_row r rest, on_route-add_host r sr)

  any-by_site :
      (groups : List (Uuid × SiteRoute)) (rows : List RouteRow)
      → any in_group (by_site groups rows)
        ≡ (any in_group groups || any (λ r. is_plain r && p r.fqdn) rows)
  unfolding by_site
  any-by_site groups [] = ground arith
  any-by_site groups (r ∷ rows) =
      ground (arith, any-by_site (add_row r groups) rows, any-add_row r groups)

  any_nil : (hs : List Text) → is_nil hs ≡ true → any p hs ≡ false
  unfolding is_nil
  any_nil [] e = refl
  any_nil (x ∷ xs) e = cc

  any-hosted :
      (groups : List (Uuid × SiteRoute)) → any on_route (hosted groups) ≡ any in_group groups
  unfolding hosted
  any-hosted [] = refl
  any-hosted ((id, sr) ∷ rest) = ground (arith, any-hosted rest, any_nil sr.hosts)

  any-redirects :
      (rows : List RouteRow)
      → any on_route (redirects rows) ≡ any (λ r. not (is_plain r) && p r.fqdn) rows
  unfolding redirects redirect_route
  any-redirects [] = refl
  any-redirects (r ∷ rows) = ground (arith, any-redirects rows)

  any_split :
      (rows : List RouteRow)
      → (any (λ r. is_plain r && p r.fqdn) rows || any (λ r. not (is_plain r) && p r.fqdn) rows)
        ≡ any (λ r. p r.fqdn) rows
  any_split [] = refl
  any_split (r ∷ rows) = ground (arith, any_split rows)

  -- The names of the routes are those of the rows.
  pub any_name-site_route_list :
      (rows : List RouteRow) → any on_route (site_route_list rows) ≡ any (λ r. p r.fqdn) rows
  unfolding site_route_list
  any_name-site_route_list rows =
      any-append on_route (hosted (by_site [] rows)) (redirects rows)
      ∙ ground (
        arith,
        any-hosted (by_site [] rows),
        any-by_site [] rows,
        any-redirects rows,
        any_split rows,
      )

-- The routes that SyncCaddy builds from the routing table list a host exactly when some row of the
-- table has it.
pub any-site_route_list :
    (h : Text) (rows : List RouteRow) → any (lists h) (site_route_list rows) ≡ any (has_fqdn h) rows
any-site_route_list h rows = any_name-site_route_list (text_eq h) rows
