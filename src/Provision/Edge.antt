-- ===== src/Provision/Edge.antt =====
-- `SyncCaddy` of internal/provision/service.go: the routing table, grouped by site, becomes the
-- configuration that the edge loads. The mutex around it makes it one step.
use gocontrolpanel.Base.{
  Bool, true, false, not, ◌&&◌, Option, none, some, List, [], ◌∷◌, ◌++◌, ok, ◌==◌, if◌then◌else◌,
}
use gocontrolpanel.Base.Int.{pos}
use gocontrolpanel.Go.Strings.{Text, codes, is_empty, cut, trim_prefix, contains_byte}
use gocontrolpanel.Models.{Uuid, SiteStatus, running, SystemSettings}
use gocontrolpanel.Caddy.{Config, SiteRoute, BuildOptions}
use gocontrolpanel.Caddy.Build.{is_nil, build}
use gocontrolpanel.Panel.{Db, Exec, ◌>>=◌, ◌>>◌, remote}
use gocontrolpanel.Store.Accounts.{get_system_settings}
use gocontrolpanel.Store.Sites.{RouteRow, routing_rows, routing_table}

-- The part of `config.Config` that provisioning reads. `mail_hostname` is `none` where the service
-- has no mail manager.
pub record Settings : Type 0 where
  pub listen_addr : Text
  pub public_url : Text
  pub caddy_email : Text
  pub coraza_directives : Text
  pub mail_enabled : Bool
  pub mail_webmail_upstream : Text
  pub mail_hostname : Option Text
  pub sites_root : Text
  pub container_prefix : Text
  pub site_image_prefix : Text
  pub site_image_default : Text

abbrev pub is_running : SiteStatus → Bool
is_running running = true
is_running s = false

-- The map `bySite` with its `order`: the routes by site, in the order of first appearance.
unfoldable pub new_route : RouteRow → SiteRoute
new_route r = record {
  hosts = [];
  upstream = r.upstream;
  redirect_to = [];
  force_https = r.force_https;
  offline = not (is_running r.site_status);
}

-- A domain with a redirection is published by a route of its own.
unfoldable pub add_host : RouteRow → SiteRoute → SiteRoute
add_host r sr =
    if not (is_empty r.redirect_to) then sr else record sr { hosts = sr.hosts ++ r.fqdn ∷ [] }

unfoldable pub add_row : RouteRow → List (Uuid × SiteRoute) → List (Uuid × SiteRoute)
unfolding new_route add_host
add_row r [] = (r.site_id, add_host r (new_route r)) ∷ []
add_row r ((id, sr) ∷ rest) =
    let later = add_row r rest in
    if id == r.site_id then (id, add_host r sr) ∷ rest else (id, sr) ∷ later

unfoldable pub by_site : List (Uuid × SiteRoute) → List RouteRow → List (Uuid × SiteRoute)
unfolding add_row
by_site groups [] = groups
by_site groups (r ∷ rs) = by_site (add_row r groups) rs

unfoldable pub hosted : List (Uuid × SiteRoute) → List SiteRoute
unfolding is_nil
hosted [] = []
hosted ((id, sr) ∷ rest) = let later = hosted rest in if is_nil sr.hosts then later else sr ∷ later

unfoldable pub redirect_route : RouteRow → SiteRoute
redirect_route r = record {
  hosts = r.fqdn ∷ [];
  upstream = [];
  redirect_to = r.redirect_to;
  force_https = r.force_https;
  offline = false;
}

unfoldable pub redirects : List RouteRow → List SiteRoute
unfolding redirect_route
redirects [] = []
redirects (r ∷ rs) =
    let later = redirects rs in if is_empty r.redirect_to then later else redirect_route r ∷ later

unfoldable pub site_route_list : List RouteRow → List SiteRoute
unfolding by_site hosted redirects
site_route_list rows = hosted (by_site [] rows) ++ redirects rows

-- `PanelHost`: scheme, path and port are cut off.
unfoldable pub panel_host : Text → Text
unfolding cut trim_prefix
panel_host url =
    let u = (cut b'/' (trim_prefix (trim_prefix url (codes "https://")) (codes "http://"))).0 in
    (cut b':' u).0

unfoldable pub webmail_host : Text → Text
unfolding panel_host
webmail_host url = codes "webmail." ++ panel_host url

-- `portOf`: from the last colon on.
last_colon : Text → Option Text
unfolding contains_byte
last_colon [] = none
last_colon (c ∷ s) =
    let rest = last_colon s in
    if c == b':' && not (contains_byte b':' s) then some (c ∷ s) else rest

port_or_default : Option Text → Text
port_or_default none = codes ":8080"
port_or_default (some p) = p

unfoldable pub port_of : Text → Text
unfolding last_colon port_or_default
port_of addr = port_or_default (last_colon addr)

or_empty : Option Text → Text
or_empty none = []
or_empty (some t) = t

unfoldable pub build_options : Settings → SystemSettings → BuildOptions
unfolding panel_host webmail_host port_of or_empty
build_options cfg settings =
    let upstream = codes "gocp-panel" ++ port_of cfg.listen_addr in
    record {
      acme_email = cfg.caddy_email;
      on_demand_ask_url = codes "http://" ++ (upstream ++ codes "/api/v1/tls/authorize");
      log_level = [];
      listen = [];
      panel_host = panel_host cfg.public_url;
      panel_upstream = upstream;
      webmail_host = if cfg.mail_enabled then webmail_host cfg.public_url else [];
      webmail_upstream = if cfg.mail_enabled then cfg.mail_webmail_upstream else [];
      mail_hostname = if cfg.mail_enabled then or_empty cfg.mail_hostname else [];
      maintenance_message = [];
      waf_enabled = settings.waf_enabled;
      coraza_directives = cfg.coraza_directives;
      rate_limit_per_minute = pos settings.rate_limit_per_minute;
    }

-- What the edge should serve for the rows of the database.
unfoldable pub edge_config : Settings → Db → Config
edge_config cfg db = build (site_route_list (routing_rows db)) (build_options cfg db.settings)

-- `Client.Load`.
unfoldable pub load : Config → Exec (Unit {0})
unfolding remote
load config = do remote; λ w. (ok tt, record w { edge = some config })

unfoldable pub sync_caddy : Settings → Exec (Unit {0})
unfolding routing_table get_system_settings load
sync_caddy cfg = do
  rows ← routing_table
  settings ← get_system_settings
  load (build (site_route_list rows) (build_options cfg settings))
