-- ===== src/Caddy/Build.antt =====
-- `Build` and `dedupe` of internal/caddyapi/config.go.
use gocontrolpanel.Base.{
  Bool, true, false, not, ◌&&◌, ◌||◌, Option, none, some, List, [], ◌∷◌, ◌++◌, if◌then◌else◌, any,
}
use gocontrolpanel.Go.Strings.{Text, codes, text_eq, is_empty, join}
use gocontrolpanel.Go.Sort.{sort_by}
use gocontrolpanel.Caddy.{
  Handler, Route, TlsPolicy, TlsApp, Config, SiteRoute, BuildOptions, reverse_proxy_handler,
  waf_handler, rate_limit_handler, redirect_handler, static_handler,
}

-- The three defaults at the head of `Build`.
default_text : Text → Text → Text
default_text [] default = default
default_text (c ∷ s) default = c ∷ s

default_list : List Text → List Text → List Text
default_list [] default = default
default_list (x ∷ xs) default = x ∷ xs

unfoldable pub with_defaults : BuildOptions → BuildOptions
unfolding default_text default_list
with_defaults opt = record opt {
  listen = default_list opt.listen (codes ":80" ∷ codes ":443" ∷ []);
  maintenance_message =
      default_text opt.maintenance_message (codes "Este sitio está temporalmente detenido.");
  log_level = default_text opt.log_level (codes "INFO");
}

unfoldable pub host_route : List Text → List Handler → Route
host_route hosts handlers = record {
  match = record { host = hosts; path = [] } ∷ [];
  handle = handlers;
  terminal = true;
}

-- The fixed routes of the panel and of the webmail.
unfoldable pub fixed_route : Text → Text → List Route
unfolding host_route
fixed_route host upstream =
    if not (is_empty host) && not (is_empty upstream)
    then host_route (host ∷ []) (reverse_proxy_handler upstream true ∷ []) ∷ []
    else []

unfoldable pub fixed_routes : BuildOptions → List Route
unfolding fixed_route
fixed_routes opt =
    fixed_route opt.panel_host opt.panel_upstream
    ++ fixed_route opt.webmail_host opt.webmail_upstream

-- The handlers of a site: the limits first, then the `switch`.
guard_handlers : BuildOptions → List Handler
guard_handlers opt =
    if opt.waf_enabled
    then rate_limit_handler opt.rate_limit_per_minute ∷ waf_handler opt.coraza_directives ∷ []
    else []

final_handler : BuildOptions → SiteRoute → Handler
final_handler opt r =
    if not (is_empty r.redirect_to)
    then redirect_handler r.redirect_to
    else if r.offline || is_empty r.upstream
    then static_handler 503 opt.maintenance_message
    else reverse_proxy_handler r.upstream false

unfoldable pub site_handlers : BuildOptions → SiteRoute → List Handler
unfolding guard_handlers final_handler
site_handlers opt r = guard_handlers opt ++ final_handler opt r ∷ []

-- The loop over the sorted routes: its routes, and the hosts that it adds to the subjects.
unfoldable pub is_nil : List Text → Bool
is_nil [] = true
is_nil (h ∷ hs) = false

unfoldable pub no_hosts : SiteRoute → Bool
unfolding is_nil
no_hosts r = is_nil r.hosts

unfoldable pub site_routes : BuildOptions → List SiteRoute → List Route
unfolding no_hosts
site_routes opt [] = []
site_routes opt (r ∷ rs) =
    let rest = site_routes opt rs in
    if no_hosts r then rest else host_route r.hosts (site_handlers opt r) ∷ rest

unfoldable pub all_hosts : List SiteRoute → List Text
all_hosts [] = []
all_hosts (r ∷ rs) = r.hosts ++ all_hosts rs

unfoldable pub sort_key : SiteRoute → Text
sort_key r = join (codes ",") r.hosts

unfoldable pub sorted_routes : List SiteRoute → List SiteRoute
sorted_routes routes = sort_by sort_key routes

optional : Text → List Text
optional [] = []
optional (c ∷ s) = (c ∷ s) ∷ []

unfoldable pub subjects : BuildOptions → List SiteRoute → List Text
unfolding optional all_hosts
subjects opt sorted =
    optional opt.panel_host
    ++ (optional opt.webmail_host ++ (optional opt.mail_hostname ++ all_hosts sorted))

-- `dedupe`: the loop with its `seen` set, then the sort.
unfoldable pub first_seen : List Text → List Text → List Text
first_seen seen [] = []
first_seen seen (v ∷ vs) = elim (is_empty v || any (text_eq v) seen) [
  | true ↦ first_seen seen vs
  | false ↦ v ∷ first_seen (v ∷ seen) vs
]

unfoldable pub dedupe : List Text → List Text
unfolding first_seen
dedupe xs = sort_by (λ s. s) (first_seen [] xs)

-- The TLS part.
acme_policy : BuildOptions → List Text → TlsPolicy
unfolding optional
acme_policy opt names = record {
  subjects = names;
  issuers = optional opt.acme_email;
  on_demand = false;
}

named_policies : BuildOptions → List Text → List TlsPolicy
unfolding acme_policy
named_policies opt [] = []
named_policies opt (n ∷ ns) = acme_policy opt (n ∷ ns) ∷ []

on_demand_policies : Text → List TlsPolicy
on_demand_policies [] = []
on_demand_policies (c ∷ s) = record { subjects = []; issuers = []; on_demand = true } ∷ []

permission_of : Text → Option Text
permission_of [] = none
permission_of (c ∷ s) = some (c ∷ s)

automate_of : Text → Option (List Text)
automate_of [] = none
automate_of (c ∷ s) = some ((c ∷ s) ∷ [])

unfoldable pub tls_app : BuildOptions → List Text → Option TlsApp
unfolding named_policies on_demand_policies permission_of automate_of
tls_app opt names =
    if not (is_empty opt.acme_email) || not (is_empty opt.on_demand_ask_url)
    then some (record {
      automate = automate_of opt.mail_hostname;
      policies = named_policies opt names ++ on_demand_policies opt.on_demand_ask_url;
      permission = permission_of opt.on_demand_ask_url;
    })
    else none

-- The configuration for routes that are sorted, under options that have their defaults.
unfoldable pub assemble : BuildOptions → List SiteRoute → Config
assemble opt sorted = record {
  admin_listen = codes "0.0.0.0:2019";
  log_level = opt.log_level;
  edge = record {
    listen = opt.listen;
    routes = fixed_routes opt ++ site_routes opt sorted;
    default_logger_name = codes "edge";
  };
  tls = tls_app opt (dedupe (subjects opt sorted));
}

unfoldable pub build : List SiteRoute → BuildOptions → Config
unfolding assemble with_defaults sorted_routes
build routes opt = assemble (with_defaults opt) (sorted_routes routes)
