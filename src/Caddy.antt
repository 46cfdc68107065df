-- ===== src/Caddy.antt =====
-- internal/caddyapi/config.go: the data of the edge configuration. A handler, JSON in the source,
-- is one of the five forms that the builders marshal; `headers`, `transport` and the page's HTML
-- around the message are constants of theirs and are left out.
pub mod Build
pub mod Routes
pub mod Subjects
use gocontrolpanel.Base.{
  ℕ, zero, suc, Bool, Option, List, [], ◌∷◌, ◌++◌, ◌||◌, not, ◌==◌, if◌then◌else◌,
}
use gocontrolpanel.Base.Int.{ℤ, pos, negsuc}
use gocontrolpanel.Go.Strings.{Text, codes, text_eq, is_empty, has_prefix, trim_right}

pub data Handler : Type 0 where
  reverse_proxy : (upstream : Text) (streaming : Bool) → Handler
  waf : (directives : Text) → Handler
  rate_limit : (max_events : ℕ) → Handler
  redirect : (location : Text) → Handler
  static : (status : ℕ) (message : Text) → Handler

pub record Match : Type 0 where
  pub host : List Text
  pub path : List Text

pub record Route : Type 0 where
  pub match : List Match
  pub handle : List Handler
  pub terminal : Bool

pub record Server : Type 0 where
  pub listen : List Text
  pub routes : List Route
  pub default_logger_name : Text

-- `Issuers` holds the e-mail of each ACME issuer.
pub record TlsPolicy : Type 0 where
  pub subjects : List Text
  pub issuers : List Text
  pub on_demand : Bool

-- `TLSApp` with its automation: the names of `Certificates.Automate`, the policies, and the
-- endpoint of the on-demand permission.
pub record TlsApp : Type 0 where
  pub automate : Option (List Text)
  pub policies : List TlsPolicy
  pub permission : Option Text

-- `Config`: the edge server is the only one, and `default` the only log.
pub record Config : Type 0 where
  pub admin_listen : Text
  pub log_level : Text
  pub edge : Server
  pub tls : Option TlsApp

pub record SiteRoute : Type 0 where
  pub hosts : List Text
  pub upstream : Text
  pub redirect_to : Text
  pub force_https : Bool
  pub offline : Bool

pub record BuildOptions : Type 0 where
  pub acme_email : Text
  pub on_demand_ask_url : Text
  pub log_level : Text
  pub listen : List Text
  pub panel_host : Text
  pub panel_upstream : Text
  pub webmail_host : Text
  pub webmail_upstream : Text
  pub mail_hostname : Text
  pub maintenance_message : Text
  pub waf_enabled : Bool
  pub coraza_directives : Text
  pub rate_limit_per_minute : ℤ

unfoldable pub reverse_proxy_handler : Text → Bool → Handler
reverse_proxy_handler upstream panel = reverse_proxy upstream panel

unfoldable pub waf_handler : Text → Handler
waf_handler directives = waf directives

unfoldable pub rate_limit_handler : ℤ → Handler
rate_limit_handler (pos zero) = rate_limit 240
rate_limit_handler (pos (suc n)) = rate_limit (suc n)
rate_limit_handler (negsuc n) = rate_limit 240

with_scheme : Text → Text
with_scheme target =
    if has_prefix target (codes "http://") || has_prefix target (codes "https://")
    then target
    else codes "https://" ++ target

unfoldable pub redirect_handler : Text → Handler
unfolding with_scheme has_prefix trim_right
redirect_handler target =
    redirect (trim_right (λ c. c == b'/') (with_scheme target) ++ codes "{http.request.uri}")

unfoldable pub static_handler : ℕ → Text → Handler
static_handler status body = static status body
