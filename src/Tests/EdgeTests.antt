-- ===== src/Tests/EdgeTests.antt =====
-- The edge configuration at concrete sites.
use mathlib.Core.List.{Memᴰ}
use gocontrolpanel.Base.{
  ap, ◌∙◌, ◌≡◌, refl, sym, true, false, not, ◌&&◌, none, some, List, [], ◌∷◌, any,
}
use gocontrolpanel.Base.Int.{pos}
use gocontrolpanel.Go.Strings.{Text, codes, text_eq, is_empty}
use gocontrolpanel.Go.Strings.{join}
use gocontrolpanel.Go.Sort.Order.{IsSorted}
use gocontrolpanel.Caddy.{reverse_proxy, SiteRoute, BuildOptions}
use gocontrolpanel.Caddy.Build.{build, dedupe, site_handlers, with_defaults, sort_key}
use gocontrolpanel.Caddy.Subjects.{member, IsDistinct, dedupe_lem}
use gocontrolpanel.Caddy.Routes.{
  serve, IsOwner, IsBeside, reaches, lists, serve-build_panel, serve-build_site, serve-build-none,
}
use gocontrolpanel.Store.Sites.{routing_rows}
use gocontrolpanel.Provision.Edge.{site_route_list}
use gocontrolpanel.Provision.Grouping.{has_fqdn, any-site_route_list}
use gocontrolpanel.Tests.Matcher.{star_matcher, star_covers}
use gocontrolpanel.Tests.Fixtures.{rows}

abbrev options : BuildOptions
options = record {
  acme_email = [];
  on_demand_ask_url = [];
  log_level = [];
  listen = [];
  panel_host = codes "p.io";
  panel_upstream = codes "127.0.0.1:8080";
  webmail_host = [];
  webmail_upstream = [];
  mail_hostname = [];
  maintenance_message = [];
  waf_enabled = false;
  coraza_directives = [];
  rate_limit_per_minute = pos 0;
}

abbrev site_a : SiteRoute
site_a = record {
  hosts = codes "a.io" ∷ [];
  upstream = codes "a:80";
  redirect_to = [];
  force_https = true;
  offline = false;
}

abbrev site_b : SiteRoute
site_b = record {
  hosts = codes "b.io" ∷ codes "p.io" ∷ [];
  upstream = codes "b:80";
  redirect_to = [];
  force_https = true;
  offline = false;
}

abbrev both : List SiteRoute
both = site_b ∷ site_a ∷ []

runs : Unit {0}
unfolding text_eq sort_key join star_covers
runs = tt

-- A site that claims the panel's host does not get it.
serve-build_panel_example :
    serve star_matcher (build both options).edge.routes (codes "p.io")
    ≡ some (reverse_proxy (codes "127.0.0.1:8080") true ∷ [])
serve-build_panel_example = serve-build_panel star_matcher both options refl refl

-- A site with a pattern, and a host that the pattern covers.
abbrev site_star : SiteRoute
site_star = record site_a { hosts = codes "*.a.io" ∷ [] }

abbrev patterns : List SiteRoute
patterns = site_b ∷ site_star ∷ []

owns : IsOwner star_matcher (codes "x.a.io") patterns site_star
unfolding runs
owns = record { listed = Memᴰ.tail (Memᴰ.head refl); has_host = refl; only = only }
  where
    not_b : reaches star_matcher (codes "x.a.io") site_b ≡ true → ⊥
    not_b k = cc

    only :
        (r : SiteRoute)
        → Memᴰ r patterns
        → reaches star_matcher (codes "x.a.io") r ≡ true
        → r ≡ site_star
    only r (Memᴰ.head e) h = absurd (not_b (ap (reaches star_matcher (codes "x.a.io")) (sym e) ∙ h))
    only r (Memᴰ.tail (Memᴰ.head e)) h = e
    only r (Memᴰ.tail (Memᴰ.tail t)) h = elim t [ ]

not_panels :
    (h : Text) → star_covers (codes "p.io") h ≡ false → IsBeside star_matcher h options.panel_host
not_panels h e = λ _. e

not_webmails : (h : Text) → IsBeside star_matcher h options.webmail_host
not_webmails h = λ e. absurd (clash e)
  where
    clash : true ≡ false → ⊥
    clash k = cc

beside_star : star_covers (codes "p.io") (codes "x.a.io") ≡ false
unfolding runs
beside_star = refl

serve-build_site_example :
    serve star_matcher (build patterns options).edge.routes (codes "x.a.io")
    ≡ some (site_handlers (with_defaults options) site_star)
serve-build_site_example =
    serve-build_site star_matcher (codes "x.a.io") patterns options
      (not_panels (codes "x.a.io") beside_star) (not_webmails (codes "x.a.io")) owns

beside_c : star_covers (codes "p.io") (codes "c.io") ≡ false
unfolding runs
beside_c = refl

unreached : any (reaches star_matcher (codes "c.io")) patterns ≡ false
unfolding runs
unreached = refl

serve-build-none_example :
    serve star_matcher (build patterns options).edge.routes (codes "c.io") ≡ none
serve-build-none_example =
    serve-build-none star_matcher (codes "c.io") patterns options
      (not_panels (codes "c.io") beside_c) (not_webmails (codes "c.io")) unreached

dedupe_lem_example :
    IsSorted (λ s. s) (dedupe (codes "b" ∷ [] ∷ codes "a" ∷ codes "b" ∷ []))
    × IsDistinct (dedupe (codes "b" ∷ [] ∷ codes "a" ∷ codes "b" ∷ []))
    × ((s : Text)
        → member s (dedupe (codes "b" ∷ [] ∷ codes "a" ∷ codes "b" ∷ []))
          ≡ (not (is_empty s) && member s (codes "b" ∷ [] ∷ codes "a" ∷ codes "b" ∷ [])))
dedupe_lem_example = dedupe_lem (codes "b" ∷ [] ∷ codes "a" ∷ codes "b" ∷ [])

any-site_route_list_example :
    any (lists (codes "b.io")) (site_route_list (routing_rows rows))
    ≡ any (has_fqdn (codes "b.io")) (routing_rows rows)
any-site_route_list_example = any-site_route_list (codes "b.io") (routing_rows rows)
