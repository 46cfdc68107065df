-- ===== src/Caddy/Routes.antt =====
-- What the edge answers for a host: the panel and the webmail are never covered by a site, every
-- site is reached by its hosts, and the configuration does not depend on the order of the sites.
use mathlib.Core.List.Memᴰ
use mathlib.Core.List.Permᴰ
use mathlib.Core.List.{Memᴰ, Permᴰ}
use gocontrolpanel.Base.{
  ◌≡◌, refl, ap, ◌∙◌, Bool, true, false, ◌||◌, Option, none, some, List, [], ◌∷◌, ◌++◌, arith,
  if◌then◌else◌, Bool-cases, inl, inr, any,
}
use gocontrolpanel.Go.Strings.{Text, is_empty}
use gocontrolpanel.Go.Sort.Perm.{sort_by-Permᴰ, Permᴰ-mem, any-perm}
use gocontrolpanel.Caddy.{
  Handler, reverse_proxy, Match, Route, SiteRoute, BuildOptions, reverse_proxy_handler,
}
use gocontrolpanel.Caddy.Build.{
  with_defaults, host_route, fixed_route, fixed_routes, is_nil, no_hosts, site_handlers,
  site_routes, sort_key, sorted_routes, build,
}
use gocontrolpanel.Caddy.Subjects.{member}

-- Caddy's comparison of a name in a `host` matcher with the host of a request. The name may be a
-- pattern, as `*.example.com`; a name matches itself.
pub record HostMatcher : Type 0 where
  pub covers : (name host : Text) → Bool
  pub covers-same : (host : Text) → covers host host ≡ true

-- One of the names covers the host.
abbrev pub any_covers : HostMatcher → Text → List Text → Bool
any_covers m h names = any (λ name. m.covers name h) names

-- Caddy's rule for terminal routes: the first one that matches the host answers.
matches_host : HostMatcher → Text → List Match → Bool
matches_host m h [] = false
matches_host m h (x ∷ xs) = any_covers m h x.host || matches_host m h xs

unfoldable pub serve : HostMatcher → List Route → Text → Option (List Handler)
unfolding matches_host
serve m [] h = none
serve m (r ∷ rs) h =
    let rest = serve m rs h in if matches_host m h r.match then some r.handle else rest

-- A name that a route of its own is made for, if there is one, does not cover the host.
abbrev pub IsBeside : HostMatcher → Text → Text → Type 0
IsBeside m h name = is_empty name ≡ false → m.covers name h ≡ false

module _ (m : HostMatcher) where
  -- Where the panel has a host and a backend, the panel's host is answered by the panel's backend,
  -- whatever hosts the sites claim.
  pub serve-build_panel :
      (routes : List SiteRoute) (opt : BuildOptions)
      → is_empty opt.panel_host ≡ false
      → is_empty opt.panel_upstream ≡ false
      → serve m (build routes opt).edge.routes opt.panel_host
        ≡ some (reverse_proxy opt.panel_upstream true ∷ [])
  unfolding serve build fixed_routes reverse_proxy_handler
  serve-build_panel routes opt h k = rw (h, k, m.covers-same opt.panel_host) refl

  serve-append_none :
      (h : Text) (xs ys : List Route) → serve m xs h ≡ none → serve m (xs ++ ys) h ≡ serve m ys h
  unfolding serve
  serve-append_none h [] ys e = refl
  serve-append_none h (x ∷ xs) ys e = ground (arith, serve-append_none h xs ys)

  serve-fixed_route-none :
      (h host upstream : Text) → IsBeside m h host → serve m (fixed_route host upstream) h ≡ none
  unfolding serve fixed_route
  serve-fixed_route-none h host upstream beside = elim (Bool-cases (is_empty host)) [
    | inl e ↦ rw e refl
    | inr e ↦ elim (Bool-cases (is_empty upstream)) [
      | inl u ↦ rw (e, u) refl
      | inr u ↦ rw (e, u, beside e) refl
    ]
  ]

  serve-fixed_routes-none :
      (h : Text) (opt : BuildOptions)
      → IsBeside m h opt.panel_host
      → IsBeside m h opt.webmail_host
      → serve m (fixed_routes opt) h ≡ none
  unfolding fixed_routes
  serve-fixed_routes-none h opt p w =
      serve-append_none h (fixed_route opt.panel_host opt.panel_upstream) _
        (serve-fixed_route-none h opt.panel_host opt.panel_upstream p)
      ∙ serve-fixed_route-none h opt.webmail_host opt.webmail_upstream w

  -- `r` is the only one of the routes with a name that covers the host.
  pub record IsOwner (h : Text) (routes : List SiteRoute) (r : SiteRoute) : Type 0 where
    pub listed : Memᴰ r routes
    pub has_host : any_covers m h r.hosts ≡ true
    pub only : (r' : SiteRoute) → Memᴰ r' routes → any_covers m h r'.hosts ≡ true → r' ≡ r

  no_hosts-covers : (h : Text) (r : SiteRoute) → any_covers m h r.hosts ≡ true → no_hosts r ≡ false
  unfolding no_hosts
  no_hosts-covers h r e = by_hosts r.hosts e
    where
      by_hosts : (hs : List Text) → any_covers m h hs ≡ true → is_nil hs ≡ false
      by_hosts [] f = cc
      by_hosts (x ∷ xs) f = refl

  serve-site_routes_cons :
      (h : Text) (opt : BuildOptions) (r : SiteRoute) (rs : List SiteRoute)
      → any_covers m h r.hosts ≡ true
      → serve m (site_routes opt (r ∷ rs)) h ≡ some (site_handlers opt r)
  unfolding site_routes serve host_route
  serve-site_routes_cons h opt r rs e = rw (no_hosts-covers h r e, e) refl

  serve-site_routes_skip :
      (h : Text) (opt : BuildOptions) (r : SiteRoute) (rs : List SiteRoute)
      → any_covers m h r.hosts ≡ false
      → serve m (site_routes opt (r ∷ rs)) h ≡ serve m (site_routes opt rs) h
  unfolding site_routes serve host_route
  serve-site_routes_skip h opt r rs e = ground arith

  clash : {b : Bool} → b ≡ true → b ≡ false → ⊥
  clash p q = cc

  tail_of_Memᴰ :
      (h : Text) {r x : SiteRoute} {rs : List SiteRoute}
      → Memᴰ r (x ∷ rs)
      → any_covers m h r.hosts ≡ true
      → any_covers m h x.hosts ≡ false
      → Memᴰ r rs
  tail_of_Memᴰ h (Memᴰ.head e) p q = absurd (clash p (rw e q))
  tail_of_Memᴰ h (Memᴰ.tail t) p q = t

  serve-site_routes :
      (h : Text) (opt : BuildOptions) (rs : List SiteRoute) {r : SiteRoute}
      → IsOwner h rs r
      → serve m (site_routes opt rs) h ≡ some (site_handlers opt r)
  serve-site_routes h opt [] o = absurd (Memᴰ.not-nil o.listed)
  serve-site_routes h opt (x ∷ rs) {r} o = elim (Bool-cases (any_covers m h x.hosts)) [
    | inl e ↦
        serve-site_routes_cons h opt x rs e
        ∙ ap (λ y. some (site_handlers opt y)) (o.only x (Memᴰ.head refl) e)
    | inr e ↦
        serve-site_routes_skip h opt x rs e
        ∙ serve-site_routes h opt rs (record {
          listed = tail_of_Memᴰ h o.listed o.has_host e;
          has_host = o.has_host;
          only = λ r' t f. o.only r' (Memᴰ.tail t) f;
        })
  ]

  IsOwner-sorted_routes :
      {h : Text} {routes : List SiteRoute} {r : SiteRoute}
      → IsOwner h routes r
      → IsOwner h (sorted_routes routes) r
  unfolding sorted_routes
  IsOwner-sorted_routes {routes} {r} o =
      let p = sort_by-Permᴰ sort_key routes in
      record {
        listed = Permᴰ-mem sort_key r (Permᴰ.symm p) o.listed;
        has_host = o.has_host;
        only = λ r' t f. o.only r' (Permᴰ-mem sort_key r' p t) f;
      }

  -- A host that neither the panel's name nor the webmail's covers, and that the names of exactly
  -- one site cover, patterns included, is answered by that site's handlers.
  pub serve-build_site :
      (h : Text) (routes : List SiteRoute) (opt : BuildOptions) {r : SiteRoute}
      → IsBeside m h opt.panel_host
      → IsBeside m h opt.webmail_host
      → IsOwner h routes r
      → serve m (build routes opt).edge.routes h ≡ some (site_handlers (with_defaults opt) r)
  unfolding build
  serve-build_site h routes opt p w o =
      serve-append_none h (fixed_routes (with_defaults opt)) _
        (serve-fixed_routes-none h (with_defaults opt) p w)
      ∙ serve-site_routes h (with_defaults opt) (sorted_routes routes) (IsOwner-sorted_routes o)

  -- A name of the route covers the host.
  abbrev pub reaches : Text → SiteRoute → Bool
  reaches h r = any_covers m h r.hosts

  serve-site_routes-none :
      (h : Text) (opt : BuildOptions) (rs : List SiteRoute)
      → any (reaches h) rs ≡ false
      → serve m (site_routes opt rs) h ≡ none
  unfolding site_routes serve host_route
  serve-site_routes-none h opt [] e = refl
  serve-site_routes-none h opt (r ∷ rs) e = ground (arith, serve-site_routes-none h opt rs)

  -- A host that neither the panel's name nor the webmail's nor any name of a site covers is not
  -- answered.
  pub serve-build-none :
      (h : Text) (routes : List SiteRoute) (opt : BuildOptions)
      → IsBeside m h opt.panel_host
      → IsBeside m h opt.webmail_host
      → any (reaches h) routes ≡ false
      → serve m (build routes opt).edge.routes h ≡ none
  unfolding build sorted_routes
  serve-build-none h routes opt p w e =
      serve-append_none h (fixed_routes (with_defaults opt)) _
        (serve-fixed_routes-none h (with_defaults opt) p w)
      ∙ serve-site_routes-none h (with_defaults opt) (sorted_routes routes)
          (any-perm (reaches h) (sort_by-Permᴰ sort_key routes) ∙ e)

-- The route lists the host as it is written.
abbrev pub lists : Text → SiteRoute → Bool
lists h r = member h r.hosts
