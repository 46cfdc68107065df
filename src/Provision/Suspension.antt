-- ===== src/Provision/Suspension.antt =====
-- A suspended account is taken off the edge.
use gocontrolpanel.Base.{
  ◌≡◌, refl, sym, ◌∙◌, subst, Bool, true, false, ◌&&◌, Option, none, some, List, [], ◌∷◌, ok, arith,
  ◌==◌, any, All, map_where, Bool-cases, inl, inr, if◌then◌else◌,
}
use gocontrolpanel.Go.Strings.{Text, codes}
use gocontrolpanel.Go.Sort.Perm.{sort_by-Permᴰ, any-perm}
use gocontrolpanel.Models.{
  Uuid, Account, suspended, Site, SiteStatus, stopped, Domain, SystemSettings,
}
use gocontrolpanel.Caddy.{Config}
use gocontrolpanel.Caddy.Routes.{HostMatcher, IsBeside, serve, serve-build-none}
use gocontrolpanel.Panel.{Db, World, remote, stop}
use gocontrolpanel.Panel.Rules.{bind-eq-ok, then-eq-ok, update_found_ok}
use gocontrolpanel.Panel.Keeps.{
  Keeps, Keeps_at, Keeps-update_found, Keeps-then, Keeps-remote, Keeps-bind, Keeps-ignore,
  Keeps-request, Keeps-query,
}
use gocontrolpanel.Store.Accounts.{
  is_account, account_exists, set_account, with_status, update_account_status,
}
use gocontrolpanel.Store.Sites.{
  is_site, site_exists, set_site, with_site_status, is_active, RouteRow, row_of, is_published,
  rows_of_domain, join_rows, routing_rows, list_sites, list_domains_of, update_site_status,
}
use gocontrolpanel.Provision.Edge.{Settings, edge_config, build_options, panel_host, webmail_host}
use gocontrolpanel.Provision.Grouping.{any-append, any_name-site_route_list}
use gocontrolpanel.Provision.Synced.{sync_caddy_ok}
use gocontrolpanel.Provision.Accounts.{stop_all, suspend_account}

-- Every site with this identifier belongs to the account.
abbrev pub SitesOf : Uuid → Uuid → List Site → Type 0
SitesOf id site_id sites = All (λ s. is_site site_id s ≡ true → s.account_id ≡ id) sites

-- So for every domain whose name covers the host, patterns included.
abbrev pub BelongsTo : HostMatcher → Text → Uuid → List Site → List Domain → Type 0
BelongsTo m h id sites domains =
    All (λ d. m.covers d.fqdn h ≡ true → SitesOf id d.site_id sites) domains

abbrev reaches_row : HostMatcher → Text → RouteRow → Bool
reaches_row m h r = m.covers r.fqdn h

abbrev IsClosed : Uuid → List Account → Type 0
IsClosed id accounts = All (λ a. is_account id a ≡ true → is_active a.status ≡ false) accounts

record IsWithheld (m : HostMatcher) (h : Text) (id : Uuid) (db : Db) : Type 0 where
  closed : IsClosed id db.accounts
  theirs : BelongsTo m h id db.sites db.domains

not_active :
    (id : Uuid) (accounts : List Account)
    → IsClosed id accounts
    → any (λ a. is_account id a && is_active a.status) accounts ≡ false
not_active id [] c = refl
not_active id (a ∷ as') (c, cs) = ground (arith, not_active id as' cs)

not_published :
    (id : Uuid) (accounts : List Account) (d : Domain) (s : Site)
    → IsClosed id accounts
    → (is_site d.site_id s ≡ true → s.account_id ≡ id)
    → is_published accounts d s ≡ false
unfolding is_published
not_published id accounts d s c theirs = elim (Bool-cases (s.id == d.site_id)) [
  | inr e ↦ rw e refl
  | inl e ↦ ground (
    arith,
    subst (λ i. any (λ a. is_account i a && is_active a.status) accounts ≡ false) (sym (theirs e))
        (not_active id accounts c),
  )
]

rows_of_domain_none :
    (m : HostMatcher) (h : Text) (id : Uuid) (accounts : List Account) (sites : List Site)
    (d : Domain)
    → IsClosed id accounts
    → SitesOf id d.site_id sites
    → any (reaches_row m h) (rows_of_domain accounts sites d) ≡ false
unfolding rows_of_domain
rows_of_domain_none m h id accounts [] d c t = refl
rows_of_domain_none m h id accounts (s ∷ ss) d c (t, ts) =
    rw (not_published id accounts d s c t) (rows_of_domain_none m h id accounts ss d c ts)

other_name :
    (m : HostMatcher) (h : Text) (accounts : List Account) (sites : List Site) (d : Domain)
    → m.covers d.fqdn h ≡ false
    → any (reaches_row m h) (rows_of_domain accounts sites d) ≡ false
unfolding rows_of_domain row_of
other_name m h accounts [] d e = refl
other_name m h accounts (s ∷ ss) d e = ground (arith, other_name m h accounts ss d e)

join_rows_none :
    (m : HostMatcher) (h : Text) (id : Uuid) (accounts : List Account) (sites : List Site)
    (domains : List Domain)
    → IsClosed id accounts
    → BelongsTo m h id sites domains
    → any (reaches_row m h) (join_rows accounts sites domains) ≡ false
unfolding join_rows
join_rows_none m h id accounts sites [] c t = refl
join_rows_none m h id accounts sites (d ∷ ds) c (t, ts) =
    any-append (reaches_row m h) (rows_of_domain accounts sites d) _
    ∙ ground (arith, join_rows_none m h id accounts sites ds c ts, first)
  where
    first : any (reaches_row m h) (rows_of_domain accounts sites d) ≡ false
    first = elim (Bool-cases (m.covers d.fqdn h)) [
      | inl e ↦ rows_of_domain_none m h id accounts sites d c (t e)
      | inr e ↦ other_name m h accounts sites d e
    ]

routing_rows_none :
    (m : HostMatcher) (h : Text) (id : Uuid) (db : Db)
    → IsWithheld m h id db
    → any (reaches_row m h) (routing_rows db) ≡ false
unfolding routing_rows
routing_rows_none m h id db w =
    any-perm (reaches_row m h)
      (sort_by-Permᴰ (λ (r : RouteRow). r.fqdn) (join_rows db.accounts db.sites db.domains))
    ∙ join_rows_none m h id db.accounts db.sites db.domains w.closed w.theirs

-- A host that the panel does not serve by routes of its own.
pub record IsForeign (m : HostMatcher) (cfg : Settings) (h : Text) : Type 0 where
  pub not_panel : IsBeside m h (panel_host cfg.public_url)
  pub not_webmail : IsBeside m h (webmail_host cfg.public_url)

clash : true ≡ false → ⊥
clash k = cc

foreign_webmail :
    (m : HostMatcher) (cfg : Settings) (settings : SystemSettings) (h : Text)
    → IsForeign m cfg h
    → IsBeside m h (build_options cfg settings).webmail_host
unfolding build_options
foreign_webmail m cfg settings h f = by_flag cfg.mail_enabled
  where
    by_flag : (b : Bool) → IsBeside m h (if b then webmail_host cfg.public_url else [])
    by_flag true = f.not_webmail
    by_flag false = λ e. absurd (clash e)

foreign_panel :
    (m : HostMatcher) (cfg : Settings) (settings : SystemSettings) (h : Text)
    → IsForeign m cfg h
    → IsBeside m h (build_options cfg settings).panel_host
unfolding build_options
foreign_panel m cfg settings h f = f.not_panel

withheld-serve :
    (m : HostMatcher) (cfg : Settings) (h : Text) (id : Uuid) (db : Db)
    → IsForeign m cfg h
    → IsWithheld m h id db
    → serve m (edge_config cfg db).edge.routes h ≡ none
unfolding edge_config
withheld-serve m cfg h id db f w =
    serve-build-none m h _ (build_options cfg db.settings) (foreign_panel m cfg db.settings h f)
      (foreign_webmail m cfg db.settings h f)
      (any_name-site_route_list (λ name. m.covers name h) (routing_rows db)
        ∙ routing_rows_none m h id db w)

SitesOf-status :
    (id site_id target : Uuid) (status : SiteStatus) (msg : Text) (sites : List Site)
    → SitesOf id site_id sites
    → SitesOf id site_id (map_where (is_site target) (with_site_status status msg) sites)
SitesOf-status id site_id target status msg [] t = tt
SitesOf-status id site_id target status msg (s ∷ ss) (t, ts) =
    ground (arith, SitesOf-status id site_id target status msg ss ts, t)

BelongsTo-status :
    (m : HostMatcher) (h : Text) (id target : Uuid) (status : SiteStatus) (msg : Text)
    (sites : List Site) (domains : List Domain)
    → BelongsTo m h id sites domains
    → BelongsTo m h id (map_where (is_site target) (with_site_status status msg) sites) domains
BelongsTo-status m h id target status msg sites [] t = tt
BelongsTo-status m h id target status msg sites (d ∷ ds) (t, ts) = (
  λ e. SitesOf-status id d.site_id target status msg sites (t e),
  BelongsTo-status m h id target status msg sites ds ts,
)

IsClosed-suspended :
    (id : Uuid) (reason : Text) (accounts : List Account)
    → IsClosed id (map_where (is_account id) (with_status suspended reason) accounts)
IsClosed-suspended id reason [] = tt
IsClosed-suspended id reason (a ∷ as') = ground (arith, IsClosed-suspended id reason as')

module _ {P : Db → Type 0} where
  Keeps-list_domains_of : (sites : List Site) → Keeps P (list_domains_of sites)
  unfolding list_domains_of
  Keeps-list_domains_of [] = record { at = λ w h. h }
  Keeps-list_domains_of (s ∷ ss) = record {
    at = (Keeps-then remote (list_domains_of ss) Keeps-remote (Keeps-list_domains_of ss)).at;
  }

  pub Keeps-list_sites : (scope : Option Uuid) → Keeps P (list_sites scope)
  unfolding list_sites
  Keeps-list_sites scope =
      Keeps-bind _ _ (Keeps-query _)
        (λ out. Keeps-then _ _ (Keeps-list_domains_of out) (record { at = λ w h. h }))

module _ (m : HostMatcher) (h : Text) (id : Uuid) where
  Keeps-update_site_status :
      (target : Uuid) (status : SiteStatus) (msg : Text)
      → Keeps (IsWithheld m h id) (update_site_status target status msg)
  unfolding update_site_status
  Keeps-update_site_status target status msg =
      Keeps-update_found (site_exists target) (set_site target (with_site_status status msg))
        (λ db w. record {
          closed = w.closed;
          theirs = BelongsTo-status m h id target status msg db.sites db.domains w.theirs;
        })

  Keeps-stop_all : (sites : List Site) → Keeps (IsWithheld m h id) (stop_all sites)
  unfolding stop_all
  Keeps-stop_all [] = record { at = λ w k. k }
  Keeps-stop_all (s ∷ ss) = record {
    at =
        (Keeps-then _ _ (Keeps-ignore _ (Keeps-request (stop s.container_name))) (
          Keeps-then _ _
            (Keeps-ignore _ (Keeps-update_site_status s.id stopped (codes "cuenta suspendida")))
            (Keeps-stop_all ss))).at;
  }

suspended_row :
    (m : HostMatcher) (cfg : Settings) (id : Uuid) (reason h : Text) (w v : World)
    → BelongsTo m h id w.db.sites w.db.domains
    → update_account_status id suspended reason w ≡ (ok tt, v)
    → IsWithheld m h id v.db
unfolding update_account_status
suspended_row m cfg id reason h w v theirs e =
    let (found, same, edge) =
      update_found_ok (account_exists id) (set_account id (with_status suspended reason)) w e in
    subst (IsWithheld m h id) (sym same)
      (record { closed = IsClosed-suspended id reason w.db.accounts; theirs = theirs })

-- When SuspendAccount returns, the edge answers no host for which every domain whose name covers
-- it, be it a pattern, points to sites of the account, whether or not their containers could be
-- stopped; the host is one that neither the panel's name nor the webmail's covers.
pub suspend_account-serve :
    (m : HostMatcher) (cfg : Settings) (id : Uuid) (reason h : Text) (w w' : World)
    → suspend_account cfg id reason w ≡ (ok tt, w')
    → IsForeign m cfg h
    → BelongsTo m h id w.db.sites w.db.domains
    → (c : Config) × (w'.edge ≡ some c) × (serve m c.edge.routes h ≡ none)
unfolding suspend_account
suspend_account-serve m cfg id reason h w w' done foreign theirs =
    let (v, e1, g1) = then-eq-ok (update_account_status id suspended reason) _ w done in
    let (sites, u, e2, g2) = bind-eq-ok (list_sites (some id)) _ v g1 in
    let (x, e3, g3) = then-eq-ok (stop_all sites) _ u g2 in
    let start = suspended_row m cfg id reason h w v theirs e1 in
    let listed =
      Keeps_at {P = IsWithheld m h id} (list_sites (some id)) v (Keeps-list_sites (some id)) e2
        start in
    let held =
      Keeps_at {P = IsWithheld m h id} (stop_all sites) u (Keeps-stop_all m h id sites) e3 listed in
    let (synced, same) = sync_caddy_ok cfg x g3 in
    (
      edge_config cfg w'.db,
      synced.loaded,
      withheld-serve m cfg h id w'.db foreign (subst (IsWithheld m h id) (sym same) held),
    )
