-- ===== src/Store/Accounts.antt =====
-- internal/store/accounts.go: plans and hosting accounts.
use gocontrolpanel.Base.{
  ℕ, ◌+◌, Bool, true, not, ◌&&◌, ◌||◌, Option, none, some, List, [], ◌∷◌, ok, err, ◌==◌,
  if◌then◌else◌, any, find?, keep, map_where, length,
}
use gocontrolpanel.Go.Strings.{Text, text_eq}
use gocontrolpanel.Models.{Uuid, Plan, Account, AccountStatus, Site, Domain, SystemSettings}
use gocontrolpanel.Panel.{
  Error, constraint, violation, not_found, Db, Exec, ◌>>◌, remote, query, query_one, update,
  update_found, insert,
}

abbrev pub is_plan : Uuid → Plan → Bool
is_plan id p = p.id == id

abbrev pub is_account : Uuid → Account → Bool
is_account id a = a.id == id

abbrev pub account_exists : Uuid → Db → Bool
account_exists id db = any (is_account id) db.accounts

unfoldable pub get_plan : Uuid → Exec Plan
unfolding query_one
get_plan id = query_one (λ db. find? (is_plan id) db.plans)

-- ORDER BY is_default DESC, created_at LIMIT 1: the oldest default plan, else the oldest plan.
last_plan : Option Plan → List Plan → Option Plan
last_plan best [] = best
last_plan best (p ∷ ps) = last_plan (some p) ps

or_plan : Option Plan → Option Plan → Option Plan
or_plan none q = q
or_plan (some p) q = some p

unfoldable pub get_default_plan : Exec Plan
unfolding query_one last_plan or_plan
get_default_plan =
    query_one
      (λ db. or_plan (last_plan none (keep (λ p. p.is_default) db.plans)) (last_plan none db.plans))

-- The system user and the primary domain are UNIQUE; the owner and the plan are references.
unfoldable pub account_check : Account → Db → Option Error
account_check a db =
    violation
      (any (λ b. text_eq a.system_user b.system_user || text_eq a.primary_domain b.primary_domain)
        db.accounts)
      (any (λ u. u.id == a.owner_id) db.users && any (is_plan a.plan_id) db.plans)

unfoldable pub create_account : Account → Exec Uuid
unfolding insert account_check
create_account a = λ w.
    insert (account_check a)
      (λ id db. record db {
        accounts =
            record a {
              id = id;
              suspend_reason = [];
              disk_used_mb = 0;
              bandwidth_used_mb = 0;
              bandwidth_reset_at = w.clock;
            }
            ∷ db.accounts;
      })
      w

unfoldable pub get_account : Uuid → Exec Account
unfolding query_one
get_account id = query_one (λ db. find? (is_account id) db.accounts)

abbrev pub in_scope : Option Uuid → Account → Bool
in_scope none a = true
in_scope (some owner) a = a.owner_id == owner

unfoldable pub list_accounts : Option Uuid → Exec (List Account)
unfolding query
list_accounts scope = query (λ db. keep (in_scope scope) db.accounts)

abbrev pub set_account : Uuid → (Account → Account) → Db → Db
set_account id f db = record db { accounts = map_where (is_account id) f db.accounts }

abbrev pub with_status : AccountStatus → Text → Account → Account
with_status status reason a = record a { status = status; suspend_reason = reason }

unfoldable pub update_account_status : Uuid → AccountStatus → Text → Exec (Unit {0})
unfolding update_found
update_account_status id status reason =
    update_found (account_exists id) (set_account id (with_status status reason))

unfoldable pub update_account_plan : Uuid → Uuid → Exec (Unit {0})
unfolding remote
update_account_plan id plan_id = do
  remote
  λ w.
      if account_exists id w.db
      then if any (is_plan plan_id) w.db.plans
        then (ok tt, record w { db = set_account id (λ a. record a { plan_id = plan_id }) w.db })
        else (err constraint, w)
      else (err not_found, w)

unfoldable pub update_account_disk_usage : Uuid → ℕ → Exec (Unit {0})
unfolding update
update_account_disk_usage id mb = update (set_account id (λ a. record a { disk_used_mb = mb }))

unfoldable pub add_account_bandwidth_usage : Uuid → ℕ → Exec (Unit {0})
unfolding update
add_account_bandwidth_usage id delta =
    update (set_account id (λ a. record a { bandwidth_used_mb = a.bandwidth_used_mb + delta }))

unfoldable pub reset_account_bandwidth_usage : Uuid → Exec (Unit {0})
unfolding update
reset_account_bandwidth_usage id = λ w.
    update (set_account id (λ a. record a { bandwidth_used_mb = 0; bandwidth_reset_at = w.clock }))
      w

-- The sites of the account and their domains go with the row (ON DELETE CASCADE).
abbrev pub owns_site : Uuid → Site → Bool
owns_site account_id s = s.account_id == account_id

abbrev pub drop_domains_of : (Site → Bool) → List Site → List Domain → List Domain
drop_domains_of gone sites domains =
    keep (λ d. not (any (λ s. gone s && s.id == d.site_id) sites)) domains

abbrev pub drop_account : Uuid → Db → Db
drop_account id db = record db {
  accounts = keep (λ a. not (is_account id a)) db.accounts;
  sites = keep (λ s. not (owns_site id s)) db.sites;
  domains = drop_domains_of (owns_site id) db.sites db.domains;
}

unfoldable pub delete_account : Uuid → Exec (Unit {0})
unfolding update_found
delete_account id = update_found (account_exists id) (drop_account id)

abbrev pub sites_of : Uuid → Db → List Site
sites_of account_id db = keep (owns_site account_id) db.sites

unfoldable pub count_account_sites : Uuid → Exec ℕ
unfolding query
count_account_sites id = query (λ db. length (sites_of id db))

-- The domains joined with the sites of the account.
abbrev pub domains_of : Uuid → Db → List Domain
domains_of account_id db =
    keep (λ d. any (λ s. owns_site account_id s && s.id == d.site_id) db.sites) db.domains

unfoldable pub count_account_domains : Uuid → Exec ℕ
unfolding query
count_account_domains id = query (λ db. length (domains_of id db))

unfoldable pub get_system_settings : Exec SystemSettings
unfolding query
get_system_settings = query (λ db. db.settings)

unfoldable pub update_system_settings : SystemSettings → Exec (Unit {0})
unfolding update
update_system_settings s = update (λ db. record db { settings = s })
