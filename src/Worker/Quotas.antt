-- ===== src/Worker/Quotas.antt =====
-- `enforceQuotas` of internal/worker/worker.go: the disk and the traffic of every account. The month
-- of an instant, `Format("2006-01")`, is a parameter.
pub mod ByHand
pub mod Manual
use gocontrolpanel.Base.{
  ◌++◌, ℕ, ◌+◌, ◌-◌, ◌/◌, ◌^◌, Bool, true, false, not, ◌&&◌, Option, none, some, List, [], ◌∷◌,
  Result, ok, err, ltb, leb, ◌==◌, if◌then◌else◌,
}
use gocontrolpanel.Go.Strings.{Text, codes, text_eq}
use gocontrolpanel.Models.{Plan, Account, AccountStatus, active, suspended, terminated, Site}
use gocontrolpanel.Panel.{Error, World, Exec, ◌>>=◌, ◌>>◌, pure, attempt, ignore}
use gocontrolpanel.Store.Accounts.{
  get_plan, list_accounts, update_account_disk_usage, add_account_bandwidth_usage,
  reset_account_bandwidth_usage,
}
use gocontrolpanel.Store.Sites.{list_sites, get_site_net_baseline, set_site_net_baseline}
use gocontrolpanel.Provision.Edge.{Settings, is_running}
use gocontrolpanel.Provision.Accounts.{suspend_account, unsuspend_account}
use gocontrolpanel.Worker.{Engine, Traffic}

-- The accented letter is one number here.
abbrev pub auto_suspend_bandwidth_reason : Text
auto_suspend_bandwidth_reason =
    codes "cuota de transferencia superada (autom" ++ (195 ∷ 161 ∷ codes "tico)")

abbrev pub mib : ℕ
mib = 2 ^ 20

-- `AccountDiskUsageMB` divides what the walk over the files adds up.
measure_disk : Account → Option ℕ → Exec (Unit {0})
unfolding update_account_disk_usage
measure_disk acct none = pure tt
measure_disk acct (some bytes) = ignore (update_account_disk_usage acct.id (bytes / mib))

-- A counter below the last reading began again at zero.
unfoldable pub traffic_since : ℕ → ℕ → ℕ
traffic_since baseline cumulative =
    if leb baseline cumulative then cumulative - baseline else cumulative

read_traffic : Site → Traffic → Result Error (ℕ × ℕ) → Exec ℕ
unfolding set_site_net_baseline traffic_since
read_traffic s t (err e) = pure 0
read_traffic s t (ok (rx, tx)) = do
  ignore (set_site_net_baseline s.id t.net_rx t.net_tx)
  pure (traffic_since (rx + tx) (t.net_rx + t.net_tx))

stats_traffic : Site → Option Traffic → Exec ℕ
unfolding get_site_net_baseline read_traffic
stats_traffic s none = pure 0
stats_traffic s (some t) = do base ← attempt (get_site_net_baseline s.id); read_traffic s t base

unfoldable pub site_traffic : Engine → Site → Exec ℕ
unfolding stats_traffic
site_traffic engine s =
    if is_running s.status then stats_traffic s (engine.stats s.container_name) else pure 0

unfoldable pub sites_traffic : Engine → List Site → Exec ℕ
unfolding site_traffic
sites_traffic engine [] w = (ok 0, w)
sites_traffic engine (s ∷ ss) w =
    (do delta ← site_traffic engine s; later ← sites_traffic engine ss; pure (delta + later)) w

abbrev pub has_suspended : AccountStatus → Bool
has_suspended suspended = true
has_suspended s = false

abbrev pub is_auto_suspended : Account → Bool
is_auto_suspended acct =
    has_suspended acct.status && text_eq acct.suspend_reason auto_suspend_bandwidth_reason

-- The account as the rest of the round sees it.
reactivated : Account → Result Error (Unit {0}) → Exec Account
reactivated acct (err e) = pure acct
reactivated acct (ok u) = pure (record acct { status = active })

after_reset : Settings → Account → Result Error (Unit {0}) → Exec Account
unfolding unsuspend_account reactivated
after_reset cfg acct (err e) = pure acct
after_reset cfg acct (ok u) =
    let fresh = record acct { bandwidth_used_mb = 0 } in
    if is_auto_suspended acct
    then (do r ← attempt (unsuspend_account cfg acct.id); reactivated fresh r)
    else pure fresh

unfoldable pub new_month : Settings → (ℕ → ℕ) → Account → Exec Account
unfolding reset_account_bandwidth_usage after_reset
new_month cfg month acct w =
    (if month acct.bandwidth_reset_at == month w.clock
        then pure acct
        else (do r ← attempt (reset_account_bandwidth_usage acct.id); after_reset cfg acct r))
      w

added : Account → ℕ → Result Error (Unit {0}) → Exec Account
added acct mb (err e) = pure acct
added acct mb (ok u) = pure (record acct { bandwidth_used_mb = acct.bandwidth_used_mb + mb })

-- `int64(deltaMB)` drops the fraction of a megabyte.
unfoldable pub add_traffic : Account → ℕ → Exec Account
unfolding add_account_bandwidth_usage added
add_traffic acct bytes =
    if ltb 0 bytes
    then (do
      r ← attempt (add_account_bandwidth_usage acct.id (bytes / mib))
      added acct (bytes / mib) r)
    else pure acct

abbrev pub has_active : AccountStatus → Bool
has_active active = true
has_active s = false

unfoldable pub suspend_over : Settings → Plan → Account → Exec (Unit {0})
unfolding suspend_account
suspend_over cfg plan acct =
    if has_active acct.status
      && ltb 0 plan.bandwidth_quota_mb
      && leb plan.bandwidth_quota_mb acct.bandwidth_used_mb
    then ignore (suspend_account cfg acct.id auto_suspend_bandwidth_reason)
    else pure tt

count_traffic :
    Settings → Engine → (ℕ → ℕ) → Plan → Account → Result Error (List Site) → Exec (Unit {0})
unfolding sites_traffic new_month add_traffic suspend_over
count_traffic cfg engine month plan acct (err e) = pure tt
count_traffic cfg engine month plan acct (ok sites) = do
  delta ← sites_traffic engine sites
  acct ← new_month cfg month acct
  acct ← add_traffic acct delta
  suspend_over cfg plan acct

enforce_plan : Settings → Engine → (ℕ → ℕ) → Account → Result Error Plan → Exec (Unit {0})
unfolding measure_disk list_sites count_traffic
enforce_plan cfg engine month acct (err e) = pure tt
enforce_plan cfg engine month acct (ok plan) = do
  measure_disk acct (engine.disk_bytes acct.system_user)
  sites ← attempt (list_sites (some acct.id))
  count_traffic cfg engine month plan acct sites

is_terminated : AccountStatus → Bool
is_terminated terminated = true
is_terminated s = false

unfoldable pub enforce_account : Settings → Engine → (ℕ → ℕ) → Account → Exec (Unit {0})
unfolding get_plan enforce_plan is_terminated
enforce_account cfg engine month acct =
    if is_terminated acct.status
    then pure tt
    else (do plan ← attempt (get_plan acct.plan_id); enforce_plan cfg engine month acct plan)

unfoldable pub enforce_accounts : Settings → Engine → (ℕ → ℕ) → List Account → Exec (Unit {0})
unfolding enforce_account
enforce_accounts cfg engine month [] w = (ok tt, w)
enforce_accounts cfg engine month (a ∷ as') w =
    (do enforce_account cfg engine month a; enforce_accounts cfg engine month as') w

enforce_listed : Settings → Engine → (ℕ → ℕ) → Result Error (List Account) → Exec (Unit {0})
unfolding enforce_accounts
enforce_listed cfg engine month (err e) = pure tt
enforce_listed cfg engine month (ok accounts) = enforce_accounts cfg engine month accounts

unfoldable pub enforce_quotas : Settings → Engine → (ℕ → ℕ) → Exec (Unit {0})
unfolding list_accounts enforce_listed
enforce_quotas cfg engine month = do
  accounts ← attempt (list_accounts none)
  enforce_listed cfg engine month accounts
