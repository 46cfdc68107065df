-- ===== src/Worker/Quotas/Manual.antt =====
-- A suspension set by hand outlives the rounds of `enforceQuotas`.
use gocontrolpanel.Base.{
  ℕ, ◌≡◌, ◌≢◌, refl, sym, subst, inl, inr, Option, none, some, List, [], ◌∷◌, Result, ok, err, All,
  keep, Bool-cases, ◌/◌,
}
use gocontrolpanel.Go.Strings.{Text}
use gocontrolpanel.Models.{Uuid, Plan, Account, Site}
use gocontrolpanel.Panel.{Error, World, after, attempt}
use gocontrolpanel.Panel.Rules.{query_ok}
use gocontrolpanel.Panel.Yields.{Yields-bind}
use gocontrolpanel.Panel.Keeps.{
  Keeps, Keeps-bind, Keeps-then, Keeps-ignore, Keeps-attempt, Keeps-query, Keeps-query_one,
  Keeps-update, Keeps-pure,
}
use gocontrolpanel.Store.Accounts.{in_scope, get_plan, list_accounts, update_account_disk_usage}
use gocontrolpanel.Store.Sites.{list_sites}
use gocontrolpanel.Provision.Edge.{Settings}
use gocontrolpanel.Provision.Suspension.{Keeps-list_sites}
use gocontrolpanel.Provision.Held.{IsHeld, HoldsFor, All-keep, Keeps-set_account}
use gocontrolpanel.Worker.{Engine}
use gocontrolpanel.Worker.Quotas.{
  auto_suspend_bandwidth_reason, mib, measure_disk, new_month, add_traffic, count_traffic,
  enforce_plan, is_terminated, enforce_account, enforce_accounts, enforce_listed, enforce_quotas,
}
use gocontrolpanel.Worker.Quotas.ByHand.{
  Yields-new_month, Yields-add_traffic, Keeps-suspend_over, Keeps-sites_traffic,
}

module _ (id : Uuid) (reason : Text) (by_hand : reason ≢ auto_suspend_bandwidth_reason)
    (cfg : Settings) (engine : Engine) (month : ℕ → ℕ) where
  Keeps-measure_disk : (a : Account) (o : Option ℕ) → Keeps (HoldsFor id reason) (measure_disk a o)
  unfolding measure_disk update_account_disk_usage
  Keeps-measure_disk a none = Keeps-pure tt
  Keeps-measure_disk a (some bytes) = Keeps-ignore _ (
      Keeps-update _ (
        Keeps-set_account id reason a.id (λ b. record b { disk_used_mb = bytes / mib })
          (λ b i k. k)))

  Keeps-count_traffic :
      (plan : Plan) (a : Account) (r : Result Error (List Site))
      → IsHeld id reason a
      → Keeps (HoldsFor id reason) (count_traffic cfg engine month plan a r)
  unfolding count_traffic
  Keeps-count_traffic plan a (err e) q = Keeps-pure tt
  Keeps-count_traffic plan a (ok sites) q =
      Keeps-bind _ _ (Keeps-sites_traffic id reason engine sites) (λ delta.
        Yields-bind (new_month cfg month a) _ (Yields-new_month id reason by_hand cfg month a q)
          (λ b p.
            Yields-bind (add_traffic b delta) _ (Yields-add_traffic id reason by_hand b delta p)
              (λ c o. Keeps-suspend_over id reason by_hand cfg plan c o)))

  Keeps-enforce_plan :
      (a : Account) (r : Result Error Plan)
      → IsHeld id reason a
      → Keeps (HoldsFor id reason) (enforce_plan cfg engine month a r)
  unfolding enforce_plan
  Keeps-enforce_plan a (err e) q = Keeps-pure tt
  Keeps-enforce_plan a (ok plan) q =
      Keeps-then _ _ (Keeps-measure_disk a (engine.disk_bytes a.system_user)) (
        Keeps-bind (attempt (list_sites (some a.id))) _
          (Keeps-attempt _ (Keeps-list_sites (some a.id))) (λ r. Keeps-count_traffic plan a r q))

  Keeps-enforce_account :
      (a : Account)
      → IsHeld id reason a
      → Keeps (HoldsFor id reason) (enforce_account cfg engine month a)
  unfolding enforce_account get_plan
  Keeps-enforce_account a q = elim (Bool-cases (is_terminated a.status)) [
    | inl e ↦ rw e (Keeps-pure tt)
    | inr e ↦
        rw e (Keeps-bind _ _ (Keeps-attempt _ (Keeps-query_one _)) (λ r. Keeps-enforce_plan a r q))
  ]

  Keeps-enforce_accounts :
      (as' : List Account)
      → All (IsHeld id reason) as'
      → Keeps (HoldsFor id reason) (enforce_accounts cfg engine month as')
  unfolding enforce_accounts
  Keeps-enforce_accounts [] q = record { at = λ w h. h }
  Keeps-enforce_accounts (a ∷ as') (q, qs) = record {
    at = (Keeps-then _ _ (Keeps-enforce_account a q) (Keeps-enforce_accounts as' qs)).at;
  }

-- A suspension with a reason other than the automatic one stays, with its reason, through a round
-- of the quotas, whatever calls fail.
pub enforce_quotas-HoldsFor :
    (cfg : Settings) (engine : Engine) (month : ℕ → ℕ) (id : Uuid) (reason : Text) (w : World)
    → reason ≢ auto_suspend_bandwidth_reason
    → HoldsFor id reason w.db
    → HoldsFor id reason (enforce_quotas cfg engine month w).1.db
unfolding enforce_quotas enforce_listed
enforce_quotas-HoldsFor cfg engine month id reason w by_hand held =
    by_list (list_accounts none w) refl (keeps.at w held)
  where
    keeps : Keeps (HoldsFor id reason) (list_accounts none)
    keeps = unfold list_accounts in Keeps-query _

    rows :
        (l : List Account) (v : World) → list_accounts none w ≡ (ok l, v) → All (IsHeld id reason) l
    rows l v e =
        subst (All (IsHeld id reason))
          (sym (query_ok (λ db. keep (in_scope none) db.accounts) w (unfold list_accounts in e)).0)
          (All-keep (IsHeld id reason) (in_scope none) w.db.accounts held)

    by_list :
        (p : Result Error (List Account) × World)
        → list_accounts none w ≡ p
        → HoldsFor id reason (list_accounts none w).1.db
        → HoldsFor id reason
            (after
              (ok (list_accounts none w).0, (list_accounts none w).1)
              (enforce_listed cfg engine month)).1.db
    by_list (ok l, v) e h = rw e (
        (Keeps-enforce_accounts id reason by_hand cfg engine month l (rows l v e)).at v
          (subst (λ q. HoldsFor id reason q.1.db) e h))
    by_list (err x, v) e h = rw e (subst (λ q. HoldsFor id reason q.1.db) e h)
