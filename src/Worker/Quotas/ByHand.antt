-- ===== src/Worker/Quotas/ByHand.antt =====
-- The steps of `enforceQuotas` on one account, where another is suspended by hand.
use gocontrolpanel.Base.{
  ℕ, ◌+◌, ◌≡◌, ◌≢◌, sym, subst, ◌∙◌, inl, inr, Bool, true, false, ◌&&◌, Option, none, some, List,
  [], ◌∷◌, Result, ok, err, ltb, leb, ◌==◌, if◌then◌else◌, arith, Bool-cases, ◌/◌,
}
use gocontrolpanel.Go.Strings.{Text, text_eq}
use gocontrolpanel.Go.Strings.Laws.{text_eq_iff}
use gocontrolpanel.Models.{Uuid, Plan, Account, suspended, Site}
use gocontrolpanel.Panel.{Error, pure, attempt, ignore}
use gocontrolpanel.Panel.Yields.{Yields, Yields-after, Yields-pure}
use gocontrolpanel.Panel.Keeps.{
  Keeps, Keeps-bind, Keeps-then, Keeps-ignore, Keeps-attempt, Keeps-query_one, Keeps-update,
  Keeps-pure,
}
use gocontrolpanel.Store.Accounts.{
  set_account, add_account_bandwidth_usage, reset_account_bandwidth_usage,
}
use gocontrolpanel.Store.Sites.{get_site_net_baseline, set_site_net_baseline}
use gocontrolpanel.Provision.Edge.{Settings, is_running}
use gocontrolpanel.Provision.Accounts.{suspend_account}
use gocontrolpanel.Provision.Held.{
  IsHeld, HoldsFor, Keeps-set_account, Keeps-suspend, Keeps-unsuspend,
}
use gocontrolpanel.Worker.{Engine, Traffic}
use gocontrolpanel.Worker.Quotas.{
  auto_suspend_bandwidth_reason, mib, read_traffic, stats_traffic, site_traffic, sites_traffic,
  is_auto_suspended, reactivated, after_reset, new_month, added, add_traffic, has_active,
  suspend_over,
}

module _ (id : Uuid) (reason : Text) where
  module _ (by_hand : reason ≢ auto_suspend_bandwidth_reason) where
    -- An account that the round reactivates or suspends is another one.
    auto-other :
        (a : Account) → IsHeld id reason a → is_auto_suspended a ≡ true → (a.id == id) ≡ false
    auto-other a q auto = elim (Bool-cases (a.id == id)) [
      | inl e ↦ absurd (
          by_hand
            (sym (q e).1 ∙ (text_eq_iff a.suspend_reason auto_suspend_bandwidth_reason).0 same))
      | inr e ↦ e
    ]
      where
        same : text_eq a.suspend_reason auto_suspend_bandwidth_reason ≡ true
        same = ground arith

    active-other :
        (a : Account) → IsHeld id reason a → has_active a.status ≡ true → (a.id == id) ≡ false
    active-other a q act = elim (Bool-cases (a.id == id)) [
      | inl e ↦ absurd (clash (subst (λ s. has_active s ≡ true) (q e).0 act))
      | inr e ↦ e
    ]
      where
        clash : has_active suspended ≡ true → ⊥
        clash k = cc

    -- What is known of an account goes over to one with the same key and state.
    Yields-reactivated :
        (a : Account) (r : Result Error (Unit {0}))
        → (a.id == id) ≡ false
        → Yields (HoldsFor id reason) (IsHeld id reason) (reactivated a r)
    unfolding reactivated
    Yields-reactivated a (ok u) other = Yields-pure _ (λ e. let g = rw e at other in cc)
    Yields-reactivated a (err e) other = Yields-pure a (λ e. let g = rw e at other in cc)

    Yields-after_reset :
        (cfg : Settings) (a : Account) (r : Result Error (Unit {0}))
        → IsHeld id reason a
        → Yields (HoldsFor id reason) (IsHeld id reason) (after_reset cfg a r)
    unfolding after_reset
    Yields-after_reset cfg a (err e) q = Yields-pure a q
    Yields-after_reset cfg a (ok u) q = elim (Bool-cases (is_auto_suspended a)) [
      | inl auto ↦ rw auto (
          Yields-after _ _
            (Keeps-attempt _ (Keeps-unsuspend id reason cfg a.id (auto-other a q auto)))
            (λ r. Yields-reactivated (record a { bandwidth_used_mb = 0 }) r (auto-other a q auto)))
      | inr auto ↦ rw auto (Yields-pure (record a { bandwidth_used_mb = 0 }) q)
    ]

    Keeps-reset :
        (target : Uuid) → Keeps (HoldsFor id reason) (reset_account_bandwidth_usage target)
    unfolding reset_account_bandwidth_usage
    Keeps-reset target = record {
      at = λ w.
          (Keeps-update
              (set_account target
                (λ b. record b { bandwidth_used_mb = 0; bandwidth_reset_at = w.clock }))
              (Keeps-set_account id reason target
                (λ b. record b { bandwidth_used_mb = 0; bandwidth_reset_at = w.clock })
                (λ b i k. k))).at
            w;
    }

    pub Yields-new_month :
        (cfg : Settings) (month : ℕ → ℕ) (a : Account)
        → IsHeld id reason a
        → Yields (HoldsFor id reason) (IsHeld id reason) (new_month cfg month a)
    unfolding new_month
    Yields-new_month cfg month a q = record {
      at = λ w h. elim (Bool-cases (month a.bandwidth_reset_at == month w.clock)) [
        | inl e ↦ rw e (h, q)
        | inr e ↦ rw e (
            (Yields-after (attempt (reset_account_bandwidth_usage a.id)) (after_reset cfg a)
                (Keeps-attempt _ (Keeps-reset a.id)) (λ r. Yields-after_reset cfg a r q)).at
              w h)
      ];
    }

    Yields-added :
        (a : Account) (mb : ℕ) (r : Result Error (Unit {0}))
        → IsHeld id reason a
        → Yields (HoldsFor id reason) (IsHeld id reason) (added a mb r)
    unfolding added
    Yields-added a mb (ok u) q = Yields-pure _ q
    Yields-added a mb (err e) q = Yields-pure a q

    pub Yields-add_traffic :
        (a : Account) (bytes : ℕ)
        → IsHeld id reason a
        → Yields (HoldsFor id reason) (IsHeld id reason) (add_traffic a bytes)
    unfolding add_traffic add_account_bandwidth_usage
    Yields-add_traffic a bytes q = elim (Bool-cases (ltb 0 bytes)) [
      | inl e ↦ rw e (
          Yields-after (attempt (add_account_bandwidth_usage a.id (bytes / mib)))
            (added a (bytes / mib))
            (Keeps-attempt _ (
              Keeps-update _ (
                Keeps-set_account id reason a.id
                  (λ b. record b { bandwidth_used_mb = b.bandwidth_used_mb + bytes / mib })
                  (λ b i k. k))))
            (λ r. Yields-added a (bytes / mib) r q))
      | inr e ↦ rw e (Yields-pure a q)
    ]

    pub Keeps-suspend_over :
        (cfg : Settings) (plan : Plan) (a : Account)
        → IsHeld id reason a
        → Keeps (HoldsFor id reason) (suspend_over cfg plan a)
    unfolding suspend_over
    Keeps-suspend_over cfg plan a q = elim (Bool-cases (has_active a.status)) [
      | inl act ↦ rw act (
          by_usage
            (ltb 0 plan.bandwidth_quota_mb && leb plan.bandwidth_quota_mb a.bandwidth_used_mb)
            (active-other a q act))
      | inr act ↦ rw act (record { at = λ w h. h })
    ]
      where
        by_usage :
            (b : Bool)
            → (a.id == id) ≡ false
            → Keeps (HoldsFor id reason) (
                if b
                then ignore (suspend_account cfg a.id auto_suspend_bandwidth_reason)
                else pure tt)
        by_usage true other = Keeps-ignore _ (Keeps-suspend id reason cfg a.id _ other)
        by_usage false other = record { at = λ w h. h }

  -- Reading the traffic changes no account.
  Keeps-read_traffic :
      (s : Site) (t : Traffic) (r : Result Error (ℕ × ℕ))
      → Keeps (HoldsFor id reason) (read_traffic s t r)
  unfolding read_traffic set_site_net_baseline
  Keeps-read_traffic s t (err e) = record { at = λ w h. h }
  Keeps-read_traffic s t (ok (rx, tx)) =
      Keeps-then _ _ (Keeps-ignore _ (Keeps-update _ (λ db h. h))) (Keeps-pure _)

  Keeps-site_traffic :
      (engine : Engine) (s : Site) → Keeps (HoldsFor id reason) (site_traffic engine s)
  unfolding site_traffic
  Keeps-site_traffic engine s = by_status (is_running s.status) (engine.stats s.container_name)
    where
      by_status :
          (b : Bool) (o : Option Traffic)
          → Keeps (HoldsFor id reason) (if b then stats_traffic s o else pure 0)
      by_status false o = record { at = λ w h. h }
      by_status true none = unfold stats_traffic in (record { at = λ w h. h })
      by_status true (some t) =
          unfold stats_traffic get_site_net_baseline in
          Keeps-bind _ _ (Keeps-attempt _ (Keeps-query_one _)) (λ r. Keeps-read_traffic s t r)

  pub Keeps-sites_traffic :
      (engine : Engine) (ss : List Site) → Keeps (HoldsFor id reason) (sites_traffic engine ss)
  unfolding sites_traffic
  Keeps-sites_traffic engine [] = record { at = λ w h. h }
  Keeps-sites_traffic engine (s ∷ ss) = record {
    at =
        (Keeps-bind _ _ (Keeps-site_traffic engine s) (λ d.
          Keeps-bind _ _ (Keeps-sites_traffic engine ss) (λ later. Keeps-pure (d + later)))).at;
  }
