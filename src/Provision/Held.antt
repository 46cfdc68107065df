-- ===== src/Provision/Held.antt =====
-- Which operations of the service leave the suspension of an account alone.
use gocontrolpanel.Base.{
  ◌≡◌, inl, inr, Bool, true, false, some, List, [], ◌∷◌, Result, ok, err, ◌==◌, All, map_where,
  keep, arith, Bool-cases,
}
use gocontrolpanel.Go.Strings.{Text}
use gocontrolpanel.Models.{Uuid, Account, AccountStatus, active, suspended, Site}
use gocontrolpanel.Panel.{Error, Db}
use gocontrolpanel.Panel.Keeps.{
  Keeps, Keeps-bind, Keeps-then, Keeps-ignore, Keeps-attempt, Keeps-remote, Keeps-final,
  Keeps-query, Keeps-request, Keeps-update_found,
}
use gocontrolpanel.Store.Accounts.{
  is_account, set_account, with_status, update_account_status, get_system_settings,
}
use gocontrolpanel.Store.Sites.{list_sites, update_site_status, routing_table}
use gocontrolpanel.Provision.Edge.{Settings, sync_caddy, load}
use gocontrolpanel.Provision.Suspension.{Keeps-list_sites}
use gocontrolpanel.Provision.Accounts.{
  suspend_account, unsuspend_account, stop_all, start_all, started,
}

-- The row of the account with that identifier, if it is this one, is suspended for that reason.
abbrev pub IsHeld : Uuid → Text → Account → Type 0
IsHeld id reason a = is_account id a ≡ true → (a.status ≡ suspended) × (a.suspend_reason ≡ reason)

abbrev pub HoldsFor : Uuid → Text → Db → Type 0
HoldsFor id reason db = All (IsHeld id reason) db.accounts

pub All-map_where :
    {A : Type 0} (P : A → Type 0) (p : A → Bool) (f : A → A) (l : List A)
    → ((a : A) → p a ≡ true → P a → P (f a))
    → All P l
    → All P (map_where p f l)
All-map_where P p f [] k h = tt
All-map_where P p f (x ∷ l) k (h, hs) = elim (Bool-cases (p x)) [
  | inl e ↦ rw e (k x e h, All-map_where P p f l k hs)
  | inr e ↦ rw e (h, All-map_where P p f l k hs)
]

-- Lists of the table's rows.
pub All-keep :
    {A : Type 0} (P : A → Type 0) (p : A → Bool) (l : List A) → All P l → All P (keep p l)
All-keep P p [] h = tt
All-keep P p (x ∷ l) (h, hs) = elim (Bool-cases (p x)) [
  | inl e ↦ rw e (h, All-keep P p l hs)
  | inr e ↦ rw e (All-keep P p l hs)
]

module _ (id : Uuid) (reason : Text) where
  abbrev pub Held : Db → Type 0
  Held = HoldsFor id reason

  Keeps-sync : (cfg : Settings) → Keeps Held (sync_caddy cfg)
  unfolding sync_caddy routing_table get_system_settings load
  Keeps-sync cfg = Keeps-bind _ _ (Keeps-query _) (λ rows.
      Keeps-bind _ _ (Keeps-query _) (λ s. Keeps-then _ _ Keeps-remote (Keeps-final _ (λ w h. h))))

  Keeps-site_status :
      (target : Uuid) (status : _) (msg : Text) → Keeps Held (update_site_status target status msg)
  unfolding update_site_status
  Keeps-site_status target status msg = Keeps-update_found _ _ (λ db h. h)

  Keeps-stop : (sites : List Site) → Keeps Held (stop_all sites)
  unfolding stop_all
  Keeps-stop [] = record { at = λ w h. h }
  Keeps-stop (s ∷ ss) = record {
    at =
        (Keeps-then _ _ (Keeps-ignore _ (Keeps-request _))
          (Keeps-then _ _ (Keeps-ignore _ (Keeps-site_status s.id _ _)) (Keeps-stop ss))).at;
  }

  Keeps-started : (site : Uuid) (r : Result Error (Unit {0})) → Keeps Held (started site r)
  unfolding started
  Keeps-started site (ok u) = Keeps-ignore _ (Keeps-site_status site _ _)
  Keeps-started site (err e) = Keeps-ignore _ (Keeps-site_status site _ _)

  Keeps-start : (sites : List Site) → Keeps Held (start_all sites)
  unfolding start_all
  Keeps-start [] = record { at = λ w h. h }
  Keeps-start (s ∷ ss) = record {
    at =
        (Keeps-bind _ _ (Keeps-attempt _ (Keeps-request _))
          (λ r. Keeps-then _ _ (Keeps-started s.id r) (Keeps-start ss))).at;
  }

  -- A change that leaves the state of every row alone, or is made to another account.
  pub Keeps-set_account :
      (target : Uuid) (f : Account → Account)
      → ((a : Account) → is_account target a ≡ true → IsHeld id reason a → IsHeld id reason (f a))
      → (db : Db) → Held db
      → Held (set_account target f db)
  Keeps-set_account target f k db h =
      All-map_where (IsHeld id reason) (is_account target) f db.accounts k h

  Keeps-status :
      (target : Uuid) (status : AccountStatus) (why : Text)
      → (target == id) ≡ false
      → Keeps Held (update_account_status target status why)
  unfolding update_account_status
  Keeps-status target status why other =
      Keeps-update_found _ _
        (Keeps-set_account target (with_status status why) (λ a e h i. absurd (clash a e i)))
    where
      clash : (a : Account) → is_account target a ≡ true → is_account id a ≡ true → ⊥
      clash a e i = ground (arith, other)

  pub Keeps-suspend :
      (cfg : Settings) (target : Uuid) (why : Text)
      → (target == id) ≡ false
      → Keeps Held (suspend_account cfg target why)
  unfolding suspend_account
  Keeps-suspend cfg target why other = Keeps-then _ _ (Keeps-status target suspended why other) (
      Keeps-bind (list_sites (some target)) _ (Keeps-list_sites (some target))
        (λ sites. Keeps-then _ _ (Keeps-stop sites) (Keeps-sync cfg)))

  pub Keeps-unsuspend :
      (cfg : Settings) (target : Uuid)
      → (target == id) ≡ false
      → Keeps Held (unsuspend_account cfg target)
  unfolding unsuspend_account
  Keeps-unsuspend cfg target other = Keeps-then _ _ (Keeps-status target active [] other) (
      Keeps-bind (list_sites (some target)) _ (Keeps-list_sites (some target))
        (λ sites. Keeps-then _ _ (Keeps-start sites) (Keeps-sync cfg)))
