-- ===== src/Api/Access/Confined.antt =====
-- The check of access asks nothing outside but the store, and changes nothing there.
use gocontrolpanel.Base.{◌≡◌, refl, sym, subst, ◌⊎◌, inl, inr, [], All, Result, ok, err}
use gocontrolpanel.Models.{Uuid, Account, User}
use gocontrolpanel.Panel.{Error, Call, Db, World, Exec, after, ◌>>=◌}
use gocontrolpanel.Panel.Calls.{
  Confines, no_calls, Confines-bind, Confines-pure, Confines-fail, Confines-attempt, Confines-then,
  Confines-if, Confines-remote, Confines-query_one,
}
use gocontrolpanel.Panel.Keeps.{
  Keeps, Keeps-bind, Keeps-then, Keeps-pure, Keeps-fail, Keeps-if, Keeps-attempt, Keeps-query_one,
  Keeps-remote,
}
use gocontrolpanel.Store.Sites.{get_site}
use gocontrolpanel.Store.Users.{get_user_by_id}
use gocontrolpanel.Store.Accounts.{get_account}
use gocontrolpanel.Api.Access.{Identity, parent_granted, granted, authorize_account, authorize_site}

module _ {P : Call → Type 0} where
  Confines-parent_granted :
      (id : Identity) (acct : Account) (r : Result Error User)
      → Confines P (parent_granted id acct r)
  unfolding parent_granted
  Confines-parent_granted id acct (err e) = Confines-fail _
  Confines-parent_granted id acct (ok owner) =
      Confines-if _ _ _ (Confines-pure acct) (Confines-fail _)

  pub Confines-authorize_account :
      (id : Identity) (account_id : Uuid) → Confines P (authorize_account id account_id)
  unfolding authorize_account get_account granted get_user_by_id
  Confines-authorize_account id account_id = Confines-bind _ _ (Confines-query_one _) (λ acct.
      Confines-if _ _ _ (Confines-pure acct) (
        Confines-if _ _ _
          (Confines-bind _ _ (Confines-attempt _ (Confines-query_one _))
            (λ r. Confines-parent_granted id acct r))
          (Confines-fail _)))

  Confines-get_site : (id : Uuid) → Confines P (get_site id)
  unfolding get_site
  Confines-get_site id =
      Confines-bind _ _ (Confines-query_one _)
        (λ s. Confines-then _ _ Confines-remote (Confines-pure s))

  pub Confines-authorize_site :
      (id : Identity) (site_id : Uuid) → Confines P (authorize_site id site_id)
  unfolding authorize_site
  Confines-authorize_site id site_id =
      Confines-bind (get_site site_id) _ (Confines-get_site site_id) (λ s.
        Confines-bind (authorize_account id s.account_id) _
          (Confines-authorize_account id s.account_id) (λ a. Confines-pure (s, a)))

module _ {P : Db → Type 0} where
  Keeps-parent_granted :
      (id : Identity) (acct : Account) (r : Result Error User) → Keeps P (parent_granted id acct r)
  unfolding parent_granted
  Keeps-parent_granted id acct (err e) = Keeps-fail _
  Keeps-parent_granted id acct (ok owner) = Keeps-if _ _ _ (Keeps-pure acct) (Keeps-fail _)

  pub Keeps-authorize_account :
      (id : Identity) (account_id : Uuid) → Keeps P (authorize_account id account_id)
  unfolding authorize_account get_account granted get_user_by_id
  Keeps-authorize_account id account_id = Keeps-bind _ _ (Keeps-query_one _) (λ acct.
      Keeps-if _ _ _ (Keeps-pure acct) (
        Keeps-if _ _ _
          (Keeps-bind _ _ (Keeps-attempt _ (Keeps-query_one _))
            (λ r. Keeps-parent_granted id acct r))
          (Keeps-fail _)))

  Keeps-get_site : (id : Uuid) → Keeps P (get_site id)
  unfolding get_site
  Keeps-get_site id =
      Keeps-bind _ _ (Keeps-query_one _) (λ s. Keeps-then _ _ Keeps-remote (Keeps-pure s))

  pub Keeps-authorize_site : (id : Identity) (site_id : Uuid) → Keeps P (authorize_site id site_id)
  unfolding authorize_site
  Keeps-authorize_site id site_id = Keeps-bind (get_site site_id) _ (Keeps-get_site site_id) (λ s.
      Keeps-bind (authorize_account id s.account_id) _ (Keeps-authorize_account id s.account_id)
        (λ a. Keeps-pure (s, a)))

abbrev pub IsUntouched : World → World → Type 0
IsUntouched w w' = (w'.db ≡ w.db) × (w'.calls ≡ [])

-- A request that begins with a check changes nothing where the check fails.
pub checked_first :
    {A : Type 0} {Q : Type 0} (m : Exec A) (k : A → Exec (Unit {0})) (w : World) {w' : World}
    → w.calls ≡ []
    → Keeps (λ d. d ≡ w.db) m
    → Confines (λ c. ⊥) m
    → ((a : A) (v : World) → m w ≡ (ok a, v) → Q)
    → ((m >>= k) w).1 ≡ w'
    → IsUntouched w w' ⊎ Q
checked_first {A} {Q} m k w {w'} none_yet keeps confines passed h = by_check (m w) refl h
  where
    by_check : (p : Result Error A × World) → m w ≡ p → (after p k).1 ≡ w' → IsUntouched w w' ⊎ Q
    by_check (ok a, v) e g = inr (passed a v e)
    by_check (err x, v) e g = inl (
        subst (IsUntouched w) g (
          subst (λ q. q.1.db ≡ w.db) e (keeps.at w refl),
          no_calls v.calls (
              subst (λ q. All (λ c. ⊥) q.1.calls) e
                (confines.at w (subst (All (λ c. ⊥)) (sym none_yet) tt))),
        ))
