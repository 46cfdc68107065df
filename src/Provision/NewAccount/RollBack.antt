-- ===== src/Provision/NewAccount/RollBack.antt =====
-- `CreateAccount` undoes what it did where one call fails.
use gocontrolpanel.Base.{
  ℕ, ◌<◌, ◌≡◌, ◌≢◌, refl, sym, ap, subst, ◌∙◌, Bool, true, false, [], if◌then◌else◌, All, Result,
  ok, err,
}
use gocontrolpanel.Go.Strings.{Text, trim_space}
use gocontrolpanel.Models.{Uuid, Plan, Account}
use gocontrolpanel.Panel.{
  Error, validation, unavailable, make_dirs, Db, World, after, ◌>>=◌, ◌>>◌, pure, fail, attempt,
  request,
}
use gocontrolpanel.Panel.Once.{Once, Post, Post-bind, Post-request, Post-insert, Post-attempt}
use gocontrolpanel.Auth.Passwords.{Passwords}
use gocontrolpanel.Store.Accounts.{account_check, create_account, delete_account}
use gocontrolpanel.Provision.Edge.{Settings}
use gocontrolpanel.Provision.Input.{to_lower, normalize_domain, valid_system_user, valid_fqdn}
use gocontrolpanel.Provision.Sites.{create_site_op}
use gocontrolpanel.Provision.NewAccount.{
  Owner, existing, new_owner, CreateAccountInput, drop_owner, new_account, account_or_undo,
  prepare_account_dirs, dirs_or_undo, provision_main, main_site, create_account_op,
}
use gocontrolpanel.Provision.NewAccount.Undo.{IsFresh, with_account, delete_account-undo}
use gocontrolpanel.Provision.NewAccount.Owned.{
  violation-other, Same, AtStart, Owned, Post-guard, Post-resolve_plan, Post-resolve_owner,
}

module _ (D : Db) (n : ℕ) (fresh : IsFresh n D) where
  -- After the account: both deletions put the rows back.
  abbrev Recorded : Owner → Uuid → Uuid → World → Type 0
  Recorded owner owner_id id w =
      Once w.faults
      × ((e : Error) (v : World)
          → v.faults ≡ []
          → v.db ≡ w.db
          → (dirs_or_undo owner owner_id id (err e) v).1.db ≡ D)

  drop_fail :
      {B : Type 0} (R : B → World → Type 0) (owner : Owner) (owner_id : Uuid) (e : Error)
      (v : World)
      → (e ≡ unavailable → (drop_owner owner owner_id v).1.db ≡ D)
      → Post (Same D n fresh) R ((drop_owner owner owner_id >> fail e) v)
  unfolding drop_owner
  drop_fail R (existing id) owner_id e v h = h
  drop_fail R (new_owner email full_name username) owner_id e v h = h

  fail-db :
      (p : Result Error (Unit {0}) × World) (e : Error)
      → (after p (λ _. fail {A = Unit {0}} e)).1.db ≡ p.1.db
  fail-db (ok u, w) e = refl
  fail-db (err x, w) e = refl

  -- Without the account and the owner.
  both_undone :
      (owner : Owner) (owner_id : Uuid) (a : Account) (e : Error) (w v : World)
      → Owned D n fresh owner owner_id w
      → a.id ≡ w.next_id
      → v.faults ≡ []
      → v.db ≡ with_account a w.db
      → (dirs_or_undo owner owner_id w.next_id (err e) v).1.db ≡ D
  unfolding dirs_or_undo
  both_undone owner owner_id a e w v (o, accounts, sites, le, undo) same calm db =
      fail-db (drop_owner owner owner_id (delete_account w.next_id v).1) e
      ∙ ap (λ p. (drop_owner owner owner_id p.1).1.db) gone
      ∙ undo (record v { db = w.db }) calm refl
    where
      gone : delete_account w.next_id v ≡ (ok tt, record v { db = w.db })
      gone =
          delete_account-undo w.next_id n a w.db v
            (subst (All (λ a. (a.id < n) × (a.owner_id < n))) (sym accounts) fresh.accounts)
            (subst (All (λ s. s.account_id < n)) (sym sites) fresh.sites) le same calm db

  Post-account :
      (owner : Owner) (owner_id : Uuid) (acct : Account) (w : World)
      → Owned D n fresh owner owner_id w
      → Post
          (Same D n fresh)
          (Recorded owner owner_id)
          ((attempt (create_account acct) >>= account_or_undo owner owner_id) w)
  Post-account owner owner_id acct w (o, accounts, sites, le, undo) =
      Post-attempt (Same D n fresh) Untouched Placed (Recorded owner owner_id)
        (create_account acct w) (account_or_undo owner owner_id)
        (unfold create_account account_check in inserted)
        (λ id v h. unfold account_or_undo in (recorded id v h))
        (λ e v h.
          unfold account_or_undo in
          (drop_fail (Recorded owner owner_id) owner owner_id e v (λ q. undo v (h q).0 (h q).1)))
    where
      -- The row went in.
      Placed : Uuid → World → Type 0
      Placed id v =
          Once v.faults
          × (id ≡ w.next_id)
          × ((a : Account) × (a.id ≡ w.next_id) × (v.db ≡ with_account a w.db))

      Untouched : World → Type 0
      Untouched v = (v.faults ≡ []) × (v.db ≡ w.db)

      recorded : (id : Uuid) (v : World) → Placed id v → Recorded owner owner_id id v
      recorded id v (h, same, (a, key, db)) = (
        h,
        λ e y calm back.
            subst (λ i. (dirs_or_undo owner owner_id i (err e) y).1.db ≡ D) (sym same)
              (both_undone owner owner_id a e w y (o, accounts, sites, le, undo) key calm
                (back ∙ db)),
      )

      inserted : Post Untouched Placed (create_account acct w)
      inserted =
          unfold create_account in
          (Post-insert Untouched Placed (account_check acct) _ w o
            (unfold account_check in (violation-other _ _)) (λ rest h. (h, refl, (_, refl, refl)))
            (refl, refl))

  -- The four directories.
  Post-prepare_account_dirs :
      (cfg : Settings) (system_user : Text) (w : World)
      → Once w.faults
      → Post
          (λ v. (v.faults ≡ []) × (v.db ≡ w.db))
          (λ u v. Unit {0})
          (prepare_account_dirs cfg system_user w)
  unfolding prepare_account_dirs
  Post-prepare_account_dirs cfg system_user w once =
      Post-bind E R Q _ _ (made _ w once refl) (λ _ w1 (o1, d1).
        Post-bind E R Q _ _ (made _ w1 o1 d1) (λ _ w2 (o2, d2).
          Post-bind E R Q _ _ (made _ w2 o2 d2)
            (λ _ w3 (o3, d3). Post-request E R _ w3 o3 (λ rest h. tt) (refl, d3))))
    where
      E : World → Type 0
      E v = (v.faults ≡ []) × (v.db ≡ w.db)

      R : Unit {0} → World → Type 0
      R u v = Unit {0}

      Q : Unit {0} → World → Type 0
      Q u v = Once v.faults × (v.db ≡ w.db)

      made :
          (path : Text) (v : World)
          → Once v.faults
          → v.db ≡ w.db
          → Post E Q (request (make_dirs path) v)
      made path v o d = Post-request E Q (make_dirs path) v o (λ rest h. (h, d)) (refl, d)

  Post-undone_dirs :
      (cfg : Settings) (system_user : Text) (owner : Owner) (owner_id id : Uuid) (w : World)
      → Recorded owner owner_id id w
      → Post
          (Same D n fresh)
          (λ u v. Unit {0})
          ((attempt (prepare_account_dirs cfg system_user) >>= dirs_or_undo owner owner_id id) w)
  Post-undone_dirs cfg system_user owner owner_id id w (once, undo) =
      Post-attempt (Same D n fresh) (λ v. (v.faults ≡ []) × (v.db ≡ w.db)) (λ u v. Unit {0})
        (λ u v. Unit {0}) (prepare_account_dirs cfg system_user w) (dirs_or_undo owner owner_id id)
        (Post-prepare_account_dirs cfg system_user w once) (λ u v h. unfold dirs_or_undo in tt)
        (λ e v h. failed e v (λ q. undo e v (h q).0 (h q).1))
    where
      failed :
          (e : Error) (v : World)
          → (e ≡ unavailable → (dirs_or_undo owner owner_id id (err e) v).1.db ≡ D)
          → Post
              (Same D n fresh)
              (λ (u : Unit {0}) v. Unit {0})
              (dirs_or_undo owner owner_id id (err e) v)
      failed e v h =
          unfold dirs_or_undo in
          (drop_fail (λ u v. Unit {0}) owner owner_id e (delete_account id v).1
            (λ q. sym (fail-db (drop_owner owner owner_id (delete_account id v).1) e) ∙ h q))

  Post-provision_main :
      (cfg : Settings) (in' : CreateAccountInput) (primary_domain : Text) (plan : Plan) (id : Uuid)
      (w : World)
      → Post (Same D n fresh) (λ u v. Unit {0}) (provision_main cfg in' primary_domain plan id w)
  unfolding provision_main
  Post-provision_main cfg in' primary_domain plan id w = by_flag in'.provision
    where
      by_flag :
          (b : Bool)
          → Post
              (Same D n fresh)
              (λ (u : Unit {0}) v. Unit {0})
              ((if b
                  then (do
                    made ← attempt (create_site_op cfg (main_site in' primary_domain plan id))
                    pure tt)
                  else pure tt)
                w)
      by_flag true = tt
      by_flag false = tt

  -- The whole of it.
  Post-create_account_op :
      (p : Passwords) (cfg : Settings) (in' : CreateAccountInput) (w : World)
      → AtStart D n fresh tt w
      → Post (Same D n fresh) (λ id v. Unit {0}) (create_account_op p cfg in' w)
  unfolding create_account_op
  Post-create_account_op p cfg in' w h =
      Post-bind (Same D n fresh) R (AtStart D n fresh) _ _
        (Post-guard D n fresh (valid_system_user system_user) _ w other h)
        (λ _ w1 h1.
          Post-bind (Same D n fresh) R (AtStart D n fresh) _ _
            (Post-guard D n fresh (valid_fqdn primary_domain) _ w1 other h1)
            (λ _ w2 h2.
              Post-bind (Same D n fresh) R (AtStart D n fresh) _ _
                (Post-resolve_plan D n fresh in'.plan_id w2 h2)
                (λ plan w3 h3.
                  Post-bind (Same D n fresh) R (Owned D n fresh in'.owner) _ _
                    (Post-resolve_owner D n fresh p system_user in'.owner w3 h3)
                    (λ owner_id w4 h4.
                      Post-bind (Same D n fresh) R (Recorded in'.owner owner_id) _ _
                        (Post-account in'.owner owner_id
                          (new_account owner_id plan.id system_user primary_domain in'.notes) w4 h4)
                        (λ id w5 h5.
                          Post-bind (Same D n fresh) R (λ u v. Unit {0}) _ _
                            (Post-undone_dirs cfg system_user in'.owner owner_id id w5 h5)
                            (λ _ w6 h6.
                              Post-bind (Same D n fresh) R (λ u v. Unit {0}) _ _
                                (Post-provision_main cfg in' primary_domain plan id w6)
                                (λ _ w7 h7. tt)))))))
    where
      R : Uuid → World → Type 0
      R id v = Unit {0}

      system_user : Text
      system_user = to_lower (trim_space in'.system_user)

      primary_domain : Text
      primary_domain = normalize_domain in'.primary_domain

      other : {t : Text} → validation t ≢ unavailable
      other e = cc

-- Where at most one outside call fails and no row has or names an identifier that is still to be
-- given out, the rows are as before whenever CreateAccount answers with the failure of that call.
pub create_account_op-unavailable :
    (p : Passwords) (cfg : Settings) (in' : CreateAccountInput) (w : World) {w' : World}
    → Once w.faults
    → IsFresh w.next_id w.db
    → create_account_op p cfg in' w ≡ (err unavailable, w')
    → w'.db ≡ w.db
create_account_op-unavailable p cfg in' w {w'} once fresh h =
    subst (Post (Same w.db w.next_id fresh) (λ id v. Unit {0})) h
      (Post-create_account_op w.db w.next_id fresh p cfg in' w (once, refl, refl)) refl
