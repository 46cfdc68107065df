-- ===== src/Provision/NewAccount/Owned.antt =====
-- `CreateAccount` up to the owner: what the steps after it can undo.
use gocontrolpanel.Base.{
  ℕ, ◌≤◌, ◌≡◌, ◌≢◌, refl, sym, ap, subst, ◌∙◌, Bool, true, false, not, Option, none, some, [], ◌∷◌,
  ◌==◌, if◌then◌else◌, arith,
}
use gocontrolpanel.Go.Strings.{Text, is_empty, trim_space}
use gocontrolpanel.Models.{Uuid, User}
use gocontrolpanel.Panel.{Error, validation, unavailable, violation, Db, World}
use gocontrolpanel.Panel.Once.{Once, Post, Post-bind, Post-query_one, Post-insert}
use gocontrolpanel.Auth.Passwords.{Passwords, hash_password}
use gocontrolpanel.Store.Users.{create_user, delete_user}
use gocontrolpanel.Store.Accounts.{get_plan, get_default_plan}
use gocontrolpanel.Provision.Input.{to_lower}
use gocontrolpanel.Provision.Sites.{guard, or_text}
use gocontrolpanel.Provision.NewAccount.{
  Owner, existing, new_owner, resolve_plan, or_fail, new_user, create_owner_user, resolve_owner,
  drop_owner,
}
use gocontrolpanel.Provision.NewAccount.Undo.{IsFresh, with_user, delete_user-undo}

pub violation-other : (a b : Bool) → violation a b ≢ some unavailable
violation-other true b e = cc
violation-other false false e = cc
violation-other false true e = cc

module _ (D : Db) (n : ℕ) (fresh : IsFresh n D) where
  -- The rows are as they were.
  abbrev pub Same : World → Type 0
  Same w = w.db ≡ D

  -- Nothing was written yet.
  abbrev pub AtStart : {A : Type 0} → A → World → Type 0
  AtStart a w = Once w.faults × (w.db ≡ D) × (w.next_id ≡ n)

  pub Post-guard :
      (b : Bool) (e : Error) (w : World)
      → e ≢ unavailable
      → AtStart tt w
      → Post Same AtStart (guard b e w)
  Post-guard true e w other h = h
  Post-guard false e w other h = λ q. absurd (other q)

  pub Post-resolve_plan :
      (id : Uuid) (w : World) → AtStart tt w → Post Same AtStart (resolve_plan id w)
  unfolding resolve_plan get_plan get_default_plan
  Post-resolve_plan id w (o, d, i) = by_id (id == 0)
    where
      by_id : (b : Bool) → Post Same AtStart ((if b then get_default_plan else get_plan id) w)
      by_id true = Post-query_one Same AtStart _ w o (λ a rest h. (h, d, i)) d
      by_id false = Post-query_one Same AtStart _ w o (λ a rest h. (h, d, i)) d

  -- What the later steps may rely on: the owner can be dropped again.
  abbrev pub Owned : Owner → Uuid → World → Type 0
  Owned owner owner_id w =
      Once w.faults
      × (w.db.accounts ≡ D.accounts)
      × (w.db.sites ≡ D.sites)
      × (n ≤ w.next_id)
      × ((v : World) → v.faults ≡ [] → v.db ≡ w.db → (drop_owner owner owner_id v).1.db ≡ D)

  Post-or_fail : (o : Option Text) (w : World) → AtStart tt w → Post Same AtStart (or_fail o w)
  unfolding or_fail
  Post-or_fail none w (o, d, i) = λ e. d
  Post-or_fail (some t) w h = h

  Post-create_user :
      (u : User) (email full_name username : Text) (w : World)
      → u.parent_id ≡ none
      → AtStart tt w
      → Post Same (Owned (new_owner email full_name username)) (create_user u w)
  unfolding create_user
  Post-create_user u email full_name username w orphaned (o, d, i) =
      Post-insert Same (Owned (new_owner email full_name username)) _
        (λ id db. record db {
          users =
              record u { id = id; totp_secret = none; totp_enabled = false; totp_last_step = 0 }
              ∷ db.users;
        })
        w o (violation-other _ true)
        (λ rest h.
          (h, ap (λ (x : Db). x.accounts) d, ap (λ (x : Db). x.sites) d, ground arith, undo))
        d
    where
      made : User
      made = record u {
        id = w.next_id;
        totp_secret = none;
        totp_enabled = false;
        totp_last_step = 0;
      }

      delete_user-undo' :
          (v : World) → v.faults ≡ [] → v.db ≡ with_user made D → (delete_user w.next_id v).1.db ≡ D
      delete_user-undo' v calm e =
          subst (λ m. (delete_user m v).1.db ≡ D) (sym i)
            (delete_user-undo n made D v fresh i calm e)

      undo :
          (v : World)
          → v.faults ≡ []
          → v.db ≡ with_user made w.db
          → (drop_owner (new_owner email full_name username) w.next_id v).1.db ≡ D
      undo v calm e = unfold drop_owner in (delete_user-undo' v calm (e ∙ ap (with_user made) d))

  Post-create_owner_user :
      (p : Passwords) (system_user email full_name username : Text) (w : World)
      → AtStart tt w
      → Post Same
          (Owned (new_owner email full_name username))
          (create_owner_user p system_user email full_name username w)
  unfolding create_owner_user new_user
  Post-create_owner_user p system_user email full_name username w h =
      Post-bind Same R AtStart _ _ (Post-guard (not (is_empty email)) _ w other h) (λ _ w1 h1.
        Post-bind Same R AtStart _ _ (Post-guard (not (is_empty full_name)) _ w1 other h1)
          (λ _ w2 h2.
            Post-bind Same R AtStart _ _ (Post-or_fail (p.random w2.next_id) w2 h2) (λ plain w3 h3.
              Post-bind Same R AtStart _ _ (Post-or_fail (hash_password p plain) w3 h3)
                (λ hash w4 h4.
                  Post-create_user
                    (new_user (or_text (to_lower (trim_space username)) system_user) email hash
                      full_name)
                    email full_name username w4 refl h4))))
    where
      R : Uuid → World → Type 0
      R = Owned (new_owner email full_name username)

      other : {t : Text} → validation t ≢ unavailable
      other e = cc

  pub Post-resolve_owner :
      (p : Passwords) (system_user : Text) (owner : Owner) (w : World)
      → AtStart tt w
      → Post Same (Owned owner) (resolve_owner p system_user owner w)
  unfolding resolve_owner
  Post-resolve_owner p system_user (existing id) w (o, d, i) = (
    o,
    ap (λ (x : Db). x.accounts) d,
    ap (λ (x : Db). x.sites) d,
    ground arith,
    λ v calm e. unfold drop_owner in (e ∙ d),
  )
  Post-resolve_owner p system_user (new_owner email full_name username) w h =
      Post-create_owner_user p system_user email full_name username w h
