-- ===== src/Api/Users/Admins.antt =====
-- The steps of the handlers of users that make no one an admin.
use gocontrolpanel.Base.{
  ℕ, ◌≡◌, refl, subst, inl, inr, Bool, true, false, not, Option, none, some, ◌==◌, arith, any,
  find?, keep, All, Bool-cases, Result, ok, err,
}
use gocontrolpanel.Base.Finds.{find-All}
use gocontrolpanel.Go.Strings.{Text}
use gocontrolpanel.Models.{Uuid, Role, admin, reseller, user, other, rank, at_least, is_admin, User}
use gocontrolpanel.Panel.{Error, Db, Exec, ◌>>◌}
use gocontrolpanel.Panel.Keeps.{
  Keeps, Keeps-then, Keeps-ignore, Keeps-remote, Keeps-pure, Keeps-update, Keeps-update_found,
  Keeps-update_checked,
}
use gocontrolpanel.Panel.Yields.{Yields, Yields-query_one}
use gocontrolpanel.Store.Users.{
  has_id, user_exists, set_user, orphan, get_user_by_id, takes_email, update_user, update_password,
  delete_user, revoke_user_sessions,
}
use gocontrolpanel.Provision.Held.{All-map_where, All-keep}
use gocontrolpanel.Provision.Sites.{guard}
use gocontrolpanel.Api.Users.{hash_or_refused, revoke_if, refuse_err}

-- The admins are among those with these identifiers.
abbrev pub IsAmong : (Uuid → Bool) → User → Type 0
IsAmong admins u = is_admin u.role ≡ true → admins u.id ≡ true

abbrev pub AdminsAmong : (Uuid → Bool) → Db → Type 0
AdminsAmong admins db = All (IsAmong admins) db.users

-- Who is no admin may not give that role.
pub lower-not_admin :
    (actor r : Role) → is_admin actor ≡ false → at_least actor r ≡ true → is_admin r ≡ false
unfolding is_admin at_least rank
lower-not_admin admin r h k = cc
lower-not_admin reseller admin h k = ground (arith, k)
lower-not_admin user admin h k = ground (arith, k)
lower-not_admin (other n) admin h k = ground (arith, k)
lower-not_admin a reseller h k = refl
lower-not_admin a user h k = refl
lower-not_admin a (other m) h k = refl

module _ (admins : Uuid → Bool) where
  pub Keeps-guard : (b : Bool) (e : Error) → Keeps (AdminsAmong admins) (guard b e)
  Keeps-guard true e = record { at = λ w h. h }
  Keeps-guard false e = record { at = λ w h. h }

  -- What follows a `guard` may use that its test holds.
  pub Keeps-guarded :
      {A : Type 0} (b : Bool) (e : Error) (m : Exec A)
      → (b ≡ true → Keeps (AdminsAmong admins) m)
      → Keeps (AdminsAmong admins) (guard b e >> m)
  Keeps-guarded true e m k = record { at = λ w h. (k refl).at w h }
  Keeps-guarded false e m k = record { at = λ w h. h }

  pub Yields-get : (id : Uuid) → Yields (AdminsAmong admins) (IsAmong admins) (get_user_by_id id)
  unfolding get_user_by_id
  Yields-get id =
      Yields-query_one (λ db. find? (has_id id) db.users)
        (λ db a h e. find-All (IsAmong admins) (has_id id) db.users h e)

  -- A change that keeps the key and the role.
  Keeps-set_user :
      (id : Uuid) (f : User → User)
      → ((u : User) → IsAmong admins u → IsAmong admins (f u))
      → (db : Db) → AdminsAmong admins db
      → AdminsAmong admins (set_user id f db)
  Keeps-set_user id f k db h = All-map_where (IsAmong admins) (has_id id) f db.users (λ u e. k u) h

  pub Keeps-hash : (o : Option Text) → Keeps (AdminsAmong admins) (hash_or_refused o)
  unfolding hash_or_refused
  Keeps-hash none = record { at = λ w h. h }
  Keeps-hash (some t) = record { at = λ w h. h }

  pub Keeps-refuse :
      {A : Type 0} (status : ℕ) (r : Result Error A)
      → Keeps (AdminsAmong admins) (refuse_err status r)
  unfolding refuse_err
  Keeps-refuse status (ok a) = record { at = λ w h. h }
  Keeps-refuse status (err e) = record { at = λ w h. h }

  pub Keeps-revoke : (id : Uuid) → Keeps (AdminsAmong admins) (revoke_user_sessions id)
  unfolding revoke_user_sessions
  Keeps-revoke id = Keeps-update _ (λ db h. h)

  pub Keeps-update_user : (u : User) → IsAmong admins u → Keeps (AdminsAmong admins) (update_user u)
  unfolding update_user
  Keeps-update_user u q =
      Keeps-update_checked (λ db. any (takes_email u) db.users) (user_exists u.id)
        (set_user u.id with_fields)
        (λ db h.
          All-map_where (IsAmong admins) (has_id u.id) with_fields db.users
            (λ v e k is. subst (λ i. admins i ≡ true) (same v e) (q is)) h)
    where
      with_fields : User → User
      with_fields v = record v {
        email = u.email;
        full_name = u.full_name;
        role = u.role;
        is_active = u.is_active;
      }

      same : (v : User) → has_id u.id v ≡ true → u.id ≡ v.id
      same v e = ground arith

  pub Keeps-revoke_if : (b : Bool) (id : Uuid) → Keeps (AdminsAmong admins) (revoke_if b id)
  unfolding revoke_if
  Keeps-revoke_if true id = Keeps-ignore _ (Keeps-revoke id)
  Keeps-revoke_if false id = Keeps-pure tt

  pub Keeps-password :
      (id : Uuid) (hash : Text) → Keeps (AdminsAmong admins) (update_password id hash)
  unfolding update_password
  Keeps-password id hash =
      Keeps-update_found _ _ (Keeps-set_user id (λ u. record u { password_hash = hash }) (λ u h. h))

  pub Keeps-delete : (id : Uuid) → Keeps (AdminsAmong admins) (delete_user id)
  unfolding delete_user orphan
  Keeps-delete id = Keeps-then _ _ Keeps-remote (record {
    at = λ w h. elim (Bool-cases (any (λ a. a.owner_id == id) w.db.accounts)) [
      | inl e ↦ rw e h
      | inr e ↦ elim (Bool-cases (user_exists id w.db)) [
        | inl f ↦
            rw (e, f)
              (All-map_where (IsAmong admins) (λ _. true) (orphan id)
                (keep (λ u. not (has_id id u)) w.db.users) (λ u g k. k)
                (All-keep (IsAmong admins) (λ u. not (has_id id u)) w.db.users h))
        | inr f ↦ rw (e, f) h
      ]
    ];
  })
