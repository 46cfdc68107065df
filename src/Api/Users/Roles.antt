-- ===== src/Api/Users/Roles.antt =====
-- Nobody but an admin makes an admin.
use gocontrolpanel.Base.{
  ℕ, ◌≡◌, sym, ◌∙◌, Bool, true, false, not, ◌&&◌, ◌||◌, Option, none, some, ◌∷◌, ◌==◌, arith,
}
use gocontrolpanel.Go.Strings.{Text, codes, is_empty}
use gocontrolpanel.Models.{Uuid, Role, is_admin, role_valid, User}
use gocontrolpanel.Panel.{refused, World, Exec, ◌>>=◌, pure, attempt, ignore, request, audit}
use gocontrolpanel.Panel.Keeps.{
  Keeps, Keeps-bind, Keeps-then, Keeps-ignore, Keeps-attempt, Keeps-pure, Keeps-query_one,
  Keeps-request, Keeps-insert,
}
use gocontrolpanel.Panel.Yields.{Yields-bind}
use gocontrolpanel.Auth.Passwords.{Passwords, hash_password}
use gocontrolpanel.Store.Users.{
  create_user, get_user_by_id, update_user, update_password, delete_user, revoke_user_sessions,
}
use gocontrolpanel.Provision.NewAccount.{new_user}
use gocontrolpanel.Provision.Sites.{guard}
use gocontrolpanel.Api.Access.{Identity, can_manage_user}
use gocontrolpanel.Api.Users.{
  CreateUserRequest, UpdateUserRequest, or_user, may_create, parent_for, hash_or_refused, hashed,
  or_kept, role_allowed, turns_off, updated_user, revoke_if, refuse_err, or_refuse,
  handle_create_user, handle_update_user, handle_reset_password, handle_change_own_password,
  handle_delete_user,
}
use gocontrolpanel.Api.Users.Admins.{
  IsAmong, AdminsAmong, lower-not_admin, Keeps-guard, Keeps-guarded, Yields-get, Keeps-hash,
  Keeps-refuse, Keeps-revoke, Keeps-update_user, Keeps-revoke_if, Keeps-password, Keeps-delete,
}

pub data UserOp : Type 0 where
  create : CreateUserRequest → UserOp
  update_it : Uuid → UpdateUserRequest → UserOp
  reset : Uuid → Text → UserOp
  change : (current new_password : Text) → UserOp
  delete_it : Uuid → UserOp

forget_value : {A : Type 0} → Exec A → Exec (Unit {0})
forget_value m = m >>= λ a. pure tt

abbrev pub run_user_op : Passwords → Identity → UserOp → Exec (Unit {0})
unfolding forget_value
run_user_op p id (create req) = forget_value (handle_create_user p id req)
run_user_op p id (update_it user_id req) = forget_value (handle_update_user id user_id req)
run_user_op p id (reset user_id plain) = handle_reset_password p id user_id plain
run_user_op p id (change current new_password) =
    handle_change_own_password p id current new_password
run_user_op p id (delete_it user_id) = handle_delete_user id user_id

module _ (admins : Uuid → Bool) (p : Passwords) (id : Identity)
    (not_admin : is_admin id.role ≡ false) where
  Keeps-new : (u : User) → is_admin u.role ≡ false → Keeps (AdminsAmong admins) (create_user u)
  unfolding create_user
  Keeps-new u lower =
      Keeps-insert _
        (λ new db. record db {
          users =
              record u { id = new; totp_secret = none; totp_enabled = false; totp_last_step = 0 }
              ∷ db.users;
        })
        (λ new db c h. (λ is. absurd (clash (sym lower ∙ is)), h))
    where
      clash : false ≡ true → ⊥
      clash k = cc

  may_create-not_admin : (r : Role) → may_create id.role r ≡ true → is_admin r ≡ false
  unfolding may_create
  may_create-not_admin r h = lower-not_admin id.role r not_admin (ground arith)

  Keeps-create :
      (req : CreateUserRequest) → Keeps (AdminsAmong admins) (handle_create_user p id req)
  unfolding handle_create_user hashed
  Keeps-create req =
      Keeps-then (guard (role_valid (or_user req.role)) (refused 422)) _ (Keeps-guard admins _ _) (
        Keeps-guarded admins (may_create id.role (or_user req.role)) (refused 403) _ (λ may.
          Keeps-then (guard (not (is_empty req.username || is_empty req.email)) (refused 400)) _
            (Keeps-guard admins _ _)
            (Keeps-bind (hash_or_refused (hash_password p req.password)) _ (Keeps-hash admins _)
              (λ hash.
                Keeps-bind
                  (create_user (record (new_user req.username req.email hash req.full_name) {
                    role = or_user req.role;
                    parent_id = parent_for id;
                    must_change_password = false;
                  }))
                  _
                  (Keeps-new
                    (record (new_user req.username req.email hash req.full_name) {
                      role = or_user req.role;
                      parent_id = parent_for id;
                      must_change_password = false;
                    })
                    (may_create-not_admin (or_user req.role) may))
                  (λ created.
                    Keeps-then (ignore (request (audit (codes "user.create")))) _
                      (Keeps-ignore _ (Keeps-request _)) (Keeps-pure created))))))

  role_not_admin :
      (r : Option Role) (target : User)
      → role_allowed id.role r ≡ true
      → IsAmong admins target
      → is_admin (or_kept r target.role) ≡ true
      → admins target.id ≡ true
  unfolding role_allowed
  role_not_admin none target allowed h is = h is
  role_not_admin (some r) target allowed h is =
      absurd (clash (sym (lower-not_admin id.role r not_admin (ground arith)) ∙ is))
    where
      clash : false ≡ true → ⊥
      clash k = cc

  Keeps-updated :
      (req : UpdateUserRequest) (target : User)
      → role_allowed id.role req.role ≡ true
      → IsAmong admins target
      → Keeps (AdminsAmong admins) (update_user (updated_user req target))
  unfolding updated_user
  Keeps-updated req target allowed q =
      Keeps-update_user admins (updated_user req target) (role_not_admin req.role target allowed q)

  Keeps-update_it :
      (user_id : Uuid) (req : UpdateUserRequest)
      → Keeps (AdminsAmong admins) (handle_update_user id user_id req)
  unfolding handle_update_user
  Keeps-update_it user_id req =
      Yields-bind (get_user_by_id user_id) _ (Yields-get admins user_id) (λ target q.
        Keeps-then (guard (can_manage_user id target) (refused 403)) _ (Keeps-guard admins _ _) (
          Keeps-guarded admins (role_allowed id.role req.role) (refused 422) _ (λ allowed.
            Keeps-then
              (guard (not (turns_off req.is_active && (target.id == id.user_id))) (refused 409)) _
              (Keeps-guard admins _ _)
              (Keeps-then (update_user (updated_user req target)) _
                (Keeps-updated req target allowed q)
                (Keeps-then (revoke_if (turns_off req.is_active) target.id) _
                  (Keeps-revoke_if admins _ _) (Keeps-pure _))))))

  Keeps-get : (user_id : Uuid) → Keeps (AdminsAmong admins) (get_user_by_id user_id)
  unfolding get_user_by_id
  Keeps-get user_id = Keeps-query_one _

  Keeps-reset :
      (user_id : Uuid) (plain : Text)
      → Keeps (AdminsAmong admins) (handle_reset_password p id user_id plain)
  unfolding handle_reset_password hashed
  Keeps-reset user_id plain = Keeps-bind (get_user_by_id user_id) _ (Keeps-get user_id) (λ target.
      Keeps-then (guard (can_manage_user id target) (refused 403)) _ (Keeps-guard admins _ _) (
        Keeps-bind (hash_or_refused (hash_password p plain)) _ (Keeps-hash admins _) (λ hash.
          Keeps-then (update_password target.id hash) _ (Keeps-password admins _ _) (
            Keeps-then (ignore (revoke_user_sessions target.id)) _
              (Keeps-ignore _ (Keeps-revoke admins _)) (Keeps-ignore _ (Keeps-request _))))))

  Keeps-or_refuse :
      {A : Type 0} (status : ℕ) (m : Exec A)
      → Keeps (AdminsAmong admins) m
      → Keeps (AdminsAmong admins) (or_refuse status m)
  unfolding or_refuse
  Keeps-or_refuse status m k =
      Keeps-bind (attempt m) (refuse_err status) (Keeps-attempt m k) (Keeps-refuse admins status)

  Keeps-change :
      (current plain : Text)
      → Keeps (AdminsAmong admins) (handle_change_own_password p id current plain)
  unfolding handle_change_own_password hashed
  Keeps-change current plain =
      Keeps-bind (or_refuse 404 (get_user_by_id id.user_id)) _ (Keeps-or_refuse 404 _ (Keeps-get _))
        (λ me.
          Keeps-then (guard (p.verify me.password_hash current) (refused 403)) _
            (Keeps-guard admins _ _)
            (Keeps-bind (hash_or_refused (hash_password p plain)) _ (Keeps-hash admins _) (λ hash.
              Keeps-then (or_refuse 500 (update_password me.id hash)) _
                (Keeps-or_refuse 500 _ (Keeps-password admins _ _))
                (Keeps-then (ignore (revoke_user_sessions me.id)) _
                  (Keeps-ignore _ (Keeps-revoke admins _)) (Keeps-ignore _ (Keeps-request _))))))

  Keeps-delete_it : (user_id : Uuid) → Keeps (AdminsAmong admins) (handle_delete_user id user_id)
  unfolding handle_delete_user
  Keeps-delete_it user_id =
      Keeps-then (guard (not (user_id == id.user_id)) (refused 409)) _ (Keeps-guard admins _ _) (
        Keeps-bind (get_user_by_id user_id) _ (Keeps-get user_id) (λ target.
          Keeps-then (guard (can_manage_user id target) (refused 403)) _ (Keeps-guard admins _ _) (
            Keeps-then (delete_user user_id) _ (Keeps-delete admins user_id)
              (Keeps-ignore _ (Keeps-request _)))))

  Keeps-run_user_op : (op : UserOp) → Keeps (AdminsAmong admins) (run_user_op p id op)
  unfolding forget_value
  Keeps-run_user_op (create req) =
      Keeps-bind (handle_create_user p id req) _ (Keeps-create req) (λ a. Keeps-pure tt)
  Keeps-run_user_op (update_it user_id req) =
      Keeps-bind (handle_update_user id user_id req) _ (Keeps-update_it user_id req)
        (λ a. Keeps-pure tt)
  Keeps-run_user_op (reset user_id plain) = Keeps-reset user_id plain
  Keeps-run_user_op (change current plain) = Keeps-change current plain
  Keeps-run_user_op (delete_it user_id) = Keeps-delete_it user_id

-- A request on users that comes from someone who is not an admin makes no one an admin, whatever
-- calls fail.
pub run_user_op-AdminsAmong :
    (p : Passwords) (id : Identity) (op : UserOp) (admins : Uuid → Bool) (w : World)
    → is_admin id.role ≡ false
    → AdminsAmong admins w.db
    → AdminsAmong admins (run_user_op p id op w).1.db
run_user_op-AdminsAmong p id op admins w not_admin h =
    (Keeps-run_user_op admins p id not_admin op).at w h
