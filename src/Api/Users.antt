-- ===== src/Api/Users.antt =====
-- internal/api/handlers_users.go, and `handleMe` and `handleChangeOwnPassword` of handlers_auth.go,
-- from requests that are decoded. A reply's body is the row that it shows.
pub mod Admins
pub mod Roles
use gocontrolpanel.Base.{
  ℕ, Bool, true, false, not, ◌&&◌, ◌||◌, Option, none, some, List, Result, ok, err, ◌==◌,
  if◌then◌else◌,
}
use gocontrolpanel.Go.Strings.{Text, codes, is_empty}
use gocontrolpanel.Models.{Uuid, Role, role_valid, at_least, is_reseller, user, User}
use gocontrolpanel.Panel.{
  Error, refused, audit, World, Exec, ◌>>=◌, ◌>>◌, pure, fail, attempt, ignore, request, query,
}
use gocontrolpanel.Auth.Passwords.{Passwords, hash_password}
use gocontrolpanel.Store.Users.{
  create_user, get_user_by_id, list_users, update_user, update_password, delete_user,
  revoke_user_sessions,
}
use gocontrolpanel.Provision.NewAccount.{new_user}
use gocontrolpanel.Provision.Sites.{guard}
use gocontrolpanel.Api.Access.{Identity, scope_for, can_manage_user}

unfoldable pub handle_list_users : Identity → Exec (List User)
unfolding list_users scope_for
handle_list_users id = list_users (scope_for id)

pub refuse_err : {A : Type 0} → ℕ → Result Error A → Exec A
refuse_err status (err e) = fail (refused status)
refuse_err status (ok a) = pure a

-- Whatever the error is, the answer has this status.
unfoldable pub or_refuse : {A : Type 0} → ℕ → Exec A → Exec A
unfolding refuse_err
or_refuse status m = do r ← attempt m; refuse_err status r

unfoldable pub handle_me : Identity → Exec User
unfolding get_user_by_id or_refuse
handle_me id = or_refuse 404 (get_user_by_id id.user_id)

pub record CreateUserRequest : Type 0 where
  pub username : Text
  pub email : Text
  pub password : Text
  pub full_name : Text
  pub role : Option Role

-- An empty role.
or_user : Option Role → Role
or_user none = user
or_user (some r) = r

is_plain_user : Role → Bool
is_plain_user user = true
is_plain_user r = false

unfoldable pub may_create : Role → Role → Bool
unfolding at_least is_reseller is_plain_user
may_create actor role = at_least actor role && not (is_reseller actor && not (is_plain_user role))

parent_for : Identity → Option Uuid
unfolding is_reseller
parent_for id = if is_reseller id.role then some id.user_id else none

pub hash_or_refused : Option Text → Exec Text
hash_or_refused none = fail (refused 422)
hash_or_refused (some h) = pure h

hashed : Passwords → Text → Exec Text
unfolding hash_password hash_or_refused
hashed p plain = hash_or_refused (hash_password p plain)

unfoldable pub handle_create_user : Passwords → Identity → CreateUserRequest → Exec Uuid
unfolding or_user role_valid may_create hashed new_user parent_for create_user request
handle_create_user p id req = do
  let role = or_user req.role
  guard (role_valid role) (refused 422)
  guard (may_create id.role role) (refused 403)
  guard (not (is_empty req.username || is_empty req.email)) (refused 400)
  hash ← hashed p req.password
  created ← create_user (record (new_user req.username req.email hash req.full_name) {
    role = role;
    parent_id = parent_for id;
    must_change_password = false;
  })
  ignore (request (audit (codes "user.create")))
  pure created

pub record UpdateUserRequest : Type 0 where
  pub email : Option Text
  pub full_name : Option Text
  pub role : Option Role
  pub is_active : Option Bool

abbrev pub or_kept {ℓ} : {A : Type ℓ} → Option A → A → A
or_kept none kept = kept
or_kept (some a) kept = a

role_allowed : Role → Option Role → Bool
unfolding role_valid at_least
role_allowed actor none = true
role_allowed actor (some r) = role_valid r && at_least actor r

turns_off : Option Bool → Bool
turns_off none = false
turns_off (some b) = not b

-- The row as the request asks for it.
unfoldable pub updated_user : UpdateUserRequest → User → User
updated_user req target = record target {
  email = or_kept req.email target.email;
  full_name = or_kept req.full_name target.full_name;
  role = or_kept req.role target.role;
  is_active = or_kept req.is_active target.is_active;
}

pub revoke_if : Bool → Uuid → Exec (Unit {0})
unfolding revoke_user_sessions
revoke_if true id = ignore (revoke_user_sessions id)
revoke_if false id = pure tt

unfoldable pub handle_update_user : Identity → Uuid → UpdateUserRequest → Exec User
unfolding get_user_by_id can_manage_user role_allowed turns_off updated_user update_user revoke_if
handle_update_user id user_id req = do
  target ← get_user_by_id user_id
  guard (can_manage_user id target) (refused 403)
  guard (role_allowed id.role req.role) (refused 422)
  guard (not (turns_off req.is_active && (target.id == id.user_id))) (refused 409)
  update_user (updated_user req target)
  revoke_if (turns_off req.is_active) target.id
  pure (updated_user req target)

unfoldable pub handle_reset_password : Passwords → Identity → Uuid → Text → Exec (Unit {0})
unfolding get_user_by_id can_manage_user hashed update_password revoke_user_sessions request
handle_reset_password p id user_id new_password = do
  target ← get_user_by_id user_id
  guard (can_manage_user id target) (refused 403)
  hash ← hashed p new_password
  update_password target.id hash
  ignore (revoke_user_sessions target.id)
  ignore (request (audit (codes "user.password_reset")))

-- The sessions end with the password, the one of the request included.
unfoldable pub handle_change_own_password :
    Passwords → Identity → (current new_password : Text) → Exec (Unit {0})
unfolding get_user_by_id or_refuse hashed update_password revoke_user_sessions request
handle_change_own_password p id current new_password = do
  me ← or_refuse 404 (get_user_by_id id.user_id)
  guard (p.verify me.password_hash current) (refused 403)
  hash ← hashed p new_password
  or_refuse 500 (update_password me.id hash)
  ignore (revoke_user_sessions me.id)
  ignore (request (audit (codes "auth.password_changed")))

unfoldable pub handle_delete_user : Identity → Uuid → Exec (Unit {0})
unfolding get_user_by_id can_manage_user delete_user request
handle_delete_user id user_id = do
  guard (not (user_id == id.user_id)) (refused 409)
  target ← get_user_by_id user_id
  guard (can_manage_user id target) (refused 403)
  delete_user user_id
  ignore (request (audit (codes "user.delete")))
