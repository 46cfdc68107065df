-- ===== src/Provision/NewAccount.antt =====
-- `CreateAccount` of internal/provision/service.go. The welcome mail is not modelled: it follows
-- everything else, reads only, and its errors go into the reply.
pub mod Undo
pub mod Owned
pub mod RollBack
use gocontrolpanel.Base.{
  ℕ, Bool, true, false, not, Option, none, some, List, [], ◌∷◌, Result, ok, err, ◌==◌,
  if◌then◌else◌,
}
use gocontrolpanel.Go.Strings.{Text, codes, is_empty, trim_space}
use gocontrolpanel.Go.Filepath.{join_path}
use gocontrolpanel.Models.{Uuid, Plan, Account, active, User, Role, user}
use gocontrolpanel.Panel.{
  Error, validation, unavailable, make_dirs, World, Exec, ◌>>=◌, ◌>>◌, pure, fail, attempt, ignore,
  request,
}
use gocontrolpanel.Auth.Passwords.{Passwords, hash_password}
use gocontrolpanel.Store.Users.{create_user, delete_user}
use gocontrolpanel.Store.Accounts.{get_plan, get_default_plan, create_account, delete_account}
use gocontrolpanel.Provision.Edge.{Settings}
use gocontrolpanel.Provision.Input.{to_lower, normalize_domain, valid_system_user, valid_fqdn}
use gocontrolpanel.Provision.Sites.{guard, or_text, CreateSiteInput, create_site_op}

-- `OwnerMode`: any text but `new` takes the owner that is named.
pub data Owner : Type 0 where
  existing : Uuid → Owner
  new_owner : (email full_name username : Text) → Owner

pub record CreateAccountInput : Type 0 where
  pub owner : Owner
  pub plan_id : Uuid
  pub system_user : Text
  pub primary_domain : Text
  pub notes : Text
  pub provision : Bool
  pub php_version : Text

unfoldable pub resolve_plan : Uuid → Exec Plan
unfolding get_plan get_default_plan
resolve_plan id = if id == 0 then get_default_plan else get_plan id

or_fail : Option Text → Exec Text
or_fail none = fail unavailable
or_fail (some t) = pure t

unfoldable pub new_user : Text → Text → Text → Text → User
new_user username email hash full_name = record {
  id = 0;
  username = username;
  email = email;
  password_hash = hash;
  full_name = full_name;
  role = user;
  parent_id = none;
  is_active = true;
  totp_secret = none;
  totp_enabled = false;
  totp_last_step = 0;
  must_change_password = true;
}

-- The randomness differs from one call to the next.
unfoldable pub create_owner_user : Passwords → Text → Text → Text → Text → Exec Uuid
unfolding or_fail hash_password new_user create_user to_lower trim_space
create_owner_user p system_user email full_name username = do
  guard (not (is_empty email)) (validation (codes "owner_email"))
  guard (not (is_empty full_name)) (validation (codes "owner_full_name"))
  plain ← (λ w. or_fail (p.random w.next_id) w)
  hash ← or_fail (hash_password p plain)
  create_user (new_user (or_text (to_lower (trim_space username)) system_user) email hash full_name)

pub resolve_owner : Passwords → Text → Owner → Exec Uuid
unfolding create_owner_user
resolve_owner p system_user (existing id) = pure id
resolve_owner p system_user (new_owner email full_name username) =
    create_owner_user p system_user email full_name username

-- What is undone where a later step fails; an error of that is passed over.
unfoldable pub drop_owner : Owner → Uuid → Exec (Unit {0})
unfolding delete_user
drop_owner (existing id) owner_id = pure tt
drop_owner (new_owner email full_name username) owner_id = ignore (delete_user owner_id)

unfoldable pub new_account : Uuid → Uuid → Text → Text → Text → Account
new_account owner_id plan_id system_user primary_domain notes = record {
  id = 0;
  owner_id = owner_id;
  plan_id = plan_id;
  system_user = system_user;
  primary_domain = primary_domain;
  status = active;
  suspend_reason = [];
  disk_used_mb = 0;
  bandwidth_used_mb = 0;
  bandwidth_reset_at = 0;
  notes = notes;
}

account_or_undo : Owner → Uuid → Result Error Uuid → Exec Uuid
unfolding drop_owner
account_or_undo owner owner_id (ok id) = pure id
account_or_undo owner owner_id (err e) = do drop_owner owner owner_id; fail e

unfoldable pub prepare_account_dirs : Settings → Text → Exec (Unit {0})
unfolding request join_path
prepare_account_dirs cfg system_user = do
  request (make_dirs (join_path (join_path cfg.sites_root system_user) (codes "sites")))
  request (make_dirs (join_path (join_path cfg.sites_root system_user) (codes "logs")))
  request (make_dirs (join_path (join_path cfg.sites_root system_user) (codes "backups")))
  request (make_dirs (join_path (join_path cfg.sites_root system_user) (codes "tmp")))

dirs_or_undo : Owner → Uuid → Uuid → Result Error (Unit {0}) → Exec (Unit {0})
unfolding drop_owner delete_account
dirs_or_undo owner owner_id id (ok u) = pure tt
dirs_or_undo owner owner_id id (err e) = do
  ignore (delete_account id)
  drop_owner owner owner_id
  fail e

last_text : Text → List Text → Text
last_text best [] = best
last_text best (t ∷ ts) = last_text t ts

main_site : CreateAccountInput → Text → Plan → Uuid → CreateSiteInput
unfolding last_text
main_site in' primary_domain plan id = record {
  account_id = id;
  name = codes "principal";
  php_version = or_text in'.php_version (last_text [] plan.php_versions);
  domain = primary_domain;
  document_root = codes "public";
  worker_script = [];
  worker_count = 0;
  env_vars = [];
}

-- A main site that fails leaves the account.
provision_main : Settings → CreateAccountInput → Text → Plan → Uuid → Exec (Unit {0})
unfolding create_site_op main_site
provision_main cfg in' primary_domain plan id =
    if in'.provision
    then (do made ← attempt (create_site_op cfg (main_site in' primary_domain plan id)); pure tt)
    else pure tt

unfoldable pub create_account_op : Passwords → Settings → CreateAccountInput → Exec Uuid
unfolding to_lower trim_space normalize_domain valid_system_user valid_fqdn resolve_plan
    resolve_owner new_account create_account account_or_undo prepare_account_dirs dirs_or_undo
    provision_main
create_account_op p cfg in' = do
  let system_user = to_lower (trim_space in'.system_user)
  let primary_domain = normalize_domain in'.primary_domain
  guard (valid_system_user system_user) (validation (codes "system_user"))
  guard (valid_fqdn primary_domain) (validation (codes "primary_domain"))
  plan ← resolve_plan in'.plan_id
  owner_id ← resolve_owner p system_user in'.owner
  made ←
      attempt (create_account (new_account owner_id plan.id system_user primary_domain in'.notes))
  id ← account_or_undo in'.owner owner_id made
  dirs ← attempt (prepare_account_dirs cfg system_user)
  dirs_or_undo in'.owner owner_id id dirs
  provision_main cfg in' primary_domain plan id
  pure id
