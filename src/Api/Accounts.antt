-- ===== src/Api/Accounts.antt =====
-- internal/api/handlers_accounts.go, less the plans, from requests that are decoded. A reply's body is
-- not modelled but for the rows that it shows.
pub mod Managed
use gocontrolpanel.Base.{
  Bool, true, false, Option, none, some, List, Result, ok, err, ◌==◌, ◌||◌, if◌then◌else◌,
}
use gocontrolpanel.Go.Strings.{Text, codes}
use gocontrolpanel.Models.{Uuid, is_admin, User, Plan, Account, Site}
use gocontrolpanel.Panel.{
  Error, refused, audit, World, Exec, ◌>>=◌, ◌>>◌, pure, fail, attempt, ignore, request,
}
use gocontrolpanel.Auth.Passwords.{Passwords}
use gocontrolpanel.Store.Users.{get_user_by_id}
use gocontrolpanel.Store.Accounts.{get_plan, list_accounts, update_account_plan}
use gocontrolpanel.Store.Sites.{list_sites}
use gocontrolpanel.Provision.Edge.{Settings}
use gocontrolpanel.Provision.Accounts.{suspend_account, unsuspend_account, terminate_account}
use gocontrolpanel.Provision.NewAccount.{
  Owner, existing, new_owner, CreateAccountInput, create_account_op,
}
use gocontrolpanel.Api.Access.{Identity, scope_for, has_parent, authorize_account}

unfoldable pub handle_list_accounts : Identity → Exec (List Account)
unfolding scope_for list_accounts
handle_list_accounts id = list_accounts (scope_for id)

-- The account, its plan where it can be read, and its sites.
unfoldable pub handle_get_account : Identity → Uuid → Exec (Account × Result Error Plan × List Site)
unfolding authorize_account get_plan list_sites
handle_get_account id account_id = do
  acct ← authorize_account id account_id
  plan ← attempt (get_plan acct.plan_id)
  sites ← list_sites (some acct.id)
  pure (acct, plan, sites)

-- `owner_mode` and the fields that belong to it; `owner_id` may be missing.
pub data OwnerRequest : Type 0 where
  new_client : (email full_name username : Text) → OwnerRequest
  chosen : Option Uuid → OwnerRequest

pub record CreateAccountRequest : Type 0 where
  pub owner : OwnerRequest
  pub plan_id : Uuid
  pub system_user : Text
  pub primary_domain : Text
  pub notes : Text
  pub provision : Bool
  pub php_version : Text

own_child : Identity → Uuid → Result Error User → Exec Owner
unfolding has_parent
own_child id owner_id (err e) = fail (refused 403)
own_child id owner_id (ok owner) =
    if has_parent id.user_id owner then pure (existing owner_id) else fail (refused 403)

unfoldable pub owner_for : Identity → OwnerRequest → Exec Owner
unfolding is_admin get_user_by_id own_child
owner_for id (new_client email full_name username) = pure (new_owner email full_name username)
owner_for id (chosen none) = pure (existing id.user_id)
owner_for id (chosen (some owner_id)) =
    if is_admin id.role || (owner_id == id.user_id)
    then pure (existing owner_id)
    else (do owner ← attempt (get_user_by_id owner_id); own_child id owner_id owner)

input_of : CreateAccountRequest → Owner → CreateAccountInput
input_of req owner = record {
  owner = owner;
  plan_id = req.plan_id;
  system_user = req.system_user;
  primary_domain = req.primary_domain;
  notes = req.notes;
  provision = req.provision;
  php_version = req.php_version;
}

create_for : Passwords → Settings → CreateAccountRequest → Owner → Exec (Unit {0})
unfolding input_of create_account_op request
create_for p cfg req owner = do
  id ← create_account_op p cfg (input_of req owner)
  ignore (request (audit (codes "account.create")))

unfoldable pub handle_create_account :
    Passwords → Settings → Identity → CreateAccountRequest → Exec (Unit {0})
unfolding owner_for create_for
handle_create_account p cfg id req = do owner ← owner_for id req.owner; create_for p cfg req owner

pub data AccountOp : Type 0 where
  suspend : (reason : Text) → AccountOp
  unsuspend : AccountOp
  change_plan : Uuid → AccountOp
  terminate : (delete_files : Bool) → AccountOp

account_op : Settings → Uuid → AccountOp → Exec (Unit {0})
unfolding suspend_account unsuspend_account update_account_plan terminate_account request
account_op cfg account_id (suspend reason) = do
  suspend_account cfg account_id reason
  ignore (request (audit (codes "account.suspend")))
account_op cfg account_id unsuspend = do
  unsuspend_account cfg account_id
  ignore (request (audit (codes "account.unsuspend")))
account_op cfg account_id (change_plan plan_id) = update_account_plan account_id plan_id
account_op cfg account_id (terminate delete_files) = do
  terminate_account cfg account_id delete_files
  ignore (request (audit (codes "account.terminate")))

-- The four handlers of one account.
unfoldable pub handle_account : Settings → Identity → Uuid → AccountOp → Exec (Unit {0})
unfolding authorize_account account_op
handle_account cfg id account_id op = do
  acct ← authorize_account id account_id
  account_op cfg account_id op
