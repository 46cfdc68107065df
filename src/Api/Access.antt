-- ===== src/Api/Access.antt =====
-- internal/api/access.go, `Identity` of internal/auth, and `canManageUser` of
-- internal/api/handlers_users.go: who may act on what. A path parameter is parsed before these run.
pub mod Manages
pub mod Confined
use gocontrolpanel.Base.{
  Bool, true, false, Option, none, some, Result, ok, err, ◌==◌, ◌||◌, ◌&&◌, if◌then◌else◌,
}
use gocontrolpanel.Go.Strings.{Text}
use gocontrolpanel.Models.{Uuid, Role, is_admin, is_reseller, User, Account, Site}
use gocontrolpanel.Panel.{Error, forbidden, World, Exec, ◌>>=◌, attempt, pure, fail}
use gocontrolpanel.Store.Users.{get_user_by_id}
use gocontrolpanel.Store.Accounts.{get_account}
use gocontrolpanel.Store.Sites.{get_site}

pub record Identity : Type 0 where
  pub user_id : Uuid
  pub username : Text
  pub role : Role

-- The owner filter of a list: none for an admin.
unfoldable pub scope_for : Identity → Option Uuid
unfolding is_admin
scope_for id = if is_admin id.role then none else some id.user_id

-- `u.ParentID != nil && *u.ParentID == id`
abbrev pub parent_is : Uuid → Option Uuid → Bool
parent_is id none = false
parent_is id (some p) = p == id

unfoldable pub has_parent : Uuid → User → Bool
has_parent id u = parent_is id u.parent_id

parent_granted : Identity → Account → Result Error User → Exec Account
unfolding has_parent
parent_granted id acct (err e) = fail forbidden
parent_granted id acct (ok owner) =
    if has_parent id.user_id owner then pure acct else fail forbidden

granted : Identity → Account → Exec Account
unfolding is_admin is_reseller parent_granted
granted id acct =
    if is_admin id.role || (acct.owner_id == id.user_id)
    then pure acct
    else if is_reseller id.role
    then (do owner ← attempt (get_user_by_id acct.owner_id); parent_granted id acct owner)
    else fail forbidden

unfoldable pub authorize_account : Identity → Uuid → Exec Account
unfolding granted
authorize_account id account_id = do acct ← get_account account_id; granted id acct

unfoldable pub authorize_site : Identity → Uuid → Exec (Site × Account)
unfolding authorize_account
authorize_site id site_id = do
  site ← get_site site_id
  acct ← authorize_account id site.account_id
  pure (site, acct)

unfoldable pub can_manage_user : Identity → User → Bool
unfolding is_admin is_reseller has_parent
can_manage_user actor target =
    if is_admin actor.role
    then true
    else if is_reseller actor.role
    then has_parent actor.user_id target
    else target.id == actor.user_id
