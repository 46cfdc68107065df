-- ===== src/Api/Accounts/Managed.antt =====
-- A request on accounts changes nothing for whoever may not manage them.
use gocontrolpanel.Base.{
  ◌≡◌, refl, ap, ◌⊎◌, inl, inr, ◌∙◌, none, some, ◌==◌, arith, Bool-cases, [], find?, Result, ok,
  err,
}
use gocontrolpanel.Models.{Uuid, admin, is_admin, User, Account}
use gocontrolpanel.Panel.{Error, Call, Db, World, Exec, attempt, ◌>>=◌}
use gocontrolpanel.Panel.Calls.{
  Confines, Confines-bind, Confines-pure, Confines-fail, Confines-attempt, Confines-if,
  Confines-query_one,
}
use gocontrolpanel.Panel.Keeps.{
  Keeps, Keeps-bind, Keeps-pure, Keeps-fail, Keeps-if, Keeps-attempt, Keeps-query_one,
}
use gocontrolpanel.Panel.Rules.{query_one_ok, bind-eq-ok, attempt-eq-ok}
use gocontrolpanel.Auth.Passwords.{Passwords}
use gocontrolpanel.Store.Users.{has_id, get_user_by_id}
use gocontrolpanel.Store.Accounts.{is_account}
use gocontrolpanel.Provision.Edge.{Settings}
use gocontrolpanel.Provision.NewAccount.{Owner}
use gocontrolpanel.Api.Access.{Identity, parent_is, has_parent, authorize_account}
use gocontrolpanel.Api.Access.Confined.{
  Confines-authorize_account, Keeps-authorize_account, checked_first,
}
use gocontrolpanel.Api.Access.Manages.{
  MayManage, is_admin_iff, parent_is_iff, authorize_account-MayManage,
}
use gocontrolpanel.Api.Accounts.{
  OwnerRequest, new_client, chosen, CreateAccountRequest, own_child, owner_for, create_for,
  handle_create_account, AccountOp, account_op, handle_account,
}

pub data AccountRequest : Type 0 where
  create : CreateAccountRequest → AccountRequest
  on : Uuid → AccountOp → AccountRequest

abbrev pub run_account_request : Passwords → Settings → Identity → AccountRequest → Exec (Unit {0})
run_account_request p cfg id (create req) = handle_create_account p cfg id req
run_account_request p cfg id (on account_id op) = handle_account cfg id account_id op

-- Who may be made the owner of a new account: the caller and its children, and anyone by an admin.
abbrev pub MayGive : Db → Identity → OwnerRequest → Type 0
MayGive db id (new_client email full_name username) = Unit {0}
MayGive db id (chosen none) = Unit {0}
MayGive db id (chosen (some owner_id)) =
    (id.role ≡ admin)
    ⊎ (owner_id ≡ id.user_id)
    ⊎ ((owner : User) × (find? (has_id owner_id) db.users ≡ some owner)
        × (owner.parent_id ≡ some id.user_id))

abbrev pub MayAsk : Db → Identity → AccountRequest → Type 0
MayAsk db id (create req) = MayGive db id req.owner
MayAsk db id (on account_id op) =
    (acct : Account) × (find? (is_account account_id) db.accounts ≡ some acct)
    × MayManage db id acct

own_child-ok :
    (id : Identity) (owner_id : Uuid) (r : Result Error User) (w : World) {o : Owner} {w' : World}
    → own_child id owner_id r w ≡ (ok o, w')
    → (owner : User) × (r ≡ ok owner) × (owner.parent_id ≡ some id.user_id)
unfolding own_child has_parent
own_child-ok id owner_id (err e) w h = cc
own_child-ok id owner_id (ok owner) w h = elim (Bool-cases (parent_is id.user_id owner.parent_id)) [
  | inl b ↦ (owner, refl, (parent_is_iff id.user_id owner.parent_id).0 b)
  | inr b ↦ let g = rw b at h in cc
]

owner_for-MayGive :
    (id : Identity) (req : OwnerRequest) (w : World) {o : Owner} {w' : World}
    → owner_for id req w ≡ (ok o, w')
    → MayGive w.db id req
unfolding owner_for get_user_by_id
owner_for-MayGive id (new_client email full_name username) w h = tt
owner_for-MayGive id (chosen none) w h = tt
owner_for-MayGive id (chosen (some owner_id)) w {o} {w'} h = elim (Bool-cases (is_admin id.role)) [
  | inl a ↦ inl ((is_admin_iff id.role).0 a)
  | inr a ↦ elim (Bool-cases (owner_id == id.user_id)) [
    | inl e ↦ inr (inl (ground arith))
    | inr e ↦ inr (inr (by_parent (rw (a, e) at h)))
  ]
]
  where
    by_parent :
        (attempt (get_user_by_id owner_id) >>= own_child id owner_id) w ≡ (ok o, w')
        → (owner : User) × (find? (has_id owner_id) w.db.users ≡ some owner)
          × (owner.parent_id ≡ some id.user_id)
    by_parent k =
        let (res, v, e, g) =
          bind-eq-ok (attempt (get_user_by_id owner_id)) (own_child id owner_id) w k in
        let (owner, found, parent) = own_child-ok id owner_id res v g in
        let (row, l) =
          query_one_ok _ w (attempt-eq-ok (get_user_by_id owner_id) w e ∙ ap (λ x. (x, v)) found) in
        (owner, row, parent)

Confines-owner_for :
    {P : Call → Type 0} (id : Identity) (req : OwnerRequest) → Confines P (owner_for id req)
unfolding owner_for get_user_by_id
Confines-owner_for id (new_client email full_name username) = Confines-pure _
Confines-owner_for id (chosen none) = Confines-pure _
Confines-owner_for {P} id (chosen (some owner_id)) =
    Confines-if _ _ _ (Confines-pure _)
      (Confines-bind _ _ (Confines-attempt _ (Confines-query_one _)) by_row)
  where
    by_row : (r : Result Error User) → Confines P (own_child id owner_id r)
    by_row (err e) = unfold own_child in (Confines-fail _)
    by_row (ok owner) = unfold own_child in (Confines-if _ _ _ (Confines-pure _) (Confines-fail _))

Keeps-owner_for :
    {P : Db → Type 0} (id : Identity) (req : OwnerRequest) → Keeps P (owner_for id req)
unfolding owner_for get_user_by_id
Keeps-owner_for id (new_client email full_name username) = Keeps-pure _
Keeps-owner_for id (chosen none) = Keeps-pure _
Keeps-owner_for {P} id (chosen (some owner_id)) =
    Keeps-if _ _ _ (Keeps-pure _) (Keeps-bind _ _ (Keeps-attempt _ (Keeps-query_one _)) by_row)
  where
    by_row : (r : Result Error User) → Keeps P (own_child id owner_id r)
    by_row (err e) = unfold own_child in (Keeps-fail _)
    by_row (ok owner) = unfold own_child in (Keeps-if _ _ _ (Keeps-pure _) (Keeps-fail _))

-- Where no call was made before, a request that creates, suspends, unsuspends or terminates an
-- account or changes its plan leaves the rows and makes no call, unless the rows had the account
-- and the caller is an admin, owns it, or is a reseller and the parent of its owner; for a
-- creation, unless the owner that it names is the caller or a user whose parent is the caller, or
-- the caller is an admin, or it names none, or a new client.
pub run_account_request-MayAsk :
    (p : Passwords) (cfg : Settings) (id : Identity) (req : AccountRequest) (w : World) {w' : World}
    → w.calls ≡ []
    → (run_account_request p cfg id req w).1 ≡ w'
    → ((w'.db ≡ w.db) × (w'.calls ≡ [])) ⊎ MayAsk w.db id req
unfolding handle_create_account handle_account
run_account_request-MayAsk p cfg id (create req) w none_yet h =
    checked_first (owner_for id req.owner) (create_for p cfg req) w none_yet
      (Keeps-owner_for id req.owner) (Confines-owner_for id req.owner)
      (λ o v e. owner_for-MayGive id req.owner w e) h
run_account_request-MayAsk p cfg id (on account_id op) w none_yet h =
    checked_first (authorize_account id account_id) (λ _. account_op cfg account_id op) w none_yet
      (Keeps-authorize_account id account_id) (Confines-authorize_account id account_id)
      (λ a v e. let (row, may) = authorize_account-MayManage id account_id w e in (a, row, may)) h
