-- ===== src/Api/Files/Accounts.antt =====
-- The file explorer of an account, from the check of access on.
use gocontrolpanel.Base.{◌≡◌, true, List, All}
use gocontrolpanel.Models.{Account}
use gocontrolpanel.Provision.Input.{valid_system_user}

-- The names of the accounts' folders are those that `CreateAccount` lets through.
abbrev pub AreValid : List Account → Type 0
AreValid accounts = All (λ a. valid_system_user a.system_user ≡ true) accounts
