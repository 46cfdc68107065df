-- ===== src/Tests/FilesTests.antt =====
-- Requests on files, users and sites at concrete rows.
use gocontrolpanel.Base.{◌≡◌, refl, ◌⊎◌, some, none, true, false, [], ◌∷◌, err, arith, Bool}
use gocontrolpanel.Go.Strings.{codes, text_eq, contains_byte}
use gocontrolpanel.Models.{Uuid, is_admin}
use gocontrolpanel.Panel.{World, Error}
use gocontrolpanel.Auth.Passwords.{Passwords}
use gocontrolpanel.Provision.Input.{valid_system_user}
use gocontrolpanel.Store.Users.{get_user_by_id}
use gocontrolpanel.Api.Files.{Fs, delete, handle_files}
use gocontrolpanel.Api.Users.{CreateUserRequest, handle_create_user}
use gocontrolpanel.Api.Users.Admins.{AdminsAmong}
use gocontrolpanel.Api.Users.Roles.{create, run_user_op, run_user_op-AdminsAmong}
use gocontrolpanel.Api.Accounts.{suspend}
use gocontrolpanel.Api.Accounts.Managed.{
  on, run_account_request, MayAsk, run_account_request-MayAsk,
}
use gocontrolpanel.Api.Sites.{stop_it, handle_site}
use gocontrolpanel.Api.Sites.Managed.{ManagesSite, handle_site-ManagesSite}
use gocontrolpanel.Provision.NewAccount.{CreateAccountInput, new_owner, create_account_op}
use gocontrolpanel.Provision.NewAccount.Undo.{IsFresh}
use gocontrolpanel.Provision.NewAccount.RollBack.{create_account_op-unavailable}
use gocontrolpanel.Panel.Once.{now, later}
use gocontrolpanel.Tests.Fixtures.{cfg, calm, as_ana}

abbrev disk : Fs
disk = record { stat = λ p. none; read_bytes = λ p. []; open_zip = λ p. none }

runs : Unit {0}
unfolding handle_files create_account_op handle_create_user handle_site get_user_by_id text_eq
    contains_byte valid_system_user is_admin
runs = tt

abbrev deleted : World
deleted = (handle_files cfg disk as_ana 10 (delete (codes "../x/../a")) calm).1

abbrev passwords : Passwords
passwords = record {
  generate = λ plain. some plain;
  verify = λ hash plain. true;
  random = λ n. some (codes "0123456789abcdef");
}

abbrev carl : CreateUserRequest
carl = record {
  username = codes "carl";
  email = codes "carl@x";
  password = codes "0123456789";
  full_name = [];
  role = none;
}

-- There is no admin before.
abbrev nobody : Uuid → Bool
nobody id = false

no_admins : AdminsAmong nobody calm.db
unfolding runs
no_admins = ((λ is. cc), ((λ is. cc), ((λ is. cc), tt)))

reseller_is_no_admin : is_admin as_ana.role ≡ false
unfolding runs
reseller_is_no_admin = refl

run_user_op-AdminsAmong_example :
    AdminsAmong nobody (run_user_op passwords as_ana (create carl) calm).1.db
run_user_op-AdminsAmong_example =
    run_user_op-AdminsAmong passwords as_ana (create carl) nobody calm reseller_is_no_admin
      no_admins

abbrev stopped_it : World
stopped_it = (handle_site cfg as_ana 20 stop_it calm).1

handle_site-ManagesSite_example :
    ((stopped_it.db ≡ calm.db) × (stopped_it.calls ≡ [])) ⊎ ManagesSite calm.db as_ana 20
handle_site-ManagesSite_example = handle_site-ManagesSite cfg as_ana 20 stop_it calm refl refl

abbrev asked : World
asked = (run_account_request passwords cfg as_ana (on 10 (suspend [])) calm).1

run_account_request-MayAsk_example :
    ((asked.db ≡ calm.db) × (asked.calls ≡ [])) ⊎ MayAsk calm.db as_ana (on 10 (suspend []))
run_account_request-MayAsk_example =
    run_account_request-MayAsk passwords cfg as_ana (on 10 (suspend [])) calm refl refl

abbrev dans : CreateAccountInput
dans = record {
  owner = new_owner (codes "dan@x") (codes "Dan") [];
  plan_id = 1;
  system_user = codes "dan";
  primary_domain = codes "d.io";
  notes = [];
  provision = false;
  php_version = [];
}

-- The first directory cannot be made.
abbrev full_disk : World
full_disk = record calm { faults = false ∷ false ∷ false ∷ true ∷ [] }

abbrev undone : World
undone = (create_account_op passwords cfg dans full_disk).1

undoes : create_account_op passwords cfg dans full_disk ≡ (err Error.unavailable, undone)
unfolding runs
undoes = refl

calm-IsFresh : IsFresh 100 calm.db
calm-IsFresh = record {
  users = ((omega arith, tt), ((omega arith, omega arith), ((omega arith, omega arith), tt)));
  accounts = ((omega arith, omega arith), tt);
  sites = (omega arith, tt);
  sessions = (omega arith, tt);
}

create_account_op-unavailable_example : undone.db ≡ calm.db
create_account_op-unavailable_example =
    create_account_op-unavailable passwords cfg dans full_disk (later (later (later now)))
      calm-IsFresh undoes
