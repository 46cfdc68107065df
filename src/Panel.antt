-- ===== src/Panel.antt =====
-- The state that the panel works on, and the actions on it: the rows of its database, the last
-- configuration that the edge accepted, and the requests made to the container engine. Each call
-- that leaves the process takes one entry of `faults`: `true` is a failure, with no effect.
pub mod Rules
pub mod Keeps
pub mod Calls
pub mod Calm
pub mod Yields
pub mod Once
use gocontrolpanel.Base.{
  ℕ, ◌+◌, Bool, true, false, ◌&&◌, Option, none, some, List, [], ◌∷◌, ◌++◌, Result, ok, err,
  if◌then◌else◌,
}
use gocontrolpanel.Go.Strings.{Text}
use gocontrolpanel.Models.{Uuid, User, Plan, Account, Site, Domain, SystemSettings}
use gocontrolpanel.Caddy.{Config}

-- `refused` is a status that a handler answers with by itself.
pub data Error : Type 0 where
  not_found : Error
  forbidden : Error
  conflict : Error
  constraint : Error
  unavailable : Error
  validation : Text → Error
  refused : ℕ → Error

pub record Session : Type 0 where
  pub user_id : Uuid
  pub refresh_hash : Text
  pub expires_at : ℕ
  pub is_revoked : Bool

pub record Db : Type 0 where
  pub users : List User
  pub plans : List Plan
  pub accounts : List Account
  pub sites : List Site
  pub domains : List Domain
  pub sessions : List Session
  pub settings : SystemSettings

-- `SiteSpec` of internal/dockerx/manager.go: the container of a site.
pub record SiteSpec : Type 0 where
  pub name : Text
  pub image : Text
  pub site_id : Uuid
  pub account_user : Text
  pub host_path : Text
  pub document_root : Text
  pub env : List (Text × Text)
  pub worker_script : Text
  pub worker_count : ℕ
  pub cpu_limit : ℕ
  pub memory_limit_mb : ℕ
  pub read_only_root : Bool

-- The requests to the container engine and to the file system, by container or path.
pub data Call : Type 0 where
  start stop restart remove_container wait_healthy : Text → Call
  create_container : SiteSpec → Call
  make_dirs remove_all read_file write_file : Text → Call
  rename_file : (from to : Text) → Call
  audit : Text → Call

pub record World : Type 0 where
  pub db : Db
  pub edge : Option Config
  pub calls : List Call
  pub faults : List Bool
  pub next_id : Uuid
  pub clock : ℕ

-- What was changed before an error stays changed.
abbrev pub Exec : Type 0 → Type 0
Exec A = World → Result Error A × World

abbrev pub after : {A B : Type 0} → Result Error A × World → (A → Exec B) → Result Error B × World
after (ok a, w) f = f a w
after (err e, w) f = (err e, w)

infixl 5 ◌>>=◌ ◌>>◌
abbrev pub ◌>>=◌ : {A B : Type 0} → Exec A → (A → Exec B) → Exec B
◌>>=◌ m f w = after (m w) f

abbrev pub ◌>>◌ : {B : Type 0} → Exec (Unit {0}) → Exec B → Exec B
◌>>◌ m k w = after (m w) (λ _. k)

abbrev pub pure : {A : Type 0} → A → Exec A
pure a w = (ok a, w)

abbrev pub fail : {A : Type 0} → Error → Exec A
fail e w = (err e, w)

-- `err` is looked at and the caller goes on: `_ = f()`, or a branch on it.
abbrev pub attempt : {A : Type 0} → Exec A → Exec (Result Error A)
attempt m w = let (r, w') = m w in (ok r, w')

abbrev pub ignore : {A : Type 0} → Exec A → Exec (Unit {0})
ignore m w = (ok tt, (m w).1)

-- One call outside the process.
take_fault : World → List Bool → Result Error (Unit {0}) × World
take_fault w [] = (ok tt, w)
take_fault w (true ∷ rest) = (err unavailable, record w { faults = rest })
take_fault w (false ∷ rest) = (ok tt, record w { faults = rest })

unfoldable pub remote : Exec (Unit {0})
unfolding take_fault
remote w = take_fault w w.faults

unfoldable pub query : {A : Type 0} → (Db → A) → Exec A
unfolding remote
query f = do remote; λ w. (ok (f w.db), w)

unfoldable pub update : (Db → Db) → Exec (Unit {0})
unfolding remote
update f = do remote; λ w. (ok tt, record w { db = f w.db })

-- An UPDATE or DELETE that reports `ErrNotFound` where no row was affected.
unfoldable pub update_found : (Db → Bool) → (Db → Db) → Exec (Unit {0})
unfolding remote
update_found found f = do
  remote
  λ w. if found w.db then (ok tt, record w { db = f w.db }) else (err not_found, w)

-- An UPDATE of a column that is UNIQUE: a row that is not there clashes with none.
unfoldable pub update_checked : (clash found : Db → Bool) → (Db → Db) → Exec (Unit {0})
unfolding update_found
update_checked clash found f w =
    if found w.db && clash w.db
    then (do remote; λ v. (err conflict, v)) w
    else update_found found f w

or_not_found : {A : Type 0} → Option A → Exec A
or_not_found none w = (err not_found, w)
or_not_found (some a) w = (ok a, w)

-- A SELECT of one row: `pgx.ErrNoRows` becomes `ErrNotFound`.
unfoldable pub query_one : {A : Type 0} → (Db → Option A) → Exec A
unfolding remote or_not_found
query_one f = do remote; λ w. or_not_found (f w.db) w

-- What PostgreSQL says of a row: a unique violation first, then a reference that is not there.
abbrev pub violation : (clash refers : Bool) → Option Error
violation true refers = some conflict
violation false false = some constraint
violation false true = none

insert_row : Option Error → (Uuid → Db → Db) → Exec Uuid
insert_row none f w = (ok w.next_id, record w { db = f w.next_id w.db; next_id = w.next_id + 1 })
insert_row (some e) f w = (err e, w)

-- An INSERT; the row gets the next identifier.
unfoldable pub insert : (Db → Option Error) → (Uuid → Db → Db) → Exec Uuid
unfolding remote insert_row
insert check f = do remote; λ w. insert_row (check w.db) f w

unfoldable pub request : Call → Exec (Unit {0})
unfolding remote
request c = do remote; λ w. (ok tt, record w { calls = w.calls ++ c ∷ [] })
