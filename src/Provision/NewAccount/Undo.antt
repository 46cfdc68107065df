-- ===== src/Provision/NewAccount/Undo.antt =====
-- The deletions that `CreateAccount` falls back on put the rows back.
use gocontrolpanel.Base.{
  ℕ, ◌<◌, ◌≤◌, ◌≡◌, refl, ap, ap₂, ◌∙◌, Bool, true, false, not, ◌&&◌, Option, none, some, List, [],
  ◌∷◌, ◌==◌, if◌then◌else◌, arith, any, keep, All, map_where, ok, err,
}
use gocontrolpanel.Models.{Uuid, User, Account, Domain}
use gocontrolpanel.Panel.{not_found, constraint, Db, World, Exec, after}
use gocontrolpanel.Panel.Rules.{remote_calm}
use gocontrolpanel.Panel.Calm.{update_found_calm}
use gocontrolpanel.Store.Users.{has_id, user_exists, orphan, forget, delete_user}
use gocontrolpanel.Store.Accounts.{
  is_account, account_exists, owns_site, drop_account, delete_account,
}

abbrev pub ParentBelow : ℕ → Option Uuid → Type 0
ParentBelow n none = Unit {0}
ParentBelow n (some p) = p < n

-- No row has or names the identifier `n` or a later one.
pub record IsFresh (n : ℕ) (db : Db) : Type 0 where
  pub users : All (λ u. (u.id < n) × ParentBelow n u.parent_id) db.users
  pub accounts : All (λ a. (a.id < n) × (a.owner_id < n)) db.accounts
  pub sites : All (λ s. s.account_id < n) db.sites
  pub sessions : All (λ s. s.user_id < n) db.sessions

pub keep-All :
    {A : Type 0} (P : A → Type 0) (p : A → Bool) (l : List A)
    → ((a : A) → P a → p a ≡ true)
    → All P l
    → keep p l ≡ l
keep-All P p [] k h = refl
keep-All P p (a ∷ l) k (h, hs) = rw (k a h) (ap (λ x. a ∷ x) (keep-All P p l k hs))

keep-none :
    {A : Type 0} (p : A → Bool)
    → ((a : A) → p a ≡ false)
    → (l : List A) → keep (λ a. not (p a)) l ≡ l
keep-none p k [] = refl
keep-none p k (a ∷ l) = rw (k a) (ap (λ x. a ∷ x) (keep-none p k l))

any-All :
    {A : Type 0} (P : A → Type 0) (p : A → Bool) (l : List A)
    → ((a : A) → P a → p a ≡ false)
    → All P l
    → any p l ≡ false
any-All P p [] k h = refl
any-All P p (a ∷ l) k (h, hs) = rw (k a h) (any-All P p l k hs)

forget-below : (n : ℕ) (o : Option Uuid) → ParentBelow n o → forget n o ≡ o
unfolding forget
forget-below n none h = refl
forget-below n (some p) h = ground arith

orphan-below : (n : ℕ) (u : User) → ParentBelow n u.parent_id → orphan n u ≡ u
unfolding orphan
orphan-below n u h = ap (λ o. record u { parent_id = o }) (forget-below n u.parent_id h)

map_where-orphan :
    (n : ℕ) (us : List User)
    → All (λ u. (u.id < n) × ParentBelow n u.parent_id) us
    → map_where (λ _. true) (orphan n) us ≡ us
map_where-orphan n [] h = refl
map_where-orphan n (u ∷ us) ((i, p), hs) =
    ap₂ (λ x xs. x ∷ xs) (orphan-below n u p) (map_where-orphan n us hs)

abbrev pub with_user : User → Db → Db
with_user u db = record db { users = u ∷ db.users }

abbrev pub with_account : Account → Db → Db
with_account a db = record db { accounts = a ∷ db.accounts }

-- The new user goes without a trace.
pub delete_user-undo :
    (n : ℕ) (u : User) (db : Db) (w : World)
    → IsFresh n db
    → u.id ≡ n
    → w.faults ≡ []
    → w.db ≡ with_user u db
    → (delete_user n w).1.db ≡ db
unfolding delete_user
delete_user-undo n u db w fresh same calm e =
    ap (λ p. (after p removed).1.db) (remote_calm w calm)
    ∙ rw (owners, there) (ap without e ∙ restored)
  where
    without : Db → Db
    without d = record d {
      users = map_where (λ _. true) (orphan n) (keep (λ v. not (has_id n v)) d.users);
      sessions = keep (λ s. not (s.user_id == n)) d.sessions;
    }

    removed : Unit {0} → Exec (Unit {0})
    removed u v =
        if any (λ a. a.owner_id == n) v.db.accounts
        then (err constraint, v)
        else if user_exists n v.db
        then (
          ok tt,
          record v {
            db = record v.db {
              users = map_where (λ _. true) (orphan n) (keep (λ u. not (has_id n u)) v.db.users);
              sessions = keep (λ s. not (s.user_id == n)) v.db.sessions;
            };
          },
        )
        else (err not_found, v)

    owners : any (λ a. a.owner_id == n) w.db.accounts ≡ false
    owners =
        ap (λ (d : Db). any (λ a. a.owner_id == n) d.accounts) e
        ∙ any-All (λ a. (a.id < n) × (a.owner_id < n)) (λ a. a.owner_id == n) db.accounts
            (λ a h. ground arith) fresh.accounts

    here : user_exists n (with_user u db) ≡ true
    here = ground arith

    there : user_exists n w.db ≡ true
    there = ap (user_exists n) e ∙ here

    gone : not (has_id n u) ≡ false
    gone = ground arith

    restored :
        record db {
          users = map_where (λ _. true) (orphan n) (keep (λ v. not (has_id n v)) (u ∷ db.users));
          sessions = keep (λ s. not (s.user_id == n)) db.sessions;
        }
        ≡ db
    restored =
        rw
          (
            gone,
            keep-All (λ v. (v.id < n) × ParentBelow n v.parent_id) (λ v. not (has_id n v)) db.users
                (λ v h. ground arith) fresh.users,
            map_where-orphan n db.users fresh.users,
            keep-All (λ s. s.user_id < n) (λ s. not (s.user_id == n)) db.sessions
                (λ s h. ground arith) fresh.sessions,
          )
          refl

pub delete_account-undo :
    (m n : ℕ) (a : Account) (db : Db) (w : World)
    → All (λ a. (a.id < n) × (a.owner_id < n)) db.accounts
    → All (λ s. s.account_id < n) db.sites
    → n ≤ m
    → a.id ≡ m
    → w.faults ≡ []
    → w.db ≡ with_account a db
    → delete_account m w ≡ (ok tt, record w { db = db })
unfolding delete_account
delete_account-undo m n a db w accounts sites le same calm e =
    update_found_calm (account_exists m) (drop_account m) w calm (ap (account_exists m) e ∙ here)
    ∙ ap (λ d. (ok tt, record w { db = d })) (ap (drop_account m) e ∙ dropped)
  where
    here : account_exists m (with_account a db) ≡ true
    here = ground arith

    other : not (is_account m a) ≡ false
    other = ground arith

    domains :
        (ds : List Domain)
        → keep (λ d. not (any (λ s. owns_site m s && s.id == d.site_id) db.sites)) ds ≡ ds
    domains =
        keep-none (λ d. any (λ s. owns_site m s && s.id == d.site_id) db.sites)
          (λ d.
            any-All (λ s. s.account_id < n) (λ s. owns_site m s && s.id == d.site_id) db.sites
              (λ s h. ground arith) sites)

    dropped : drop_account m (with_account a db) ≡ db
    dropped =
        rw
          (
            other,
            keep-All (λ b. (b.id < n) × (b.owner_id < n)) (λ b. not (is_account m b)) db.accounts
                (λ b h. ground arith) accounts,
            keep-All (λ s. s.account_id < n) (λ s. not (owns_site m s)) db.sites
                (λ s h. ground arith) sites,
            domains db.domains,
          )
          refl
