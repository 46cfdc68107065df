-- ===== src/Store/Users.antt =====
-- internal/store/store.go: users and sessions.
pub mod Once
use gocontrolpanel.Base.{
  ℕ, ◌+◌, Bool, true, false, not, ◌&&◌, ◌||◌, Option, none, some, List, [], ◌∷◌, ok, err, ltb, ◌==◌,
  if◌then◌else◌, any, find?, keep, map_where, length,
}
use gocontrolpanel.Go.Strings.{Text, text_eq}
use gocontrolpanel.Models.{Uuid, User, Role}
use gocontrolpanel.Panel.{
  Error, constraint, violation, not_found, Session, Db, World, Exec, ◌>>=◌, ◌>>◌, pure, remote,
  query, query_one, update, update_found, update_checked, insert,
}

abbrev pub has_id : Uuid → User → Bool
has_id id u = u.id == id

-- The names and the mail addresses are UNIQUE.
clashes : User → User → Bool
clashes u v = text_eq u.username v.username || text_eq u.email v.email

unfoldable pub create_user : User → Exec Uuid
unfolding insert clashes
create_user u =
    insert (λ db. violation (any (clashes u) db.users) true)
      (λ id db. record db {
        users =
            record u { id = id; totp_secret = none; totp_enabled = false; totp_last_step = 0 }
            ∷ db.users;
      })

unfoldable pub get_user_by_id : Uuid → Exec User
unfolding query_one
get_user_by_id id = query_one (λ db. find? (has_id id) db.users)

unfoldable pub get_user_by_login : Text → Exec User
unfolding query_one
get_user_by_login login =
    query_one (λ db. find? (λ u. text_eq u.username login || text_eq u.email login) db.users)

abbrev pub set_user : Uuid → (User → User) → Db → Db
set_user id f db = record db { users = map_where (has_id id) f db.users }

abbrev pub user_exists : Uuid → Db → Bool
user_exists id db = any (has_id id) db.users

-- `WHERE parent_id = $1 OR id = $1`, where there is a scope.
scope_has : Option Uuid → User → Bool
scope_has none u = true
scope_has (some id) u = parent_has id u.parent_id || has_id id u
  where
    parent_has : Uuid → Option Uuid → Bool
    parent_has id none = false
    parent_has id (some p) = p == id

unfoldable pub list_users : Option Uuid → Exec (List User)
unfolding query scope_has
list_users scope = query (λ db. keep (scope_has scope) db.users)

unfoldable pub count_users : Exec ℕ
unfolding query
count_users = query (λ db. length db.users)

-- Another row with the mail address.
unfoldable pub takes_email : User → User → Bool
takes_email u v = not (has_id u.id v) && text_eq u.email v.email

unfoldable pub update_user : User → Exec (Unit {0})
unfolding update_checked takes_email
update_user u =
    update_checked (λ db. any (takes_email u) db.users) (user_exists u.id)
      (set_user u.id (λ v. record v {
        email = u.email;
        full_name = u.full_name;
        role = u.role;
        is_active = u.is_active;
      }))

unfoldable pub update_password : Uuid → Text → Exec (Unit {0})
unfolding update_found
update_password id hash =
    update_found (user_exists id) (set_user id (λ u. record u { password_hash = hash }))

unfoldable pub set_totp_secret : Uuid → Text → Exec (Unit {0})
unfolding update
set_totp_secret id secret = update (
    set_user id
      (λ u. record u { totp_secret = some secret; totp_enabled = false; totp_last_step = 0 }))

unfoldable pub confirm_totp : Uuid → ℕ → Exec (Unit {0})
unfolding update
confirm_totp id step =
    update (set_user id (λ u. record u { totp_enabled = true; totp_last_step = step }))

unfoldable pub record_totp_step : Uuid → ℕ → Exec (Unit {0})
unfolding update
record_totp_step id step = update (set_user id (λ u. record u { totp_last_step = step }))

unfoldable pub disable_totp : Uuid → Exec (Unit {0})
unfolding update
disable_totp id =
    update
      (set_user id (λ u. record u { totp_secret = none; totp_enabled = false; totp_last_step = 0 }))

-- Sessions of a deleted user go with the row (ON DELETE CASCADE), its children lose their parent
-- (ON DELETE SET NULL), and accounts hold it back (ON DELETE RESTRICT).
unfoldable pub forget : Uuid → Option Uuid → Option Uuid
forget id none = none
forget id (some p) = if p == id then none else some p

unfoldable pub orphan : Uuid → User → User
unfolding forget
orphan id u = record u { parent_id = forget id u.parent_id }

unfoldable pub delete_user : Uuid → Exec (Unit {0})
unfolding remote orphan
delete_user id = do
  remote
  λ w.
      if any (λ a. a.owner_id == id) w.db.accounts
      then (err constraint, w)
      else if user_exists id w.db
      then (
        ok tt,
        record w {
          db = record w.db {
            users = map_where (λ _. true) (orphan id) (keep (λ u. not (has_id id u)) w.db.users);
            sessions = keep (λ s. not (s.user_id == id)) w.db.sessions;
          };
        },
      )
      else (err not_found, w)

unfoldable pub create_session : Uuid → Text → ℕ → Exec Uuid
unfolding insert
create_session user_id hash ttl = λ w.
    insert
      (λ db.
        violation (any (λ s. text_eq s.refresh_hash hash) db.sessions) (user_exists user_id db))
      (λ id db. record db {
        sessions =
            record {
              user_id = user_id;
              refresh_hash = hash;
              expires_at = w.clock + ttl;
              is_revoked = false;
            }
            ∷ db.sessions;
      })
      w

-- The condition of the UPDATE that consumes a refresh token.
unfoldable pub is_usable : Text → ℕ → Session → Bool
is_usable hash now s = text_eq s.refresh_hash hash && not s.is_revoked && ltb now s.expires_at

abbrev pub revoke : Session → Session
revoke s = record s { is_revoked = true }

owner_or_not_found : Option Session → World → Exec Uuid
owner_or_not_found none w' w = (err not_found, w)
owner_or_not_found (some s) w' w = (ok s.user_id, w')

unfoldable pub consume_session : Text → Exec Uuid
unfolding remote owner_or_not_found
consume_session hash = do
  remote
  λ w.
      owner_or_not_found (find? (is_usable hash w.clock) w.db.sessions)
        (record w {
          db = record w.db { sessions = map_where (is_usable hash w.clock) revoke w.db.sessions };
        })
        w

unfoldable pub revoke_user_sessions : Uuid → Exec (Unit {0})
unfolding update
revoke_user_sessions id = update (λ db. record db {
  sessions = map_where (λ s. s.user_id == id && not s.is_revoked) revoke db.sessions;
})
