-- ===== src/Panel/Keeps.antt =====
-- Invariants of the rows: an action keeps one whether it returns or fails, one rule for each way
-- to build an action.
use gocontrolpanel.Base.{
  ◌≡◌, refl, sym, subst, Bool, true, false, ◌&&◌, if◌then◌else◌, Option, none, some, Result, ok,
  err, inl, inr, Bool-cases, Option-cases,
}
use gocontrolpanel.Models.{Uuid}
use gocontrolpanel.Panel.{
  Error, fail, Call, Db, World, Exec, after, ◌>>=◌, ◌>>◌, pure, attempt, ignore, remote, query,
  query_one, or_not_found, update, update_found, update_checked, conflict, insert, insert_row,
  request,
}
use gocontrolpanel.Panel.Rules.{remote-Leaves}

pub record Keeps (P : Db → Type 0) {A : Type 0} (m : Exec A) : Type 0 where
  pub at : (w : World) → P w.db → P (m w).1.db

or_not_found-world : {A : Type 0} (o : Option A) (w : World) → (or_not_found o w).1 ≡ w
unfolding or_not_found
or_not_found-world none w = refl
or_not_found-world (some a) w = refl

module _ {P : Db → Type 0} where
  after-keeps :
      {A B : Type 0} (p : Result Error A × World) (f : A → Exec B)
      → P p.1.db
      → ((a : A) → Keeps P (f a))
      → P (after p f).1.db
  after-keeps (ok a, w) f h k = (k a).at w h
  after-keeps (err e, w) f h k = h

  pub Keeps-bind :
      {A B : Type 0} (m : Exec A) (f : A → Exec B)
      → Keeps P m
      → ((a : A) → Keeps P (f a))
      → Keeps P (m >>= f)
  Keeps-bind m f km kf = record { at = λ w h. after-keeps (m w) f (km.at w h) kf }

  pub Keeps-then :
      {B : Type 0} (m : Exec (Unit {0})) (k : Exec B) → Keeps P m → Keeps P k → Keeps P (m >> k)
  Keeps-then m k km kk = record { at = λ w h. after-keeps (m w) (λ _. k) (km.at w h) (λ _. kk) }

  -- The invariant in the world behind an action that is known to have ended in one.
  pub Keeps_at :
      {A : Type 0} (m : Exec A) (w : World) {r : Result Error A} {w' : World}
      → Keeps P m
      → m w ≡ (r, w')
      → P w.db
      → P w'.db
  Keeps_at m w k e h = subst (λ q. P q.1.db) e (k.at w h)

  pub Keeps-ignore : {A : Type 0} (m : Exec A) → Keeps P m → Keeps P (ignore m)
  Keeps-ignore m k = record { at = λ w h. k.at w h }

  pub Keeps-attempt : {A : Type 0} (m : Exec A) → Keeps P m → Keeps P (attempt m)
  Keeps-attempt m k = record { at = λ w h. k.at w h }

  pub Keeps-pure : {A : Type 0} (a : A) → Keeps P (pure a)
  Keeps-pure a = record { at = λ w h. h }

  pub Keeps-fail : {A : Type 0} (e : Error) → Keeps P (fail {A = A} e)
  Keeps-fail e = record { at = λ w h. h }

  pub Keeps-if :
      {A : Type 0} (b : Bool) (m k : Exec A) → Keeps P m → Keeps P k → Keeps P (if b then m else k)
  Keeps-if true m k hm hk = hm
  Keeps-if false m k hm hk = hk

  pub Keeps-remote : Keeps P remote
  Keeps-remote = record { at = λ w h. subst P (sym (remote-Leaves w).db) h }

  -- An action that ends in one of the worlds that the rest of a call builds.
  pub Keeps-final :
      {A : Type 0} (g : World → Result Error A × World)
      → ((w : World) → P w.db → P (g w).1.db)
      → Keeps P g
  Keeps-final g k = record { at = k }

  pub Keeps-query : {A : Type 0} (f : Db → A) → Keeps P (query f)
  unfolding query
  Keeps-query f = Keeps-then remote _ Keeps-remote (record { at = λ w h. h })

  pub Keeps-query_one : {A : Type 0} (f : Db → Option A) → Keeps P (query_one f)
  unfolding query_one
  Keeps-query_one f =
      Keeps-then remote _ Keeps-remote
        (record { at = λ w h. subst (λ v. P v.db) (sym (or_not_found-world (f w.db) w)) h })

  pub Keeps-request : (c : Call) → Keeps P (request c)
  unfolding request
  Keeps-request c = Keeps-then remote _ Keeps-remote (record { at = λ w h. h })

  pub Keeps-update : (f : Db → Db) → ((db : Db) → P db → P (f db)) → Keeps P (update f)
  unfolding update
  Keeps-update f k = Keeps-then remote _ Keeps-remote (record { at = λ w h. k w.db h })

  pub Keeps-update_found :
      (found : Db → Bool) (f : Db → Db)
      → ((db : Db) → P db → P (f db))
      → Keeps P (update_found found f)
  unfolding update_found
  Keeps-update_found found f k = Keeps-then remote _ Keeps-remote (record {
    at = λ w h. elim (Bool-cases (found w.db)) [ inl e ↦ rw e (k w.db h) | inr e ↦ rw e h ];
  })

  pub Keeps-update_checked :
      (clash found : Db → Bool) (f : Db → Db)
      → ((db : Db) → P db → P (f db))
      → Keeps P (update_checked clash found f)
  unfolding update_checked
  Keeps-update_checked clash found f k = record {
    at = λ w h. elim (Bool-cases (found w.db && clash w.db)) [
      | inl e ↦ rw e (
          (Keeps-then remote (λ v. (err conflict, v)) Keeps-remote (record { at = λ v g. g })).at w
            h)
      | inr e ↦ rw e ((Keeps-update_found found f k).at w h)
    ];
  }

  pub Keeps-insert :
      (check : Db → Option Error) (f : Uuid → Db → Db)
      → ((id : Uuid) (db : Db) → check db ≡ none → P db → P (f id db))
      → Keeps P (insert check f)
  unfolding insert insert_row
  Keeps-insert check f k = Keeps-then remote _ Keeps-remote (record {
    at = λ w h. elim (Option-cases (check w.db)) [
      | inl e ↦ rw e (k w.next_id w.db e h)
      | inr (x, e) ↦ rw e h
    ];
  })

pub ruleset keeping = (
  Keeps-bind, Keeps-then, Keeps-ignore, Keeps-attempt, Keeps-remote, Keeps-query, Keeps-query_one,
  Keeps-request,
)
