-- ===== src/Panel/Rules.antt =====
-- What is known of the parts of an action that returned, and what each kind of call leaves alone.
use gocontrolpanel.Base.{
  ◌≡◌, refl, sym, ap, ◌∙◌, inl, inr, Bool-cases, Bool, true, false, Option, none, some, List, [],
  ◌∷◌, Result, ok, err,
}
use gocontrolpanel.Models.{Uuid}
use gocontrolpanel.Panel.{
  attempt, Error, Db, World, Exec, after, ◌>>=◌, ◌>>◌, take_fault, remote, query, query_one,
  or_not_found, update, update_found, insert_row, insert,
}

-- An action that returned went through both halves of a bind.
pub bind-eq-ok :
    {A B : Type 0} (m : Exec A) (f : A → Exec B) {b : B} (w : World) {w' : World}
    → (m >>= f) w ≡ (ok b, w')
    → (a : A) × (v : World) × (m w ≡ (ok a, v)) × (f a v ≡ (ok b, w'))
bind-eq-ok {A} {B} m f {b} w {w'} h = split_on (m w) refl h
  where
    split_on :
        (p : Result Error A × World)
        → m w ≡ p
        → after p f ≡ (ok b, w')
        → (a : A) × (v : World) × (m w ≡ (ok a, v)) × (f a v ≡ (ok b, w'))
    split_on (ok a, v) e k = (a, v, e, k)
    split_on (err x, v) e k = cc

pub then-eq-ok :
    {B : Type 0} (m : Exec (Unit {0})) (k : Exec B) {b : B} (w : World) {w' : World}
    → (m >> k) w ≡ (ok b, w')
    → (v : World) × (m w ≡ (ok tt, v)) × (k v ≡ (ok b, w'))
then-eq-ok m k w h = let (u, v, e, g) = bind-eq-ok m (λ _. k) w h in (v, e, g)

-- A call outside the process changes no row and not the edge.
pub record Leaves (w w' : World) : Type 0 where
  pub db : w'.db ≡ w.db
  pub edge : w'.edge ≡ w.edge

take_fault-Leaves : (w : World) (l : List Bool) → Leaves w (take_fault w l).1
unfolding take_fault
take_fault-Leaves w [] = record { db = refl; edge = refl }
take_fault-Leaves w (true ∷ l) = record { db = refl; edge = refl }
take_fault-Leaves w (false ∷ l) = record { db = refl; edge = refl }

pub remote-Leaves : (w : World) → Leaves w (remote w).1
unfolding remote
remote-Leaves w = take_fault-Leaves w w.faults

-- The world behind an action that is known to have ended in one.
pub Leaves-at :
    {A : Type 0} (m : Exec A) (w : World) {r : Result Error A} {w' : World}
    → Leaves w (m w).1
    → m w ≡ (r, w')
    → Leaves w w'
Leaves-at m w l e = record {
  db = ap (λ p. p.1.db) (sym e) ∙ l.db;
  edge = ap (λ p. p.1.edge) (sym e) ∙ l.edge;
}

pub remote_ok : (w : World) {w' : World} → remote w ≡ (ok tt, w') → Leaves w w'
remote_ok w e = Leaves-at remote w (remote-Leaves w) e

pub query_ok :
    {A : Type 0} (f : Db → A) (w : World) {a : A} {w' : World}
    → query f w ≡ (ok a, w')
    → (a ≡ f w.db) × Leaves w w'
unfolding query
query_ok f w h =
    let (v, e, g) = then-eq-ok remote (λ v. (ok (f v.db), v)) w h in
    let l = remote_ok w e in (cc (ap f l.db), record { db = cc (l.db); edge = cc (l.edge) })

pub update_ok :
    (f : Db → Db) (w : World) {w' : World}
    → update f w ≡ (ok tt, w')
    → (w'.db ≡ f w.db) × (w'.edge ≡ w.edge)
unfolding update
update_ok f w h =
    let (v, e, g) = then-eq-ok remote (λ v. (ok tt, record v { db = f v.db })) w h in
    let l = remote_ok w e in
    (ap (λ p. p.1.db) (sym g) ∙ ap f l.db, ap (λ p. p.1.edge) (sym g) ∙ l.edge)

pub update_found_ok :
    (found : Db → Bool) (f : Db → Db) (w : World) {w' : World}
    → update_found found f w ≡ (ok tt, w')
    → (found w.db ≡ true) × (w'.db ≡ f w.db) × (w'.edge ≡ w.edge)
unfolding update_found
update_found_ok found f w {w'} h =
    let (v, e, g) = then-eq-ok remote _ w h in
    let l = remote_ok w e in
    elim (Bool-cases (found v.db)) [
      | inl t ↦
          let same = rw t at g in
          (
            sym (ap found l.db) ∙ t,
            ap (λ p. p.1.db) (sym same) ∙ ap f l.db,
            ap (λ p. p.1.edge) (sym same) ∙ l.edge,
          )
      | inr t ↦ absurd (err_ok (rw t at g))
    ]
  where
    err_ok :
        {e : Error} {v : World}
        → ◌≡◌ {A = Result Error (Unit {0}) × World} (err e, v) (ok tt, w')
        → ⊥
    err_ok h = cc

or_not_found_ok :
    {A : Type 0} (o : Option A) (v : World) {a : A} {w' : World}
    → or_not_found o v ≡ (ok a, w')
    → (o ≡ some a) × (w' ≡ v)
unfolding or_not_found
or_not_found_ok none v e = cc
or_not_found_ok (some b) v e = (cc, cc)

pub query_one_ok :
    {A : Type 0} (f : Db → Option A) (w : World) {a : A} {w' : World}
    → query_one f w ≡ (ok a, w')
    → (f w.db ≡ some a) × Leaves w w'
unfolding query_one
query_one_ok f w {a} {w'} h =
    let (v, e, g) = then-eq-ok remote (λ v. or_not_found (f v.db) v) w h in
    let l = remote_ok w e in
    let (found, same) = or_not_found_ok (f v.db) v g in
    (
      ap f (sym l.db) ∙ found,
      record { db = ap (λ u. u.db) same ∙ l.db; edge = ap (λ u. u.edge) same ∙ l.edge },
    )

-- An INSERT that returned.
insert_row_ok :
    (o : Option Error) (f : Uuid → Db → Db) (w : World) {id : Uuid} {w' : World}
    → insert_row o f w ≡ (ok id, w')
    → w'.db ≡ f id w.db
unfolding insert_row
insert_row_ok none f w h = cc
insert_row_ok (some e) f w h = cc

pub insert_ok :
    (check : Db → Option Error) (f : Uuid → Db → Db) (w : World) {id : Uuid} {w' : World}
    → insert check f w ≡ (ok id, w')
    → w'.db ≡ f id w.db
unfolding insert
insert_ok check f w {id} h =
    let (v, e, g) = then-eq-ok remote (λ v. insert_row (check v.db) f v) w h in
    let l = remote_ok w e in insert_row_ok (check v.db) f v g ∙ ap (f id) l.db

-- The same where the caller looks at the error.
pub attempt-eq-ok :
    {A : Type 0} (m : Exec A) (w : World) {r : Result Error A} {w' : World}
    → attempt m w ≡ (ok r, w')
    → m w ≡ (r, w')
attempt-eq-ok m w e = cc

-- Where no call fails.
pub remote_calm : (w : World) → w.faults ≡ [] → remote w ≡ (ok tt, w)
unfolding remote take_fault
remote_calm w e = rw e refl

pub query_one_calm :
    {A : Type 0} (f : Db → Option A) (w : World) {a : A}
    → w.faults ≡ []
    → f w.db ≡ some a
    → query_one f w ≡ (ok a, w)
unfolding query_one or_not_found
query_one_calm f w {a} calm found =
    ap (λ p. after p (λ u v. or_not_found (f v.db) v)) (remote_calm w calm)
    ∙ ap (λ o. or_not_found o w) found

take_fault-clock : (w : World) (l : List Bool) → (take_fault w l).1.clock ≡ w.clock
unfolding take_fault
take_fault-clock w [] = refl
take_fault-clock w (true ∷ l) = refl
take_fault-clock w (false ∷ l) = refl

pub remote-clock : (w : World) {w' : World} → remote w ≡ (ok tt, w') → w'.clock ≡ w.clock
unfolding remote
remote-clock w e = ap (λ p. p.1.clock) (sym e) ∙ take_fault-clock w w.faults

pub query_one-clock :
    {A : Type 0} (f : Db → Option A) (w : World) {a : A} {w' : World}
    → query_one f w ≡ (ok a, w')
    → w'.clock ≡ w.clock
unfolding query_one
query_one-clock f w h =
    let (v, e, g) = then-eq-ok remote (λ v. or_not_found (f v.db) v) w h in
    let (found, same) = or_not_found_ok (f v.db) v g in ap (λ u. u.clock) same ∙ remote-clock w e

pub update-clock : (f : Db → Db) (w : World) → (update f w).1.clock ≡ w.clock
unfolding update remote take_fault
update-clock f w = by_faults w.faults
  where
    by_faults :
        (l : List Bool)
        → (after {B = Unit {0}} (take_fault w l) (λ _ v. (ok tt, record v { db = f v.db }))).1.clock
          ≡ w.clock
    by_faults [] = refl
    by_faults (true ∷ l) = refl
    by_faults (false ∷ l) = refl
