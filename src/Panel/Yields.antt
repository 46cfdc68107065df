-- ===== src/Panel/Yields.antt =====
-- Invariants of the rows, kept by an action that returns a value of which something is known.
use gocontrolpanel.Base.{◌≡◌, refl, Option, none, some, Result, ok, err}
use gocontrolpanel.Panel.{
  Error, Db, World, Exec, after, ◌>>=◌, pure, remote, query_one, or_not_found,
}
use gocontrolpanel.Panel.Keeps.{Keeps, Keeps-remote}

abbrev pub Ends : (Db → Type 0) → {A : Type 0} → (A → Type 0) → Result Error A × World → Type 0
Ends P Q (ok a, w) = P w.db × Q a
Ends P Q (err e, w) = P w.db

pub record Yields (P : Db → Type 0) {A : Type 0} (Q : A → Type 0) (m : Exec A) : Type 0 where
  pub at : (w : World) → P w.db → Ends P Q (m w)

found-Ends :
    (P : Db → Type 0) {A : Type 0} (Q : A → Type 0) (o : Option A) (w : World)
    → P w.db
    → ((a : A) → o ≡ some a → Q a)
    → Ends P Q (or_not_found o w)
unfolding or_not_found
found-Ends P Q none w h k = h
found-Ends P Q (some a) w h k = (h, k a refl)

module _ {P : Db → Type 0} {A : Type 0} {Q : A → Type 0} where
  after-yields :
      {B : Type 0} (p : Result Error A × World) (f : A → Exec B)
      → Ends P Q p
      → ((a : A) → Q a → Keeps P (f a))
      → P (after p f).1.db
  after-yields (ok a, w) f (h, q) k = (k a q).at w h
  after-yields (err e, w) f h k = h

  pub Yields-bind :
      {B : Type 0} (m : Exec A) (f : A → Exec B)
      → Yields P Q m
      → ((a : A) → Q a → Keeps P (f a))
      → Keeps P (m >>= f)
  Yields-bind m f y k = record { at = λ w h. after-yields (m w) f (y.at w h) k }

  after-keeps-Yields :
      {B : Type 0} (p : Result Error B × World) (f : B → Exec A)
      → P p.1.db
      → ((b : B) → Yields P Q (f b))
      → Ends P Q (after p f)
  after-keeps-Yields (ok b, w) f h k = (k b).at w h
  after-keeps-Yields (err e, w) f h k = h

  pub Yields-after :
      {B : Type 0} (m : Exec B) (f : B → Exec A)
      → Keeps P m
      → ((b : B) → Yields P Q (f b))
      → Yields P Q (m >>= f)
  Yields-after m f km k = record { at = λ w h. after-keeps-Yields (m w) f (km.at w h) k }

  pub Yields-pure : (a : A) → Q a → Yields P Q (pure a)
  Yields-pure a q = record { at = λ w h. (h, q) }

  -- The row that a SELECT finds.
  pub Yields-query_one :
      (f : Db → Option A)
      → ((db : Db) (a : A) → P db → f db ≡ some a → Q a)
      → Yields P Q (query_one f)
  unfolding query_one
  Yields-query_one f k = record {
    at = λ w h.
        after-keeps-Yields (remote w) (λ u v. or_not_found (f v.db) v)
          ((Keeps-remote {P = P}).at w h)
          (λ u. record { at = λ v g. found-Ends P Q (f v.db) v g (λ a e. k v.db a g e) });
  }
