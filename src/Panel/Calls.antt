-- ===== src/Panel/Calls.antt =====
-- Invariants of the requests made outside, kept by an action whether it returns or fails.
use gocontrolpanel.Base.{
  ◌≡◌, refl, sym, subst, Bool, true, false, Option, none, some, List, [], ◌∷◌, ◌++◌, Result, ok,
  err, All, All-snoc, if◌then◌else◌,
}
use gocontrolpanel.Panel.{
  Error, Call, Db, World, Exec, after, ◌>>=◌, ◌>>◌, pure, fail, attempt, remote, take_fault,
  query_one, or_not_found, request,
}

pub record Confines (P : Call → Type 0) {A : Type 0} (m : Exec A) : Type 0 where
  pub at : (w : World) → All P w.calls → All P (m w).1.calls

take_fault-calls : (w : World) (l : List Bool) → (take_fault w l).1.calls ≡ w.calls
unfolding take_fault
take_fault-calls w [] = refl
take_fault-calls w (true ∷ l) = refl
take_fault-calls w (false ∷ l) = refl

pub remote-calls : (w : World) → (remote w).1.calls ≡ w.calls
unfolding remote
remote-calls w = take_fault-calls w w.faults

after_remote :
    (P : Call → Type 0) (c : Call) (p : Result Error (Unit {0}) × World)
    → P c
    → All P p.1.calls
    → All P (after p (λ _ w. (ok tt, record w { calls = w.calls ++ c ∷ [] }))).1.calls
after_remote P c (ok u, w) h a = All-snoc P w.calls c a h
after_remote P c (err e, w) h a = a

found_confines :
    (P : Call → Type 0) {A : Type 0} (o : Option A) (w : World)
    → All P w.calls
    → All P (or_not_found o w).1.calls
unfolding or_not_found
found_confines P none w h = h
found_confines P (some a) w h = h

module _ {P : Call → Type 0} where
  after-Confines :
      {A B : Type 0} (p : Result Error A × World) (f : A → Exec B)
      → All P p.1.calls
      → ((a : A) → Confines P (f a))
      → All P (after p f).1.calls
  after-Confines (ok a, w) f h k = (k a).at w h
  after-Confines (err e, w) f h k = h

  pub Confines-bind :
      {A B : Type 0} (m : Exec A) (f : A → Exec B)
      → Confines P m
      → ((a : A) → Confines P (f a))
      → Confines P (m >>= f)
  Confines-bind m f km kf = record { at = λ w h. after-Confines (m w) f (km.at w h) kf }

  pub Confines-then :
      {B : Type 0} (m : Exec (Unit {0})) (k : Exec B)
      → Confines P m
      → Confines P k
      → Confines P (m >> k)
  Confines-then m k km kk = record {
    at = λ w h. after-Confines (m w) (λ _. k) (km.at w h) (λ _. kk);
  }

  pub Confines-pure : {A : Type 0} (a : A) → Confines P (pure a)
  Confines-pure a = record { at = λ w h. h }

  pub Confines-fail : {A : Type 0} (e : Error) → Confines P (fail {A = A} e)
  Confines-fail e = record { at = λ w h. h }

  pub Confines-attempt : {A : Type 0} (m : Exec A) → Confines P m → Confines P (attempt m)
  Confines-attempt m k = record { at = λ w h. k.at w h }

  pub Confines-if :
      {A : Type 0} (b : Bool) (m k : Exec A)
      → Confines P m
      → Confines P k
      → Confines P (if b then m else k)
  Confines-if true m k hm hk = hm
  Confines-if false m k hm hk = hk

  pub Confines-remote : Confines P remote
  Confines-remote = record { at = λ w h. subst (All P) (sym (remote-calls w)) h }

  pub Confines-request : (c : Call) → P c → Confines P (request c)
  unfolding request
  Confines-request c k = record {
    at = λ w h. after_remote P c (remote w) k (subst (All P) (sym (remote-calls w)) h);
  }

  pub Confines-query_one : {A : Type 0} (f : Db → Option A) → Confines P (query_one f)
  unfolding query_one
  Confines-query_one f = record {
    at = λ w h.
        after-Confines (remote w) (λ u v. or_not_found (f v.db) v)
          (subst (All P) (sym (remote-calls w)) h)
          (λ u. record { at = λ v k. found_confines P (f v.db) v k });
  }

-- Where no call is allowed there is none.
pub no_calls : (l : List Call) → All (λ c. ⊥) l → l ≡ []
no_calls [] h = refl
no_calls (c ∷ l) (h, hs) = absurd h
