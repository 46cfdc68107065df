-- ===== src/Panel/Once.antt =====
-- One call outside the process fails, or none.
use gocontrolpanel.Base.{
  ◌≡◌, ◌≢◌, refl, sym, ap, subst, ◌∙◌, ◌⊎◌, inl, inr, ◌+◌, Bool, true, false, Option, none, some,
  List, [], ◌∷◌, ◌++◌, Result, ok, err,
}
use gocontrolpanel.Models.{Uuid}
use gocontrolpanel.Panel.{
  Error, unavailable, not_found, Call, Db, World, Exec, after, remote, take_fault, query_one,
  or_not_found, insert, insert_row, request,
}

pub data Once : List Bool → Type 0 where
  never : Once []
  now : Once (true ∷ [])
  later : {l : List Bool} → Once l → Once (false ∷ l)

-- What is known where an action returned, or ended in the failure of a call.
abbrev pub Post :
    (World → Type 0) → {A : Type 0} → (A → World → Type 0) → Result Error A × World → Type 0
Post E Q (ok a, w) = Q a w
Post E Q (err e, w) = e ≡ unavailable → E w

abbrev pub at_faults : World → List Bool → World
at_faults w l = record w { faults = l }

take_fault-Once :
    (w : World) (l : List Bool)
    → Once l
    → ((rest : List Bool) × Once rest × (take_fault (at_faults w l) l ≡ (ok tt, at_faults w rest)))
      ⊎ (take_fault (at_faults w l) l ≡ (err unavailable, at_faults w []))
unfolding take_fault
take_fault-Once w [] never = inl ([], never, refl)
take_fault-Once w (true ∷ []) now = inr refl
take_fault-Once w (true ∷ b ∷ l) h = elim h [ ]
take_fault-Once w (false ∷ l) (later h) = inl (l, h, refl)

remote-Once :
    (w : World)
    → Once w.faults
    → ((rest : List Bool) × Once rest × (remote w ≡ (ok tt, at_faults w rest)))
      ⊎ (remote w ≡ (err unavailable, at_faults w []))
unfolding remote
remote-Once w h = take_fault-Once w w.faults h

module _ (E : World → Type 0) {B : Type 0} (R : B → World → Type 0) where
  pub Post-bind :
      {A : Type 0} (Q : A → World → Type 0) (p : Result Error A × World) (f : A → Exec B)
      → Post E Q p
      → ((a : A) (v : World) → Q a v → Post E R (f a v))
      → Post E R (after p f)
  Post-bind Q (ok a, w) f h k = k a w h
  Post-bind Q (err e, w) f h k = h

  pub Post-remote :
      (k : Unit {0} → Exec B) (w : World)
      → Once w.faults
      → ((rest : List Bool) → Once rest → Post E R (k tt (at_faults w rest)))
      → E (at_faults w [])
      → Post E R (after (remote w) k)
  Post-remote k w once go stop = elim (remote-Once w once) [
    | inl (rest, h, e) ↦ subst (λ p. Post E R (after p k)) (sym e) (go rest h)
    | inr e ↦ subst (λ p. Post E R (after p k)) (sym e) (λ u. stop)
  ]

pub Post-query_one :
    (E : World → Type 0) {A : Type 0} (R : A → World → Type 0) (f : Db → Option A) (w : World)
    → Once w.faults
    → ((a : A) (rest : List Bool) → Once rest → R a (at_faults w rest))
    → E (at_faults w [])
    → Post E R (query_one f w)
unfolding query_one
Post-query_one E {A} R f w once go stop =
    Post-remote E R (λ u v. or_not_found (f v.db) v) w once
      (λ rest h. found (f w.db) (at_faults w rest) (λ a. go a rest h)) stop
  where
    clash : not_found ≡ unavailable → ⊥
    clash e = cc

    found : (o : Option A) (v : World) → ((a : A) → R a v) → Post E R (or_not_found o v)
    found none v k = unfold or_not_found in (λ e. absurd (clash e))
    found (some a) v k = unfold or_not_found in (k a)

pub Post-request :
    (E : World → Type 0) (R : Unit {0} → World → Type 0) (c : Call) (w : World)
    → Once w.faults
    → ((rest : List Bool)
        → Once rest
        → R tt (record w { faults = rest; calls = w.calls ++ c ∷ [] }))
    → E (at_faults w [])
    → Post E R (request c w)
unfolding request
Post-request E R c w once go stop =
    Post-remote E R (λ u v. (ok tt, record v { calls = v.calls ++ c ∷ [] })) w once go stop

pub Post-insert :
    (E : World → Type 0) (R : Uuid → World → Type 0) (check : Db → Option Error)
    (f : Uuid → Db → Db) (w : World)
    → Once w.faults
    → check w.db ≢ some unavailable
    → ((rest : List Bool)
        → Once rest
        → R w.next_id (record w { faults = rest; db = f w.next_id w.db; next_id = w.next_id + 1 }))
    → E (at_faults w [])
    → Post E R (insert check f w)
unfolding insert
Post-insert E R check f w once other go stop =
    Post-remote E R (λ u v. insert_row (check v.db) f v) w once
      (λ rest h. inserted (check w.db) refl rest h) stop
  where
    inserted :
        (o : Option Error)
        → check w.db ≡ o
        → (rest : List Bool) → Once rest
        → Post E R (insert_row o f (at_faults w rest))
    inserted none e rest h = unfold insert_row in (go rest h)
    inserted (some x) e rest h = unfold insert_row in (λ q. absurd (other (e ∙ ap some q)))

-- An action whose error is looked at.
pub Post-attempt :
    (E F : World → Type 0) {A B : Type 0} (Q : A → World → Type 0) (R : B → World → Type 0)
    (p : Result Error A × World) (handle : Result Error A → Exec B)
    → Post F Q p
    → ((a : A) (v : World) → Q a v → Post E R (handle (ok a) v))
    → ((e : Error) (v : World) → (e ≡ unavailable → F v) → Post E R (handle (err e) v))
    → Post E R (after (ok p.0, p.1) handle)
Post-attempt E F Q R (ok a, v) handle h go stop = go a v h
Post-attempt E F Q R (err e, v) handle h go stop = stop e v h
