-- ===== src/Worker/Reconcile/Repeated.antt =====
-- A site that was brought to the state of its container needs no second change.
use gocontrolpanel.Base.{
  ◌≡◌, refl, sym, ap, ap₂, ◌∙◌, inl, inr, Bool, true, false, not, ◌||◌, Option, none, some, List,
  [], ◌∷◌, ◌==◌, arith, map, any, All, Bool-cases, if◌then◌else◌,
}
use gocontrolpanel.Go.Strings.{Text, codes, text_eq}
use gocontrolpanel.Models.{Site, SiteStatus, provisioning, running, stopped, error, deleting}
use gocontrolpanel.Worker.{Engine, Inspect, unreachable, absent, present, state_of_inspect, state}
use gocontrolpanel.Worker.Reconcile.{is_left_alone, wanted, same_status}
use gocontrolpanel.Worker.Reconcile.Settled.{
  target_of, target_from, target, is_moved, settle, AreDistinct, IsApart, same_status_refl,
  settle-id,
}

-- What the row of a site says of its container.
pub record IsSettled (engine : Engine) (s : Site) : Type 0 where
  pub up :
      engine.inspect s.container_name ≡ present (codes "running")
      → is_left_alone s.status ≡ false
      → s.status ≡ running
  pub exited :
      engine.inspect s.container_name ≡ present (codes "exited")
      → is_left_alone s.status ≡ false
      → s.status ≡ stopped
  pub created :
      engine.inspect s.container_name ≡ present (codes "created")
      → is_left_alone s.status ≡ false
      → s.status ≡ stopped
  pub paused :
      engine.inspect s.container_name ≡ present (codes "paused")
      → is_left_alone s.status ≡ false
      → s.status ≡ stopped
  pub gone :
      engine.inspect s.container_name ≡ absent → is_left_alone s.status ≡ false → s.status ≡ error

-- A state that asks for nothing.
abbrev pub is_other : Inspect → Bool
is_other unreachable = true
is_other absent = false
is_other (present t) = not (
    text_eq t (codes "running")
    || text_eq t (codes "exited")
    || text_eq t (codes "created")
    || text_eq t (codes "paused")
    || text_eq t (codes "missing"))

-- The rows that nothing is asked of are the same, in their places.
abbrev pub AreKept : Engine → List Site → List Site → Type 0
AreKept engine [] [] = Unit {0}
AreKept engine [] (t ∷ ts) = ⊥
AreKept engine (s ∷ ss) [] = ⊥
AreKept engine (s ∷ ss) (t ∷ ts) =
    ((is_left_alone s.status || is_other (engine.inspect s.container_name)) ≡ true → t ≡ s)
    × AreKept engine ss ts

wanted-other :
    (status : SiteStatus) (t : Text) → is_other (present t) ≡ true → wanted status t ≡ status
unfolding wanted
wanted-other status t h = ground (arith, h)

target-other :
    (engine : Engine) (s : Site)
    → (is_left_alone s.status || is_other (engine.inspect s.container_name)) ≡ true
    → target engine s ≡ s.status
unfolding target_from target_of state state_of_inspect
target-other engine s h = elim (Bool-cases (is_left_alone s.status)) [
  | inl e ↦ rw e refl
  | inr e ↦ rw e (by_state (engine.inspect s.container_name) (ground arith))
]
  where
    by_state :
        (i : Inspect) → is_other i ≡ true → target_of s.status (state_of_inspect i) ≡ s.status
    by_state unreachable h = refl
    by_state absent h = cc
    by_state (present t) h = wanted-other s.status t h

pub AreKept-settle : (engine : Engine) (ss : List Site) → AreKept engine ss (map (settle engine) ss)
AreKept-settle engine [] = tt
AreKept-settle engine (s ∷ ss) = (
  λ h.
      rw (ap (λ x. same_status x s.status) (target-other engine s h) ∙ same_status_refl s.status)
        refl,
  AreKept-settle engine ss,
)

wanted-idempotent : (s : SiteStatus) (t : Text) → wanted (wanted s t) t ≡ wanted s t
unfolding wanted
wanted-idempotent s t = elim (Bool-cases (text_eq t (codes "running"))) [
  | inl e ↦ rw e refl
  | inr e ↦
      elim (Bool-cases
        (text_eq t (codes "exited") || text_eq t (codes "created") || text_eq t (codes "paused"))) [
          | inl f ↦ rw (e, f) refl
          | inr f ↦ elim (Bool-cases (text_eq t (codes "missing"))) [
            | inl g ↦ rw (e, f, g) refl
            | inr g ↦ rw (e, f, g) refl
          ]
        ]
]

target_of-idempotent :
    (s : SiteStatus) (o : Option Text) → target_of (target_of s o) o ≡ target_of s o
unfolding target_of
target_of-idempotent s none = refl
target_of-idempotent s (some t) = wanted-idempotent s t

target_from-idempotent :
    (s : SiteStatus) (o : Option Text) → target_from (target_from s o) o ≡ target_from s o
unfolding target_from
target_from-idempotent s o = elim (Bool-cases (is_left_alone s)) [
  | inl e ↦ rw (e, e) refl
  | inr e ↦ rw e (again (is_left_alone (target_of s o)))
]
  where
    again : (b : Bool) → (if b then target_of s o else target_of (target_of s o) o) ≡ target_of s o
    again true = refl
    again false = target_of-idempotent s o

same_status_iff : (s t : SiteStatus) → same_status s t ≡ true → s ≡ t
same_status_iff provisioning provisioning h = refl
same_status_iff running running h = refl
same_status_iff stopped stopped h = refl
same_status_iff error error h = refl
same_status_iff deleting deleting h = refl
same_status_iff _ _ h = cc

settle-status : (engine : Engine) (s : Site) → (settle engine s).status ≡ target engine s
settle-status engine s = elim (Bool-cases (same_status (target engine s) s.status)) [
  | inl e ↦ rw e (sym (same_status_iff (target engine s) s.status e))
  | inr e ↦ rw e refl
]

settle-container :
    (engine : Engine) (s : Site) → (settle engine s).container_name ≡ s.container_name
settle-container engine s = elim (Bool-cases (is_moved engine s)) [
  | inl e ↦ rw e refl
  | inr e ↦ rw e refl
]

-- A second look asks for nothing more.
target-settle :
    (engine : Engine) (s : Site) → target engine (settle engine s) ≡ (settle engine s).status
target-settle engine s =
    ap₂ (λ a n. target_from a (state engine n)) (settle-status engine s) (settle-container engine s)
    ∙ target_from-idempotent s.status (state engine s.container_name)
    ∙ sym (settle-status engine s)

is_moved-settle : (engine : Engine) (s : Site) → is_moved engine (settle engine s) ≡ false
is_moved-settle engine s =
    ap (λ x. not (same_status x (settle engine s).status)) (target-settle engine s)
    ∙ ap not (same_status_refl (settle engine s).status)

stable-IsSettled : (engine : Engine) (s : Site) → target engine s ≡ s.status → IsSettled engine s
unfolding target_from target_of state wanted text_eq
stable-IsSettled engine s h = record {
  up = λ i alone. sym h ∙ rw (alone, i) refl;
  exited = λ i alone. sym h ∙ rw (alone, i) refl;
  created = λ i alone. sym h ∙ rw (alone, i) refl;
  paused = λ i alone. sym h ∙ rw (alone, i) refl;
  gone = λ i alone. sym h ∙ rw (alone, i) refl;
}

pub All-IsSettled :
    (engine : Engine) (ss : List Site) → All (IsSettled engine) (map (settle engine) ss)
All-IsSettled engine [] = tt
All-IsSettled engine (s ∷ ss) =
    (stable-IsSettled engine (settle engine s) (target-settle engine s), All-IsSettled engine ss)

pub map-settle-moved :
    (engine : Engine) (ss : List Site) → any (is_moved engine) (map (settle engine) ss) ≡ false
map-settle-moved engine [] = refl
map-settle-moved engine (s ∷ ss) = rw (is_moved-settle engine s) (map-settle-moved engine ss)

-- Where nothing is to be moved a row stays as it is.
pub map-settle-still :
    (engine : Engine) (ss : List Site)
    → any (is_moved engine) ss ≡ false
    → map (settle engine) ss ≡ ss
map-settle-still engine [] h = refl
map-settle-still engine (s ∷ ss) h = elim (Bool-cases (is_moved engine s)) [
  | inl e ↦ let g = rw e at h in cc
  | inr e ↦ let g = rw e at h in rw e (ap (λ x. s ∷ x) (map-settle-still engine ss g))
]

pub map-settle-ids :
    (engine : Engine) (ss : List Site)
    → map (λ s. s.id) (map (settle engine) ss) ≡ map (λ s. s.id) ss
map-settle-ids engine [] = refl
map-settle-ids engine (s ∷ ss) =
    ap₂ (λ i is. i ∷ is) (settle-id engine s) (map-settle-ids engine ss)

IsApart-settle :
    (engine : Engine) (s : Site) (ss : List Site)
    → IsApart s ss
    → IsApart (settle engine s) (map (settle engine) ss)
IsApart-settle engine s [] h = tt
IsApart-settle engine s (t ∷ ss) (h, hs) = (
  ap₂ (λ i j. i == j) (settle-id engine t) (settle-id engine s) ∙ h,
  IsApart-settle engine s ss hs,
)

pub AreDistinct-settle :
    (engine : Engine) (ss : List Site) → AreDistinct ss → AreDistinct (map (settle engine) ss)
AreDistinct-settle engine [] d = tt
AreDistinct-settle engine (s ∷ ss) (h, d) =
    (IsApart-settle engine s ss h, AreDistinct-settle engine ss d)
