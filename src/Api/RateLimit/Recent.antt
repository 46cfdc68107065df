-- ===== src/Api/RateLimit/Recent.antt =====
-- What pruning and collecting leave of the recent hits of a key.
use gocontrolpanel.Base.{
  ℕ, ◌+◌, ◌≤◌, ◌<◌, subst, ◌≡◌, refl, sym, ap, ◌∙◌, ◌⊎◌, inl, inr, Bool, true, List, [], ◌∷◌, ◌++◌,
  arith, keep, All,
}
use gocontrolpanel.Go.Strings.{Text}
use gocontrolpanel.Api.RateLimit.{RateLimiter, is_stale, collect, recent}

-- No hit is later than the clock, and each list of hits is in order.
abbrev pub IsUpTo : ℕ → List ℕ → Type 0
IsUpTo now times = All (λ t. t ≤ now) times

abbrev pub IsOrdered : List ℕ → Type 0
IsOrdered [] = Unit
IsOrdered (t ∷ rest) = All (λ u. t ≤ u) rest × IsOrdered rest

-- At no instant from `clock` on do the two lists differ in what is recent.
abbrev pub SameRecent : ℕ → ℕ → List ℕ → List ℕ → Type 0
SameRecent window clock xs ys =
    (now : ℕ) → clock ≤ now → recent window now xs ≡ recent window now ys

recent-append :
    (window now : ℕ) (xs ys : List ℕ)
    → recent window now (xs ++ ys) ≡ recent window now xs ++ recent window now ys
recent-append window now [] ys = refl
recent-append window now (x ∷ xs) ys = ground (arith, recent-append window now xs ys)

-- Pruning at an earlier instant loses nothing that is recent later.
pub recent-recent :
    (window now later : ℕ) (xs : List ℕ)
    → now ≤ later
    → recent window later (recent window now xs) ≡ recent window later xs
recent-recent window now later [] h = refl
recent-recent window now later (x ∷ xs) h = ground (arith, recent-recent window now later xs h)

-- A stale list has nothing recent, now or later.
is_stale-recent :
    (window now later : ℕ) (xs : List ℕ)
    → IsOrdered xs
    → is_stale window now xs ≡ true
    → now ≤ later
    → recent window later xs ≡ []
unfolding is_stale
is_stale-recent window now later [] o s h = refl
is_stale-recent window now later (x ∷ []) o s h = ground arith
is_stale-recent window now later (x ∷ y ∷ rest) ((le, les), o) s h =
    ground (arith, is_stale-recent window now later (y ∷ rest) o s h, last_bound rest y o s)
  where
    last_bound :
        (r : List ℕ) (z : ℕ)
        → IsOrdered (z ∷ r)
        → is_stale window now (z ∷ r) ≡ true
        → z + window < now
    last_bound [] z p q = ground arith
    last_bound (u ∷ r) z ((l, ls), p) q = let b = last_bound r u p q in omega arith

-- What the collection of stale keys leaves of a key.
collect_cases :
    (now : ℕ) (rl : RateLimiter) (key : Text)
    → ((collect now rl).hits key ≡ rl.hits key)
      ⊎ ((is_stale rl.window now (rl.hits key) ≡ true) × ((collect now rl).hits key ≡ []))
unfolding collect
collect_cases now rl key = ground arith

pub collect-window : (now : ℕ) (rl : RateLimiter) → (collect now rl).window ≡ rl.window
unfolding collect
collect-window now rl = ground arith

pub collect-limit : (now : ℕ) (rl : RateLimiter) → (collect now rl).limit ≡ rl.limit
unfolding collect
collect-limit now rl = ground arith

-- The collection changes nothing that is recent at `now` or later.
pub collect-recent :
    (now later : ℕ) (rl : RateLimiter) (key : Text)
    → IsOrdered (rl.hits key)
    → now ≤ later
    → recent rl.window later ((collect now rl).hits key) ≡ recent rl.window later (rl.hits key)
collect-recent now later rl key o h = elim (collect_cases now rl key) [
  | inl e ↦ ap (recent rl.window later) e
  | inr (s, e) ↦
      ap (recent rl.window later) e ∙ sym (is_stale-recent rl.window now later (rl.hits key) o s h)
]

-- A property of lists that the empty list has survives the collection.
pub collect-hits :
    (P : List ℕ → Type 0) (now : ℕ) (rl : RateLimiter) (key : Text)
    → P []
    → P (rl.hits key)
    → P ((collect now rl).hits key)
collect-hits P now rl key none_ok all_ok = elim (collect_cases now rl key) [
  | inl e ↦ subst P (sym e) all_ok
  | inr (s, e) ↦ subst P (sym e) none_ok
]

pub keep-All : (P : ℕ → Type 0) (p : ℕ → Bool) (xs : List ℕ) → All P xs → All P (keep p xs)
keep-All P p [] a = a
keep-All P p (x ∷ xs) (a, rest_ok) = ground (arith, keep-All P p xs rest_ok)

pub All-weaken : (c d : ℕ) (xs : List ℕ) → c ≤ d → IsUpTo c xs → IsUpTo d xs
All-weaken c d [] h a = a
All-weaken c d (x ∷ xs) h (a, rest_ok) = (omega arith, All-weaken c d xs h rest_ok)

-- What a key holds after an accepted hit.
pub All-append : (P : ℕ → Type 0) (xs : List ℕ) (x : ℕ) → All P xs → P x → All P (xs ++ x ∷ [])
All-append P [] x a p = (p, tt)
All-append P (y ∷ xs) x (a, rest_ok) p = (a, All-append P xs x rest_ok p)

pub IsOrdered-append :
    (now : ℕ) (xs : List ℕ) → IsUpTo now xs → IsOrdered xs → IsOrdered (xs ++ now ∷ [])
IsOrdered-append now [] a o = (tt, tt)
IsOrdered-append now (x ∷ xs) (a, rest_ok) (l, o) =
    (All-append (λ u. x ≤ u) xs now l a, IsOrdered-append now xs rest_ok o)

pub IsOrdered-keep : (p : ℕ → Bool) (xs : List ℕ) → IsOrdered xs → IsOrdered (keep p xs)
IsOrdered-keep p [] o = o
IsOrdered-keep p (x ∷ xs) (l, o) =
    ground (arith, keep-All (λ u. x ≤ u) p xs l, IsOrdered-keep p xs o)

pub SameRecent-append :
    (window now clock : ℕ) (xs ys zs : List ℕ)
    → SameRecent window clock xs ys
    → SameRecent window clock (xs ++ zs) (ys ++ zs)
SameRecent-append window now clock xs ys zs same later h =
    recent-append window later xs zs
    ∙ ap (λ l. l ++ recent window later zs) (same later h)
    ∙ sym (recent-append window later ys zs)
