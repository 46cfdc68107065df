-- ===== src/Api/RateLimit.antt =====
-- `rateLimiter` of internal/api/middleware.go. The map `hits` is a function: a key that is missing
-- has no hits. `t.After(now - window)` is `now < t + window`, which holds for instants before the
-- first window too. The mutex makes `allow` one step.
pub mod Recent
pub mod Ideal
use gocontrolpanel.Base.{
  ℕ, ◌+◌, ◌*◌, Bool, true, false, ◌&&◌, List, [], ◌∷◌, ◌++◌, ltb, leb, if◌then◌else◌, keep, length,
}
use gocontrolpanel.Go.Strings.{Text, text_eq}

pub record RateLimiter : Type 0 where
  pub hits : Text → List ℕ
  pub limit : ℕ
  pub window : ℕ
  pub last_gc : ℕ

unfoldable pub new_rate_limiter : ℕ → ℕ → ℕ → RateLimiter
new_rate_limiter limit window now = record {
  hits = λ k. [];
  limit = limit;
  window = window;
  last_gc = now;
}

unfoldable pub set_hits : (Text → List ℕ) → Text → List ℕ → Text → List ℕ
set_hits hits key times k = if text_eq key k then times else hits k

-- `len(times) == 0 || times[len(times)-1].Before(cutoff)`
unfoldable pub is_stale : ℕ → ℕ → List ℕ → Bool
is_stale window now [] = true
is_stale window now (t ∷ []) = ltb (t + window) now
is_stale window now (t ∷ u ∷ rest) = is_stale window now (u ∷ rest)

unfoldable pub collect : ℕ → RateLimiter → RateLimiter
unfolding is_stale
collect now rl =
    if ltb (rl.last_gc + 5 * rl.window) now
    then record rl {
      hits = λ k. if is_stale rl.window now (rl.hits k) then [] else rl.hits k;
      last_gc = now;
    }
    else rl

abbrev pub recent : ℕ → ℕ → List ℕ → List ℕ
recent window now times = keep (λ t. ltb now (t + window)) times

-- The decision on the hits that were kept.
unfoldable pub admit : RateLimiter → Text → ℕ → List ℕ → RateLimiter × Bool
unfolding set_hits
admit rl key now kept =
    if leb rl.limit (length kept)
    then (record rl { hits = set_hits rl.hits key kept }, false)
    else (record rl { hits = set_hits rl.hits key (kept ++ now ∷ []) }, true)

unfoldable pub allow : RateLimiter → Text → ℕ → RateLimiter × Bool
unfolding collect admit
allow rl key now =
    let rl' = collect now rl in admit rl' key now (recent rl'.window now (rl'.hits key))
