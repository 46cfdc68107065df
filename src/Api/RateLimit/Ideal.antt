-- ===== src/Api/RateLimit/Ideal.antt =====
-- The limiter against one that forgets nothing: neither the pruning of a key's hits nor the
-- collection of stale keys changes a decision, as long as the clock does not go back.
use gocontrolpanel.Base.{
  ℕ, ◌≤◌, ◌≡◌, Bool, true, false, List, [], ◌∷◌, ◌++◌, leb, if◌then◌else◌, length,
}
use gocontrolpanel.Go.Strings.{Text}
use gocontrolpanel.Api.RateLimit.{RateLimiter, set_hits, recent, allow}
use gocontrolpanel.Api.RateLimit.Recent.{IsUpTo, IsOrdered, SameRecent}

-- The specification: all accepted instants of each key, and the count of those in the window.
abbrev pub History : Type 0
History = Text → List ℕ

unfoldable pub ideal : ℕ → ℕ → History → Text → ℕ → History × Bool
unfolding set_hits
ideal limit window history key now =
    if leb limit (length (recent window now (history key)))
    then (history, false)
    else (set_hits history key (history key ++ now ∷ []), true)

pub record Simulates (limit window clock : ℕ) (rl : RateLimiter) (history : History) : Type 0 where
  pub limit_same : rl.limit ≡ limit
  pub window_same : rl.window ≡ window
  pub same : (key : Text) → SameRecent window clock (rl.hits key) (history key)
  pub up_to : (key : Text) → IsUpTo clock (rl.hits key)
  pub ordered : (key : Text) → IsOrdered (rl.hits key)

-- The same decision, and what both sides hold after it.
abbrev pub Agrees : ℕ → ℕ → ℕ → RateLimiter × Bool → History × Bool → Type 0
Agrees limit window now p q = (p.1 ≡ q.1) × Simulates limit window now p.0 q.0

-- A request: the instant and the address.
unfoldable pub decisions : RateLimiter → List (ℕ × Text) → List Bool
decisions rl [] = []
decisions rl ((now, key) ∷ rest) = let (rl', ok) = allow rl key now in ok ∷ decisions rl' rest

unfoldable pub ideal_decisions : ℕ → ℕ → History → List (ℕ × Text) → List Bool
ideal_decisions limit window history [] = []
ideal_decisions limit window history ((now, key) ∷ rest) =
    let (history', ok) = ideal limit window history key now in
    ok ∷ ideal_decisions limit window history' rest

-- The clock of the requests does not go back.
abbrev pub IsTimed : ℕ → List (ℕ × Text) → Type 0
IsTimed clock [] = Unit
IsTimed clock ((now, key) ∷ rest) = (clock ≤ now) × IsTimed now rest
