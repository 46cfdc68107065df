-- ===== src/Tests/Matcher.antt =====
-- A matcher of hosts to run the edge with: a name covers itself, and a star covers one label.
use gocontrolpanel.Base.{◌≡◌, Bool, true, false, ◌&&◌, ◌||◌, [], ◌∷◌, ◌==◌, arith, if◌then◌else◌}
use gocontrolpanel.Go.Strings.{Text, text_eq}
use gocontrolpanel.Go.Strings.Laws.{text_eq_refl}
use gocontrolpanel.Caddy.Routes.{HostMatcher}

from_dot : Text → Text
from_dot [] = []
from_dot (c ∷ s) = let rest = from_dot s in if c == b'.' then c ∷ s else rest

starred : Text → Text → Bool
unfolding text_eq from_dot
starred [] host = false
starred (c ∷ rest) host = c == b'*' && text_eq rest (from_dot host)

unfoldable pub star_covers : Text → Text → Bool
unfolding starred text_eq
star_covers name host = text_eq name host || starred name host

pub star_covers-same : (host : Text) → star_covers host host ≡ true
unfolding star_covers
star_covers-same host = ground (arith, text_eq_refl host)

abbrev pub star_matcher : HostMatcher
star_matcher = record { covers = star_covers; covers-same = star_covers-same }
