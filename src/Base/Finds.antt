-- ===== src/Base/Finds.antt =====
-- What a search in a list finds.
use mathlib.Core.Path.{◌≡◌, subst}
use mathlib.Core.Logic.{inl, inr}
use mathlib.Core.Bool.{Bool}
use mathlib.Core.Option.{some}
use mathlib.Core.List.{List, [], ◌∷◌}
use gocontrolpanel.Base.Tests.{if-eq}
use gocontrolpanel.Base.Lists.{All, find?}

pub find-All :
    {A : Type 0} (P : A → Type 0) (p : A → Bool) (l : List A) {a : A}
    → All P l
    → find? p l ≡ some a
    → P a
find-All P p [] h e = cc
find-All P p (x ∷ l) {a} (h, hs) e = elim (if-eq (p x) e) [
  | inl (b, g) ↦ subst P (some_eq g) h
  | inr (b, g) ↦ find-All P p l hs g
]
  where
    some_eq : some x ≡ some a → x ≡ a
    some_eq g = cc
