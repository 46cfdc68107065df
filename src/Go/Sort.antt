-- ===== src/Go/Sort.antt =====
-- `sort.Slice` and `sort.Strings`: the elements in the order of a text key, bytes compared as Go
-- compares strings. Go's sort is not stable; equal keys keep their order here.
pub mod Order
pub mod Perm
use gocontrolpanel.Base.{ℕ, Bool, true, false, List, [], ◌∷◌, ltb, if◌then◌else◌}
use gocontrolpanel.Go.Strings.{Text}

unfoldable pub text_lt : Text → Text → Bool
text_lt [] [] = false
text_lt [] (d ∷ t) = true
text_lt (c ∷ s) [] = false
text_lt (c ∷ s) (d ∷ t) =
    let rest = text_lt s t in if ltb c d then true else if ltb d c then false else rest

module _ {ℓ} {A : Type ℓ} (key : A → Text) where
  pub insert_by : A → List A → List A
  insert_by a [] = a ∷ []
  insert_by a (b ∷ bs) =
      let rest = insert_by a bs in if text_lt (key b) (key a) then b ∷ rest else a ∷ b ∷ bs

  unfoldable pub sort_by : List A → List A
  unfolding insert_by
  sort_by [] = []
  sort_by (a ∷ as') = insert_by a (sort_by as')
