-- ===== src/Caddy/Subjects.antt =====
-- `dedupe`, and the names for which the edge asks certificates.
use mathlib.Core.List.Permᴰ
use mathlib.Core.List.{Permᴰ}
use mathlib.Core.Path.{subst₂}
use gocontrolpanel.Base.{◌≡◌, ◌∙◌, Bool, false, not, ◌&&◌, List, [], ◌∷◌, arith, any}
use gocontrolpanel.Go.Strings.{Text, text_eq, is_empty}
use gocontrolpanel.Go.Strings.Laws.{text_eq_iff, text_eq_refl}
use gocontrolpanel.Go.Sort.Order.{IsSorted, sort_by-IsSorted}
use gocontrolpanel.Go.Sort.Perm.{sort_by-Permᴰ, any-perm}
use gocontrolpanel.Caddy.Build.{first_seen, dedupe}

abbrev pub member : Text → List Text → Bool
member s xs = any (text_eq s) xs

-- No text stands twice.
abbrev pub IsDistinct : List Text → Type 0
IsDistinct [] = Unit
IsDistinct (x ∷ xs) = (member x xs ≡ false) × IsDistinct xs

text_eq_sym : (s t : Text) → text_eq s t ≡ text_eq t s
text_eq_sym s t = ground (arith, text_eq_iff s t, text_eq_iff t s, text_eq_refl s)

swap-IsDistinct : (a b : Text) (l : List Text) → IsDistinct (a ∷ b ∷ l) → IsDistinct (b ∷ a ∷ l)
swap-IsDistinct a b l d = ground (arith, text_eq_sym a b)

IsDistinct-perm : {xs ys : List Text} → Permᴰ xs ys → IsDistinct xs → IsDistinct ys
IsDistinct-perm Permᴰ.nil d = d
IsDistinct-perm (Permᴰ.cons {a = a} {b = b} e p) (h, d) =
    (rw (← e, ← any-perm (text_eq a) p) h, IsDistinct-perm p d)
IsDistinct-perm (Permᴰ.swap {a' = a'} {b' = b'} {l = l} e f) d =
    swap-IsDistinct b' a' l (subst₂ (λ x y. IsDistinct (x ∷ y ∷ l)) e f d)
IsDistinct-perm (Permᴰ.trans p q) d = IsDistinct-perm q (IsDistinct-perm p d)

-- What the loop keeps: the non-empty texts that were not seen before it.
member-first_seen :
    (s : Text) (seen xs : List Text)
    → member s (first_seen seen xs) ≡ (not (is_empty s) && not (member s seen) && member s xs)
unfolding first_seen
member-first_seen s seen [] = ground arith
member-first_seen s seen (v ∷ vs) = ground (
  arith,
  member-first_seen s seen vs,
  member-first_seen s (v ∷ seen) vs,
  text_eq_iff s v,
  text_eq_refl v,
)

first_seen-IsDistinct : (seen xs : List Text) → IsDistinct (first_seen seen xs)
unfolding first_seen
first_seen-IsDistinct seen [] = tt
first_seen-IsDistinct seen (v ∷ vs) = ground (
  arith,
  first_seen-IsDistinct seen vs,
  first_seen-IsDistinct (v ∷ seen) vs,
  member-first_seen v (v ∷ seen) vs,
  text_eq_refl v,
)

-- The result of dedupe is in order, has no text twice, and has exactly the non-empty texts of the
-- input.
pub dedupe_lem :
    (xs : List Text)
    → IsSorted (λ s. s) (dedupe xs)
      × IsDistinct (dedupe xs)
      × ((s : Text) → member s (dedupe xs) ≡ (not (is_empty s) && member s xs))
unfolding dedupe
dedupe_lem xs =
    let p = sort_by-Permᴰ (λ (s : Text). s) (first_seen [] xs) in
    (
      sort_by-IsSorted (λ s. s) (first_seen [] xs),
      IsDistinct-perm (Permᴰ.symm p) (first_seen-IsDistinct [] xs),
      λ s.
          any-perm (text_eq s) p
          ∙ (member-first_seen s [] xs ∙ drop_unseen (is_empty s) (member s xs)),
    )
  where
    drop_unseen : (a b : Bool) → (not a && not false && b) ≡ (not a && b)
    drop_unseen a b = ground arith
