-- ===== src/Go/Sort/Order.antt =====
-- The order of texts is linear, and `sort_by` sorts.
use gocontrolpanel.Base.{◌≡◌, refl, inl, inr, Bool, true, false, List, [], ◌∷◌, arith, Bool-cases}
use gocontrolpanel.Go.Strings.{Text}
use gocontrolpanel.Go.Sort.{text_lt, insert_by, sort_by}

pub text_lt_irrefl : (s : Text) → text_lt s s ≡ false
unfolding text_lt
text_lt_irrefl [] = refl
text_lt_irrefl (c ∷ s) = ground (arith, text_lt_irrefl s)

pub text_lt_asymm : (s t : Text) → text_lt s t ≡ true → text_lt t s ≡ false
unfolding text_lt
text_lt_asymm [] [] h = refl
text_lt_asymm [] (d ∷ t) h = refl
text_lt_asymm (c ∷ s) [] h = cc
text_lt_asymm (c ∷ s) (d ∷ t) h = ground (arith, text_lt_asymm s t)

pub text_lt_trans : (s t u : Text) → text_lt s t ≡ true → text_lt t u ≡ true → text_lt s u ≡ true
unfolding text_lt
text_lt_trans [] [] u h k = k
text_lt_trans [] (d ∷ t) [] h k = k
text_lt_trans [] (d ∷ t) (e ∷ u) h k = refl
text_lt_trans (c ∷ s) [] u h k = cc
text_lt_trans (c ∷ s) (d ∷ t) [] h k = cc
text_lt_trans (c ∷ s) (d ∷ t) (e ∷ u) h k = ground (arith, text_lt_trans s t u)

-- Two texts that are in neither order are the same.
pub text_lt_connex : (s t : Text) → text_lt s t ≡ false → text_lt t s ≡ false → s ≡ t
unfolding text_lt
text_lt_connex [] [] h k = refl
text_lt_connex [] (d ∷ t) h k = cc
text_lt_connex (c ∷ s) [] h k = cc
text_lt_connex (c ∷ s) (d ∷ t) h k = ground (arith, text_lt_connex s t)

-- Of two texts with another between them or equal to it.
pub text_le_trans : (s t u : Text) → text_lt t s ≡ false → text_lt u t ≡ false → text_lt u s ≡ false
text_le_trans s t u h k = elim (Bool-cases (text_lt u s)) [
  | inr e ↦ e
  | inl e ↦ elim (Bool-cases (text_lt s t)) [
    | inl f ↦ absurd (false_true (text_lt u t) k (text_lt_trans u s t e f))
    | inr f ↦ absurd (false_true (text_lt u t) k (rw (text_lt_connex t s h f) e))
  ]
]
  where
    false_true : (b : Bool) → b ≡ false → b ≡ true → ⊥
    false_true b p q = cc

module _ {ℓ} {A : Type ℓ} (key : A → Text) where
  -- Each element is not greater than the next one.
  abbrev pub IsSorted : List A → Type 0
  IsSorted [] = Unit
  IsSorted (a ∷ []) = Unit
  IsSorted (a ∷ b ∷ rest) = (text_lt (key b) (key a) ≡ false) × IsSorted (b ∷ rest)

  tail-IsSorted : (b : A) (bs : List A) → IsSorted (b ∷ bs) → IsSorted bs
  tail-IsSorted b [] s = tt
  tail-IsSorted b (c ∷ cs) s = s.1

  insert_by-IsSorted_cons :
      (b a : A) (bs : List A)
      → text_lt (key b) (key a) ≡ true
      → IsSorted (b ∷ bs)
      → IsSorted (insert_by key a bs)
      → IsSorted (b ∷ insert_by key a bs)
  unfolding insert_by
  insert_by-IsSorted_cons b a [] lt s h = (text_lt_asymm (key b) (key a) lt, tt)
  insert_by-IsSorted_cons b a (c ∷ cs) lt s h = elim (Bool-cases (text_lt (key c) (key a))) [
    | inl e ↦ rw e (s.0, (rw e at h))
    | inr e ↦ rw e (text_lt_asymm (key b) (key a) lt, (rw e at h))
  ]

  insert_by-IsSorted : (a : A) (bs : List A) → IsSorted bs → IsSorted (insert_by key a bs)
  unfolding insert_by
  insert_by-IsSorted a [] s = tt
  insert_by-IsSorted a (b ∷ bs) s =
      let rest = insert_by-IsSorted a bs (tail-IsSorted b bs s) in
      elim (Bool-cases (text_lt (key b) (key a))) [
        | inl e ↦ rw e (insert_by-IsSorted_cons b a bs e s rest)
        | inr e ↦ rw e (e, s)
      ]

  pub sort_by-IsSorted : (as' : List A) → IsSorted (sort_by key as')
  unfolding sort_by
  sort_by-IsSorted [] = tt
  sort_by-IsSorted (a ∷ as') = insert_by-IsSorted a (sort_by key as') (sort_by-IsSorted as')
