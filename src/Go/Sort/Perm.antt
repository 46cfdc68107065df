-- ===== src/Go/Sort/Perm.antt =====
-- `sort_by` permutes, and its result does not depend on the order of its input where a key
-- belongs to one element only.
use mathlib.Core.List.Permᴰ
use mathlib.Core.List.{Memᴰ, Permᴰ}
use gocontrolpanel.Base.{
  ◌≡◌, refl, ◌∙◌, ap, ◌⊎◌, inl, inr, Bool, List, [], ◌∷◌, arith, ◌||◌, any, Bool-cases,
}
use gocontrolpanel.Go.Strings.{Text}
use gocontrolpanel.Go.Sort.{text_lt, insert_by, sort_by}
use gocontrolpanel.Go.Sort.Order.{text_lt_asymm, text_lt_connex, text_lt_trans, text_le_trans}

swap_or : (x y z : Bool) → (x || (y || z)) ≡ (y || (x || z))
swap_or x y z = ground arith

pub any-perm {ℓ} : {A : Type ℓ} {xs ys : List A} (p : A → Bool) → Permᴰ xs ys → any p xs ≡ any p ys
any-perm p Permᴰ.nil = refl
any-perm p (Permᴰ.cons e d) = rw (e, any-perm p d) refl
any-perm p (Permᴰ.swap {a = a} {b = b} {l = l} e f) = rw (← e, ← f) (swap_or (p a) (p b) (any p l))
any-perm p (Permᴰ.trans d e) = any-perm p d ∙ any-perm p e

module _ {ℓ} {A : Type ℓ} (key : A → Text) where
  -- A key belongs to one element of the list only.
  abbrev pub IsKey : List A → Type ℓ
  IsKey as' = (a b : A) → Memᴰ a as' → Memᴰ b as' → key a ≡ key b → a ≡ b

  insert_by_comm :
      (a b : A) (l : List A)
      → (key a ≡ key b → a ≡ b)
      → insert_by key a (insert_by key b l) ≡ insert_by key b (insert_by key a l)
  unfolding insert_by
  insert_by_comm a b [] same = elim (Bool-cases (text_lt (key b) (key a))) [
    | inl e ↦ rw (e, text_lt_asymm (key b) (key a) e) refl
    | inr e ↦ elim (Bool-cases (text_lt (key a) (key b))) [
      | inl f ↦ rw (e, f) refl
      | inr f ↦ rw (same (text_lt_connex (key a) (key b) f e)) refl
    ]
  ]
  insert_by_comm a b (c ∷ l) same = ground (
    arith,
    insert_by_comm a b l same,
    text_lt_asymm (key b) (key a),
    text_lt_asymm (key a) (key b),
    text_lt_connex (key a) (key b),
    text_lt_trans (key c) (key a) (key b),
    text_lt_trans (key c) (key b) (key a),
    text_le_trans (key a) (key b) (key c),
    text_le_trans (key b) (key a) (key c),
    same,
  )

  head_or_tail : {a x : A} {xs : List A} → Memᴰ a (x ∷ xs) → (a ≡ x) ⊎ Memᴰ a xs
  head_or_tail (Memᴰ.head e) = inl e
  head_or_tail (Memᴰ.tail m) = inr m

  pub Permᴰ-mem : {xs ys : List A} (a : A) → Permᴰ xs ys → Memᴰ a xs → Memᴰ a ys
  Permᴰ-mem a Permᴰ.nil m = m
  Permᴰ-mem a (Permᴰ.cons e d) m = elim (head_or_tail m) [
    | inl h ↦ Memᴰ.head (h ∙ e)
    | inr t ↦ Memᴰ.tail (Permᴰ-mem a d t)
  ]
  Permᴰ-mem a (Permᴰ.swap e f) m = elim (head_or_tail m) [
    | inl h ↦ Memᴰ.tail (Memᴰ.head (h ∙ e))
    | inr t ↦ elim (head_or_tail t) [ inl h ↦ Memᴰ.head (h ∙ f) | inr u ↦ Memᴰ.tail (Memᴰ.tail u) ]
  ]
  Permᴰ-mem a (Permᴰ.trans d e) m = Permᴰ-mem a e (Permᴰ-mem a d m)

  IsKey-perm : {xs ys : List A} → Permᴰ ys xs → IsKey xs → IsKey ys
  IsKey-perm d k a b m n e = k a b (Permᴰ-mem a d m) (Permᴰ-mem b d n) e

  -- Two orders of the same elements sort to the same list.
  pub sort_by-perm : {xs ys : List A} → Permᴰ xs ys → IsKey xs → sort_by key xs ≡ sort_by key ys
  unfolding sort_by
  sort_by-perm Permᴰ.nil k = refl
  sort_by-perm (Permᴰ.cons {a = a} {b = b} e d) k =
      rw e (ap (insert_by key b) (sort_by-perm d (λ x y m n. k x y (Memᴰ.tail m) (Memᴰ.tail n))))
  sort_by-perm (Permᴰ.swap {a = a} {b = b} {l = l} e f) k =
      rw (← e, ← f)
        (insert_by_comm a b (sort_by key l) (k a b (Memᴰ.head refl) (Memᴰ.tail (Memᴰ.head refl))))
  sort_by-perm (Permᴰ.trans d e) k = sort_by-perm d k ∙ sort_by-perm e (IsKey-perm (Permᴰ.symm d) k)

  insert_by-perm : (a : A) (l : List A) → Permᴰ (insert_by key a l) (a ∷ l)
  unfolding insert_by
  insert_by-perm a [] = Permᴰ.cons refl Permᴰ.nil
  insert_by-perm a (b ∷ l) = elim (Bool-cases (text_lt (key b) (key a))) [
    | inl e ↦ rw e (Permᴰ.trans (Permᴰ.cons refl (insert_by-perm a l)) (Permᴰ.swap refl refl))
    | inr e ↦ rw e (Permᴰ.refl (a ∷ b ∷ l))
  ]

  pub sort_by-Permᴰ : (xs : List A) → Permᴰ (sort_by key xs) xs
  unfolding sort_by
  sort_by-Permᴰ [] = Permᴰ.nil
  sort_by-Permᴰ (a ∷ as') =
      Permᴰ.trans (insert_by-perm a (sort_by key as')) (Permᴰ.cons refl (sort_by-Permᴰ as'))
