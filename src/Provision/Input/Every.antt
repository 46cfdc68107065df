-- ===== src/Provision/Input/Every.antt =====
-- A test of every byte of a text.
use gocontrolpanel.Base.{
  ℕ, zero, suc, ◌+◌, ◌/◌, ◌%◌, ltb, not, if◌then◌else◌, ◌≡◌, refl, sym, ap, ◌∙◌, Bool, true, false,
  [], ◌∷◌, ◌++◌, ◌==◌, arith, Bool-cases, inl, inr,
}
use gocontrolpanel.Go.Strings.{Text, contains_byte, is_space, trim_left, trim_right, trim_space}
use gocontrolpanel.Go.Strconv.{is_digit, decimal}
use gocontrolpanel.Provision.Input.{every}

pub every-contains_byte :
    (p : ℕ → Bool) (b : ℕ) (s : Text) → p b ≡ false → every p s ≡ true → contains_byte b s ≡ false
unfolding every contains_byte
every-contains_byte p b [] h e = refl
every-contains_byte p b (c ∷ s) h e = elim (Bool-cases (c == b)) [
  | inl q ↦ absurd (clash (sym h ∙ ap p (sym (same q)) ∙ head))
  | inr q ↦ ground (arith, every-contains_byte p b s h)
]
  where
    same : c == b ≡ true → c ≡ b
    same q = ground arith

    head : p c ≡ true
    head = ground arith

    clash : false ≡ true → ⊥
    clash k = cc

pub every-append :
    (p : ℕ → Bool) (s t : Text) → every p s ≡ true → every p t ≡ true → every p (s ++ t) ≡ true
unfolding every
every-append p [] t h k = k
every-append p (c ∷ s) t h k = ground (arith, every-append p s t)

pub every-implies :
    (p q : ℕ → Bool)
    → ((c : ℕ) → p c ≡ true → q c ≡ true)
    → (s : Text) → every p s ≡ true
    → every q s ≡ true
unfolding every
every-implies p q k [] h = refl
every-implies p q k (c ∷ s) h = ground (arith, k c, every-implies p q k s)

-- A text without white space is left alone.
trim_right-none : (s : Text) → every (λ c. not (is_space c)) s ≡ true → trim_right is_space s ≡ s
unfolding every trim_right
trim_right-none [] h = refl
trim_right-none (c ∷ s) h = elim (Bool-cases (is_space c)) [
  | inl e ↦ let g = rw e at h in cc
  | inr e ↦ let g = rw e at h in rw e (ap (λ x. c ∷ x) (trim_right-none s g))
]

pub trim_space-none : (s : Text) → every (λ c. not (is_space c)) s ≡ true → trim_space s ≡ s
unfolding trim_space trim_left every
trim_space-none [] h = unfold trim_right in refl
trim_space-none (c ∷ s) h = elim (Bool-cases (is_space c)) [
  | inl e ↦ let g = rw e at h in cc
  | inr e ↦ ap (trim_right is_space) (kept e) ∙ trim_right-none (c ∷ s) h
]
  where
    kept : is_space c ≡ false → (if is_space c then trim_left is_space s else c ∷ s) ≡ c ∷ s
    kept e = rw e refl

pub every-decimal :
    (p : ℕ → Bool)
    → ((c : ℕ) → is_digit c ≡ true → p c ≡ true)
    → (f n : ℕ) → every p (decimal f n) ≡ true
unfolding decimal every
every-decimal p k zero n = refl
every-decimal p k (suc f) n = elim (Bool-cases (ltb n 10)) [
  | inl e ↦ rw (e, k (b'0' + n) (ground arith)) refl
  | inr e ↦ rw e (
      every-append p (decimal f (n / 10)) _ (every-decimal p k f (n / 10))
        (rw (k (b'0' + n % 10) (ground arith)) refl))
]
