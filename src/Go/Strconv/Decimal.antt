-- ===== src/Go/Strconv/Decimal.antt =====
-- The digits of a number read back as the number.
use gocontrolpanel.Base.{
  ℕ, zero, suc, ◌+◌, ◌-◌, ◌*◌, ◌/◌, ◌%◌, ◌<◌, ◌≤◌, ◌≡◌, refl, ap, ◌∙◌, inl, inr, true, false, none,
  some, [], ◌∷◌, ◌++◌, ltb, arith, Bool-cases, if◌then◌else◌,
}
use gocontrolpanel.Go.Strings.{Text, text_length, is_empty}
use gocontrolpanel.Go.Strconv.{digits, magnitude, decimal, is_digit}

-- 10 ^ fuel
abbrev pub ten_to : ℕ → ℕ
ten_to zero = 1
ten_to (suc f) = 10 * ten_to f

digits-snoc :
    (acc : ℕ) (s : Text) (c : ℕ) {n : ℕ}
    → digits acc s ≡ some n
    → is_digit c ≡ true
    → digits acc (s ++ c ∷ []) ≡ some (n * 10 + (c - b'0'))
unfolding digits
digits-snoc acc [] c {n} h k = rw k (ap (λ m. some (m * 10 + (c - b'0'))) same)
  where
    same : acc ≡ n
    same = cc
digits-snoc acc (d ∷ s) c h k = elim (Bool-cases (is_digit d)) [
  | inl e ↦ let g = rw e at h in rw e (digits-snoc (acc * 10 + (d - b'0')) s c g k)
  | inr e ↦ let g = rw e at h in cc
]

pub digits-decimal : (f n : ℕ) → n < ten_to f → digits 0 (decimal f n) ≡ some n
unfolding digits decimal
digits-decimal zero n h = ap some (omega arith)
digits-decimal (suc f) n h = elim (Bool-cases (ltb n 10)) [
  | inl e ↦ rw e (single e)
  | inr e ↦ rw e (
      digits-snoc 0 (decimal f (n / 10)) (b'0' + n % 10)
        (digits-decimal f (n / 10) (omega (arith, h))) (ground arith)
      ∙ ap some (omega arith))
]
  where
    single :
        ltb n 10 ≡ true
        → (if is_digit (b'0' + n) then some (0 * 10 + ((b'0' + n) - b'0')) else none) ≡ some n
    single e = ground arith

text_length-snoc : (s : Text) (c : ℕ) → text_length (s ++ c ∷ []) ≡ suc (text_length s)
text_length-snoc [] c = refl
text_length-snoc (d ∷ s) c = ap suc (text_length-snoc s c)

pub decimal-length : (f n : ℕ) → text_length (decimal f n) ≤ f
unfolding decimal
decimal-length zero n = omega arith
decimal-length (suc f) n = elim (Bool-cases (ltb n 10)) [
  | inl e ↦ rw e (omega arith)
  | inr e ↦ rw e (
      omega
        (arith, text_length-snoc (decimal f (n / 10)) (b'0' + n % 10), decimal-length f (n / 10)))
]

pub decimal-full : (f n : ℕ) → is_empty (decimal (suc f) n) ≡ false
unfolding decimal
decimal-full f n = elim (Bool-cases (ltb n 10)) [
  | inl e ↦ rw e refl
  | inr e ↦ rw e (snoc_full (decimal f (n / 10)))
]
  where
    snoc_full : (s : Text) → is_empty (s ++ (b'0' + n % 10) ∷ []) ≡ false
    snoc_full [] = refl
    snoc_full (c ∷ s) = refl

pub magnitude-decimal : (f n : ℕ) → n < ten_to (suc f) → magnitude (decimal (suc f) n) ≡ some n
unfolding magnitude
magnitude-decimal f n h =
    by_text (decimal (suc f) n) (digits-decimal (suc f) n h) (decimal-full f n)
  where
    by_text : (t : Text) → digits 0 t ≡ some n → is_empty t ≡ false → magnitude t ≡ some n
    by_text [] e full = cc
    by_text (c ∷ t) e full = unfold magnitude in e
