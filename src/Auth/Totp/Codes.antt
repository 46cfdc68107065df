-- ===== src/Auth/Totp/Codes.antt =====
-- The truncation never leaves the digest, and a code has six decimal digits.
use gocontrolpanel.Base.{
  ℕ, zero, suc, ◌+◌, ◌-◌, ◌*◌, ◌%◌, ◌^◌, ◌≤◌, ◌<◌, ◌≡◌, refl, some, List, [], ◌∷◌, arith, length,
  All,
}
use gocontrolpanel.Go.Strings.{Text}
use gocontrolpanel.Auth.Totp.{
  Hotp, get_elem?, truncated, six_digits, code, big_endian, totp_code_at_step,
}

get_elem?-some : (xs : List ℕ) (i : ℕ) → i < length xs → (x : ℕ) × (get_elem? xs i ≡ some x)
unfolding get_elem?
get_elem?-some [] i h = elim h [ ]
get_elem?-some (x ∷ xs) zero h = (x, refl)
get_elem?-some (x ∷ xs) (suc i) h = get_elem?-some xs i (omega arith)

truncated-some : (sum : List ℕ) → length sum ≡ 20 → (n : ℕ) × (truncated sum ≡ some n)
unfolding truncated
truncated-some sum h =
    let (last, e) = get_elem?-some sum (length sum - 1) (omega arith) in
    let (b0, e0) = get_elem?-some sum (last % 16) (omega arith) in
    let (b1, e1) = get_elem?-some sum (last % 16 + 1) (omega arith) in
    let (b2, e2) = get_elem?-some sum (last % 16 + 2) (omega arith) in
    let (b3, e3) = get_elem?-some sum (last % 16 + 3) (omega arith) in
    (b0 % 128 * 2 ^ 24 + b1 * 2 ^ 16 + b2 * 2 ^ 8 + b3, rw (e, e0, e1, e2, e3) refl)

abbrev IsDecimal : ℕ → Type 0
IsDecimal c = (b'0' ≤ c) × (c ≤ b'9')

abbrev pub IsCode : Text → Type 0
IsCode c = (length c ≡ 6) × All IsDecimal c

six_digits-IsCode : (n : ℕ) → IsCode (six_digits n)
unfolding six_digits
six_digits-IsCode n = omega arith

-- For a secret that decodes, the truncation stays within the digest at every step and the code has
-- six decimal digits.
pub totp_code_at_step_total :
    (hotp : Hotp) (secret : Text) (step : ℕ) {key : List ℕ}
    → hotp.decode secret ≡ some key
    → (c : Text) × (totp_code_at_step hotp secret step ≡ code (some c)) × IsCode c
unfolding totp_code_at_step
totp_code_at_step_total hotp secret step {key} e =
    let (n, t) =
      truncated-some (hotp.hmac key (big_endian step)) (hotp.length-hmac key (big_endian step)) in
    (six_digits (n % 1000000), rw (e, t) refl, six_digits-IsCode (n % 1000000))
