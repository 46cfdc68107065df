-- ===== src/Auth/Totp.antt =====
-- internal/auth/totp.go: codes of six digits for steps of thirty seconds. HMAC-SHA1 and base32 are
-- parameters. A byte's `& 0x0f` and `& 0x7f` are remainders, and the `|` of bytes shifted to
-- different places is their sum. `none` is an index out of range, which would stop the program.
pub mod Codes
pub mod Replay
use gocontrolpanel.Base.{
  ℕ, zero, suc, ◌+◌, ◌-◌, ◌*◌, ◌/◌, ◌%◌, ◌^◌, ◌<◌, ◌≡◌, Bool, true, false, Option, none, some, List,
  [], ◌∷◌, leb, ltb, ◌==◌, if◌then◌else◌, length, All,
}
use gocontrolpanel.Go.Strings.{Text, text_eq, trim_space}

-- `decode` reads an upper-cased, trimmed secret; `hmac` is HMAC-SHA1, which gives twenty bytes.
pub record Hotp : Type 0 where
  pub decode : Text → Option (List ℕ)
  pub hmac : List ℕ → List ℕ → List ℕ
  pub length-hmac : (key msg : List ℕ) → length (hmac key msg) ≡ 20

unfoldable pub get_elem? : List ℕ → ℕ → Option ℕ
get_elem? [] i = none
get_elem? (x ∷ xs) zero = some x
get_elem? (x ∷ xs) (suc i) = get_elem? xs i

-- binary.BigEndian.PutUint64
unfoldable pub big_endian : ℕ → List ℕ
big_endian n =
    (n / 2 ^ 56 % 256)
    ∷ (n / 2 ^ 48 % 256)
    ∷ (n / 2 ^ 40 % 256)
    ∷ (n / 2 ^ 32 % 256)
    ∷ (n / 2 ^ 24 % 256)
    ∷ (n / 2 ^ 16 % 256)
    ∷ (n / 2 ^ 8 % 256)
    ∷ (n % 256)
    ∷ []

join_bytes : Option ℕ → Option ℕ → Option ℕ → Option ℕ → Option ℕ
join_bytes (some b0) (some b1) (some b2) (some b3) =
    some (b0 % 128 * 2 ^ 24 + b1 * 2 ^ 16 + b2 * 2 ^ 8 + b3)
join_bytes _ _ _ _ = none

at_offset : List ℕ → Option ℕ → Option ℕ
unfolding join_bytes get_elem?
at_offset sum none = none
at_offset sum (some last) =
    let offset = last % 16 in
    join_bytes (get_elem? sum offset) (get_elem? sum (offset + 1)) (get_elem? sum (offset + 2))
      (get_elem? sum (offset + 3))

-- The dynamic truncation of RFC 4226.
unfoldable pub truncated : List ℕ → Option ℕ
unfolding at_offset
truncated sum = at_offset sum (get_elem? sum (length sum - 1))

digit : ℕ → ℕ → ℕ
digit n place = n / place % 10 + b'0'

-- %06d of a number below a million.
unfoldable pub six_digits : ℕ → Text
unfolding digit
six_digits n =
    digit n 100000 ∷ digit n 10000 ∷ digit n 1000 ∷ digit n 100 ∷ digit n 10 ∷ digit n 1 ∷ []

-- `err`: the secret is no base32. `code none` is the index out of range.
pub data CodeResult : Type 0 where
  bad_secret : CodeResult
  code : Option Text → CodeResult

shown : Option ℕ → Option Text
unfolding six_digits
shown none = none
shown (some n) = some (six_digits (n % 1000000))

code_of_key : (List ℕ → List ℕ → List ℕ) → Option (List ℕ) → ℕ → CodeResult
unfolding shown truncated big_endian
code_of_key hmac none step = bad_secret
code_of_key hmac (some key) step = code (shown (truncated (hmac key (big_endian step))))

unfoldable pub totp_step_at : ℕ → ℕ
totp_step_at now = now / 30

module _ (hotp : Hotp) where
  unfoldable pub totp_code_at_step : Text → ℕ → CodeResult
  unfolding code_of_key
  totp_code_at_step secret step = code_of_key hotp.hmac (hotp.decode secret) step

-- One round of the loop of `ValidateTOTP`: a step already used is passed over, a bad secret ends
-- the loop, and so does a match.
compare_code : Text → ℕ → CodeResult → Option ℕ → Option ℕ
compare_code given s bad_secret rest = none
compare_code given s (code none) rest = none
compare_code given s (code (some c)) rest = if text_eq given c then some s else rest

unfoldable pub try_step : Text → ℕ → ℕ → CodeResult → Option ℕ → Option ℕ
unfolding compare_code
try_step given last s expected rest =
    if leb s last then rest else compare_code given s expected rest

module _ (hotp : Hotp) where
  unfoldable pub validate_totp : Text → Text → ℕ → ℕ → Option ℕ
  unfolding try_step
  validate_totp secret raw now last =
      let given = trim_space raw in
      let current = totp_step_at now in
      if length given == 6
      then try_step given last current (totp_code_at_step hotp secret current)
          (try_step given last (current - 1) (totp_code_at_step hotp secret (current - 1)) none)
      else none
