-- ===== src/Auth/Totp/Replay.antt =====
-- A code is good once: the step that is returned is later than the last one used.
use gocontrolpanel.Base.{
  ℕ, ◌-◌, ◌<◌, ◌≡◌, ◌⊎◌, inl, inr, Option, none, some, arith, ◌==◌, length, Bool-cases,
}
use gocontrolpanel.Go.Strings.{Text, trim_space}
use gocontrolpanel.Go.Strings.Laws.{text_eq_iff}
use gocontrolpanel.Auth.Totp.{
  Hotp, CodeResult, bad_secret, code, try_step, totp_step_at, totp_code_at_step, validate_totp,
}

try_step-some :
    (given : Text) (last s r : ℕ) (expected : CodeResult) (rest : Option ℕ)
    → try_step given last s expected rest ≡ some r
    → ((r ≡ s) × (last < s) × (expected ≡ code (some given))) ⊎ (rest ≡ some r)
unfolding try_step
try_step-some given last s r bad_secret rest h = ground arith
try_step-some given last s r (code none) rest h = ground arith
try_step-some given last s r (code (some c)) rest h = ground (arith, text_eq_iff given c)

module _ (hotp : Hotp) where
  -- When ValidateTOTP accepts a code, the step it returns is later than the last one used, is the
  -- current step or the one before it, and the code is that step's.
  pub validate_totp_sound :
      (secret raw : Text) (now last step : ℕ)
      → validate_totp hotp secret raw now last ≡ some step
      → (last < step)
        × ((step ≡ totp_step_at now) ⊎ (step ≡ totp_step_at now - 1))
        × (totp_code_at_step hotp secret step ≡ code (some (trim_space raw)))
  unfolding validate_totp
  validate_totp_sound secret raw now last step h =
      elim (Bool-cases (length (trim_space raw) == 6)) [
        | inr e ↦ absurd (none_some (rw e at h))
        | inl e ↦ elim (try_step-some _ last (totp_step_at now) step _ _ (rw e at h)) [
          | inl (same, later, c) ↦ (rw same later, inl same, rw same c)
          | inr rest ↦ elim (try_step-some _ last (totp_step_at now - 1) step _ none rest) [
            | inl (same, later, c) ↦ (rw same later, inr same, rw same c)
            | inr stop ↦ absurd (none_some stop)
          ]
        ]
      ]
    where
      none_some : ◌≡◌ {A = Option ℕ} none (some step) → ⊥
      none_some h = cc

  -- A code of six characters that is the current step's is accepted if that step is later than the
  -- last one used.
  pub validate_totp_complete :
      (secret raw : Text) (now last : ℕ)
      → length (trim_space raw) ≡ 6
      → last < totp_step_at now
      → totp_code_at_step hotp secret (totp_step_at now) ≡ code (some (trim_space raw))
      → validate_totp hotp secret raw now last ≡ some (totp_step_at now)
  unfolding validate_totp try_step
  validate_totp_complete secret raw now last six later c =
      rw (six, c) (ground (arith, text_eq_iff (trim_space raw) (trim_space raw)))
