-- ===== src/Auth/Passwords.antt =====
-- The passwords of internal/auth/auth.go. bcrypt and the randomness are the parameter `Passwords`.
use gocontrolpanel.Base.{ℕ, Bool, Option, none, ltb, if◌then◌else◌}
use gocontrolpanel.Go.Strings.{Text, text_length}

-- `generate` is `bcrypt.GenerateFromPassword`, which refuses long passwords; `random` is what
-- `RandomPassword` makes of random bytes, or its error.
pub record Passwords : Type 0 where
  pub generate : Text → Option Text
  pub verify : (hash plain : Text) → Bool
  pub random : ℕ → Option Text

-- `HashPassword`; `none` is an error.
unfoldable pub hash_password : Passwords → Text → Option Text
hash_password p plain = if ltb (text_length plain) 10 then none else p.generate plain
