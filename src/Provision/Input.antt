-- ===== src/Provision/Input.antt =====
-- The forms of names that internal/provision/service.go accepts, and `normalizeDomain`. A regular
-- expression of the source is the test that it stands for.
pub mod Every
use gocontrolpanel.Base.{
  ℕ, ◌+◌, Bool, true, false, ◌&&◌, ◌||◌, List, [], ◌∷◌, ◌++◌, map, leb, ◌==◌, if◌then◌else◌, length,
}
use gocontrolpanel.Go.Strings.{
  Text, codes, text_eq, is_empty, trim_space, trim_prefix, has_prefix, split,
}

-- strings.ToLower on ASCII letters.
abbrev lower_byte : ℕ → ℕ
lower_byte c = if leb b'A' c && leb c b'Z' then c + 32 else c

unfoldable pub to_lower : Text → Text
to_lower s = map lower_byte s

abbrev pub is_letter : ℕ → Bool
is_letter c = leb b'a' c && leb c b'z'

abbrev pub is_alnum : ℕ → Bool
is_alnum c = is_letter c || (leb b'0' c && leb c b'9')

unfoldable pub every : (ℕ → Bool) → Text → Bool
every p [] = true
every p (c ∷ s) = p c && every p s

abbrev bounded : ℕ → ℕ → Text → Bool
bounded lo hi s = leb lo (length s) && leb (length s) hi

-- ^[a-z][a-z0-9_]{2,15}$
unfoldable pub valid_system_user : Text → Bool
unfolding every
valid_system_user [] = false
valid_system_user (c ∷ s) =
    is_letter c && (bounded 2 15 s && every (λ d. is_alnum d || d == b'_') s)

-- ^[a-z0-9][a-z0-9-]{1,30}$
unfoldable pub valid_site_name : Text → Bool
unfolding every
valid_site_name [] = false
valid_site_name (c ∷ s) = is_alnum c && (bounded 1 30 s && every (λ d. is_alnum d || d == b'-') s)

-- [a-z0-9]([a-z0-9-]{0,61}[a-z0-9])?
last_is_alnum : Text → Bool
last_is_alnum [] = false
last_is_alnum (c ∷ []) = is_alnum c
last_is_alnum (c ∷ d ∷ s) = last_is_alnum (d ∷ s)

first_is_alnum : Text → Bool
first_is_alnum [] = false
first_is_alnum (c ∷ s) = is_alnum c

valid_label : Text → Bool
unfolding every last_is_alnum first_is_alnum
valid_label s =
    first_is_alnum s
    && last_is_alnum s
    && leb (length s) 63
    && every (λ d. is_alnum d || d == b'-') s

-- (label\.)+[a-z]{2,} at the parts between the dots.
valid_tail : List Text → Bool
unfolding valid_label
valid_tail [] = false
valid_tail (top ∷ []) = leb 2 (length top) && every is_letter top
valid_tail (label ∷ next ∷ rest) = valid_label label && valid_tail (next ∷ rest)

valid_labels : List Text → Bool
unfolding valid_tail
valid_labels (label ∷ next ∷ rest) = valid_tail (label ∷ next ∷ rest)
valid_labels _ = false

unfoldable pub valid_fqdn : Text → Bool
unfolding valid_labels trim_prefix split
valid_fqdn s = valid_labels (split b'.' (trim_prefix s (codes "*.")))

trim_slash : Text → Text
trim_slash [] = []
trim_slash (c ∷ s) = let rest = trim_slash s in if c == b'/' && is_empty s then [] else c ∷ rest

unfoldable pub normalize_domain : Text → Text
unfolding to_lower trim_space trim_prefix trim_slash
normalize_domain d =
    trim_slash
      (trim_prefix (trim_prefix (to_lower (trim_space d)) (codes "http://")) (codes "https://"))

-- strings.Contains(s, "..")
unfoldable pub contains_dots : Text → Bool
unfolding has_prefix
contains_dots [] = false
contains_dots (c ∷ s) = has_prefix (c ∷ s) (codes "..") || contains_dots s

unfoldable pub starts_at_root : Text → Bool
starts_at_root [] = false
starts_at_root (c ∷ s) = c == b'/'

unfoldable pub contains_text : List Text → Text → Bool
contains_text [] v = false
contains_text (x ∷ xs) v = text_eq x v || contains_text xs v
