-- ===== src/Go/Strings.antt =====
-- Package `strings` on byte sequences. Go's white space is also Unicode's; here it is the ASCII
-- one, which is what the inputs of the panel hold, and `to_lower` folds ASCII letters.
pub mod Laws
use Prim.Native.Char.{code}
use gocontrolpanel.Base.{
  ℕ, zero, suc, ◌+◌, String, Bool, true, false, ◌&&◌, ◌||◌, Option, none, some, List, [], ◌∷◌, ◌++◌,
  leb, ◌==◌, if◌then◌else◌,
}

-- A Go string: its bytes.
abbrev pub Text : Type 0
Text = List ℕ

abbrev pub codes : String → Text
codes String.[] = []
codes (String.◌∷◌ c s) = code c ∷ codes s

unfoldable pub text_eq : Text → Text → Bool
text_eq [] [] = true
text_eq (c ∷ s) (d ∷ t) = c == d && text_eq s t
text_eq _ _ = false

abbrev pub is_empty : Text → Bool
is_empty [] = true
is_empty (c ∷ s) = false

unfoldable pub contains_byte : ℕ → Text → Bool
contains_byte b [] = false
contains_byte b (c ∷ s) = c == b || contains_byte b s

unfoldable pub has_prefix : Text → Text → Bool
has_prefix s [] = true
has_prefix [] (p ∷ ps) = false
has_prefix (c ∷ s) (p ∷ ps) = c == p && has_prefix s ps

unfoldable pub drop_bytes : ℕ → Text → Text
drop_bytes zero s = s
drop_bytes (suc n) [] = []
drop_bytes (suc n) (c ∷ s) = drop_bytes n s

abbrev pub text_length : Text → ℕ
text_length [] = 0
text_length (c ∷ s) = suc (text_length s)

unfoldable pub trim_prefix : Text → Text → Text
unfolding has_prefix drop_bytes
trim_prefix s p = if has_prefix s p then drop_bytes (text_length p) s else s

-- strings.Cut at one byte: what stands before its first occurrence, and what stands after it.
cons_head : ℕ → Text × Option Text → Text × Option Text
cons_head c (before, after) = (c ∷ before, after)

unfoldable pub cut : ℕ → Text → Text × Option Text
unfolding cons_head
cut b [] = ([], none)
cut b (c ∷ s) = let rest = cut b s in if c == b then ([], some s) else cons_head c rest

-- strings.Split at one byte: always one part at least.
push_head : ℕ → List Text → List Text
push_head c [] = (c ∷ []) ∷ []
push_head c (part ∷ parts) = (c ∷ part) ∷ parts

unfoldable pub split : ℕ → Text → List Text
unfolding push_head
split b [] = [] ∷ []
split b (c ∷ s) = let rest = split b s in if c == b then [] ∷ rest else push_head c rest

-- strings.SplitN at one byte: the last of the `n` parts is not split further.
split_rest : (Text → List Text) → Text × Option Text → List Text
split_rest more (part, none) = part ∷ []
split_rest more (part, some rest) = part ∷ more rest

unfoldable pub split_n : ℕ → ℕ → Text → List Text
unfolding cut split_rest
split_n b zero s = []
split_n b (suc zero) s = s ∷ []
split_n b (suc (suc n)) s = split_rest (split_n b (suc n)) (cut b s)

abbrev pub is_space : ℕ → Bool
is_space c = c == b' ' || (leb 9 c && leb c 13)

unfoldable pub trim_left : (ℕ → Bool) → Text → Text
trim_left p [] = []
trim_left p (c ∷ s) = let rest = trim_left p s in if p c then rest else c ∷ s

unfoldable pub trim_right : (ℕ → Bool) → Text → Text
trim_right p [] = []
trim_right p (c ∷ s) = let rest = trim_right p s in if p c && is_empty rest then [] else c ∷ rest

unfoldable pub trim_space : Text → Text
unfolding trim_left trim_right
trim_space s = trim_right is_space (trim_left is_space s)

-- strings.Fields: the maximal runs of bytes that are no white space.
keep_full : List Text → List Text
keep_full [] = []
keep_full (part ∷ parts) = let rest = keep_full parts in if is_empty part then rest else part ∷ rest

split_spaces : Text → List Text
unfolding push_head
split_spaces [] = [] ∷ []
split_spaces (c ∷ s) =
    let rest = split_spaces s in if is_space c then [] ∷ rest else push_head c rest

unfoldable pub fields : Text → List Text
unfolding split_spaces keep_full
fields s = keep_full (split_spaces s)

unfoldable pub join : Text → List Text → Text
join sep [] = []
join sep (s ∷ []) = s
join sep (s ∷ t ∷ rest) = s ++ (sep ++ join sep (t ∷ rest))
