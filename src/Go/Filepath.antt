-- ===== src/Go/Filepath.antt =====
-- Package `path/filepath` on Unix, as documented: `Clean`, `Join` of two paths, `Base`, `Dir`, and
-- the part of a path before its extension.
pub mod Laws
pub mod Extension
use gocontrolpanel.Base.{
  ℕ, Bool, true, false, not, ◌&&◌, ◌||◌, Option, none, some, List, [], ◌∷◌, ◌++◌, ◌==◌,
  if◌then◌else◌,
}
use gocontrolpanel.Go.Strings.{
  Text, codes, text_eq, is_empty, contains_byte, has_prefix, split, join, trim_right,
}

abbrev pub is_dot : Text → Bool
is_dot c = text_eq c (codes ".")

abbrev pub is_dotdot : Text → Bool
is_dotdot c = text_eq c (codes "..")

abbrev pub drop_last : List Text → List Text
drop_last [] = []
drop_last (x ∷ []) = []
drop_last (x ∷ y ∷ rest) = x ∷ drop_last (y ∷ rest)

abbrev pub ends_dotdot : List Text → Bool
ends_dotdot [] = true
ends_dotdot (x ∷ []) = is_dotdot x
ends_dotdot (x ∷ y ∷ rest) = ends_dotdot (y ∷ rest)

-- `..`: a rooted path stays at its root, a relative one keeps what it cannot resolve.
unfoldable pub go_up : Bool → List Text → List Text
go_up true out = drop_last out
go_up false out = if ends_dotdot out then out ++ codes ".." ∷ [] else drop_last out

unfoldable pub enter : Bool → List Text → Text → List Text
unfolding go_up
enter rooted out c =
    if is_empty c || is_dot c then out else if is_dotdot c then go_up rooted out else out ++ c ∷ []

unfoldable pub resolve : Bool → List Text → List Text → List Text
unfolding enter
resolve rooted out [] = out
resolve rooted out (c ∷ cs) = resolve rooted (enter rooted out c) cs

-- The absolute path with these components.
abbrev pub absolute : List Text → Text
absolute cs = b'/' ∷ join (codes "/") cs

rendered : Bool → List Text → Text
unfolding join
rendered true cs = absolute cs
rendered false [] = codes "."
rendered false (c ∷ cs) = join (codes "/") (c ∷ cs)

unfoldable pub clean : Text → Text
unfolding rendered resolve split has_prefix
clean s =
    let rooted = has_prefix s (codes "/") in rendered rooted (resolve rooted [] (split b'/' s))

-- filepath.Join(a, b)
unfoldable pub join_path : Text → Text → Text
unfolding clean
join_path [] [] = []
join_path [] (c ∷ b) = clean (c ∷ b)
join_path (c ∷ a) b = clean ((c ∷ a) ++ b'/' ∷ b)

last_component : Text → Text
last_component [] = []
last_component (c ∷ s) =
    let rest = last_component s in if contains_byte b'/' (c ∷ s) then rest else c ∷ s

unfoldable pub base : Text → Text
unfolding last_component contains_byte trim_right
base [] = codes "."
base (c ∷ s) =
    let t = last_component (trim_right (λ d. d == b'/') (c ∷ s)) in
    if is_empty t then codes "/" else t

before_last : Text → Text
before_last [] = []
before_last (c ∷ s) =
    let rest = before_last s in if contains_byte b'/' (c ∷ s) then c ∷ rest else []

unfoldable pub dir : Text → Text
unfolding before_last contains_byte clean
dir s = clean (before_last s)

dot_here : ℕ → Text → Option Text → Option Text
dot_here c s (some t) = some (c ∷ t)
dot_here c s none = if c == b'.' && not (contains_byte b'/' s) then some [] else none

-- What stands before the last dot of the last component.
unfoldable pub stem : Text → Option Text
unfolding dot_here contains_byte
stem [] = none
stem (c ∷ s) = dot_here c s (stem s)

ext_here : ℕ → Text → Text → Text
ext_here c s [] = if c == b'.' && not (contains_byte b'/' s) then c ∷ s else []
ext_here c s (d ∷ t) = d ∷ t

-- filepath.Ext, with its dot.
unfoldable pub ext : Text → Text
unfolding ext_here contains_byte
ext [] = []
ext (c ∷ s) = ext_here c s (ext s)
