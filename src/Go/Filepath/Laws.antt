-- ===== src/Go/Filepath/Laws.antt =====
-- What a cleaned path is made of.
use mathlib.Core.List.{append_assoc, append-nil}
use gocontrolpanel.Base.{
  ◌≡◌, refl, sym, ap, ◌∙◌, inl, inr, Bool, true, false, not, ◌&&◌, ◌||◌, List, [], ◌∷◌, ◌++◌, All,
  arith, Bool-cases,
}
use gocontrolpanel.Go.Strings.{Text, codes, is_empty, contains_byte, has_prefix, split, join}
use gocontrolpanel.Go.Strings.Laws.{split_absent, split_present, split-append}
use gocontrolpanel.Go.Filepath.{
  is_dot, is_dotdot, drop_last, go_up, enter, resolve, absolute, rendered, clean, join_path,
}

-- A component of a cleaned absolute path.
abbrev pub is_name : Text → Bool
is_name c = not (is_empty c) && not (is_dot c) && not (is_dotdot c) && not (contains_byte b'/' c)

abbrev pub AreNames : List Text → Type 0
AreNames cs = All (λ c. is_name c ≡ true) cs

abbrev pub HasNoSlash : Text → Type 0
HasNoSlash c = contains_byte b'/' c ≡ false

drop_last-AreNames : (out : List Text) → AreNames out → AreNames (drop_last out)
drop_last-AreNames [] a = a
drop_last-AreNames (x ∷ []) a = tt
drop_last-AreNames (x ∷ y ∷ rest) (a, b) = (a, drop_last-AreNames (y ∷ rest) b)

snoc-AreNames :
    (out : List Text) (c : Text) → AreNames out → is_name c ≡ true → AreNames (out ++ c ∷ [])
snoc-AreNames [] c a h = (h, tt)
snoc-AreNames (x ∷ xs) c (a, b) h = (a, snoc-AreNames xs c b h)

enter-AreNames :
    (out : List Text) (c : Text) → AreNames out → HasNoSlash c → AreNames (enter true out c)
unfolding enter go_up
enter-AreNames out c a h = elim (Bool-cases (is_empty c || is_dot c)) [
  | inl e ↦ rw e a
  | inr e ↦ elim (Bool-cases (is_dotdot c)) [
    | inl f ↦ rw (e, f) (drop_last-AreNames out a)
    | inr f ↦ rw (e, f) (snoc-AreNames out c a (ground arith))
  ]
]

pub resolve-AreNames :
    (out cs : List Text) → AreNames out → All HasNoSlash cs → AreNames (resolve true out cs)
unfolding resolve
resolve-AreNames out [] a h = a
resolve-AreNames out (c ∷ cs) a (h, hs) =
    resolve-AreNames (enter true out c) cs (enter-AreNames out c a h) hs

enter_name :
    (rooted : Bool) (out : List Text) (c : Text)
    → is_name c ≡ true
    → enter rooted out c ≡ out ++ c ∷ []
unfolding enter
enter_name rooted out c h = ground arith

pub resolve-append :
    (rooted : Bool) (out cs ds : List Text)
    → AreNames cs
    → resolve rooted out (cs ++ ds) ≡ resolve rooted (out ++ cs) ds
unfolding resolve
resolve-append rooted out [] ds a = ap (λ o. resolve rooted o ds) (sym (append-nil out))
resolve-append rooted out (c ∷ cs) ds (a, b) =
    ap (λ o. resolve rooted o (cs ++ ds)) (enter_name rooted out c a)
    ∙ resolve-append rooted (out ++ c ∷ []) cs ds b
    ∙ ap (λ o. resolve rooted o ds) (append_assoc out (c ∷ []) cs)

-- A path from the root is cleaned to names.
pub clean-rooted : (s : Text) → clean (b'/' ∷ s) ≡ absolute (resolve true [] (split b'/' s))
unfolding clean has_prefix split resolve rendered enter
clean-rooted s = refl

pub split-join :
    (c : Text) (cs : List Text)
    → AreNames (c ∷ cs)
    → split b'/' (join (codes "/") (c ∷ cs)) ≡ c ∷ cs
unfolding join
split-join c [] (a, b) = split_absent b'/' c (ground arith)
split-join c (d ∷ ds) (a, b) =
    split_present b'/' c (join (codes "/") (d ∷ ds)) (ground arith)
    ∙ ap (λ x. c ∷ x) (split-join d ds b)

resolve-join :
    (rs : List Text) (t : Text)
    → AreNames rs
    → resolve true [] (split b'/' (join (codes "/") rs ++ b'/' ∷ t))
      ≡ resolve true rs (split b'/' t)
resolve-join [] t a = unfold join split resolve enter in refl
resolve-join (r ∷ rs) t a =
    ap (resolve true []) (split-append b'/' (join (codes "/") (r ∷ rs)) t)
    ∙ ap (λ x. resolve true [] (x ++ split b'/' t)) (split-join r rs a)
    ∙ resolve-append true [] (r ∷ rs) (split b'/' t) a

-- `Join` below a clean absolute path goes on from its components.
pub join_path-absolute :
    (rs : List Text) (t : Text)
    → AreNames rs
    → join_path (absolute rs) t ≡ absolute (resolve true rs (split b'/' t))
unfolding join_path
join_path-absolute rs t a =
    clean-rooted (join (codes "/") rs ++ b'/' ∷ t) ∙ ap absolute (resolve-join rs t a)

pub join-append :
    (rs : List Text) (c : Text) (cs : List Text) (r : Text)
    → join (codes "/") (r ∷ rs ++ c ∷ cs)
      ≡ join (codes "/") (r ∷ rs) ++ b'/' ∷ join (codes "/") (c ∷ cs)
unfolding join
join-append [] c cs r = refl
join-append (s ∷ rs) c cs r =
    ap (λ x. r ++ b'/' ∷ x) (join-append rs c cs s)
    ∙ sym (append_assoc r (b'/' ∷ join (codes "/") (s ∷ rs)) (b'/' ∷ join (codes "/") (c ∷ cs)))

pub AreNames-append : (rs cs : List Text) → AreNames rs → AreNames cs → AreNames (rs ++ cs)
AreNames-append [] cs a b = b
AreNames-append (r ∷ rs) cs (h, a) b = (h, AreNames-append rs cs a b)
