-- ===== src/Api/Files/Inside.antt =====
-- No request leads out of the account's folder: archives and uploads with `..` in a name included.
use mathlib.Core.List.{append_assoc}
use gocontrolpanel.Base.{
  ◌≡◌, sym, ap, subst, ◌∙◌, ◌⊎◌, inl, inr, true, some, List, [], ◌∷◌, ◌++◌, Bool-cases,
}
use gocontrolpanel.Go.Strings.{Text, codes, text_eq, has_prefix, trim_prefix, split, join}
use gocontrolpanel.Go.Strings.Laws.{split-All, text_eq_iff, has_prefix-append, has_prefix-split}
use gocontrolpanel.Go.Filepath.{absolute, resolve, clean, join_path}
use gocontrolpanel.Go.Filepath.Laws.{AreNames, clean-rooted, resolve-AreNames}
use gocontrolpanel.Api.Files.{anchored, safe_path}

-- A cleaned absolute path: no component is empty, `.` or `..`.
abbrev pub IsClean : Text → Type 0
IsClean t = (cs : List Text) × AreNames cs × (t ≡ absolute cs)

abbrev pub Below : Text → Text → Type 0
Below root t = (t ≡ root) ⊎ (has_prefix t (root ++ codes "/") ≡ true)

-- In the folder, or the folder itself.
abbrev pub Under : Text → Text → Type 0
Under root t = Below root t × IsClean t

-- The path from the root of the file system.
abbrev pub IsRooted : Text → Type 0
IsRooted d = (s : Text) × (d ≡ b'/' ∷ s)

clean-IsClean : (s : Text) → IsClean (clean (b'/' ∷ s))
clean-IsClean s = (
  resolve true [] (split b'/' s),
  resolve-AreNames [] (split b'/' s) tt (split-All b'/' s),
  clean-rooted s,
)

join_path-IsClean : (d t : Text) → IsRooted d → IsClean (join_path d t)
unfolding join_path
join_path-IsClean d t (s, e) =
    subst (λ x. IsClean (join_path x t)) (sym e) (clean-IsClean (s ++ b'/' ∷ t))

anchored_lem :
    (root t : Text) {full : Text} → anchored root t ≡ some full → (t ≡ full) × Below root t
unfolding anchored
anchored_lem root t {full} h = elim (Bool-cases (text_eq t root)) [
  | inl e ↦ let k = rw e at h in (cc, inl ((text_eq_iff t root).0 e))
  | inr e ↦ elim (Bool-cases (has_prefix t (root ++ codes "/"))) [
    | inl f ↦ let k = rw (e, f) at h in (cc, inr f)
    | inr f ↦ let k = rw (e, f) at h in cc
  ]
]

-- What `safePath` returns is in the folder.
pub safe_path-Under :
    (root rel : Text) {full : Text}
    → IsRooted root
    → safe_path root rel ≡ some full
    → Under root full
unfolding safe_path
safe_path-Under root rel {full} rooted h =
    let (same, below) =
      anchored_lem root (join_path root (clean (b'/' ∷ trim_prefix rel (codes "/")))) h in
    subst (Under root) same (below, join_path-IsClean root _ rooted)

-- Below what is below the folder.
pub Below-trans :
    (root d t : Text)
    → has_prefix d (root ++ codes "/") ≡ true
    → Below d t
    → has_prefix t (root ++ codes "/") ≡ true
Below-trans root d t h (inl e) = rw e h
Below-trans root d t h (inr k) =
    let (x, e) = has_prefix-split d (root ++ codes "/") h in
    let (y, f) = has_prefix-split t (d ++ codes "/") k in
    let g : t ≡ (root ++ codes "/") ++ (x ++ (codes "/" ++ y)) =
      f
      ∙ append_assoc d (codes "/") y
      ∙ ap (λ z. z ++ (codes "/" ++ y)) e
      ∙ append_assoc (root ++ codes "/") x (codes "/" ++ y) in
    ap (λ z. has_prefix z (root ++ codes "/")) g
    ∙ has_prefix-append (root ++ codes "/") (x ++ (codes "/" ++ y))

-- Under what is under the folder.
pub Under-trans : (root d t : Text) → Under root d → Under d t → Under root t
Under-trans root d t (inl e, c) (below, k) = (subst (λ x. Below x t) e below, k)
Under-trans root d t (inr h, c) (below, k) = (inr (Below-trans root d t h below), k)

pub IsClean-IsRooted : {d : Text} → IsClean d → IsRooted d
IsClean-IsRooted (cs, a, e) = (join (codes "/") cs, e)
