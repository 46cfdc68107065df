-- ===== src/Go/Filepath/Extension.antt =====
-- The extension of a path is that of its last component.
use gocontrolpanel.Base.{
  ◌≡◌, refl, sym, ap, ◌∙◌, true, false, Option, some, [], ◌∷◌, ◌++◌, arith, Option-cases, inl, inr,
}
use gocontrolpanel.Go.Strings.{Text, codes, contains_byte, has_prefix}
use gocontrolpanel.Go.Filepath.{stem, dot_here, ext, ext_here}

contains_slash : (s t : Text) → contains_byte b'/' (s ++ b'/' ∷ t) ≡ true
unfolding contains_byte
contains_slash [] t = refl
contains_slash (c ∷ s) t = ground (arith, contains_slash s t)

some_eq : {s t : Text} → ◌≡◌ {A = Option Text} (some s) (some t) → s ≡ t
some_eq e = cc

-- What stands before the extension keeps the folder.
pub stem-has_prefix :
    (root x : Text) {d : Text}
    → stem (root ++ b'/' ∷ x) ≡ some d
    → has_prefix d (root ++ codes "/") ≡ true
unfolding stem has_prefix dot_here
stem-has_prefix [] x {d} h = elim (Option-cases (stem x)) [
  | inl e ↦ let k = rw e at h in cc
  | inr (t, e) ↦ let k = rw e at h in ap (λ z. has_prefix z (codes "/")) (sym (some_eq k))
]
stem-has_prefix (c ∷ root) x {d} h = elim (Option-cases (stem (root ++ b'/' ∷ x))) [
  | inl e ↦ let k = rw (e, contains_slash root x) at h in ground (arith, k)
  | inr (t, e) ↦
      let k = rw e at h in
      ap (λ z. has_prefix z ((c ∷ root) ++ codes "/")) (sym (some_eq k))
      ∙ ground (arith, stem-has_prefix root x e)
]

ext_none : (u : Text) → contains_byte b'.' u ≡ false → ext u ≡ []
unfolding ext contains_byte
ext_none [] h = refl
ext_none (c ∷ u) h = ground (arith, ext_none u)

-- A path whose last component has no dot has no extension.
pub ext-absent : (s u : Text) → contains_byte b'.' u ≡ false → ext (s ++ b'/' ∷ u) ≡ []
unfolding ext ext_here
ext-absent [] u h = ap (ext_here b'/' u) (ext_none u h)
ext-absent (c ∷ s) u h =
    ap (ext_here c (s ++ b'/' ∷ u)) (ext-absent s u h) ∙ ground (arith, contains_slash s u)
