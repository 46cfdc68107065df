-- ===== src/Go/Strings/Laws.antt =====
-- Equality of texts, and cutting and splitting at a byte.
use gocontrolpanel.Base.{
  List, Bool, Option, inl, inr, ◌||◌, ◌==◌, if◌then◌else◌, All, Bool-cases, subst, ℕ, suc, ◌≡◌,
  refl, sym, ◌∙◌, ap, ◌≢◌, ◌↔◌, true, false, none, some, [], ◌∷◌, ◌++◌, arith,
}
use gocontrolpanel.Go.Strings.{
  Text, text_eq, contains_byte, has_prefix, cut, split, split_n, split_rest, push_head, cons_head,
}

text_eq→eq : (s t : Text) → text_eq s t ≡ true → s ≡ t
unfolding text_eq
text_eq→eq [] [] h = refl
text_eq→eq [] (d ∷ t) h = cc
text_eq→eq (c ∷ s) [] h = cc
text_eq→eq (c ∷ s) (d ∷ t) h = ground (arith, text_eq→eq s t)

pub text_eq_refl : (s : Text) → text_eq s s ≡ true
unfolding text_eq
text_eq_refl [] = refl
text_eq_refl (c ∷ s) = ground (arith, text_eq_refl s)

pub text_eq_iff : (s t : Text) → (text_eq s t ≡ true) ↔ (s ≡ t)
text_eq_iff s t = (text_eq→eq s t, λ e. rw e (text_eq_refl t))

-- A text without the byte is cut nowhere.
pub cut_absent : (b : ℕ) (s : Text) → contains_byte b s ≡ false → cut b s ≡ (s, none)
unfolding cut contains_byte
cut_absent b [] h = refl
cut_absent b (c ∷ s) h = ground (arith, cut_absent b s)

pub cut_present :
    (b : ℕ) (s t : Text) → contains_byte b s ≡ false → cut b (s ++ b ∷ t) ≡ (s, some t)
unfolding cut contains_byte
cut_present b [] t h = ground arith
cut_present b (c ∷ s) t h = ground (arith, cut_present b s t)

pub split_absent : (b : ℕ) (s : Text) → contains_byte b s ≡ false → split b s ≡ s ∷ []
unfolding split contains_byte
split_absent b [] h = refl
split_absent b (c ∷ s) h = ground (arith, split_absent b s)

pub split_present :
    (b : ℕ) (s t : Text) → contains_byte b s ≡ false → split b (s ++ b ∷ t) ≡ s ∷ split b t
unfolding split contains_byte
split_present b [] t h = ground arith
split_present b (c ∷ s) t h = ground (arith, split_present b s t)

pub split_n_present :
    (b n : ℕ) (s t : Text)
    → contains_byte b s ≡ false
    → split_n b (suc (suc n)) (s ++ b ∷ t) ≡ s ∷ split_n b (suc n) t
unfolding split_n split_rest
split_n_present b n s t h = rw (cut_present b s t h) refl

pub contains_byte-append :
    (b : ℕ) (s t : Text)
    → contains_byte b s ≡ false
    → contains_byte b t ≡ false
    → contains_byte b (s ++ t) ≡ false
unfolding contains_byte
contains_byte-append b [] t h k = k
contains_byte-append b (c ∷ s) t h k = ground (arith, contains_byte-append b s t)

pub text_apart : (s t : Text) → text_eq s t ≡ false → s ≢ t
text_apart s t h e = clash (sym (text_eq_refl s) ∙ ap (text_eq s) e ∙ h)
  where
    clash : true ≡ false → ⊥
    clash k = cc

push_head-All :
    (b c : ℕ) (parts : List Text)
    → (c == b) ≡ false
    → All (λ p. contains_byte b p ≡ false) parts
    → All (λ p. contains_byte b p ≡ false) (push_head c parts)
unfolding push_head contains_byte
push_head-All b c [] h a = (ground arith, tt)
push_head-All b c (p ∷ ps) h (a, rest) = (ground arith, rest)

-- No part holds the byte.
pub split-All : (b : ℕ) (s : Text) → All (λ p. contains_byte b p ≡ false) (split b s)
unfolding split contains_byte
split-All b [] = (refl, tt)
split-All b (c ∷ s) = elim (Bool-cases (c == b)) [
  | inl e ↦ subst (HasParts (push_head c (split b s))) (sym e) (refl, split-All b s)
  | inr e ↦
      subst (HasParts (push_head c (split b s))) (sym e)
        (push_head-All b c (split b s) e (split-All b s))
]
  where
    HasParts : List Text → Bool → Type 0
    HasParts other t = All (λ p. contains_byte b p ≡ false) (if t then [] ∷ split b s else other)

-- There is a first part.
split_part : (b : ℕ) (s : Text) → (p : Text) × (ps : List Text) × (split b s ≡ p ∷ ps)
unfolding split push_head
split_part b [] = ([], [], refl)
split_part b (c ∷ s) = elim (Bool-cases (c == b)) [
  | inl e ↦ ([], split b s, ground arith)
  | inr e ↦ let (p, ps, q) = split_part b s in (c ∷ p, ps, ground arith)
]

push_head-append :
    (b c : ℕ) (s : Text) (more : List Text)
    → push_head c (split b s ++ more) ≡ push_head c (split b s) ++ more
unfolding push_head
push_head-append b c s more = by_parts (split b s) (split_part b s)
  where
    by_parts :
        (parts : List Text)
        → ((p : Text) × (ps : List Text) × (parts ≡ p ∷ ps))
        → push_head c (parts ++ more) ≡ push_head c parts ++ more
    by_parts [] (p, ps, e) = cc
    by_parts (q ∷ qs) h = refl

pub split-append : (b : ℕ) (s t : Text) → split b (s ++ b ∷ t) ≡ split b s ++ split b t
unfolding split
split-append b [] t = ground arith
split-append b (c ∷ s) t = elim (Bool-cases (c == b)) [
  | inl e ↦
      ap (λ x. if x then [] ∷ split b (s ++ b ∷ t) else push_head c (split b (s ++ b ∷ t))) e
      ∙ ap (λ x. [] ∷ x) (split-append b s t)
      ∙ ap (λ x. (if x then [] ∷ split b s else push_head c (split b s)) ++ split b t) (sym e)
  | inr e ↦
      ap (λ x. if x then [] ∷ split b (s ++ b ∷ t) else push_head c (split b (s ++ b ∷ t))) e
      ∙ ap (push_head c) (split-append b s t)
      ∙ push_head-append b c s (split b t)
      ∙ ap (λ x. (if x then [] ∷ split b s else push_head c (split b s)) ++ split b t) (sym e)
]

pub has_prefix-append : (s t : Text) → has_prefix (s ++ t) s ≡ true
unfolding has_prefix
has_prefix-append [] t = refl
has_prefix-append (c ∷ s) t = ground (arith, has_prefix-append s t)

-- What has a prefix is that prefix and a rest.
pub has_prefix-split : (s p : Text) → has_prefix s p ≡ true → (rest : Text) × (s ≡ p ++ rest)
unfolding has_prefix
has_prefix-split s [] h = (s, refl)
has_prefix-split [] (d ∷ p) h = cc
has_prefix-split (c ∷ s) (d ∷ p) h =
    let (rest, e) = has_prefix-split s p (ground arith) in (rest, ground arith)

abbrev pub rejoin : ℕ → Text × Option Text → Text
rejoin b (before, none) = before
rejoin b (before, some after) = before ++ b ∷ after

cons_head-rejoin : (b c : ℕ) (p : Text × Option Text) → rejoin b (cons_head c p) ≡ c ∷ rejoin b p
unfolding cons_head
cons_head-rejoin b c (before, none) = refl
cons_head-rejoin b c (before, some after) = refl

-- What `cut` took apart.
pub rejoin-cut : (b : ℕ) (s : Text) → rejoin b (cut b s) ≡ s
unfolding cut
rejoin-cut b [] = refl
rejoin-cut b (c ∷ s) = elim (Bool-cases (c == b)) [
  | inl e ↦ rw e (ap (λ x. x ∷ s) (same e))
  | inr e ↦ rw e (cons_head-rejoin b c (cut b s) ∙ ap (λ x. c ∷ x) (rejoin-cut b s))
]
  where
    same : c == b ≡ true → b ≡ c
    same e = ground arith

-- One of two words.
pub by_word :
    (P : Text → Type 0) (u v t : Text) → (text_eq t u || text_eq t v) ≡ true → P u → P v → P t
by_word P u v t h p q = elim (Bool-cases (text_eq t u)) [
  | inl e ↦ subst P (sym ((text_eq_iff t u).0 e)) p
  | inr e ↦ subst P (sym ((text_eq_iff t v).0 (ground arith))) q
]
