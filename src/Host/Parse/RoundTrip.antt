-- ===== src/Host/Parse/RoundTrip.antt =====
-- A line that the script of the host writes for a rule is read as that rule.
use gocontrolpanel.Base.{
  ℕ, ◌<◌, ◌≡◌, refl, ap, ◌∙◌, true, false, not, some, [], ◌∷◌, ◌++◌, leb, arith, ==_refl,
}
use gocontrolpanel.Go.Strings.{
  Text, codes, is_empty, contains_byte, split_n, is_space, trim_space, text_length,
}
use gocontrolpanel.Go.Strings.Laws.{by_word, cut_present, split_n_present}
use gocontrolpanel.Go.Strconv.{decimal, is_digit}
use gocontrolpanel.Go.Strconv.Decimal.{magnitude-decimal, decimal-length}
use gocontrolpanel.Provision.Input.{every}
use gocontrolpanel.Provision.Input.Every.{
  every-contains_byte, every-append, every-decimal, trim_space-none,
}
use gocontrolpanel.Host.Parse.{
  Rule, is_proto, is_action, match_parts, with_proto, match_port_proto, or_anywhere, rule_of, part,
  rule_of_parts, parse_rule_line,
}

-- The format that the script writes.
abbrev pub render_rule : Rule → Text
render_rule r =
    (decimal 5 r.port ++ b'/' ∷ r.proto)
    ++ b'\t' ∷ (r.action ++ b'\t' ∷ (r.origin ++ b'\t' ∷ r.comment))

pub record IsWritten (r : Rule) : Type 0 where
  pub port_small : r.port < 100000
  pub proto_known : is_proto r.proto ≡ true
  pub action_known : is_action r.action ≡ true
  pub origin_full : is_empty r.origin ≡ false
  pub origin_trimmed : trim_space r.origin ≡ r.origin
  pub origin_plain : contains_byte b'\t' r.origin ≡ false

contains_here : (b : ℕ) (s t : Text) → contains_byte b (s ++ b ∷ t) ≡ true
unfolding contains_byte
contains_here b [] t = rw (==_refl b) refl
contains_here b (c ∷ s) t = ground (arith, contains_here b s t)

abbrev IsSolid : Text → Type 0
IsSolid t = every (λ c. not (is_space c)) t ≡ true

solid-contains_byte : (t : Text) → IsSolid t → contains_byte b'\t' t ≡ false
solid-contains_byte t h = every-contains_byte (λ c. not (is_space c)) b'\t' t refl h

proto-IsSolid : (t : Text) → is_proto t ≡ true → IsSolid t
unfolding every
proto-IsSolid t h = by_word IsSolid (codes "tcp") (codes "udp") t h refl refl

action-IsSolid : (t : Text) → is_action t ≡ true → IsSolid t
unfolding every
action-IsSolid t h = by_word IsSolid (codes "allow") (codes "deny") t h refl refl

digit-solid : (c : ℕ) → is_digit c ≡ true → not (is_space c) ≡ true
digit-solid c h = ground arith

port_proto-IsSolid : (n : ℕ) (t : Text) → is_proto t ≡ true → IsSolid (decimal 5 n ++ b'/' ∷ t)
port_proto-IsSolid n t h =
    every-append _ (decimal 5 n) (b'/' ∷ t) (every-decimal _ digit-solid 5 n)
      (unfold every in (proto-IsSolid t h))

match_port_proto-decimal :
    (n : ℕ) (t : Text)
    → n < 100000
    → is_proto t ≡ true
    → match_port_proto (decimal 5 n ++ b'/' ∷ t) ≡ some (n, t)
unfolding match_port_proto match_parts with_proto
match_port_proto-decimal n t small h =
    ap match_parts (
      cut_present b'/' (decimal 5 n) t (
        every-contains_byte is_digit b'/' (decimal 5 n) refl
          (every-decimal is_digit (λ c k. k) 5 n)))
    ∙ rw (short, h, magnitude-decimal 4 n small) refl
  where
    short : leb (text_length (decimal 5 n)) 5 ≡ true
    short = ground (arith, decimal-length 5 n)

-- The four parts of a line.
split_line :
    (a b c d : Text)
    → contains_byte b'\t' a ≡ false
    → contains_byte b'\t' b ≡ false
    → contains_byte b'\t' c ≡ false
    → split_n b'\t' 4 (a ++ b'\t' ∷ (b ++ b'\t' ∷ (c ++ b'\t' ∷ d))) ≡ a ∷ b ∷ c ∷ d ∷ []
split_line a b c d h k l =
    split_n_present b'\t' 2 a _ h
    ∙ ap (λ x. a ∷ x)
        (split_n_present b'\t' 1 b _ k
          ∙ ap (λ x. b ∷ x) (split_n_present b'\t' 0 c d l ∙ unfold split_n in refl))

or_anywhere-full : (t : Text) → is_empty t ≡ false → or_anywhere t ≡ t
unfolding or_anywhere
or_anywhere-full [] h = cc
or_anywhere-full (c ∷ t) h = refl

-- A rule is parsed back from its line of fields separated by tabs, where its port has at most five
-- digits, its protocol and action are known, and its origin is neither empty nor surrounded by
-- spaces and has no tab.
pub parse_rule_line-render : (r : Rule) → IsWritten r → parse_rule_line (render_rule r) ≡ some r
unfolding parse_rule_line rule_of_parts part rule_of
parse_rule_line-render r w =
    rw
      (
        contains_here b'\t' (decimal 5 r.port ++ b'/' ∷ r.proto)
            (r.action ++ b'\t' ∷ (r.origin ++ b'\t' ∷ r.comment)),
        split_line (decimal 5 r.port ++ b'/' ∷ r.proto) r.action r.origin r.comment
            (solid-contains_byte _ (port_proto-IsSolid r.port r.proto w.proto_known))
            (solid-contains_byte _ (action-IsSolid r.action w.action_known)) w.origin_plain,
        trim_space-none _ (port_proto-IsSolid r.port r.proto w.proto_known),
        trim_space-none _ (action-IsSolid r.action w.action_known),
        w.origin_trimmed,
        match_port_proto-decimal r.port r.proto w.port_small w.proto_known,
        w.action_known,
        or_anywhere-full r.origin w.origin_full,
      )
      refl
