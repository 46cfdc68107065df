-- ===== src/Host/Client/Commands.antt =====
-- The commands that reach the host.
use mathlib.Core.List.{append_assoc}
use gocontrolpanel.Base.{
  ◌∙◌, ℕ, ◌≡◌, refl, sym, ap, subst, ◌⊎◌, inl, inr, Bool, true, false, not, ◌&&◌, ◌||◌, Option,
  none, some, [], ◌∷◌, ◌++◌, ◌==◌, arith, Bool-cases, Result, ok, err, if-eq,
}
use gocontrolpanel.Base.Int.{ℤ}
use gocontrolpanel.Go.Strings.{Text, codes, text_eq, is_empty, cut, trim_space}
use gocontrolpanel.Go.Strings.Laws.{by_word, text_eq_iff, rejoin, rejoin-cut}
use gocontrolpanel.Go.Strconv.{decimal, is_digit}
use gocontrolpanel.Provision.Input.{every, to_lower}
use gocontrolpanel.Provision.Input.Every.{every-append, every-implies, every-decimal}
use gocontrolpanel.Host.Parse.{is_action, is_proto}
use gocontrolpanel.Host.Client.{
  HostError, check_rule, is_address_byte, match_mask, match_origin, is_origin, is_comment_byte,
  is_comment, or_any, with_comment, full_command, rule_full_command, Ssh, sent, set_rule_full,
}
use gocontrolpanel.Host.Client.Allowed.{IsAllowed, check_rule-IsAllowed}

-- Letters, digits, a space and the signs of comments and addresses: nothing that a shell reads.
abbrev pub is_plain : ℕ → Bool
is_plain c = is_comment_byte c || c == b':'

abbrev IsPlain : Text → Type 0
IsPlain t = every is_plain t ≡ true

address-IsPlain : (t : Text) → every is_address_byte t ≡ true → IsPlain t
address-IsPlain t h = every-implies is_address_byte is_plain (λ c k. ground arith) t h

digits-IsPlain : (t : Text) → every is_digit t ≡ true → IsPlain t
digits-IsPlain t h = every-implies is_digit is_plain (λ c k. ground arith) t h

origin_parts-IsPlain : (p : Text × Option Text) → match_origin p ≡ true → IsPlain (rejoin b'/' p)
unfolding match_origin match_mask
origin_parts-IsPlain (address, none) h = address-IsPlain address (ground arith)
origin_parts-IsPlain (address, some mask) h =
    every-append is_plain address (b'/' ∷ mask) (address-IsPlain address (ground arith))
      (unfold every in (digits-IsPlain mask (ground arith)))

origin-IsPlain : (t : Text) → is_origin t ≡ true → IsPlain t
unfolding is_origin
origin-IsPlain t h = subst IsPlain (rejoin-cut b'/' t) (origin_parts-IsPlain (cut b'/' t) h)

comment-IsPlain : (t : Text) → is_comment t ≡ true → IsPlain t
unfolding is_comment
comment-IsPlain t h = every-implies is_comment_byte is_plain (λ c k. ground arith) t (ground arith)

spaced : (s t : Text) → IsPlain s → IsPlain t → IsPlain (s ++ b' ' ∷ t)
spaced s t h k = every-append is_plain s (b' ' ∷ t) h (unfold every in k)

rule_text-IsPlain :
    (action origin proto : Text) (n : ℕ)
    → is_action action ≡ true
    → is_proto proto ≡ true
    → IsPlain origin
    → IsPlain (codes "rule " ++ (action ++ b' ' ∷ (decimal 5 n ++ b' ' ∷ (proto ++ b' ' ∷ origin))))
unfolding every
rule_text-IsPlain action origin proto n a p o =
    every-append is_plain (codes "rule ")
      (action ++ b' ' ∷ (decimal 5 n ++ b' ' ∷ (proto ++ b' ' ∷ origin))) refl
      (spaced action (decimal 5 n ++ b' ' ∷ (proto ++ b' ' ∷ origin))
        (by_word IsPlain (codes "allow") (codes "deny") action a refl refl)
        (spaced (decimal 5 n) (proto ++ b' ' ∷ origin)
          (every-decimal is_plain (λ c k. ground arith) 5 n)
          (spaced proto origin (by_word IsPlain (codes "tcp") (codes "udp") proto p refl refl) o)))

with_comment-IsPlain :
    (command comment : Text)
    → IsPlain command
    → (is_empty comment ≡ false → is_comment comment ≡ true)
    → IsPlain (with_comment command comment)
unfolding with_comment
with_comment-IsPlain command [] h k = h
with_comment-IsPlain command (c ∷ s) h k =
    spaced command (c ∷ s) h (comment-IsPlain (c ∷ s) (k refl))

-- The line that is to be sent.
abbrev pub rule_line : (action : Text) (port : ℕ) (proto origin comment : Text) → Text
rule_line action port proto origin [] =
    codes "rule " ++ (action ++ b' ' ∷ (decimal 5 port ++ b' ' ∷ (proto ++ b' ' ∷ origin)))
rule_line action port proto origin (c ∷ s) =
    codes "rule "
    ++ (action ++ b' ' ∷ (decimal 5 port ++ b' ' ∷ (proto ++ b' ' ∷ (origin ++ b' ' ∷ c ∷ s))))

-- Where no origin is given the rule is for any.
abbrev pub origin_asked : Text → Text
origin_asked [] = codes "any"
origin_asked (c ∷ s) = c ∷ s

with_comment-rule_line :
    (action : Text) (n : ℕ) (proto origin comment : Text)
    → with_comment
        (codes "rule " ++ (action ++ b' ' ∷ (decimal 5 n ++ b' ' ∷ (proto ++ b' ' ∷ origin))))
        comment
      ≡ rule_line action n proto origin comment
unfolding with_comment
with_comment-rule_line action n proto origin [] = refl
with_comment-rule_line action n proto origin (c ∷ s) =
    ap (λ t. codes "rule " ++ t)
      (append_assoc action _ _
        ∙ ap (λ t. action ++ b' ' ∷ t)
            (append_assoc (decimal 5 n) _ _
              ∙ ap (λ t. decimal 5 n ++ b' ' ∷ t) (append_assoc proto _ _)))

full_command-ok :
    (action origin comment : Text) (n : ℕ) (proto : Text) {command : Text}
    → is_action action ≡ true
    → is_proto proto ≡ true
    → full_command action origin comment (ok (n, proto)) ≡ ok command
    → IsPlain command × (command ≡ rule_line action n proto origin comment)
unfolding full_command
full_command-ok action origin comment n proto {command} a p h =
    elim (if-eq (not (text_eq origin (codes "any")) && not (is_origin origin)) h) [
      | inl (b, g) ↦ cc
      | inr (b, g) ↦ elim (if-eq (not (is_empty comment) && not (is_comment comment)) g) [
        | inl (c, k) ↦ cc
        | inr (c, k) ↦ (
          subst IsPlain (ok_same k) (
              with_comment-IsPlain _ comment
                (rule_text-IsPlain action origin proto n a p (origin_plain b))
                (λ full. ground arith)),
          sym (ok_same k) ∙ with_comment-rule_line action n proto origin comment,
        )
      ]
    ]
  where
    ok_same : {t : Text} → ◌≡◌ {A = Result HostError Text} (ok t) (ok command) → t ≡ command
    ok_same k = cc

    origin_plain :
        (not (text_eq origin (codes "any")) && not (is_origin origin)) ≡ false → IsPlain origin
    origin_plain b = elim (Bool-cases (text_eq origin (codes "any"))) [
      | inl e ↦ subst IsPlain (sym ((text_eq_iff origin (codes "any")).0 e)) (unfold every in refl)
      | inr e ↦ origin-IsPlain origin (ground arith)
    ]

or_any-asked : (t : Text) → or_any t ≡ origin_asked t
unfolding or_any
or_any-asked [] = refl
or_any-asked (c ∷ s) = refl

-- Whatever is asked for, SetRuleFull either answers with one error whatever the session does, and
-- sends nothing, or sends exactly one line: the word rule, the action asked for, the port, the
-- protocol in lower case, the origin, or any where none is given, and the comment if there is one;
-- the action and the protocol are known, the port is the one asked for, from 1 to 65535, the line
-- is never a denial of the protected port, and it has only letters, digits, spaces and the marks .
-- , _ / ( ) - : in it.
pub set_rule_full-sent :
    (protected_port : ℤ) (action : Text) (port : ℤ) (proto origin comment : Text)
    → ((e : HostError) × ((ssh : Ssh)
          → set_rule_full protected_port ssh action port proto origin comment ≡ err e))
      ⊎ ((n : ℕ) × (line : Text) × (line
            ≡ rule_line action n
                (to_lower proto)
                (origin_asked (trim_space origin))
                (trim_space comment))
          × IsAllowed protected_port action port n (to_lower proto)
          × (every is_plain line ≡ true)
          × ((ssh : Ssh)
              → set_rule_full protected_port ssh action port proto origin comment ≡ ssh line))
unfolding set_rule_full sent
set_rule_full-sent protected_port action port proto origin comment =
    by_command (rule_full_command protected_port action port proto origin comment) refl
  where
    -- What a line that is made is like.
    Made : ℕ → Text → Type 0
    Made n line =
        (line
          ≡ rule_line action n (to_lower proto) (origin_asked (trim_space origin))
              (trim_space comment))
        × IsAllowed protected_port action port n (to_lower proto)
        × (every is_plain line ≡ true)

    by_check :
        (c : Result HostError (ℕ × Text)) {command : Text}
        → check_rule protected_port action port proto ≡ c
        → full_command action (or_any (trim_space origin)) (trim_space comment) c ≡ ok command
        → (n : ℕ) × Made n command
    by_check (err e) k h = unfold full_command in (let g = h in cc)
    by_check (ok (n, q)) k h =
        let (allowed, same) = check_rule-IsAllowed protected_port action port proto k in
        let (plain, line) =
          full_command-ok action (or_any (trim_space origin)) (trim_space comment) n q
            allowed.action_known allowed.proto_known h in
        (
          n,
          (
            line
                ∙ ap (λ t. rule_line action n t (or_any (trim_space origin)) (trim_space comment))
                    same
                ∙ ap (λ t. rule_line action n (to_lower proto) t (trim_space comment))
                    (or_any-asked (trim_space origin)),
            subst (IsAllowed protected_port action port n) same allowed,
            plain,
          ),
        )

    by_command :
        (r : Result HostError Text)
        → rule_full_command protected_port action port proto origin comment ≡ r
        → ((e : HostError) × ((ssh : Ssh)
              → sent ssh (rule_full_command protected_port action port proto origin comment)
                ≡ err e))
          ⊎ ((n : ℕ) × (line : Text) × (line
                ≡ rule_line action n
                    (to_lower proto)
                    (origin_asked (trim_space origin))
                    (trim_space comment))
              × IsAllowed protected_port action port n (to_lower proto)
              × (every is_plain line ≡ true)
              × ((ssh : Ssh)
                  → sent ssh (rule_full_command protected_port action port proto origin comment)
                    ≡ ssh line))
    by_command (err e) h = inl (e, λ ssh. ap (sent ssh) h)
    by_command (ok command) h =
        let (n, (line, allowed, plain)) =
          by_check (check_rule protected_port action port proto) refl
            (unfold rule_full_command in h) in
        inr (n, command, line, allowed, plain, λ ssh. ap (sent ssh) h)
