-- ===== src/Host/Parse.antt =====
-- internal/hostctl/parse.go: what the script of the host says of its firewall. A key of the map `seen`
-- is the first four fields of a rule; its keys are those of the rules that are there.
pub mod Rules
pub mod RoundTrip
use gocontrolpanel.Base.{
  ℕ, Bool, true, false, not, ◌&&◌, ◌||◌, Option, none, some, List, [], ◌∷◌, ◌++◌, leb, ◌==◌, any,
  if◌then◌else◌,
}
use gocontrolpanel.Go.Strings.{
  Text, codes, text_eq, is_empty, contains_byte, has_prefix, trim_prefix, cut, split, split_n,
  trim_right, trim_space, fields, text_length,
}
use gocontrolpanel.Go.Strconv.{magnitude}

pub record Rule : Type 0 where
  pub port : ℕ
  pub proto : Text
  pub action : Text
  pub origin : Text
  pub comment : Text

pub record Status : Type 0 where
  pub enabled : Bool
  pub enabled_known : Bool
  pub rules : List Rule

abbrev pub is_proto : Text → Bool
is_proto t = text_eq t (codes "tcp") || text_eq t (codes "udp")

abbrev pub is_action : Text → Bool
is_action t = text_eq t (codes "allow") || text_eq t (codes "deny")

-- `^(\d{1,5})/(tcp|udp)$`; five digits are always in the range of `Atoi`.
with_proto : Text → Option ℕ → Option (ℕ × Text)
with_proto proto none = none
with_proto proto (some port) = some (port, proto)

match_parts : Text × Option Text → Option (ℕ × Text)
unfolding magnitude with_proto
match_parts (port, none) = none
match_parts (port, some proto) =
    if leb (text_length port) 5 && is_proto proto then with_proto proto (magnitude port) else none

unfoldable pub match_port_proto : Text → Option (ℕ × Text)
unfolding cut match_parts
match_port_proto t = match_parts (cut b'/' t)

or_anywhere : Text → Text
or_anywhere [] = codes "Anywhere"
or_anywhere (c ∷ s) = c ∷ s

rule_of : Text → Text → Text → Option (ℕ × Text) → Option Rule
unfolding or_anywhere
rule_of action origin comment none = none
rule_of action origin comment (some (port, proto)) =
    if is_action action
    then some (record {
      port = port;
      proto = proto;
      action = action;
      origin = or_anywhere origin;
      comment = comment;
    })
    else none

part : ℕ → List Text → Text
part n [] = []
part ℕ.zero (p ∷ ps) = p
part (ℕ.suc n) (p ∷ ps) = part n ps

rule_of_parts : List Text → Option Rule
unfolding trim_space part match_port_proto rule_of
rule_of_parts parts =
    rule_of (trim_space (part 1 parts)) (trim_space (part 2 parts)) (part 3 parts)
      (match_port_proto (trim_space (part 0 parts)))

-- The format without an origin.
rule_of_fields : List Text → Option Rule
unfolding match_port_proto rule_of
rule_of_fields [] = none
rule_of_fields (f ∷ []) = none
rule_of_fields (f ∷ g ∷ fs) = rule_of g [] [] (match_port_proto f)

unfoldable pub parse_rule_line : Text → Option Rule
unfolding contains_byte split_n fields rule_of_parts rule_of_fields
parse_rule_line line =
    if contains_byte b'\t' line
    then rule_of_parts (split_n b'\t' 4 line)
    else rule_of_fields (fields line)

unfoldable pub same_key : Rule → Rule → Bool
unfolding text_eq
same_key r s =
    r.port == s.port
    && text_eq r.proto s.proto
    && text_eq r.action s.action
    && text_eq r.origin s.origin

unfoldable pub add_rule : Status → Option Rule → Status
unfolding same_key
add_rule st none = st
add_rule st (some r) =
    if any (same_key r) st.rules then st else record st { rules = st.rules ++ r ∷ [] }

unfoldable pub parse_line : Status → Text → Status
unfolding trim_space has_prefix trim_prefix text_eq add_rule parse_rule_line
parse_line st line =
    if is_empty (trim_space line)
    then st
    else if has_prefix line (codes "GLOBAL\t")
    then record st {
      enabled = text_eq (trim_space (trim_prefix line (codes "GLOBAL\t"))) (codes "enabled");
      enabled_known = true;
    }
    else add_rule st (parse_rule_line line)

unfoldable pub parse_lines : Status → List Text → Status
unfolding parse_line trim_right
parse_lines st [] = st
parse_lines st (l ∷ ls) = parse_lines (parse_line st (trim_right (λ c. c == b'\r') l)) ls

unfoldable pub parse_status : Text → Status
unfolding parse_lines split
parse_status raw =
    parse_lines (record { enabled = false; enabled_known = false; rules = [] }) (split b'\n' raw)
