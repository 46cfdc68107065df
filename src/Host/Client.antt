-- ===== src/Host/Client.antt =====
-- internal/hostctl/client.go: the commands for the host. The SSH session is the parameter `Ssh`.
pub mod Allowed
pub mod Commands
use gocontrolpanel.Base.{
  ℕ, Bool, true, false, not, ◌&&◌, ◌||◌, Option, none, some, List, [], ◌∷◌, ◌++◌, leb, ◌==◌, Result,
  ok, err, if◌then◌else◌,
}
use gocontrolpanel.Base.Int.{ℤ, pos, negsuc}
use gocontrolpanel.Go.Strings.{Text, codes, text_eq, is_empty, cut, trim_space, text_length}
use gocontrolpanel.Go.Strconv.{decimal, is_digit}
use gocontrolpanel.Provision.Input.{to_lower, every, is_alnum}
use gocontrolpanel.Host.Parse.{is_action, is_proto}

pub data HostError : Type 0 where
  bad_action bad_port bad_proto protected bad_origin bad_comment failed : HostError

abbrev pub Ssh : Type 0
Ssh = Text → Result HostError Text

-- A port that is a number of one, and not one that must stay open.
valid_port : ℤ → Option ℕ
valid_port (negsuc n) = none
valid_port (pos n) = if leb 1 n && leb n 65535 then some n else none

same_port : ℤ → ℕ → Bool
same_port (pos m) n = m == n
same_port (negsuc m) n = false

check_proto : ℤ → Text → ℕ → Text → Result HostError (ℕ × Text)
unfolding same_port
check_proto protected_port action port proto =
    if not (is_proto proto)
    then err bad_proto
    else if text_eq action (codes "deny") && same_port protected_port port
    then err protected
    else ok (port, proto)

check_port : ℤ → Text → Option ℕ → Text → Result HostError (ℕ × Text)
unfolding check_proto to_lower
check_port protected_port action none proto = err bad_port
check_port protected_port action (some port) proto =
    check_proto protected_port action port (to_lower proto)

-- The checks that `SetRule` and `SetRuleFull` share.
unfoldable pub check_rule : ℤ → Text → ℤ → Text → Result HostError (ℕ × Text)
unfolding check_port valid_port
check_rule protected_port action port proto =
    if not (is_action action)
    then err bad_action
    else check_port protected_port action (valid_port port) proto

rule_command : Text → Result HostError (ℕ × Text) → Result HostError Text
unfolding decimal
rule_command action (err e) = err e
rule_command action (ok (port, proto)) = ok (action ++ b' ' ∷ (decimal 5 port ++ b' ' ∷ proto))

sent : Ssh → Result HostError Text → Result HostError Text
sent ssh (err e) = err e
sent ssh (ok command) = ssh command

unfoldable pub set_rule : ℤ → Ssh → Text → ℤ → Text → Result HostError Text
unfolding check_rule rule_command sent
set_rule protected_port ssh action port proto =
    sent ssh (rule_command action (check_rule protected_port action port proto))

-- `^[0-9a-fA-F:.]+(/[0-9]{1,3})?$`
abbrev pub is_address_byte : ℕ → Bool
is_address_byte c =
    is_digit c || (leb b'a' c && leb c b'f') || (leb b'A' c && leb c b'F') || c == b':' || c == b'.'

match_mask : Option Text → Bool
unfolding every
match_mask none = true
match_mask (some mask) = every is_digit mask && leb 1 (text_length mask) && leb (text_length mask) 3

match_origin : Text × Option Text → Bool
unfolding every match_mask
match_origin (address, mask) =
    not (is_empty address) && every is_address_byte address && match_mask mask

unfoldable pub is_origin : Text → Bool
unfolding match_origin cut
is_origin origin = match_origin (cut b'/' origin)

-- `^[A-Za-z0-9 .,_/()-]{0,80}$`
abbrev pub is_comment_byte : ℕ → Bool
is_comment_byte c =
    is_alnum c
    || (leb b'A' c && leb c b'Z')
    || c == b' '
    || c == b'.'
    || c == b','
    || c == b'_'
    || c == b'/'
    || c == b'('
    || c == b')'
    || c == b'-'

unfoldable pub is_comment : Text → Bool
unfolding every
is_comment s = every is_comment_byte s && leb (text_length s) 80

or_any : Text → Text
or_any [] = codes "any"
or_any (c ∷ s) = c ∷ s

with_comment : Text → Text → Text
with_comment command [] = command
with_comment command (c ∷ s) = command ++ b' ' ∷ c ∷ s

full_command : Text → Text → Text → Result HostError (ℕ × Text) → Result HostError Text
unfolding decimal is_origin is_comment with_comment text_eq
full_command action origin comment (err e) = err e
full_command action origin comment (ok (port, proto)) =
    if not (text_eq origin (codes "any")) && not (is_origin origin)
    then err bad_origin
    else if not (is_empty comment) && not (is_comment comment)
    then err bad_comment
    else ok (
        with_comment
          (codes "rule " ++ (action ++ b' ' ∷ (decimal 5 port ++ b' ' ∷ (proto ++ b' ' ∷ origin))))
          comment)

unfoldable pub rule_full_command : ℤ → Text → ℤ → Text → Text → Text → Result HostError Text
unfolding full_command check_rule or_any trim_space
rule_full_command protected_port action port proto origin comment =
    full_command action (or_any (trim_space origin)) (trim_space comment)
      (check_rule protected_port action port proto)

unfoldable pub set_rule_full : ℤ → Ssh → Text → ℤ → Text → Text → Text → Result HostError Text
unfolding rule_full_command sent
set_rule_full protected_port ssh action port proto origin comment =
    sent ssh (rule_full_command protected_port action port proto origin comment)

unfoldable pub set_enabled : Ssh → Bool → Result HostError Text
set_enabled ssh true = ssh (codes "enable")
set_enabled ssh false = ssh (codes "disable")
