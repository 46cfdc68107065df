-- ===== src/Tests/AuthTests.antt =====
-- Tokens and codes at concrete inputs.
use gocontrolpanel.Base.{
  ◌+◌, ◌-◌, ◌<◌, ◌≡◌, refl, ◌⊎◌, some, ok, err, arith, length, ltb, if◌then◌else◌,
}
use gocontrolpanel.Go.Strings.{Text, codes, trim_space, text_eq}
use gocontrolpanel.Auth.Tokens.{
  invalid_token, access_claims, ticket_claims, issue_access, issue_totp_ticket, parse,
  parse_totp_ticket,
}
use gocontrolpanel.Auth.Tokens.Purpose.{
  parse-parse_totp_ticket, issue_totp_ticket_lem, issue_access_lem,
}
use gocontrolpanel.Auth.Totp.{code, totp_step_at, totp_code_at_step, validate_totp}
use gocontrolpanel.Auth.Totp.Replay.{validate_totp_sound, validate_totp_complete}
use gocontrolpanel.Auth.Totp.Codes.{IsCode, totp_code_at_step_total}
use gocontrolpanel.Tests.Fixtures.{jwt, hotp, issuer, ben, eva}

runs : Unit {0}
unfolding jwt parse parse_totp_ticket issue_access issue_totp_ticket validate_totp totp_code_at_step
    totp_step_at text_eq trim_space access_claims ticket_claims
runs = tt

abbrev session : Text
session = issue_access jwt issuer 100 7 ben

session_parses : parse jwt issuer 110 session ≡ ok (access_claims issuer 100 7 ben)
session_parses = issue_access_lem jwt issuer 100 110 7 ben (omega arith)

parse-parse_totp_ticket_example : parse_totp_ticket jwt issuer 110 session ≡ err invalid_token
parse-parse_totp_ticket_example =
    parse-parse_totp_ticket jwt issuer 110 session (access_claims issuer 100 7 ben) session_parses

issue_access_lem_example :
    parse jwt issuer 110 (issue_access jwt issuer 100 7 ben)
    ≡ (if ltb 110 (100 + 900) then ok (access_claims issuer 100 7 ben) else err invalid_token)
issue_access_lem_example = issue_access_lem jwt issuer 100 110 7 ben (omega arith)

issue_totp_ticket_lem_example :
    (parse jwt issuer 110 (issue_totp_ticket jwt issuer 100 7 eva) ≡ err invalid_token)
    × (parse_totp_ticket jwt issuer 110 (issue_totp_ticket jwt issuer 100 7 eva)
        ≡ ok (ticket_claims issuer 100 7 eva))
issue_totp_ticket_lem_example =
    issue_totp_ticket_lem jwt issuer 100 110 7 eva (omega arith) (omega arith)

accepted : validate_totp hotp (codes "s") (codes " 000000") 100 0 ≡ some 3
unfolding runs
accepted = refl

validate_totp_sound_example :
    (0 < 3)
    × ((3 ≡ totp_step_at 100) ⊎ (3 ≡ totp_step_at 100 - 1))
    × (totp_code_at_step hotp (codes "s") 3 ≡ code (some (trim_space (codes " 000000"))))
validate_totp_sound_example =
    validate_totp_sound hotp (codes "s") (codes " 000000") 100 0 3 accepted

length_six : length (trim_space (codes " 000000")) ≡ 6
unfolding runs
length_six = refl

later : 0 < totp_step_at 100
unfolding runs
later = omega arith

shows :
    totp_code_at_step hotp (codes "s") (totp_step_at 100)
    ≡ code (some (trim_space (codes " 000000")))
unfolding runs
shows = refl

validate_totp_complete_example :
    validate_totp hotp (codes "s") (codes " 000000") 100 0 ≡ some (totp_step_at 100)
validate_totp_complete_example =
    validate_totp_complete hotp (codes "s") (codes " 000000") 100 0 length_six later shows

totp_code_at_step_total_example :
    (c : Text) × (totp_code_at_step hotp (codes "s") 3 ≡ code (some c)) × IsCode c
totp_code_at_step_total_example = totp_code_at_step_total hotp (codes "s") 3 refl
