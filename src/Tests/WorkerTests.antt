-- ===== src/Tests/WorkerTests.antt =====
-- The worker and the firewall at concrete inputs.
use gocontrolpanel.Base.{ℕ, ◌≡◌, ◌≢◌, refl, ◌⊎◌, some, none, true, [], ◌∷◌, err, arith}
use gocontrolpanel.Base.Int.{pos}
use gocontrolpanel.Go.Strings.{Text, codes, text_eq, trim_space}
use gocontrolpanel.Go.Strings.Laws.{text_apart}
use gocontrolpanel.Models.{suspended}
use gocontrolpanel.Panel.{World}
use gocontrolpanel.Provision.Input.{every, to_lower}
use gocontrolpanel.Provision.Edge.{edge_config}
use gocontrolpanel.Provision.Held.{HoldsFor}
use gocontrolpanel.Worker.{Engine, absent}
use gocontrolpanel.Worker.Reconcile.{reconcile}
use gocontrolpanel.Worker.Quotas.{auto_suspend_bandwidth_reason, enforce_quotas}
use gocontrolpanel.Worker.Quotas.Manual.{enforce_quotas-HoldsFor}
use gocontrolpanel.Host.Parse.{Rule, parse_rule_line}
use gocontrolpanel.Host.Parse.RoundTrip.{render_rule, IsWritten, parse_rule_line-render}
use gocontrolpanel.Host.Client.{HostError, Ssh, set_rule_full}
use gocontrolpanel.Host.Client.Allowed.{IsAllowed}
use gocontrolpanel.Host.Client.Commands.{is_plain, rule_line, set_rule_full-sent}
use gocontrolpanel.Tests.Fixtures.{cfg, calm, bens}

-- The container of the site is gone.
abbrev engine : Engine
engine = record {
  inspect = λ name. absent;
  stats = λ name. none;
  disk_bytes = λ name. some 5000000;
}

abbrev synced : World
synced = record calm { edge = some (edge_config cfg calm.db) }

abbrev reconciled : World
reconciled = (reconcile cfg engine synced).1

abbrev unpaid : World
unpaid = record calm {
  db = record calm.db {
    accounts = record bens { status = suspended; suspend_reason = codes "unpaid" } ∷ [];
  };
}

by_hand : codes "unpaid" ≢ auto_suspend_bandwidth_reason
unfolding text_eq
by_hand = text_apart (codes "unpaid") auto_suspend_bandwidth_reason refl

abbrev month : ℕ → ℕ
month t = t

enforce_quotas-HoldsFor_example :
    HoldsFor 10 (codes "unpaid") (enforce_quotas cfg engine month unpaid).1.db
enforce_quotas-HoldsFor_example =
    enforce_quotas-HoldsFor cfg engine month 10 (codes "unpaid") unpaid by_hand
      (λ here. (refl, refl), tt)

abbrev ssh_rule : Rule
ssh_rule = record {
  port = 22;
  proto = codes "tcp";
  action = codes "allow";
  origin = codes "10.0.0.0/8";
  comment = codes "la oficina";
}

ssh_rule-IsWritten : IsWritten ssh_rule
unfolding text_eq parse_rule_line
ssh_rule-IsWritten = record {
  port_small = omega arith;
  proto_known = refl;
  action_known = refl;
  origin_full = refl;
  origin_trimmed = refl;
  origin_plain = refl;
}

parse_rule_line-render_example : parse_rule_line (render_rule ssh_rule) ≡ some ssh_rule
parse_rule_line-render_example = parse_rule_line-render ssh_rule ssh_rule-IsWritten

abbrev output : Text
output =
    codes "GLOBAL\tenabled\n22/tcp\tallow\tAnywhere\t\n22/tcp\tallow\tAnywhere\tv6\n80/tcp allow\n"

deny_http : Unit {0}
unfolding to_lower trim_space text_eq
deny_http = tt

set_rule_full-sent_example :
    ((e : HostError) × ((ssh : Ssh)
        → set_rule_full (pos 22) ssh (codes "deny") (pos 80) (codes "TCP") (codes "1.2.3.4") []
          ≡ err e))
    ⊎ ((n : ℕ) × (line : Text) × (line
          ≡ rule_line (codes "deny") n (codes "tcp") (codes "1.2.3.4") [])
        × IsAllowed (pos 22) (codes "deny") (pos 80) n (codes "tcp")
        × (every is_plain line ≡ true)
        × ((ssh : Ssh)
            → set_rule_full (pos 22) ssh (codes "deny") (pos 80) (codes "TCP") (codes "1.2.3.4") []
              ≡ ssh line))
unfolding deny_http
set_rule_full-sent_example =
    set_rule_full-sent (pos 22) (codes "deny") (pos 80) (codes "TCP") (codes "1.2.3.4") []
