-- ===== src/Host/Client/Allowed.antt =====
-- What `SetRule` and `SetRuleFull` check before a command is made.
use gocontrolpanel.Base.{
  sym, ℕ, ◌≤◌, ◌≡◌, ◌≢◌, refl, ap, subst, inl, inr, Bool, true, false, ◌&&◌, leb, arith, Bool-cases,
  Result, ok, if-eq, leb→le,
}
use gocontrolpanel.Base.Int.{ℤ, pos, negsuc, pos_part}
use gocontrolpanel.Go.Strings.{Text, codes, text_eq}
use gocontrolpanel.Go.Strings.Laws.{text_eq_refl}
use gocontrolpanel.Provision.Input.{to_lower}
use gocontrolpanel.Host.Parse.{is_action, is_proto}
use gocontrolpanel.Host.Client.{
  HostError, valid_port, same_port, check_proto, check_port, check_rule,
}

-- What the checks let through: a port from 1 to 65535, and never a refusal of the protected one.
pub record IsAllowed (protected_port : ℤ) (action : Text) (port : ℤ) (n : ℕ) (proto : Text)
    : Type 0 where
  pub action_known : is_action action ≡ true
  pub proto_known : is_proto proto ≡ true
  pub is_port : port ≡ pos n
  pub at_least_one : 1 ≤ n
  pub at_most : n ≤ 65535
  pub kept_open : action ≡ codes "deny" → protected_port ≢ pos n

same_port_iff : (p : ℤ) (n : ℕ) → same_port p n ≡ false → p ≢ pos n
unfolding same_port
same_port_iff (pos m) n h e = clash (ap pos_part e)
  where
    clash : m ≡ n → ⊥
    clash k = ground arith
same_port_iff (negsuc m) n h e = cc

pub check_rule-IsAllowed :
    (protected_port : ℤ) (action : Text) (port : ℤ) (proto : Text) {n : ℕ} {q : Text}
    → check_rule protected_port action port proto ≡ ok (n, q)
    → IsAllowed protected_port action port n q × (q ≡ to_lower proto)
unfolding check_rule
check_rule-IsAllowed protected_port action port proto {n} {q} h =
    elim (Bool-cases (is_action action)) [
      | inl known ↦ by_port port (rw known at h) known
      | inr unknown ↦ let g = rw unknown at h in cc
    ]
  where
    pair_same :
        {m : ℕ} {t : Text}
        → ◌≡◌ {A = Result HostError (ℕ × Text)} (ok (m, t)) (ok (n, q))
        → (m ≡ n) × (t ≡ q)
    pair_same g = (cc, cc)

    not_both :
        {b : Bool}
        → action ≡ codes "deny"
        → (text_eq action (codes "deny") && b) ≡ false
        → b ≡ false
    not_both deny d = let g = rw (deny, text_eq_refl (codes "deny")) at d in g

    by_proto :
        (m : ℕ)
        → check_proto protected_port action m (to_lower proto) ≡ ok (n, q)
        → is_action action ≡ true
        → (leb 1 m && leb m 65535) ≡ true
        → IsAllowed protected_port action (pos m) n q × (q ≡ to_lower proto)
    by_proto m k known b =
        unfold check_proto in
        elim (Bool-cases (is_proto (to_lower proto))) [
          | inl e ↦
              elim (if-eq (text_eq action (codes "deny") && same_port protected_port m)
                (rw e at k)) [
                  | inl (d, g) ↦ cc
                  | inr (d, g) ↦
                      let (same_m, same_q) = pair_same g in
                      (
                        subst (λ i. IsAllowed protected_port action (pos m) i q) same_m
                            (subst (λ t. IsAllowed protected_port action (pos m) m t) same_q
                              (record {
                                action_known = known;
                                proto_known = e;
                                is_port = refl;
                                at_least_one = leb→le 1 m (ground arith);
                                at_most = leb→le m 65535 (ground arith);
                                kept_open =
                                    λ deny. same_port_iff protected_port m (not_both deny d);
                              })),
                        sym same_q,
                      )
                ]
          | inr e ↦ unfold check_proto in (let g = rw e at k in cc)
        ]

    by_port :
        (p : ℤ)
        → check_port protected_port action (valid_port p) proto ≡ ok (n, q)
        → is_action action ≡ true
        → IsAllowed protected_port action p n q × (q ≡ to_lower proto)
    by_port (negsuc m) k known = unfold valid_port check_port in (let g = k in cc)
    by_port (pos m) k known = elim (Bool-cases (leb 1 m && leb m 65535)) [
      | inl b ↦ by_proto m (unfold valid_port in (rw b at k)) known b
      | inr b ↦ unfold valid_port check_port in (let g = rw b at k in cc)
    ]
