-- ===== src/Host/Parse/Rules.antt =====
-- The rules that `ParseStatus` returns, whatever the text.
use gocontrolpanel.Base.{◌≡◌, refl, true, false, List, [], ◌∷◌, any, All, ==_refl}
use gocontrolpanel.Go.Strings.Laws.{text_eq_refl}
use gocontrolpanel.Host.Parse.{Rule, Status, is_proto, is_action, same_key}

-- A rule of a firewall that the panel knows.
abbrev pub IsKnown : Rule → Type 0
IsKnown r = (is_proto r.proto ≡ true) × (is_action r.action ≡ true)

abbrev pub AreUnrepeated : List Rule → Type 0
AreUnrepeated [] = Unit {0}
AreUnrepeated (r ∷ rs) = (any (same_key r) rs ≡ false) × AreUnrepeated rs

same_key_refl : (r : Rule) → same_key r r ≡ true
unfolding same_key
same_key_refl r =
    rw (==_refl r.port, text_eq_refl r.proto, text_eq_refl r.action, text_eq_refl r.origin) refl

-- What holds of the rules read so far.
record IsSound (st : Status) : Type 0 where
  known : All IsKnown st.rules
  unrepeated : AreUnrepeated st.rules
