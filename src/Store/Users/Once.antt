-- ===== src/Store/Users/Once.antt =====
-- A refresh token is taken once.
use gocontrolpanel.Base.{
  ℕ, ◌≡◌, ◌≤◌, refl, sym, ap, subst, ◌∙◌, arith, Option, none, some, List, [], ◌∷◌, ok, find?,
  map_where,
}
use gocontrolpanel.Go.Strings.{Text}
use gocontrolpanel.Models.{Uuid}
use gocontrolpanel.Panel.{Session, Db, World, remote}
use gocontrolpanel.Panel.Rules.{then-eq-ok, remote_ok, remote-clock}
use gocontrolpanel.Store.Users.{is_usable, revoke, consume_session, owner_or_not_found}

-- No session that was usable before is usable after the revocation, then or later.
find-revoke :
    (hash : Text) (now later : ℕ) (l : List Session)
    → now ≤ later
    → find? (is_usable hash later) (map_where (is_usable hash now) revoke l) ≡ none
unfolding is_usable
find-revoke hash now later [] h = refl
find-revoke hash now later (s ∷ l) h = ground (arith, find-revoke hash now later l h)

owner_ok :
    (o : Option Session) (w v : World) {id : Uuid} {w' : World}
    → owner_or_not_found o w v ≡ (ok id, w')
    → (w ≡ w') × ((s : Session) × (o ≡ some s) × (s.user_id ≡ id))
unfolding owner_or_not_found
owner_ok none w v e = cc
owner_ok (some s) w v e = (cc, (s, refl, cc))

-- What a consumed token was, and what it leaves.
pub consume_session_ok :
    (hash : Text) (w : World) {id : Uuid} {w' : World}
    → consume_session hash w ≡ (ok id, w')
    → ((s : Session) × (find? (is_usable hash w.clock) w.db.sessions ≡ some s) × (s.user_id ≡ id))
      × (w'.db.sessions ≡ map_where (is_usable hash w.clock) revoke w.db.sessions)
      × (w'.clock ≡ w.clock)
unfolding consume_session
consume_session_ok hash w {id} {w'} h =
    let (v, e, g) = then-eq-ok remote _ w h in
    let l = remote_ok w e in
    let c = remote-clock w e in
    let (same, (s, found, owner)) = owner_ok _ _ v g in
    (
      (
        s,
        subst (λ n. find? (is_usable hash n) w.db.sessions ≡ some s) c
            (subst (λ (d : Db). find? (is_usable hash v.clock) d.sessions ≡ some s) l.db found),
        owner,
      ),
      ap (λ u. u.db.sessions) (sym same)
          ∙ ap (λ n. map_where (is_usable hash n) revoke v.db.sessions) c
          ∙ ap (λ (d : Db). map_where (is_usable hash w.clock) revoke d.sessions) l.db,
      ap (λ u. u.clock) (sym same) ∙ c,
    )

-- After ConsumeSession returned for a hash, no call with the same hash returns on the same sessions
-- at that instant or later.
pub consume_session_once :
    (hash : Text) (w : World) {id : Uuid} {w' : World} (v : World)
    → consume_session hash w ≡ (ok id, w')
    → v.db.sessions ≡ w'.db.sessions
    → w'.clock ≤ v.clock
    → {again : Uuid} {v' : World} → ¬ (consume_session hash v ≡ (ok again, v'))
consume_session_once hash w {id} {w'} v h same le k =
    let (first, left, clock) = consume_session_ok hash w h in
    let ((s, found, owner), left', clock') = consume_session_ok hash v k in
    some_none (
      sym found
      ∙ ap (find? (is_usable hash v.clock)) (same ∙ left)
      ∙ find-revoke hash w.clock v.clock w.db.sessions (subst (λ n. n ≤ v.clock) clock le))
  where
    some_none : {s : Session} → ◌≡◌ {A = Option Session} (some s) none → ⊥
    some_none e = cc
