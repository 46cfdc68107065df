-- ===== src/Worker/Reconcile/Settled.antt =====
-- What a tick of `reconcileLoop` leads to where no call fails.
use mathlib.Core.List.{append_assoc}
use gocontrolpanel.Base.{
  ◌≡◌, refl, sym, ap, ◌∙◌, inl, inr, Bool, true, false, not, ◌||◌, Option, none, some, List, [],
  ◌∷◌, ◌++◌, ◌==◌, map, any, All, All-snoc, map_where, arith, Bool-cases, Result, ok, if◌then◌else◌,
  ==_refl,
}
use gocontrolpanel.Go.Strings.{Text}
use gocontrolpanel.Models.{Site, SiteStatus, provisioning, running, stopped, error, deleting}
use gocontrolpanel.Panel.{Error, World, after, ◌>>=◌, pure}
use gocontrolpanel.Panel.Calm.{update_found_calm}
use gocontrolpanel.Store.Sites.{
  is_site, site_exists, set_site, with_site_status, update_site_status,
}
use gocontrolpanel.Worker.{Engine, state}
use gocontrolpanel.Worker.Reconcile.{
  is_left_alone, wanted, same_status, reconcile_message, bring_to, bring_to_state, reconcile_site,
  reconcile_all,
}

-- The status that a tick gives to a site.
unfoldable pub target_of : SiteStatus → Option Text → SiteStatus
target_of status none = status
target_of status (some t) = wanted status t

unfoldable pub target_from : SiteStatus → Option Text → SiteStatus
unfolding target_of
target_from status o = if is_left_alone status then status else target_of status o

abbrev pub target : Engine → Site → SiteStatus
target engine s = target_from s.status (state engine s.container_name)

abbrev pub is_moved : Engine → Site → Bool
is_moved engine s = not (same_status (target engine s) s.status)

abbrev pub with_target : SiteStatus → Site → Site
with_target status s = with_site_status status (reconcile_message status) s

abbrev pub settle : Engine → Site → Site
settle engine s = if is_moved engine s then with_target (target engine s) s else s

abbrev pub with_sites : World → List Site → World
with_sites w sites = record w { db = record w.db { sites = sites } }

-- The primary key of the sites.
abbrev pub AreDistinct : List Site → Type 0
AreDistinct [] = Unit {0}
AreDistinct (s ∷ ss) = All (λ t. is_site s.id t ≡ false) ss × AreDistinct ss

abbrev pub IsApart : Site → List Site → Type 0
IsApart s sites = All (λ t. is_site s.id t ≡ false) sites

pub same_status_refl : (s : SiteStatus) → same_status s s ≡ true
same_status_refl provisioning = refl
same_status_refl running = refl
same_status_refl stopped = refl
same_status_refl error = refl
same_status_refl deleting = refl

any-here : (s : Site) (pre ss : List Site) → any (is_site s.id) (pre ++ s ∷ ss) ≡ true
any-here s [] ss = rw (==_refl s.id) refl
any-here s (t ∷ pre) ss = ground (arith, any-here s pre ss)

map_where-apart :
    (s : Site) (f : Site → Site) (ss : List Site)
    → IsApart s ss
    → map_where (is_site s.id) f ss ≡ ss
map_where-apart s f [] h = refl
map_where-apart s f (t ∷ ss) (h, hs) = rw h (ap (λ x. t ∷ x) (map_where-apart s f ss hs))

map_where-here :
    (s : Site) (f : Site → Site) (pre ss : List Site)
    → IsApart s pre
    → IsApart s ss
    → map_where (is_site s.id) f (pre ++ s ∷ ss) ≡ pre ++ f s ∷ ss
map_where-here s f [] ss h k = rw (==_refl s.id) (ap (λ x. f s ∷ x) (map_where-apart s f ss k))
map_where-here s f (t ∷ pre) ss (h, hs) k = rw h (ap (λ x. t ∷ x) (map_where-here s f pre ss hs k))

pub settle-id : (engine : Engine) (s : Site) → (settle engine s).id ≡ s.id
settle-id engine s = elim (Bool-cases (is_moved engine s)) [ inl e ↦ rw e refl | inr e ↦ rw e refl ]

-- The rows before the one at hand have other keys than those that are still to come.
abbrev pub AreApart : List Site → List Site → Type 0
AreApart pre ss = All (λ s. IsApart s pre) ss

AreApart-snoc :
    (engine : Engine) (s : Site) (pre ss : List Site)
    → IsApart s ss
    → AreApart pre ss
    → AreApart (pre ++ settle engine s ∷ []) ss
AreApart-snoc engine s pre [] h k = tt
AreApart-snoc engine s pre (t ∷ ss) (h, hs) (k, ks) =
    (All-snoc _ pre (settle engine s) k other, AreApart-snoc engine s pre ss hs ks)
  where
    other : (settle engine s).id == t.id ≡ false
    other = ground (arith, settle-id engine s)

module _ (engine : Engine) (w : World) (calm : w.faults ≡ []) where
  update_here :
      (s : Site) (pre ss : List Site) (status : SiteStatus)
      → IsApart s pre
      → IsApart s ss
      → update_site_status s.id status (reconcile_message status) (with_sites w (pre ++ s ∷ ss))
        ≡ (ok tt, with_sites w (pre ++ with_target status s ∷ ss))
  unfolding update_site_status
  update_here s pre ss status h k =
      update_found_calm (site_exists s.id) (set_site s.id (with_target status))
        (with_sites w (pre ++ s ∷ ss)) calm (any-here s pre ss)
      ∙ ap (λ l. (ok tt, with_sites w l)) (map_where-here s (with_target status) pre ss h k)

  bring_to_here :
      (s : Site) (pre ss : List Site) (want : SiteStatus)
      → IsApart s pre
      → IsApart s ss
      → bring_to s want (with_sites w (pre ++ s ∷ ss)) ≡ (
        ok (not (same_status want s.status)),
        with_sites w
            (pre ++ (if not (same_status want s.status) then with_target want s else s) ∷ ss),
      )
  unfolding bring_to
  bring_to_here s pre ss want h k = elim (Bool-cases (same_status want s.status)) [
    | inl e ↦ rw e refl
    | inr e ↦ rw e (
        ap (λ (p : Result Error (Unit {0}) × World). (ok true, p.1))
          (update_here s pre ss want h k))
  ]

  reconcile_site_here :
      (s : Site) (pre ss : List Site)
      → IsApart s pre
      → IsApart s ss
      → reconcile_site engine s (with_sites w (pre ++ s ∷ ss))
        ≡ (ok (is_moved engine s), with_sites w (pre ++ settle engine s ∷ ss))
  unfolding reconcile_site target_from target_of
  reconcile_site_here s pre ss h k = elim (Bool-cases (is_left_alone s.status)) [
    | inl e ↦ rw (e, same_status_refl s.status) refl
    | inr e ↦ rw e (by_state (state engine s.container_name))
  ]
    where
      by_state :
          (o : Option Text)
          → bring_to_state s o (with_sites w (pre ++ s ∷ ss)) ≡ (
            ok (not (same_status (target_of s.status o) s.status)),
            with_sites w (
                pre
                ++ (if not (same_status (target_of s.status o) s.status)
                    then with_target (target_of s.status o) s
                    else s)
                  ∷ ss),
          )
      by_state none = rw (same_status_refl s.status) refl
      by_state (some t) = bring_to_here s pre ss (wanted s.status t) h k

  pub reconcile_all_here :
      (pre ss : List Site)
      → AreApart pre ss
      → AreDistinct ss
      → reconcile_all engine ss (with_sites w (pre ++ ss))
        ≡ (ok (any (is_moved engine) ss), with_sites w (pre ++ map (settle engine) ss))
  unfolding reconcile_all
  reconcile_all_here pre [] a d = refl
  reconcile_all_here pre (s ∷ ss) (h, hs) (k, d) =
      ap (λ p. after p (λ changed. reconcile_all engine ss >>= (λ later. pure (changed || later))))
        (reconcile_site_here s pre ss h k)
      ∙ ap (λ p. after p (λ later. pure (is_moved engine s || later)))
          (rest (
            reconcile_all_here (pre ++ settle engine s ∷ []) ss (AreApart-snoc engine s pre ss k hs)
              d))
    where
      moved_on :
          (xs : List Site) → (pre ++ settle engine s ∷ []) ++ xs ≡ pre ++ settle engine s ∷ xs
      moved_on xs = append_assoc pre (settle engine s ∷ []) xs

      rest :
          reconcile_all engine ss (with_sites w ((pre ++ settle engine s ∷ []) ++ ss)) ≡ (
            ok (any (is_moved engine) ss),
            with_sites w ((pre ++ settle engine s ∷ []) ++ map (settle engine) ss),
          )
          → reconcile_all engine ss (with_sites w (pre ++ settle engine s ∷ ss)) ≡ (
            ok (any (is_moved engine) ss),
            with_sites w (pre ++ settle engine s ∷ map (settle engine) ss),
          )
      rest e =
          ap (λ l. reconcile_all engine ss (with_sites w l)) (sym (moved_on ss))
          ∙ e
          ∙ ap (λ l. (ok (any (is_moved engine) ss), with_sites w l))
              (moved_on (map (settle engine) ss))

pub AreApart-empty : (ss : List Site) → AreApart [] ss
AreApart-empty [] = tt
AreApart-empty (s ∷ ss) = (tt, AreApart-empty ss)
