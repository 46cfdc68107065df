-- ===== src/Panel/Calm.antt =====
-- Actions where no call fails.
use gocontrolpanel.Base.{◌≡◌, refl, ap, ◌∙◌, Bool, true, Result, ok, err, [], if◌then◌else◌}
use gocontrolpanel.Panel.{Error, not_found, Db, World, Exec, after, query, update, update_found}
use gocontrolpanel.Panel.Rules.{remote_calm}

-- The rest of an action, from where its first part ended.
pub after-ok :
    {A B : Type 0} {p : Result Error A × World} (f : A → Exec B) {a : A} {v : World}
    {r : Result Error B × World}
    → p ≡ (ok a, v)
    → f a v ≡ r
    → after p f ≡ r
after-ok f e g = ap (λ q. after q f) e ∙ g

pub query_calm :
    {A : Type 0} (f : Db → A) (w : World) → w.faults ≡ [] → query f w ≡ (ok (f w.db), w)
unfolding query
query_calm f w calm = ap (λ p. after p (λ u v. (ok (f v.db), v))) (remote_calm w calm)

pub update_calm :
    (f : Db → Db) (w : World) → w.faults ≡ [] → update f w ≡ (ok tt, record w { db = f w.db })
unfolding update
update_calm f w calm =
    ap (λ p. after p (λ u v. (ok tt, record v { db = f v.db }))) (remote_calm w calm)

pub update_found_calm :
    (found : Db → Bool) (f : Db → Db) (w : World)
    → w.faults ≡ []
    → found w.db ≡ true
    → update_found found f w ≡ (ok tt, record w { db = f w.db })
unfolding update_found
update_found_calm found f w calm there =
    ap
      (λ p.
        after p
          (λ u v. if found v.db then (ok tt, record v { db = f v.db }) else (err not_found, v)))
      (remote_calm w calm)
    ∙ rw there refl
