-- ===== src/Db/Keeps.antt =====
-- Actions that keep a view of the tables, whether they succeed or not.
use booking_backend.Prelude.{◌≡◌, ◌∙◌, refl, sym, ap, Option, none, some}
use booking_backend.Outcome.{Outcome, ok, err, panic, diverge}
use booking_backend.Db.{Db, St, Exec, continue, execute, settle, on_option, attempt, ◌>>=◌}
use booking_backend.Db.Rules.{Reads}

module _ {V : Type 0} (view : Db → V) where
  pub record Keeps {A : Type 0} (m : Exec A) : Type 0 where
    pub at : (s : St) → view (m s).1.db ≡ view s.db

  module _ {A : Type 0} where
    pub Keeps-Reads : (m : Exec A) → Reads m → Keeps m
    Keeps-Reads m k = record { at = λ s. ap view (k.at s) }

    pub Keeps-run :
        (m : Exec A) → Keeps m → {s t : St} {r : Outcome A} → m s ≡ (r, t) → view t.db ≡ view s.db
    Keeps-run m k {s} h = ap (λ (p : Outcome A × St). view p.1.db) (sym h) ∙ k.at s

    pub Keeps-attempt : (m : Exec A) → Keeps m → Keeps (attempt m)
    unfolding attempt
    Keeps-attempt m k = record { at = λ s. k.at s }

    settle-view :
        (r : Outcome (A × Db)) (s : St)
        → ((a : A) (db : Db) → r ≡ ok (a, db) → view db ≡ view s.db)
        → view (settle r s).1.db ≡ view s.db
    settle-view (ok (a, db)) s k = k a db refl
    settle-view (err e) s k = refl
    settle-view panic s k = refl
    settle-view diverge s k = refl

    pub Keeps-execute :
        (f : Db → Outcome (A × Db))
        → ((old new : Db) (a : A) → f old ≡ ok (a, new) → view new ≡ view old)
        → Keeps (execute f)
    unfolding execute
    Keeps-execute f k = record { at = λ s. settle-view (f s.db) s λ a db e. k s.db db a e }

  module _ {A B : Type 0} where
    continue-view :
        (r : Outcome A) (f : A → Exec B) (s : St)
        → ((a : A) → Keeps (f a))
        → view (continue r f s).1.db ≡ view s.db
    continue-view (ok a) f s q = (q a).at s
    continue-view (err e) f s q = refl
    continue-view panic f s q = refl
    continue-view diverge f s q = refl

    pub Keeps-bind :
        (m : Exec A) (f : A → Exec B) → Keeps m → ((a : A) → Keeps (f a)) → Keeps (m >>= f)
    unfolding ◌>>=◌
    Keeps-bind m f p q = record { at = λ s. continue-view (m s).0 f (m s).1 q ∙ p.at s }

    pub Keeps-on_option :
        (o : Option A) (m : Exec B) (f : A → Exec B)
        → Keeps m
        → ((a : A) → Keeps (f a))
        → Keeps (on_option o m f)
    unfolding on_option
    Keeps-on_option none m f p q = p
    Keeps-on_option (some a) m f p q = q a
