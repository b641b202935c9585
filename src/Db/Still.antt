-- ===== src/Db/Still.antt =====
-- Actions that change no state at all: no table, no clock reading, no identifier, no mail.
use booking_backend.Prelude.{
  ◌≡◌, ◌∙◌, refl, sym, ap, Option, none, some, Bool, true, false, if◌then◌else◌,
}
use booking_backend.Outcome.{Outcome, ok, err, panic, diverge, AppError}
use booking_backend.Db.{
  Db, St, Exec, continue, pure, raise, lift, on_option, query, query_or, ◌>>=◌,
}
use booking_backend.Db.Rules.{bind-ok}

pub record Still {A : Type 0} (m : Exec A) : Type 0 where
  pub at : (s : St) → (m s).1 ≡ s

module _ {A : Type 0} where
  pub Still-pure : (a : A) → Still (pure a)
  unfolding pure
  Still-pure a = record { at = λ s. refl }

  pub Still-raise : (e : AppError) → Still (raise {A = A} e)
  unfolding raise
  Still-raise e = record { at = λ s. refl }

  pub Still-lift : (r : Outcome A) → Still (lift r)
  unfolding lift
  Still-lift r = record { at = λ s. refl }

  pub Still-query : (f : Db → A) → Still (query f)
  unfolding query
  Still-query f = record { at = λ s. refl }

  pub Still-query_or : (f : Db → Option A) (e : AppError) → Still (query_or f e)
  unfolding query_or
  Still-query_or f e = record { at = λ s. refl }

  pub Still-if : (b : Bool) (m n : Exec A) → Still m → Still n → Still (if b then m else n)
  Still-if true m n km kn = km
  Still-if false m n km kn = kn

module _ {A B : Type 0} where
  continue-Still :
      (r : Outcome A) (f : A → Exec B) (s : St) → ((a : A) → Still (f a)) → (continue r f s).1 ≡ s
  continue-Still (ok a) f s k = (k a).at s
  continue-Still (err e) f s k = refl
  continue-Still panic f s k = refl
  continue-Still diverge f s k = refl

  pub Still-bind :
      (m : Exec A) (f : A → Exec B) → Still m → ((a : A) → Still (f a)) → Still (m >>= f)
  unfolding ◌>>=◌
  Still-bind m f km kf = record { at = λ s. continue-Still (m s).0 f (m s).1 kf ∙ km.at s }

  pub Still-on_option :
      (o : Option A) (m : Exec B) (f : A → Exec B)
      → Still m
      → ((a : A) → Still (f a))
      → Still (on_option o m f)
  unfolding on_option
  Still-on_option none m f km kf = km
  Still-on_option (some a) m f km kf = kf a

pub ruleset still_rules = (
  Still-pure, Still-raise, Still-lift, Still-query, Still-query_or, Still-if, Still-bind,
  Still-on_option,
)

-- A run whose first action is still goes on from the same state.
pub still-ok :
    {A B C : Type 0} (f : A → Exec B) (s : St) {b : B} {t : St} (m : Exec A)
    → Still m
    → (m >>= f) s ≡ (ok b, t)
    → ((a : A) (u : St) → m s ≡ (ok a, u) → f a s ≡ (ok b, t) → C)
    → C
still-ok {C = C} f s {b} {t} m k h go = bind-ok m f s h λ a u e h'.
    let same : u ≡ s = ap (λ (p : Outcome _ × St). p.1) (sym e) ∙ k.at s in go a u e (rw same at h')
