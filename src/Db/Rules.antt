-- ===== src/Db/Rules.antt =====
-- Rules for actions: an action that only reads keeps the tables, and a run of two actions in a row
-- that succeeds is taken apart.
use booking_backend.Prelude.{
  ◌≡◌, refl, ◌∙◌, sym, ap, Bool, true, false, Option, none, some, arith, if◌then◌else◌,
}
use booking_backend.Outcome.{Outcome, ok, err, panic, diverge, AppError, ok_or, ok_or-ok}
use booking_backend.Env.{Env}
use booking_backend.Db.{
  Db, St, Exec, continue, ◌>>=◌, pure, raise, lift, reject, on_option, query, query_or, settle,
  fetch_one, utc_now, new_uuid, random_text, consult,
}

pub record Reads {A : Type 0} (m : Exec A) : Type 0 where
  pub at : (s : St) → (m s).1.db ≡ s.db

module _ {A : Type 0} where
  pub Reads-pure : (a : A) → Reads (pure a)
  unfolding pure
  Reads-pure a = record { at = λ s. refl }

  pub Reads-raise : (e : AppError) → Reads (raise {A = A} e)
  unfolding raise
  Reads-raise e = record { at = λ s. refl }

  pub Reads-lift : (r : Outcome A) → Reads (lift r)
  unfolding lift
  Reads-lift r = record { at = λ s. refl }

  pub Reads-query : (f : Db → A) → Reads (query f)
  unfolding query
  Reads-query f = record { at = λ s. refl }

  pub Reads-query_or : (f : Db → Option A) (e : AppError) → Reads (query_or f e)
  unfolding query_or
  Reads-query_or f e = record { at = λ s. refl }

  pub Reads-if : (b : Bool) (m n : Exec A) → Reads m → Reads n → Reads (if b then m else n)
  Reads-if true m n km kn = km
  Reads-if false m n km kn = kn

pub Reads-reject : (b : Bool) (e : AppError) → Reads (reject b e)
unfolding reject
Reads-reject true e = record { at = λ s. refl }
Reads-reject false e = record { at = λ s. refl }

module _ (env : Env) where
  pub Reads-utc_now : Reads (utc_now env)
  unfolding utc_now
  Reads-utc_now = record { at = λ s. refl }

  pub Reads-new_uuid : Reads (new_uuid env)
  unfolding new_uuid
  Reads-new_uuid = record { at = λ s. refl }

  pub Reads-random_text : Reads (random_text env)
  unfolding random_text
  Reads-random_text = record { at = λ s. refl }

module _ {A B : Type 0} where
  continue-Reads :
      (r : Outcome A) (f : A → Exec B) (s : St)
      → ((a : A) → Reads (f a))
      → (continue r f s).1.db ≡ s.db
  continue-Reads (ok a) f s k = (k a).at s
  continue-Reads (err e) f s k = refl
  continue-Reads panic f s k = refl
  continue-Reads diverge f s k = refl

  pub Reads-on_option :
      (o : Option A) (m : Exec B) (f : A → Exec B)
      → Reads m
      → ((a : A) → Reads (f a))
      → Reads (on_option o m f)
  unfolding on_option
  Reads-on_option none m f km kf = km
  Reads-on_option (some a) m f km kf = kf a

  pub Reads-bind :
      (m : Exec A) (f : A → Exec B) → Reads m → ((a : A) → Reads (f a)) → Reads (m >>= f)
  unfolding ◌>>=◌
  Reads-bind m f km kf = record {
    at = λ s. let (r, s') = m s in continue-Reads r f s' kf ∙ km.at s;
  }

pub ruleset reads_rules = (
  Reads-pure, Reads-raise, Reads-lift, Reads-query, Reads-query_or, Reads-if, Reads-reject,
  Reads-utc_now, Reads-new_uuid, Reads-random_text, Reads-on_option, Reads-bind,
)

abbrev pub is_ok {ℓ} : {A : Type ℓ} → Outcome A → Bool
is_ok (ok a) = true
is_ok (err e) = false
is_ok panic = false
is_ok diverge = false

-- `m` keeps the tables unless it succeeds.
pub record Atomic {A : Type 0} (m : Exec A) : Type 0 where
  pub at : (s : St) → is_ok (m s).0 ≡ false → (m s).1.db ≡ s.db

module _ {A B : Type 0} where
  continue-Atomic :
      (r : Outcome A) (f : A → Exec B) (s : St)
      → ((a : A) → Atomic (f a))
      → is_ok (continue r f s).0 ≡ false
      → (continue r f s).1.db ≡ s.db
  continue-Atomic (ok a) f s k h = (k a).at s h
  continue-Atomic (err e) f s k h = refl
  continue-Atomic panic f s k h = refl
  continue-Atomic diverge f s k h = refl

  -- What reads first and then runs one atomic action is atomic.
  pub Atomic-bind :
      (m : Exec A) (f : A → Exec B) → Reads m → ((a : A) → Atomic (f a)) → Atomic (m >>= f)
  unfolding ◌>>=◌
  Atomic-bind m f km kf = record {
    at = λ s h. let (r, s') = m s in continue-Atomic r f s' kf h ∙ km.at s;
  }

-- Inversions of a run that succeeds.
module _ {C : Type 0} where
  continue-ok :
      {A B : Type 0} (r : Outcome A) (f : A → Exec B) (s : St) {b : B} {t : St}
      → continue r f s ≡ (ok b, t)
      → ((a : A) → r ≡ ok a → f a s ≡ (ok b, t) → C)
      → C
  continue-ok (ok a) f s h go = go a refl h
  continue-ok (err e) f s h go = absurd (ground arith)
  continue-ok panic f s h go = absurd (ground arith)
  continue-ok diverge f s h go = absurd (ground arith)

  pub bind-ok :
      {A B : Type 0} (m : Exec A) (f : A → Exec B) (s : St) {b : B} {t : St}
      → (m >>= f) s ≡ (ok b, t)
      → ((a : A) (u : St) → m s ≡ (ok a, u) → f a u ≡ (ok b, t) → C)
      → C
  unfolding ◌>>=◌
  bind-ok m f s h go = continue-ok (m s).0 f (m s).1 h λ a e k. go a (m s).1 (pair_eq (m s) a e) k
    where
      pair_eq : {A : Type 0} (p : Outcome A × St) (a : A) → p.0 ≡ ok a → p ≡ (ok a, p.1)
      pair_eq p a e = λ i. (e i, p.1)

  module _ {A B : Type 0} (f : A → Exec B) (s : St) {b : B} {t : St} where
    -- The same, for a first action that only reads.
    pub reads-ok :
        (m : Exec A)
        → Reads m
        → (m >>= f) s ≡ (ok b, t)
        → ((a : A) (u : St) → u.db ≡ s.db → m s ≡ (ok a, u) → f a u ≡ (ok b, t) → C)
        → C
    reads-ok m k h go =
        bind-ok m f s h
          λ a u e h'. go a u (ap (λ (p : Outcome A × St). p.1.db) (sym e) ∙ k.at s) e h'

    pub lift-ok :
        (r : Outcome A)
        → (lift r >>= f) s ≡ (ok b, t)
        → ((a : A) → r ≡ ok a → f a s ≡ (ok b, t) → C)
        → C
    unfolding ◌>>=◌
    lift-ok r h go = continue-ok r f s h go

    pub consult-ok :
        (q : Db → Outcome A)
        → (consult q >>= f) s ≡ (ok b, t)
        → ((a : A) → q s.db ≡ ok a → f a s ≡ (ok b, t) → C)
        → C
    unfolding ◌>>=◌
    consult-ok q h go = continue-ok (q s.db) f s h go

    pub query_or-ok :
        (q : Db → Option A) (e : AppError)
        → (query_or q e >>= f) s ≡ (ok b, t)
        → ((a : A) → q s.db ≡ some a → f a s ≡ (ok b, t) → C)
        → C
    unfolding ◌>>=◌
    query_or-ok q e h go = continue-ok (ok_or (q s.db) e) f s h λ a k. go a (ok_or-ok (q s.db) e k)

  pub reject-ok :
      {B : Type 0} (f : Unit {0} → Exec B) (s : St) {b : B} {t : St} (failed : Bool) (e : AppError)
      → (reject failed e >>= f) s ≡ (ok b, t)
      → (failed ≡ false → f tt s ≡ (ok b, t) → C)
      → C
  unfolding ◌>>=◌
  reject-ok f s true e h go = absurd (ground arith)
  reject-ok f s false e h go = go refl h

pub pure-ok :
    {A : Type 0} (a : A) (s : St) {b : A} {t : St} → pure a s ≡ (ok b, t) → (b ≡ a) × (t ≡ s)
unfolding pure
pure-ok a s h = ground arith

pub query-ok :
    {A B : Type 0} (f : A → Exec B) (s : St) {b : B} {t : St} (q : Db → A)
    → (query q >>= f) s ≡ (ok b, t)
    → f (q s.db) s ≡ (ok b, t)
unfolding ◌>>=◌
query-ok f s q h = h

-- `fetch_one` gives the first row that was written.
pub fetch_one-ok :
    {A : Type 0} (o : Option A) (db : Db) (s u : St) (a : A)
    → settle (fetch_one o db) s ≡ (ok a, u)
    → (o ≡ some a) × (u.db ≡ db)
fetch_one-ok none db s u a h = absurd (ground arith)
fetch_one-ok (some b) db s u a h = ground arith

pub raise-ne : {A : Type 0} (e : AppError) (s u : St) (a : A) → raise e s ≡ (ok a, u) → ⊥
unfolding raise
raise-ne e s u a h = ground arith
