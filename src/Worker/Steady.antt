-- ===== src/Worker/Steady.antt =====
-- Actions that end with a value or an error and keep the job queue, for background.rs.
use booking_backend.Prelude.{
  ◌≡◌, ◌∙◌, refl, inl, inr, Bool, true, false, Option, none, some, any, Bool-cases, ◌==◌,
  if◌then◌else◌,
}
use booking_backend.Outcome.{Outcome, ok, err, panic, diverge, ok_or, AppError, ◌>>=◌ as ◌>>>◌}
use booking_backend.Models.Mail.{MailLog}
use booking_backend.Env.{Env}
use booking_backend.Db.{
  Db, St, Exec, continue, execute, pure, lift, query, consult, on_option, utc_now, new_uuid, ◌>>=◌,
}
use booking_backend.Db.Mail.{log_mail}

-- A value or an error.
pub data IsResult {A : Type 0} : Outcome A → Type 0 where
  value : (a : A) → IsResult (ok a)
  error : (e : AppError) → IsResult (err e)

module _ {A : Type 0} where
  pub IsResult-ok_or : (o : Option A) (e : AppError) → IsResult (ok_or o e)
  IsResult-ok_or none e = error e
  IsResult-ok_or (some a) e = value a

  pub IsResult-if :
      (b : Bool) (m n : Outcome A) → IsResult m → IsResult n → IsResult (if b then m else n)
  IsResult-if true m n p q = p
  IsResult-if false m n p q = q

  module _ {B : Type 0} where
    pub IsResult-after :
        (m : Outcome A) (f : A → Outcome B)
        → IsResult m
        → ((a : A) → m ≡ ok a → IsResult (f a))
        → IsResult (m >>> f)
    IsResult-after (ok a) f p q = q a refl
    IsResult-after (err e) f p q = error e
    IsResult-after panic f p q = elim p [ ]
    IsResult-after diverge f p q = elim p [ ]

    pub IsResult-bind :
        (m : Outcome A) (f : A → Outcome B)
        → IsResult m
        → ((a : A) → IsResult (f a))
        → IsResult (m >>> f)
    IsResult-bind m f p q = IsResult-after m f p λ a _. q a

pub ruleset result_rules = (value, error, IsResult-ok_or, IsResult-if, IsResult-bind)

-- What ends with a result, whatever the tables, and keeps the queue.
pub record Steady {A : Type 0} (m : Exec A) : Type 0 where
  pub ends : (s : St) → IsResult (m s).0
  pub keeps : (s : St) → (m s).1.db.jobs ≡ s.db.jobs

module _ {A : Type 0} where
  pub Steady-pure : (a : A) → Steady (pure a)
  unfolding pure
  Steady-pure a = record { ends = λ s. value a; keeps = λ s. refl }

  pub Steady-lift : (r : Outcome A) → IsResult r → Steady (lift r)
  unfolding lift
  Steady-lift r p = record { ends = λ s. p; keeps = λ s. refl }

  pub Steady-query : (f : Db → A) → Steady (query f)
  unfolding query
  Steady-query f = record { ends = λ s. value (f s.db); keeps = λ s. refl }

  pub Steady-consult : (f : Db → Outcome A) → ((db : Db) → IsResult (f db)) → Steady (consult f)
  unfolding consult
  Steady-consult f p = record { ends = λ s. p s.db; keeps = λ s. refl }

  pub Steady-if : (b : Bool) (m n : Exec A) → Steady m → Steady n → Steady (if b then m else n)
  Steady-if true m n p q = p
  Steady-if false m n p q = q

module _ (env : Env) where
  pub Steady-utc_now : Steady (utc_now env)
  unfolding utc_now
  Steady-utc_now = record { ends = λ s. value _; keeps = λ s. refl }

  pub Steady-new_uuid : Steady (new_uuid env)
  unfolding new_uuid
  Steady-new_uuid = record { ends = λ s. value _; keeps = λ s. refl }

module _ {A B : Type 0} where
  pub Steady-on_option :
      (o : Option A) (m : Exec B) (f : A → Exec B)
      → Steady m
      → ((a : A) → Steady (f a))
      → Steady (on_option o m f)
  unfolding on_option
  Steady-on_option none m f p q = p
  Steady-on_option (some a) m f p q = q a

  continue-ends :
      (r : Outcome A) (f : A → Exec B) (s : St)
      → IsResult r
      → ((a : A) → Steady (f a))
      → IsResult (continue r f s).0
  continue-ends (ok a) f s p q = (q a).ends s
  continue-ends (err e) f s p q = error e
  continue-ends panic f s p q = elim p [ ]
  continue-ends diverge f s p q = elim p [ ]

  continue-keeps :
      (r : Outcome A) (f : A → Exec B) (s : St)
      → ((a : A) → Steady (f a))
      → (continue r f s).1.db.jobs ≡ s.db.jobs
  continue-keeps (ok a) f s q = (q a).keeps s
  continue-keeps (err e) f s q = refl
  continue-keeps panic f s q = refl
  continue-keeps diverge f s q = refl

  pub Steady-bind :
      (m : Exec A) (f : A → Exec B) → Steady m → ((a : A) → Steady (f a)) → Steady (m >>= f)
  unfolding ◌>>=◌
  Steady-bind m f p q = record {
    ends = λ s. continue-ends (m s).0 f (m s).1 (p.ends s) q;
    keeps = λ s. continue-keeps (m s).0 f (m s).1 q ∙ p.keeps s;
  }

pub Steady-log_mail : (log : MailLog) → Steady (execute (log_mail log))
unfolding execute log_mail
Steady-log_mail log = record {
  ends = λ s. elim (Bool-cases (any (λ (l : MailLog). l.id == log.id) s.db.mail_logs)) [
    | inl e ↦ rw e (error _)
    | inr e ↦ rw e (value tt)
  ];
  keeps = λ s. elim (Bool-cases (any (λ (l : MailLog). l.id == log.id) s.db.mail_logs)) [
    | inl e ↦ rw e
    | inr e ↦ rw e
  ];
}

pub ruleset steady_rules = (
  Steady-pure, Steady-lift, Steady-query, Steady-consult, Steady-if, Steady-utc_now,
  Steady-new_uuid, Steady-on_option, Steady-bind, Steady-log_mail,
)
