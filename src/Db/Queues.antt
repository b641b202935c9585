-- ===== src/Db/Queues.antt =====
-- Actions that only append to the job queue (`JobRepository::create`).
use booking_backend.Prelude.{
  ◌≡◌, ◌∙◌, sym, ap, String, Option, none, some, Bool, true, false, List, [], ◌∷◌, ◌++◌, All,
  if◌then◌else◌, any, ◌==◌, Bool-cases, inl, inr, suc,
}
use mathlib.Core.List.{append-nil, append_assoc}
use booking_backend.Outcome.{Outcome, ok, err, panic, diverge}
use booking_backend.Models.{Instant, Job}
use booking_backend.Env.{Env}
use booking_backend.Db.{Db, St, Exec, continue, ◌>>=◌, execute, on_option}
use booking_backend.Db.Rules.{Reads}
use booking_backend.Db.Bookings.{insert_job_row}
use booking_backend.Db.Jobs.{create, new_job}

module _ (P : Job → Type 0) where
  -- Whether `m` succeeds or not, it adds jobs with the property `P` at the end of the queue, and
  -- changes nothing else.
  pub record Queues {A : Type 0} (m : Exec A) : Type 0 where
    pub at :
        (s : St)
        → (added : List Job) × All P added
          × ((m s).1.db ≡ record s.db { jobs = s.db.jobs ++ added })

  nothing : (db : Db) → db ≡ record db { jobs = db.jobs ++ [] }
  nothing db = ap (λ (js : List Job). record db { jobs = js }) (sym (append-nil db.jobs))

  All-append : (js ks : List Job) → All P js → All P ks → All P (js ++ ks)
  All-append [] ks p q = q
  All-append (j ∷ js) ks p q = (p.0, All-append js ks p.1 q)

  module _ {A : Type 0} where
    pub Queues-Reads : (m : Exec A) → Reads m → Queues m
    Queues-Reads m k = record { at = λ s. ([], tt, k.at s ∙ nothing s.db) }

    pub Queues-if : (b : Bool) (m n : Exec A) → Queues m → Queues n → Queues (if b then m else n)
    Queues-if true m n p q = p
    Queues-if false m n p q = q

  pub Queues-create : (job : Job) → P job → Queues (create job)
  unfolding create execute insert_job_row
  Queues-create job p = record {
    at = λ s. elim (Bool-cases (any (λ (r : Job). r.id == job.id) s.db.jobs)) [
      | inl e ↦ ([], tt, rw e (nothing s.db))
      | inr e ↦ (job ∷ [], (p, tt), rw e)
    ];
  }

  module _ {A B : Type 0} where
    pub Queues-on_option :
        (o : Option A) (m : Exec B) (f : A → Exec B)
        → Queues m
        → ((a : A) → Queues (f a))
        → Queues (on_option o m f)
    unfolding on_option
    Queues-on_option none m f p q = p
    Queues-on_option (some a) m f p q = q a

    continue-Queues :
        (r : Outcome A) (f : A → Exec B) (s : St)
        → ((a : A) → Queues (f a))
        → (added : List Job) × All P added
          × ((continue r f s).1.db ≡ record s.db { jobs = s.db.jobs ++ added })
    continue-Queues (ok a) f s q = (q a).at s
    continue-Queues (err e) f s q = ([], tt, nothing s.db)
    continue-Queues panic f s q = ([], tt, nothing s.db)
    continue-Queues diverge f s q = ([], tt, nothing s.db)

    pub Queues-bind :
        (m : Exec A) (f : A → Exec B) → Queues m → ((a : A) → Queues (f a)) → Queues (m >>= f)
    unfolding ◌>>=◌
    Queues-bind m f p q = record {
      at = λ s.
          let (r, s') = m s in
          let (first, all_first, e) = p.at s in
          let (others, all_others, e') = continue-Queues r f s' q in
          (
            first ++ others,
            All-append first others all_first all_others,
            e'
                ∙ ap (λ (db : Db). record db { jobs = db.jobs ++ others }) e
                ∙ ap (λ (js : List Job). record s.db { jobs = js })
                    (append_assoc s.db.jobs first others),
          );
    }

  -- A job that `Job::new` made is known but for its identifier and the time.
  pub Queues-new_job :
      {B : Type 0} (env : Env) (job_type booking_id tenant_id : String) (at : Instant)
      (f : Job → Exec B)
      → ((id : String) (now : Instant)
          → Queues (
              f (record {
                id = id;
                job_type = job_type;
                payload = record { booking_id = booking_id; tenant_id = tenant_id };
                execute_at = at;
                status = "PENDING";
                error_message = none;
                created_at = now;
              })))
      → Queues (new_job env job_type booking_id tenant_id at >>= f)
  unfolding new_job ◌>>=◌
  Queues-new_job env job_type booking_id tenant_id at f q = record {
    at = λ s.
        (q (env.uuid_at s.calls) (env.now_at (suc s.calls))).at
          (record s { calls = suc (suc s.calls) });
  }

  pub Queues-ok :
      {A : Type 0} {a : A} {t : St} (m : Exec A)
      → Queues m
      → (s : St) → m s ≡ (ok a, t)
      → (added : List Job) × All P added × (t.db ≡ record s.db { jobs = s.db.jobs ++ added })
  Queues-ok {A = A} m k s h =
      let (added, all_added, e) = k.at s in
      (added, all_added, ap (λ (p : Outcome A × St). p.1.db) (sym h) ∙ e)
