-- ===== src/Worker/Clears.antt =====
-- What a batch of jobs leaves waiting in the queue (background.rs, infra/repositories/sqlite_job_repo.rs).
use booking_backend.Prelude.{
  ℕ, zero, suc, ◌+◌, ◌≤◌, ◌≡◌, refl, ap, subst, inl, inr, String, Bool, true, false, Option, none,
  List, [], ◌∷◌, arith, length, Bool-cases, ◌==◌,
}
use booking_backend.Outcome.{Outcome, ok, err, panic, diverge}
use booking_backend.Models.{Instant, Job}
use booking_backend.Env.{Env}
use booking_backend.Db.{St, Exec, catch, continue, pure, attempt, update_where, ◌>>=◌, ◌>>◌}
use booking_backend.Db.Jobs.{claim, is_due, update_status}
use booking_backend.Db.Jobs.Claim.{count}
use booking_backend.Worker.Mailer.{Mailer}
use booking_backend.Worker.Process.{process_job, finish, work, work_all}
use booking_backend.Worker.Steady.{IsResult}
use booking_backend.Worker.Ends.{process_job-Steady}

abbrev pub is_pending : Job → Bool
is_pending j = j.status == "PENDING"

-- What is taken from the queue waits no more.
pub claim-count_due :
    (now : Instant) (limit : ℕ) (jobs : List Job)
    → length (claim now limit jobs).0 + count (is_due now) (claim now limit jobs).1
      ≡ count (is_due now) jobs
unfolding claim
claim-count_due now limit [] = ground arith
claim-count_due now zero (j ∷ js) = ground arith
claim-count_due now (suc limit) (j ∷ js) = elim (Bool-cases (is_due now j)) [
  | inl e ↦ let rest = claim-count_due now limit js in rw e (ground arith)
  | inr e ↦ let rest = claim-count_due now (suc limit) js in rw (e, e) (ground arith)
]

pub claim-count_pending :
    (now : Instant) (limit : ℕ) (jobs : List Job)
    → length (claim now limit jobs).0 + count is_pending (claim now limit jobs).1
      ≡ count is_pending jobs
unfolding claim
claim-count_pending now limit [] = ground arith
claim-count_pending now zero (j ∷ js) = ground arith
claim-count_pending now (suc limit) (j ∷ js) = elim (Bool-cases (is_due now j)) [
  | inl e ↦
      let rest = claim-count_pending now limit js in
      let waits : (j.status == "PENDING") ≡ true = ground arith in rw (e, waits) (ground arith)
  | inr e ↦ let rest = claim-count_pending now (suc limit) js in rw e (ground arith)
]

-- What is due by an instant and is left, is due later too.
pub claim-count_early :
    (early now : Instant) (limit : ℕ) (jobs : List Job)
    → count (is_due early) (claim now limit jobs).1 ≤ count (is_due early) jobs
unfolding claim
claim-count_early early now limit [] = ground arith
claim-count_early early now zero (j ∷ js) = ground arith
claim-count_early early now (suc limit) (j ∷ js) = elim (Bool-cases (is_due now j)) [
  | inl e ↦ let rest = claim-count_early early now limit js in rw e (ground arith)
  | inr e ↦ let rest = claim-count_early early now (suc limit) js in rw e (ground arith)
]

pub count-due_later :
    (early now : Instant) (jobs : List Job)
    → early ≤ now
    → count (is_due early) jobs ≤ count (is_due now) jobs
count-due_later early now [] h = ground arith
count-due_later early now (j ∷ js) h = let rest = count-due_later early now js h in ground arith

pub count-due_pending :
    (now : Instant) (jobs : List Job) → count (is_due now) jobs ≤ count is_pending jobs
count-due_pending now [] = ground arith
count-due_pending now (j ∷ js) = let rest = count-due_pending now js in ground arith

count-update_where :
    (p q : Job → Bool) (f : Job → Job) (jobs : List Job)
    → ((j : Job) → p (f j) ≡ false)
    → count p (update_where q f jobs) ≤ count p jobs
count-update_where p q f [] off = ground arith
count-update_where p q f (j ∷ js) off =
    let rest = count-update_where p q f js off in
    elim (Bool-cases (q j)) [ inl e ↦ rw (e, off j) (ground arith) | inr e ↦ rw e (ground arith) ]

-- What always succeeds, and makes no job wait.
pub record Clears (m : Exec (Unit {0})) : Type 0 where
  pub done : (s : St) → (m s).0 ≡ ok tt
  pub pending : (s : St) → count is_pending (m s).1.db.jobs ≤ count is_pending s.db.jobs
  pub due :
      (early : Instant) (s : St)
      → count (is_due early) (m s).1.db.jobs ≤ count (is_due early) s.db.jobs

pub Clears-pure : Clears (pure tt)
unfolding pure
Clears-pure = record {
  done = λ s. refl;
  pending = λ s. ground arith;
  due = λ early s. ground arith;
}

Clears-update_status :
    (id status : String) (message : Option String)
    → (status == "PENDING") ≡ false
    → Clears (attempt (update_status id status message) >> pure tt)
unfolding update_status ◌>>=◌
Clears-update_status id status message off = record {
  done = λ s. refl;
  pending = λ s. count-update_where is_pending (λ (j : Job). j.id == id) _ s.db.jobs λ j. off;
  due = λ early s.
      count-update_where (is_due early) (λ (j : Job). j.id == id) _ s.db.jobs λ j. rw off;
}

module _ {env : Env} (mailer : Mailer env) where
  finish-Clears : (job : Job) (r : Outcome (Unit {0})) → IsResult r → Clears (finish mailer job r)
  unfolding finish
  finish-Clears job (ok u) p = Clears-update_status job.id "COMPLETED" none refl
  finish-Clears job (err e) p = Clears-update_status job.id "FAILED" _ refl
  finish-Clears job panic p = elim p [ ]
  finish-Clears job diverge p = elim p [ ]

continue-catch :
    {A B : Type 0} (r : Outcome A) (f : Outcome A → Exec B) (s : St)
    → IsResult r
    → continue (catch r) f s ≡ f r s
continue-catch (ok a) f s p = refl
continue-catch (err e) f s p = refl
continue-catch panic f s p = elim p [ ]
continue-catch diverge f s p = elim p [ ]

pub bind-done :
    {B : Type 0} (m : Exec (Unit {0})) (f : Unit {0} → Exec B) (s : St)
    → (m s).0 ≡ ok tt
    → (m >>= f) s ≡ f tt (m s).1
unfolding ◌>>=◌
bind-done m f s h = ap (λ (r : Outcome (Unit {0})). continue r f (m s).1) h

pub Clears-bind : (m k : Exec (Unit {0})) → Clears m → Clears k → Clears (m >> k)
Clears-bind m k p q = record {
  done = λ s. rw (bind-done m (λ _. k) s (p.done s)) (q.done (m s).1);
  pending = λ s.
      let first = p.pending s in
      let second = q.pending (m s).1 in rw (bind-done m (λ _. k) s (p.done s)) (omega arith);
  due = λ early s.
      let first = p.due early s in
      let second = q.due early (m s).1 in rw (bind-done m (λ _. k) s (p.done s)) (omega arith);
}

module _ {env : Env} (mailer : Mailer env) where
  work-finish :
      (job : Job) (s : St)
      → work mailer job s
        ≡ finish mailer job (process_job mailer job s).0 (process_job mailer job s).1
  unfolding work ◌>>=◌
  work-finish job s =
      continue-catch _ (finish mailer job) _ ((process_job-Steady mailer job).ends s)

  work-Clears : (job : Job) → Clears (work mailer job)
  work-Clears job =
      let steady = process_job-Steady mailer job in
      let after = λ (s : St). finish-Clears mailer job _ (steady.ends s) in
      record {
        done = λ s. rw (work-finish job s) ((after s).done (process_job mailer job s).1);
        pending = λ s. rw (work-finish job s) (
            subst
              (λ (js : List Job).
                count is_pending
                  (finish mailer job (process_job mailer job s).0
                    (process_job mailer job s).1).1.db.jobs
                ≤ count is_pending js)
              (steady.keeps s) ((after s).pending (process_job mailer job s).1));
        due = λ early s. rw (work-finish job s) (
            subst
              (λ (js : List Job).
                count (is_due early)
                  (finish mailer job (process_job mailer job s).0
                    (process_job mailer job s).1).1.db.jobs
                ≤ count (is_due early) js)
              (steady.keeps s) ((after s).due early (process_job mailer job s).1));
      }

  pub work_all-Clears : (jobs : List Job) → Clears (work_all mailer jobs)
  unfolding work_all
  work_all-Clears [] = Clears-pure
  work_all-Clears (j ∷ js) = Clears-bind _ _ (work-Clears j) (work_all-Clears js)
