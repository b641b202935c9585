-- ===== src/Db/Jobs/Runs.antt =====
-- The life of the job queue as a step relation: what the handlers and the worker (background.rs) do to
-- it, in any order.
use booking_backend.Prelude.{
  ℕ, ◌+◌, ◌≤◌, ◌≡◌, sym, ap, inl, inr, String, Option, Bool, true, false, List, [], ◌∷◌, ◌++◌,
  arith, Bool-cases, ◌==◌,
}
use booking_backend.Outcome.{Outcome, ok}
use booking_backend.Models.{Instant, Booking, Job}
use booking_backend.Env.{Env}
use booking_backend.Db.{Db, St, update_where, delete_where, execute, ◌>>=◌}
use booking_backend.Db.Bookings.{create_with_token, insert_job_row}
use booking_backend.Db.Bookings.Writes.{create_with_token-ok}
use booking_backend.Db.Jobs.{
  create, find_pending, claim, claim_rows, update_status, is_pending_for, cancel_pending,
  cancel_jobs_for_booking, delete_jobs_by_type_and_event,
}
use booking_backend.Db.Jobs.Claim.{count, has_id, is_waiting, claim-moves}

-- `Run s made given`: the tables `s` are reached from an empty queue, with the jobs `made` put in, and
-- the jobs `given` handed to a worker. Tables other than the queue change as they like.
pub data Run (env : Env) : St → List Job → List Job → Type 0 where
  start : (s : St) → s.db.jobs ≡ [] → Run env s [] []
  other :
      {s : St} {made given : List Job} (t : St)
      → Run env s made given
      → t.db.jobs ≡ s.db.jobs
      → Run env t made given
  made_one :
      {s : St} {made given : List Job} (job k : Job) (t : St)
      → Run env s made given
      → create job s ≡ (ok k, t)
      → Run env t (job ∷ made) given
  booked :
      {s : St} {made given : List Job} (b c : Booking) (token : Option String) (jobs : List Job)
      (t : St)
      → Run env s made given
      → create_with_token b token jobs s ≡ (ok c, t)
      → Run env t (jobs ++ made) given
  handed :
      {s : St} {made given : List Job} (limit : ℕ) (batch : List Job) (t : St)
      → Run env s made given
      → find_pending env limit s ≡ (ok batch, t)
      → Run env t made (batch ++ given)
  finished :
      {s : St} {made given : List Job} (id status : String) (message : Option String) (u : Unit {0})
      (t : St)
      → Run env s made given
      → (status == "PENDING") ≡ false
      → update_status id status message s ≡ (ok u, t)
      → Run env t made given
  cancelled :
      {s : St} {made given : List Job} (booking_id : String) (u : Unit {0}) (t : St)
      → Run env s made given
      → cancel_jobs_for_booking booking_id s ≡ (ok u, t)
      → Run env t made given
  deleted :
      {s : St} {made given : List Job} (event_id job_type : String) (u : Unit {0}) (t : St)
      → Run env s made given
      → delete_jobs_by_type_and_event event_id job_type s ≡ (ok u, t)
      → Run env t made given

module _ {A : Type 0} (p : A → Bool) where
  count-append : (xs ys : List A) → count p (xs ++ ys) ≡ count p xs + count p ys
  count-append [] ys = ground arith
  count-append (x ∷ xs) ys = ground (arith, count-append xs ys)

  count-update :
      (q : A → Bool) (f : A → A)
      → ((x : A) → p (f x) ≡ true → p x ≡ true)
      → (xs : List A) → count p (update_where q f xs) ≤ count p xs
  count-update q f back [] = ground arith
  count-update q f back (x ∷ xs) =
      let rest = count-update q f back xs in
      let here = back x in
      elim (Bool-cases (q x)) [ inl e ↦ rw e (ground arith) | inr e ↦ rw e (ground arith) ]

  count-delete : (q : A → Bool) (xs : List A) → count p (delete_where q xs) ≤ count p xs
  count-delete q [] = ground arith
  count-delete q (x ∷ xs) =
      let rest = count-delete q xs in
      elim (Bool-cases (q x)) [ inl e ↦ rw e (ground arith) | inr e ↦ rw e (ground arith) ]

is_waiting-has_id :
    (id : String) (jobs : List Job) → count (is_waiting id) jobs ≤ count (has_id id) jobs
is_waiting-has_id id [] = ground arith
is_waiting-has_id id (j ∷ js) = ground (arith, is_waiting-has_id id js)

create-jobs :
    (job k : Job) (s t : St) → create job s ≡ (ok k, t) → t.db.jobs ≡ s.db.jobs ++ job ∷ []
unfolding create execute insert_job_row
create-jobs job k s t h = ground arith

find_pending-jobs :
    (env : Env) (limit : ℕ) (batch : List Job) (s t : St)
    → find_pending env limit s ≡ (ok batch, t)
    → (now : Instant) × (batch ≡ (claim now limit s.db.jobs).0)
      × (t.db.jobs ≡ (claim now limit s.db.jobs).1)
unfolding find_pending ◌>>=◌ claim_rows
find_pending-jobs env limit batch s t h = (env.now_at s.calls, ground arith, ground arith)

update_status-jobs :
    (id status : String) (message : Option String) (u : Unit {0}) (s t : St)
    → update_status id status message s ≡ (ok u, t)
    → t.db.jobs
      ≡ update_where
          (λ (j : Job). j.id == id)
          (λ j. record j { status = status; error_message = message })
          s.db.jobs
unfolding update_status execute
update_status-jobs id status message u s t h = ground arith

cancel-jobs :
    (booking_id : String) (u : Unit {0}) (s t : St)
    → cancel_jobs_for_booking booking_id s ≡ (ok u, t)
    → t.db.jobs ≡ cancel_pending booking_id s.db.jobs
unfolding cancel_jobs_for_booking execute
cancel-jobs booking_id u s t h = ground arith

delete-jobs :
    (id : String) (event_id job_type : String) (u : Unit {0}) (s t : St)
    → delete_jobs_by_type_and_event event_id job_type s ≡ (ok u, t)
    → count (is_waiting id) t.db.jobs ≤ count (is_waiting id) s.db.jobs
unfolding delete_jobs_by_type_and_event execute
delete-jobs id event_id job_type u s t h =
    rw (ap (λ (p : Outcome (Unit {0}) × St). p.1.db.jobs) (sym h)) (count-delete _ _ s.db.jobs)

module _ (env : Env) (id : String) where
  -- In every run, a job is handed out, or still waits, at most as often as it was put in.
  Run-bounded :
      (s : St) (made given : List Job)
      → Run env s made given
      → count (has_id id) given + count (is_waiting id) s.db.jobs ≤ count (has_id id) made
  Run-bounded _ _ _ (start s empty) = rw empty (ground arith)
  Run-bounded _ made given (other {s = s} t r same) = rw same (Run-bounded s made given r)
  Run-bounded _ _ given (made_one {s = s} {made = made} job k t r h) =
      let before = Run-bounded s made given r in
      rw (create-jobs job k s t h, count-append (is_waiting id) s.db.jobs (job ∷ [])) (ground arith)
  Run-bounded _ _ given (booked {s = s} {made = made} b c token jobs t r h) =
      let before = Run-bounded s made given r in
      let fewer = is_waiting-has_id id jobs in
      let (_, _, _, db) = create_with_token-ok b token jobs s t c h in
      let e : t.db.jobs ≡ s.db.jobs ++ jobs = ap (λ (db : Db). db.jobs) db in
      rw (e, count-append (is_waiting id) s.db.jobs jobs, count-append (has_id id) jobs made)
        (omega arith)
  Run-bounded _ made _ (handed {s = s} {given = given} limit batch t r h) =
      let before = Run-bounded s made given r in
      let (now, is_batch, after) = find_pending-jobs env limit batch s t h in
      let moved = claim-moves id now limit s.db.jobs in
      rw (after, is_batch, count-append (has_id id) (claim now limit s.db.jobs).0 given)
        (omega arith)
  Run-bounded _ made given (finished {s = s} x status message u t r ended h) =
      let before = Run-bounded s made given r in
      let fewer =
        count-update (is_waiting id) (λ (j : Job). j.id == x)
          (λ j. record j { status = status; error_message = message })
          (λ j waits. absurd (ground arith)) s.db.jobs in
      rw (update_status-jobs x status message u s t h) (omega arith)
  Run-bounded _ made given (cancelled {s = s} x u t r h) =
      let before = Run-bounded s made given r in
      let fewer =
        count-update (is_waiting id) (is_pending_for x) (λ j. record j { status = "CANCELLED" })
          (λ j waits. absurd (ground arith)) s.db.jobs in
      rw (cancel-jobs x u s t h) (omega arith)
  Run-bounded _ made given (deleted {s = s} x kind u t r h) =
      let before = Run-bounded s made given r in
      let fewer = delete-jobs id x kind u s t h in omega arith

-- From an empty queue, and however the handlers and the workers take turns, a job whose identifier
-- was given out at most once is handed to a worker at most once.
pub Run-once :
    (env : Env) (id : String) (s : St) (made given : List Job)
    → count (has_id id) made ≤ 1
    → Run env s made given
    → count (has_id id) given ≤ 1
Run-once env id s made given once r = let bounded = Run-bounded env id s made given r in omega arith
