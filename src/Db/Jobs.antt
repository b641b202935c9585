-- ===== src/Db/Jobs.antt =====
-- infra/repositories/sqlite_job_repo.rs: the job queue, and the rules that schedule jobs
-- (sqlite_communication_repo.rs).
pub mod Claim
pub mod Runs
use booking_backend.Prelude.{
  ℕ, zero, suc, String, Bool, true, false, ◌&&◌, Option, none, some, List, [], ◌∷◌, ◌++◌, leb, keep,
  any, ◌==◌, if◌then◌else◌,
}
use booking_backend.Outcome.{Outcome, ok, err, database, unique_violation}
use booking_backend.Models.{Instant, Booking, Job, JobPayload, NotificationRule}
use booking_backend.Env.{Env}
use booking_backend.Db.{
  Db, Exec, query, execute, pure, update_where, delete_where, utc_now, new_uuid, ◌>>=◌, ◌>>◌,
}
use booking_backend.Db.Bookings.{insert_job_row}

-- `Job::new`
unfoldable pub new_job : Env → String → String → String → Instant → Exec Job
new_job env job_type booking_id tenant_id execute_at = do
  id ← new_uuid env
  now ← utc_now env
  pure (record {
    id = id;
    job_type = job_type;
    payload = record { booking_id = booking_id; tenant_id = tenant_id };
    execute_at = execute_at;
    status = "PENDING";
    error_message = none;
    created_at = now;
  })

unfoldable pub create : Job → Exec Job
create job = execute (insert_job_row job)

abbrev pub is_due : Instant → Job → Bool
is_due now j = j.status == "PENDING" && leb j.execute_at now

-- `UPDATE jobs SET status = 'PROCESSING' WHERE id IN (SELECT … LIMIT ?) RETURNING *`: the first
-- `limit` due jobs, as they are after the update, and the table.
unfoldable pub claim : Instant → ℕ → List Job → List Job × List Job
claim now limit [] = ([], [])
claim now zero (j ∷ js) = ([], j ∷ js)
claim now (suc limit) (j ∷ js) =
    let taken = record j { status = "PROCESSING" } in
    let here = claim now limit js in
    let later = claim now (suc limit) js in
    if is_due now j then (taken ∷ here.0, taken ∷ here.1) else (later.0, j ∷ later.1)

unfoldable pub claim_rows : Instant → ℕ → Db → Outcome (List Job × Db)
claim_rows now limit db =
    ok ((claim now limit db.jobs).0, record db { jobs = (claim now limit db.jobs).1 })

unfoldable pub find_pending : Env → ℕ → Exec (List Job)
find_pending env limit = do now ← utc_now env; execute (claim_rows now limit)

unfoldable pub update_status : String → String → Option String → Exec (Unit {0})
update_status id status error_message = execute (λ db. ok (
  tt,
  record db {
    jobs =
        update_where (λ (j : Job). j.id == id)
          (λ j. record j { status = status; error_message = error_message }) db.jobs;
  },
))

abbrev pub is_pending_for : String → Job → Bool
is_pending_for booking_id j = j.payload.booking_id == booking_id && j.status == "PENDING"

abbrev pub cancel_pending : String → List Job → List Job
cancel_pending booking_id =
    update_where (is_pending_for booking_id) (λ j. record j { status = "CANCELLED" })

unfoldable pub cancel_jobs_for_booking : String → Exec (Unit {0})
cancel_jobs_for_booking booking_id =
    execute (λ db. ok (tt, record db { jobs = cancel_pending booking_id db.jobs }))

abbrev pub is_booking_of_event : String → Db → String → Bool
is_booking_of_event event_id db booking_id =
    any (λ b. b.event_id == event_id && b.id == booking_id) db.bookings

unfoldable pub delete_jobs_by_type_and_event : String → String → Exec (Unit {0})
delete_jobs_by_type_and_event event_id job_type = execute (λ db. ok (
  tt,
  record db {
    jobs =
        delete_where
          (λ j.
            j.status == "PENDING"
            && j.job_type == job_type
            && is_booking_of_event event_id db j.payload.booking_id)
          db.jobs;
  },
))

-- `WHERE event_id = ? AND is_active = 1`
abbrev pub is_of_event : String → NotificationRule → Bool
is_of_event event_id r = elim r.event_id [ none ↦ false | some id ↦ id == event_id ]

abbrev pub is_global : NotificationRule → Bool
is_global r = elim r.event_id [ none ↦ true | some id ↦ false ]

unfoldable pub get_rules_by_event : String → Db → List NotificationRule
get_rules_by_event event_id db = keep (λ r. is_of_event event_id r && r.is_active) db.rules

-- `WHERE tenant_id = ? AND trigger_type = ? AND is_active = 1 AND (event_id = ? OR event_id IS NULL)`,
-- the rules of the event before those of the tenant.
abbrev pub is_triggered : String → String → NotificationRule → Bool
is_triggered tenant_id trigger r =
    r.tenant_id == tenant_id && r.trigger_type == trigger && r.is_active

unfoldable pub get_rules_by_trigger : String → String → String → Db → List NotificationRule
get_rules_by_trigger tenant_id event_id trigger db =
    keep (λ r. is_triggered tenant_id trigger r && is_of_event event_id r) db.rules
    ++ keep (λ r. is_triggered tenant_id trigger r && is_global r) db.rules
