-- ===== src/Examples/Queue.antt =====
-- A job that is put in the queue, taken and finished.
use booking_backend.Prelude.{
  ◌-◌, ◌*◌, ◌≤◌, ◌≡◌, refl, none, some, List, [], ◌∷◌, Bool, String, ◌==◌, inr, arith,
}
use booking_backend.Outcome.{Outcome, ok}
use booking_backend.Models.{Job, minute_ns}
use booking_backend.Db.{St, ◌>>=◌}
use booking_backend.Db.Bookings.{insert_job_row}
use booking_backend.Db.Jobs.{create, find_pending, claim, claim_rows, update_status}
use booking_backend.Db.Jobs.Claim.{count, taken, has_id}
use booking_backend.Db.Jobs.Runs.{Run, start, made_one, handed, finished, Run-once}
use booking_backend.Handlers.{remind_at}
use booking_backend.Worker.Trigger.{resolve_trigger, resolve_trigger-remind_at}
use booking_backend.Examples.{utc_env, world, day_ns}

abbrev job : Job
job = record {
  id = "job";
  job_type = "CONFIRMATION";
  payload = record { booking_id = "3"; tenant_id = "acme" };
  execute_at = 0;
  status = "PENDING";
  error_message = none;
  created_at = 0;
}

abbrev queued : Outcome Job × St
queued = create job world

queued_is : queued ≡ (ok job, queued.1)
unfolding create insert_job_row ◌>>=◌
queued_is = refl

abbrev fetched : Outcome (List Job) × St
fetched = find_pending utc_env 10 queued.1

fetched_is : fetched ≡ (ok (taken job ∷ []), fetched.1)
unfolding create insert_job_row find_pending claim_rows claim ◌>>=◌
fetched_is = refl

abbrev closed : Outcome (Unit {0}) × St
closed = update_status "job" "COMPLETED" none fetched.1

closed_is : closed ≡ (ok tt, closed.1)
unfolding update_status ◌>>=◌
closed_is = refl

a_run : Run utc_env closed.1 (job ∷ []) (taken job ∷ [])
a_run =
    finished "job" "COMPLETED" none tt closed.1
      (handed 10 (taken job ∷ []) fetched.1 (made_one job job queued.1 (start world refl) queued_is)
        fetched_is)
      refl closed_is

Run-once_example : count (has_id "job") (taken job ∷ []) ≤ 1
Run-once_example = Run-once utc_env "job" closed.1 (job ∷ []) (taken job ∷ []) (omega arith) a_run

-- A job that is held by another transaction, one due later, and one due first.
abbrev held : Job
held = record job { id = "held" }

abbrev second : Job
second = record job { id = "second"; execute_at = 3 }

abbrev queue : List Job
queue = held ∷ second ∷ job ∷ []

abbrev is_held : String → Bool
is_held id = id == "held"

hour_before : remind_at "REMINDER_1H" (9 * day_ns) ≡ some (9 * day_ns - 60 * minute_ns)
unfolding remind_at
hour_before = refl

resolve_trigger-remind_at_example :
    resolve_trigger "REMINDER" (9 * day_ns) (9 * day_ns - 60 * minute_ns) ≡ "REMINDER_1H"
resolve_trigger-remind_at_example =
    resolve_trigger-remind_at "REMINDER_1H" (9 * day_ns) (9 * day_ns - 60 * minute_ns) (inr refl)
      (omega arith) hour_before
