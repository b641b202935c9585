-- ===== src/Worker/Process.antt =====
-- background.rs: one job, `process_job` with `record_success` (domain/services/communication_service.rs),
-- and one round of the worker's loop.
use booking_backend.Prelude.{
  ℕ, zero, suc, String, none, some, List, [], ◌∷◌, unwrap_or, if◌then◌else◌,
}
use booking_backend.Text.Forms.{concat, starts_with}
use booking_backend.Outcome.{
  Outcome, ok, err, panic, diverge, AppError, database, not_found, unauthorized, forbidden,
  conflict, validation, internal, internal_with_msg,
}
use booking_backend.Models.{Job}
use booking_backend.Env.{Env}
use booking_backend.Db.{
  Exec, pure, lift, query, execute, on_option, consult, attempt, utc_now, new_uuid, ◌>>=◌, ◌>>◌,
}
use booking_backend.Db.Jobs.{find_pending, update_status}
use booking_backend.Db.Mail.{has_mail_been_sent, log_mail}
use booking_backend.Worker.Mailer.{Mailer, Context, send}
use booking_backend.Worker.Plan.{Draft, plan_campaign, plan_standard, render_mail}

module _ {env : Env} (mailer : Mailer env) where
  unfoldable pub context_hash : String → Context → String
  context_hash name context =
      mailer.sha256_hex (concat (name ∷ unwrap_or (mailer.context_to_string context) "" ∷ []))

  abbrev pub hash_of : Draft → String
  hash_of draft = context_hash draft.template.name draft.context

  unfoldable pub write_log : String → Draft → String → Exec (Unit {0})
  write_log job_id draft status = do
    id ← new_uuid env
    now ← utc_now env
    execute (
        log_mail (record {
          id = id;
          job_id = job_id;
          recipient = draft.recipient;
          template_id = draft.template.name;
          context_hash = hash_of draft;
          sent_at = now;
          status = status;
        }))

  unfoldable pub record_success : String → Draft → Exec (Unit {0})
  record_success job_id draft = write_log job_id draft "SENT"

  -- Rendering, sending and logging.
  unfoldable pub dispatch : Job → Draft → Exec (Unit {0})
  dispatch job draft = do
    mail ← lift (render_mail mailer draft.template draft.context)
    send mailer draft.recipient mail.1 mail.0 draft.attachment
    record_success job.id draft

  -- The idempotency check.
  unfoldable pub dispatch_once : Job → Draft → Exec (Unit {0})
  dispatch_once job draft = do
    sent ← query (has_mail_been_sent draft.recipient draft.template.name (hash_of draft))
    if sent then write_log job.id draft "SKIPPED_DUPLICATE" else dispatch job draft

  unfoldable pub process_standard : Job → Exec (Unit {0})
  process_standard job = do
    draft ← consult (plan_standard mailer job)
    on_option draft (pure tt) (dispatch_once job)

  unfoldable pub process_campaign : Job → Exec (Unit {0})
  process_campaign job = do draft ← consult (plan_campaign mailer job); dispatch job draft

  unfoldable pub process_job : Job → Exec (Unit {0})
  process_job job =
      if starts_with job.job_type "CAMPAIGN:" then process_campaign job else process_standard job

  -- `format!("{}", e)`
  unfoldable pub show_error : AppError → String
  show_error (database e) = concat ("Database error: " ∷ mailer.show_db e ∷ [])
  show_error (not_found message) = concat ("Resource not found: " ∷ message ∷ [])
  show_error unauthorized = "Unauthorized"
  show_error (forbidden message) = concat ("Forbidden: " ∷ message ∷ [])
  show_error (conflict message) = concat ("Conflict: " ∷ message ∷ [])
  show_error (validation message) = concat ("Invalid input: " ∷ message ∷ [])
  show_error internal = "Internal server error"
  show_error (internal_with_msg message) = concat ("Internal server error: " ∷ message ∷ [])

  -- What is written of a job when it is done; an error of this statement is only logged.
  unfoldable pub finish : Job → Outcome (Unit {0}) → Exec (Unit {0})
  finish job (ok u) = attempt (update_status job.id "COMPLETED" none) >> pure tt
  finish job (err e) = attempt (update_status job.id "FAILED" (some (show_error e))) >> pure tt
  finish job panic = lift panic
  finish job diverge = lift diverge

  unfoldable pub work : Job → Exec (Unit {0})
  work job = do result ← attempt (process_job job); finish job result

  unfoldable pub work_all : List Job → Exec (Unit {0})
  work_all [] = pure tt
  work_all (job ∷ jobs) = do work job; work_all jobs

  -- One round of the loop, and a number of rounds; between them the worker sleeps.
  unfoldable pub round : Exec (Unit {0})
  round = do jobs ← find_pending env 10; work_all jobs

  unfoldable pub rounds : ℕ → Exec (Unit {0})
  rounds zero = pure tt
  rounds (suc n) = do round; rounds n
