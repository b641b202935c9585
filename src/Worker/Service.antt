-- ===== src/Worker/Service.antt =====
-- domain/services/communication_service.rs: `render_and_log`, which the worker does not call.
use booking_backend.Prelude.{String, Bool, true, false, if◌then◌else◌}
use booking_backend.Text.Forms.{contains_text}
use booking_backend.Outcome.{ok_or, internal}
use booking_backend.Env.{Env}
use booking_backend.Db.{Exec, pure, lift, query, execute, utc_now, new_uuid, ◌>>=◌, ◌>>◌}
use booking_backend.Db.Mail.{has_mail_been_sent, log_mail}
use booking_backend.Worker.Mailer.{Mailer, Context}
use booking_backend.Worker.Process.{context_hash}

-- The subject, the body, and whether the mail was skipped.
pub record Rendered : Type 0 where
  pub subject : String
  pub body : String
  pub skipped : Bool

abbrev pub subject_for : String → String
subject_for template_name =
    if contains_text template_name "confirmation"
    then "Booking Confirmation"
    else if contains_text template_name "reminder"
    then "Reminder"
    else "Notification"

module _ {env : Env} (mailer : Mailer env) where
  unfoldable pub skip : String → String → String → String → Exec Rendered
  skip job_id recipient template_name hash = do
    id ← new_uuid env
    now ← utc_now env
    execute (
        log_mail (record {
          id = id;
          job_id = job_id;
          recipient = recipient;
          template_id = template_name;
          context_hash = hash;
          sent_at = now;
          status = "SKIPPED_DUPLICATE";
        }))
    pure (record { subject = ""; body = ""; skipped = true })

  unfoldable pub render_now : mailer.Tera → String → Context → Exec Rendered
  render_now tera template_name context = do
    body ← lift (ok_or (mailer.render tera template_name context) internal)
    pure (record { subject = subject_for template_name; body = body; skipped = false })

  unfoldable pub render_and_log : String → String → String → mailer.Tera → Context → Exec Rendered
  render_and_log job_id recipient template_name tera context = do
    let hash = context_hash mailer template_name context
    sent ← query (has_mail_been_sent recipient template_name hash)
    if sent then skip job_id recipient template_name hash else render_now tera template_name context
