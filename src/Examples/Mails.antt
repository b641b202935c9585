-- ===== src/Examples/Mails.antt =====
-- A confirmation that is sent once, a campaign's mail, and a queue that is emptied.
use booking_backend.Prelude.{◌*◌, ◌≡◌, refl, String, none, some, [], ◌∷◌, ◌++◌, true, arith}
use booking_backend.Text.Forms.{concat, split_colon, starts_with}
use booking_backend.Outcome.{Outcome, ok}
use booking_backend.Models.{Job, NotificationRule}
use booking_backend.Db.{St, ◌>>=◌}
use booking_backend.Db.Bookings.{find_by_id}
use booking_backend.Db.Schedule.{find_event_by_id}
use booking_backend.Db.Jobs.{get_rules_by_trigger, is_due}
use booking_backend.Db.Jobs.Claim.{count}
use booking_backend.Db.Mail.{find_tenant, find_template, has_mail_been_sent, log_mail}
use booking_backend.Handlers.Communication.{campaign_type}
use booking_backend.Worker.Trigger.{resolve_trigger}
use booking_backend.Worker.Mailer.{Mailer, text, generate_ics, send, post}
use booking_backend.Worker.Plan.{
  Draft, booking_context, event_context, manage_link, plan_standard, draft_if, draft_of,
  plan_campaign, campaign_target, target_context, render_mail, render_email_body,
}
use booking_backend.Worker.Process.{
  process_job, process_standard, dispatch_once, dispatch, record_success, write_log, context_hash,
  rounds,
}
use booking_backend.Worker.Once.{process_job-once}
use booking_backend.Worker.Steady.{Steady}
use booking_backend.Worker.Ends.{process_job-Steady}
use booking_backend.Worker.Drain.{rounds-drain}
use booking_backend.Worker.Campaign.{IsAddressed, plan_campaign-ok}
use booking_backend.Examples.{tables, ann, acme, course, booked_world, day_ns}
use booking_backend.Examples.Templates.{fresh_env, welcome}

-- Pages are the templates as they stand, and every mail is taken.
abbrev mailer : Mailer fresh_env
mailer = record {
  frontend_url = "https://example.org";
  Tera = String;
  tera = "";
  add_raw_template = λ t name body. some body;
  render = λ t name context. some t;
  Root = String;
  mrml_parse = λ s. some s;
  mrml_render = λ s. some s;
  context_to_string = λ context. some "{}";
  sha256_hex = λ s. s;
  format_minute = λ tz t. "date";
  calendar_to_string = λ e. e.uid;
  to_base64 = λ s. s;
  refusal = λ n mail. none;
  show_db = λ e. "error";
}

abbrev on_booking : NotificationRule
on_booking = record {
  id = "r";
  tenant_id = "acme";
  event_id = none;
  trigger_type = "ON_BOOKING";
  template_id = "t";
  is_active = true;
  created_at = 0;
}

abbrev desk : St
desk = record {
  db = record tables { bookings = ann ∷ []; rules = on_booking ∷ []; templates = welcome ∷ [] };
  calls = 0;
  sent = [];
}

abbrev confirm : Job
confirm = record {
  id = "job";
  job_type = "CONFIRMATION";
  payload = record { booking_id = "3"; tenant_id = "acme" };
  execute_at = 0;
  status = "PROCESSING";
  error_message = none;
  created_at = 0;
}

abbrev draft : Draft
draft = record {
  recipient = "ann@example.org";
  template = welcome;
  context = booking_context mailer "acme" course ann acme;
  attachment = some ("invite.ics", "3");
}

is_planned : plan_standard mailer confirm desk.db ≡ ok (some draft)
unfolding plan_standard find_tenant find_by_id find_event_by_id resolve_trigger get_rules_by_trigger
    draft_if draft_of find_template generate_ics
is_planned = refl

abbrev confirmed : Outcome (Unit {0}) × St
confirmed = process_job mailer confirm desk

confirmed_is : confirmed ≡ (ok tt, confirmed.1)
unfolding process_job process_standard plan_standard find_tenant find_by_id find_event_by_id
    resolve_trigger get_rules_by_trigger draft_if draft_of find_template generate_ics dispatch_once
    has_mail_been_sent dispatch render_mail render_email_body send post record_success write_log
    log_mail context_hash concat ◌>>=◌
confirmed_is = refl

is_planned_again : plan_standard mailer confirm confirmed.1.db ≡ ok (some draft)
unfolding process_job process_standard plan_standard find_tenant find_by_id find_event_by_id
    resolve_trigger get_rules_by_trigger draft_if draft_of find_template generate_ics dispatch_once
    has_mail_been_sent dispatch render_mail render_email_body send post record_success write_log
    log_mail context_hash concat ◌>>=◌
is_planned_again = refl

process_job-once_example : (process_job mailer confirm confirmed.1).1.sent ≡ confirmed.1.sent
process_job-once_example =
    process_job-once mailer confirm confirm draft draft tt desk confirmed.1 refl refl is_planned
      confirmed_is is_planned_again refl refl refl

process_job-Steady_example : Steady (process_job mailer confirm)
process_job-Steady_example = process_job-Steady mailer confirm

rounds-drain_example :
    ((rounds mailer 1 booked_world).0 ≡ ok tt)
    × (count (is_due (2 * day_ns)) (rounds mailer 1 booked_world).1.db.jobs ≡ 0)
rounds-drain_example =
    rounds-drain mailer (2 * day_ns) 1 booked_world (λ k. omega arith) (omega arith)

abbrev news : Job
news = record confirm { job_type = "CAMPAIGN:BOOKING:t" }

abbrev news_draft : Draft
news_draft = record {
  recipient = "ann@example.org";
  template = welcome;
  context =
      ("user_name", text "Ann")
      ∷ (event_context course acme
          ++ ("start_time", text "date") ∷ ("manage_link", text (manage_link mailer ann)) ∷ []);
  attachment = none;
}

is_news : news.job_type ≡ campaign_type "BOOKING" "t"
unfolding concat
is_news = refl

news_is_planned : plan_campaign mailer news desk.db ≡ ok news_draft
unfolding plan_campaign find_tenant split_colon campaign_target find_by_id find_event_by_id
    target_context find_template
news_is_planned = refl

plan_campaign-ok_example :
    (starts_with news.job_type "CAMPAIGN:" ≡ true)
    × (find_template "t" desk.db ≡ some welcome)
    × IsAddressed news "BOOKING" news_draft desk.db
plan_campaign-ok_example =
    plan_campaign-ok mailer "BOOKING" "t" news news_draft desk.db refl refl is_news news_is_planned
