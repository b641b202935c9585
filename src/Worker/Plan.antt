-- ===== src/Worker/Plan.antt =====
-- background.rs: what `process_job` reads before it sends, and the mail that it decides on; and the
-- rendering of a mail. Of the errors of tera and mrml a fixed text is kept, one for both flows.
use booking_backend.Prelude.{
  String, Option, none, some, List, [], ◌∷◌, ◌++◌, unwrap_or, ◌≡◌, refl, ◌==◌, if◌then◌else◌,
}
use booking_backend.Text.Forms.{concat, split_colon}
use booking_backend.Outcome.{
  Outcome, ok, err, ok_or, unwrap, ◌>>=◌, internal_with_msg, not_found, validation,
}
use booking_backend.Models.{Event, Booking, Job, NotificationRule}
use booking_backend.Models.Mail.{EmailTemplate, MailLog}
use booking_backend.Models.Accounts.{Tenant}
use booking_backend.Env.{Env}
use booking_backend.Availability.{timezone}
use booking_backend.Db.{Db}
use booking_backend.Db.Bookings.{find_by_id}
use booking_backend.Db.Schedule.{find_event_by_id, find_invitee_by_id}
use booking_backend.Db.Jobs.{get_rules_by_trigger}
use booking_backend.Db.Mail.{find_tenant, find_template}
use booking_backend.Worker.Trigger.{resolve_trigger}
use booking_backend.Worker.Mailer.{Mailer, Context, text, number, generate_ics}

-- A mail that is ready to be rendered; the attachment is a name with its data.
pub record Draft : Type 0 where
  pub recipient : String
  pub template : EmailTemplate
  pub context : Context
  pub attachment : Option (String × String)

-- Whom a campaign's job is for: the address, the event, and the first values of the context.
pub record Target : Type 0 where
  pub email : String
  pub event_id : String
  pub token : Option String
  pub context : Context

abbrev pub missing : String → String → String
missing what id = concat (what ∷ " " ∷ id ∷ " not found" ∷ [])

-- `parts[1]` and `parts[2]`
abbrev pub campaign_parts : List String → Option (String × String)
campaign_parts [] = none
campaign_parts (a ∷ []) = none
campaign_parts (a ∷ b ∷ []) = none
campaign_parts (a ∷ b ∷ c ∷ rest) = some (b, c)

unfoldable pub campaign_target : String → String → String → Db → Outcome Target
campaign_target tenant_id id target_type db =
    if target_type == "BOOKING"
    then (do
      booking ← ok_or (find_by_id tenant_id id db) (not_found (missing "Booking" id))
      ok (record {
        email = booking.customer_email;
        event_id = booking.event_id;
        token = none;
        context = ("user_name", text booking.customer_name) ∷ [];
      }))
    else if target_type == "INVITEE"
    then (do
      invitee ← ok_or (find_invitee_by_id tenant_id id db) (not_found (missing "Invitee" id))
      email ← ok_or invitee.email (validation "Invitee has no email")
      ok (record {
        email = email;
        event_id = invitee.event_id;
        token = some invitee.token;
        context = ("token", text invitee.token) ∷ ("user_name", text "") ∷ [];
      }))
    else err (internal_with_msg (concat ("Unknown target type " ∷ target_type ∷ [])))

abbrev pub event_context : Event → Tenant → Context
event_context event tenant =
    ("event_title", text event.title_en)
    ∷ ("event_description", text event.desc_en)
    ∷ ("location", text event.location)
    ∷ ("duration", number event.duration_min)
    ∷ ("timezone", text event.timezone)
    ∷ ("payout", text event.payout)
    ∷ ("tenant_name", text tenant.name)
    ∷ ("logo_url", text (unwrap_or tenant.logo_url ""))
    ∷ []

-- `if let Some(loc) = booking.location { … }`
abbrev pub place_of : Option String → Context
place_of none = []
place_of (some place) = ("location", text place) ∷ []

-- `rules.first()`
abbrev pub first : List NotificationRule → Option NotificationRule
first [] = none
first (r ∷ rs) = some r

module _ {env : Env} (mailer : Mailer env) where
  abbrev pub start_text : Event → Booking → String
  start_text event booking = mailer.format_minute (timezone env event) booking.start_time

  abbrev pub manage_link : Booking → String
  manage_link booking = concat (mailer.frontend_url ∷ "/en/manage/" ∷ booking.management_token ∷ [])

  abbrev pub book_link : String → Event → String
  book_link tenant_id event =
      concat (mailer.frontend_url ∷ "/en/book/" ∷ tenant_id ∷ "/" ∷ event.slug ∷ [])

  abbrev pub invite_link : String → Event → String → String
  invite_link tenant_id event token =
      concat (book_link tenant_id event ∷ "?accessToken=" ∷ token ∷ [])

  -- `if let Some(token) = context_map.get("token") { … }`
  abbrev pub links_of : String → Event → Option String → Context
  links_of tenant_id event none = []
  links_of tenant_id event (some token) =
      ("link", text (invite_link tenant_id event token))
      ∷ ("book_link", text (invite_link tenant_id event token))
      ∷ ("booking_link", text (invite_link tenant_id event token))
      ∷ []

  -- The values that depend on the kind of the target; the booking is read again and unwrapped.
  unfoldable pub target_context :
      String → String → String → Event → Option String → Db → Outcome Context
  target_context tenant_id id target_type event token db =
      if target_type == "BOOKING"
      then (do
        booking ← unwrap (find_by_id tenant_id id db)
        ok (
            ("start_time", text (start_text event booking))
            ∷ ("manage_link", text (manage_link booking))
            ∷ place_of booking.location))
      else ok (("start_time", text "") ∷ ("manage_link", text "") ∷ links_of tenant_id event token)

  -- The campaign branch, up to the template.
  unfoldable pub plan_campaign : Job → Db → Outcome Draft
  plan_campaign job db = do
    let tenant_id = job.payload.tenant_id
    let id = job.payload.booking_id
    tenant ← ok_or (find_tenant tenant_id db) (not_found (missing "Tenant" tenant_id))
    parts ←
        ok_or (campaign_parts (split_colon job.job_type))
          (internal_with_msg "Invalid Campaign Job Type Format")
    target ← campaign_target tenant_id id parts.0 db
    event ←
        ok_or (find_event_by_id tenant_id target.event_id db)
          (not_found (missing "Event" target.event_id))
    others ← target_context tenant_id id parts.0 event target.token db
    template ← ok_or (find_template parts.1 db) (not_found (missing "Template" parts.1))
    ok (record {
      recipient = target.email;
      template = template;
      context = target.context ++ event_context event tenant ++ others;
      attachment = none;
    })

  abbrev pub booking_context : String → Event → Booking → Tenant → Context
  booking_context tenant_id event booking tenant =
      ("user_name", text booking.customer_name)
      ∷ ("event_title", text event.title_en)
      ∷ ("event_description", text event.desc_en)
      ∷ ("tenant_name", text tenant.name)
      ∷ ("logo_url", text (unwrap_or tenant.logo_url ""))
      ∷ ("payout", text event.payout)
      ∷ ("start_time", text (start_text event booking))
      ∷ ("timezone", text event.timezone)
      ∷ ("location", text (unwrap_or booking.location event.location))
      ∷ ("duration", number event.duration_min)
      ∷ ("manage_link", text (manage_link booking))
      ∷ ("book_link", text (book_link tenant_id event))
      ∷ ("booking_link", text (book_link tenant_id event))
      ∷ []

  unfoldable pub draft_of : Job → Event → Booking → Tenant → NotificationRule → Db → Outcome Draft
  draft_of job event booking tenant rule db = do
    template ←
        ok_or (find_template rule.template_id db) (not_found (missing "Template" rule.template_id))
    ok (record {
      recipient = booking.customer_email;
      template = template;
      context = booking_context job.payload.tenant_id event booking tenant;
      attachment =
          if job.job_type == "CONFIRMATION"
          then some ("invite.ics", generate_ics mailer event booking)
          else none;
    })

  unfoldable pub draft_if :
      Job → Event → Booking → Tenant → Option NotificationRule → Db → Outcome (Option Draft)
  draft_if job event booking tenant none db = ok none
  draft_if job event booking tenant (some rule) db = do
    draft ← draft_of job event booking tenant rule db
    ok (some draft)

  -- The flow of confirmations, reminders and notices, up to the template; nothing where no rule is found.
  unfoldable pub plan_standard : Job → Db → Outcome (Option Draft)
  plan_standard job db = do
    let tenant_id = job.payload.tenant_id
    let id = job.payload.booking_id
    tenant ← ok_or (find_tenant tenant_id db) (not_found (missing "Tenant" tenant_id))
    booking ← ok_or (find_by_id tenant_id id db) (not_found (missing "Booking" id))
    event ←
        ok_or (find_event_by_id tenant_id booking.event_id db)
          (not_found (missing "Event" booking.event_id))
    let trigger = resolve_trigger job.job_type booking.start_time job.execute_at
    draft_if job event booking tenant (first (get_rules_by_trigger tenant_id event.id trigger db))
        db

  unfoldable pub render_email_body : String → String → Outcome String
  render_email_body template_type body =
      if template_type == "mjml"
      then (do
        root ← ok_or (mailer.mrml_parse body) (internal_with_msg "MJML Parse Error")
        ok_or (mailer.mrml_render root) (internal_with_msg "MJML Render Error"))
      else ok body

  -- The page and the subject.
  unfoldable pub render_mail : EmailTemplate → Context → Outcome (String × String)
  render_mail template context = do
    let subject_name = concat (template.name ∷ "_subject" ∷ [])
    tera ←
        ok_or (mailer.add_raw_template mailer.tera template.name template.body_template)
          (internal_with_msg "Tera parse error")
    body ← ok_or (mailer.render tera template.name context) (internal_with_msg "Tera render error")
    html ← render_email_body template.template_type body
    both ←
        ok_or (mailer.add_raw_template tera subject_name template.subject_template)
          (internal_with_msg "Tera subject parse error")
    subject ←
        ok_or (mailer.render both subject_name context)
          (internal_with_msg "Tera subject render error")
    ok (html, subject)

  draft_if_lem :
      (job : Job) (event : Event) (booking : Booking) (tenant : Tenant)
      (rule : Option NotificationRule) (logs : List MailLog) (db : Db)
      → draft_if job event booking tenant rule (record db { mail_logs = logs })
        ≡ draft_if job event booking tenant rule db
  unfolding draft_if draft_of find_template
  draft_if_lem job event booking tenant none logs db = refl
  draft_if_lem job event booking tenant (some rule) logs db = refl

  -- What the worker decides on does not depend on the log.
  pub plan_standard_lem :
      (job : Job) (logs : List MailLog) (db : Db)
      → plan_standard job (record db { mail_logs = logs }) ≡ plan_standard job db
  unfolding plan_standard find_tenant find_by_id find_event_by_id get_rules_by_trigger
  plan_standard_lem job logs db = λ i. do
    tenant ←
        ok_or (find_tenant job.payload.tenant_id db)
          (not_found (missing "Tenant" job.payload.tenant_id))
    booking ←
        ok_or (find_by_id job.payload.tenant_id job.payload.booking_id db)
          (not_found (missing "Booking" job.payload.booking_id))
    event ←
        ok_or (find_event_by_id job.payload.tenant_id booking.event_id db)
          (not_found (missing "Event" booking.event_id))
    draft_if_lem job event booking tenant
        (first (
          get_rules_by_trigger job.payload.tenant_id event.id
            (resolve_trigger job.job_type booking.start_time job.execute_at) db))
        logs db i
