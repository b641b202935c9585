-- ===== src/Handlers/Events/Setup.antt =====
-- api/handlers/event.rs: the creation of an event, with the templates and rules that it starts with
-- (domain/services/defaults.rs), and its deletion (infra/repositories/sqlite_event_repo.rs). The texts of
-- the files of src/templates/defaults are a parameter.
use booking_backend.Prelude.{
  ℤ, pos, String, Bool, true, false, not, ◌&&◌, ◌||◌, Option, none, some, List, [], ◌∷◌, ltb, any,
  is_some, unwrap_or, ◌==◌, if◌then◌else◌,
}
use booking_backend.Text.Forms.{concat}
use booking_backend.Outcome.{
  Outcome, ok, err, ok_or, database, foreign_key_violation, not_found, validation,
}
use booking_backend.Models.{
  Instant, Event, Booking, EventOverride, EventSession, Invitee, NotificationRule, WeekdayConfig,
}
use booking_backend.Env.{Env}
use booking_backend.Db.{
  Db, Exec, pure, lift, query_or, execute, reject, on_option, attempt, delete_where, utc_now,
  new_uuid, ◌>>=◌, ◌>>◌,
}
use booking_backend.Db.Schedule.{find_event_by_slug, insert_event}
use booking_backend.Db.Mail.{insert_template, insert_rule}
use booking_backend.Handlers.Communication.{new_template, new_rule, record_version}

pub record CreateEventRequest : Type 0 where
  pub slug : String
  pub title_en : String
  pub title_de : String
  pub desc_en : String
  pub desc_de : String
  pub location : String
  pub payout : String
  pub host_name : String
  pub timezone : String
  pub min_notice_general : Option ℤ
  pub min_notice_first : Option ℤ
  pub active_start : Instant
  pub active_end : Instant
  pub duration_min : ℤ
  pub interval_min : ℤ
  pub max_participants : ℤ
  pub image_url : String
  pub config : WeekdayConfig
  pub access_mode : String
  pub schedule_type : Option String
  pub allow_customer_cancel : Option Bool
  pub allow_customer_reschedule : Option Bool

-- `matches!(s, "OPEN" | "RESTRICTED" | "CLOSED")`
abbrev pub is_access_mode : String → Bool
is_access_mode s = s == "OPEN" || s == "RESTRICTED" || s == "CLOSED"

abbrev pub is_schedule_type : String → Bool
is_schedule_type s = s == "RECURRING" || s == "MANUAL"

-- The text of a file, by its name without the suffix.
unfoldable pub get_default_template : (String → String) → String → String
get_default_template file name =
    if name == "confirmation"
      || name == "reminder"
      || name == "cancellation"
      || name == "reschedule"
      || name == "invitation"
    then file name
    else concat (
        "<mjml><mj-body><mj-text>Default template for " ∷ name
        ∷ " not found.</mj-text></mj-body></mjml>" ∷ [])

pub record DefaultTemplate : Type 0 where
  pub suffix : String
  pub subject : String
  pub body : String
  pub trigger : Option String

abbrev pub templates_to_create : (String → String) → List DefaultTemplate
templates_to_create file =
    record {
      suffix = "Confirmation";
      subject = "Booking Confirmed: {{ event_title }}";
      body = get_default_template file "confirmation";
      trigger = some "ON_BOOKING";
    }
    ∷ record {
      suffix = "Reminder 24h";
      subject = "Reminder: {{ event_title }} starts soon";
      body = get_default_template file "reminder";
      trigger = some "REMINDER_24H";
    }
    ∷ record {
      suffix = "Cancellation";
      subject = "Cancelled: {{ event_title }}";
      body = get_default_template file "cancellation";
      trigger = some "ON_CANCEL";
    }
    ∷ record {
      suffix = "Reschedule";
      subject = "Rescheduled: {{ event_title }}";
      body = get_default_template file "reschedule";
      trigger = some "ON_RESCHEDULE";
    }
    ∷ record {
      suffix = "Invitation";
      subject = "Invitation: {{ event_title }}";
      body = get_default_template file "invitation";
      trigger = none;
    }
    ∷ []

module _ (env : Env) where
  unfoldable pub rule_for : String → String → String → String → Exec (Unit {0})
  rule_for tenant_id event_id template_id trigger = do
    rule ← new_rule env tenant_id (some event_id) trigger template_id
    attempt (execute (insert_rule rule))
    pure tt

  -- The templates with their first versions and their rules; an error of a version or a rule is passed over.
  unfoldable pub create_defaults : String → String → String → List DefaultTemplate → Exec (Unit {0})
  create_defaults tenant_id slug event_id [] = pure tt
  create_defaults tenant_id slug event_id (d ∷ ds) = do
    template ←
        new_template env tenant_id (some event_id) (concat (slug ∷ " - " ∷ d.suffix ∷ [])) d.subject
          d.body "mjml"
    saved ← execute (insert_template template)
    attempt (record_version env saved.id saved.subject_template saved.body_template)
    on_option d.trigger (pure tt) (rule_for tenant_id event_id saved.id)
    create_defaults tenant_id slug event_id ds

  -- The event that a request describes.
  unfoldable pub new_event : String → CreateEventRequest → String → String → Exec Event
  new_event tenant_id payload schedule_type config_json = do
    id ← new_uuid env
    now ← utc_now env
    pure (record {
      id = id;
      tenant_id = tenant_id;
      slug = payload.slug;
      title_en = payload.title_en;
      title_de = payload.title_de;
      desc_en = payload.desc_en;
      desc_de = payload.desc_de;
      location = payload.location;
      payout = payload.payout;
      host_name = payload.host_name;
      timezone = payload.timezone;
      min_notice_general = unwrap_or payload.min_notice_general (pos 0);
      min_notice_first = unwrap_or payload.min_notice_first (pos 0);
      active_start = payload.active_start;
      active_end = payload.active_end;
      duration_min = payload.duration_min;
      interval_min = payload.interval_min;
      max_participants = payload.max_participants;
      image_url = payload.image_url;
      config_json = config_json;
      access_mode = payload.access_mode;
      schedule_type = schedule_type;
      allow_customer_cancel = unwrap_or payload.allow_customer_cancel true;
      allow_customer_reschedule = unwrap_or payload.allow_customer_reschedule true;
      created_at = now;
    })

  unfoldable pub create_event : (String → String) → String → CreateEventRequest → Exec Event
  create_event file tenant_id payload = do
    reject (not (is_access_mode payload.access_mode)) (validation "Invalid access_mode")
    let schedule_type = unwrap_or payload.schedule_type "RECURRING"
    reject (not (is_schedule_type schedule_type)) (validation "Invalid schedule_type")
    reject (ltb payload.active_end payload.active_start)
        (validation "End date must be after start date")
    reject (not (is_some (env.parse_tz payload.timezone))) (validation "Invalid timezone")
    config_json ←
        lift (ok_or (env.config_to_json payload.config) (validation "Invalid config JSON"))
    event ← new_event tenant_id payload schedule_type config_json
    created ← execute (insert_event event)
    create_defaults tenant_id payload.slug created.id (templates_to_create file)
    pure created

-- Bookings, invitees and overrides keep their event; its sessions and rules go with it.
abbrev pub is_needed : String → Db → Bool
is_needed id db =
    any (λ (b : Booking). b.event_id == id) db.bookings
    || any (λ (i : Invitee). i.event_id == id) db.invitees
    || any (λ (o : EventOverride). o.event_id == id) db.overrides

abbrev pub is_rule_of : String → NotificationRule → Bool
is_rule_of id r = elim r.event_id [ none ↦ false | some e ↦ e == id ]

unfoldable pub delete_event_rows : String → String → Db → Outcome (Unit {0} × Db)
delete_event_rows tenant_id id db =
    if any (λ (e : Event). e.id == id && e.tenant_id == tenant_id) db.events
    then (if is_needed id db
        then err (database foreign_key_violation)
        else ok (
          tt,
          record db {
            events = delete_where (λ (e : Event). e.id == id && e.tenant_id == tenant_id) db.events;
            sessions = delete_where (λ (s : EventSession). s.event_id == id) db.sessions;
            rules = delete_where (is_rule_of id) db.rules;
          },
        ))
    else err (not_found "Event not found")

unfoldable pub delete_event : String → String → Exec (Unit {0})
delete_event tenant_id slug = do
  event ← query_or (find_event_by_slug tenant_id slug) (not_found "Event not found")
  execute (delete_event_rows tenant_id event.id)
