-- ===== src/Worker/Mailer.antt =====
-- infra/email/http_email_service.rs and domain/services/calendar.rs, and what the worker takes from
-- libraries: tera, mrml, serde_json, sha2, icalendar, chrono's formats and the mail service. The texts of
-- the errors of these libraries are left out.
use booking_backend.Prelude.{ℕ, suc, ℤ, String, Option, none, some, List, [], ◌∷◌, ◌++◌}
use booking_backend.Outcome.{Outcome, ok, err, internal_with_msg, DbError}
use booking_backend.Models.{Instant, Event, Booking}
use booking_backend.Models.Mail.{AttachmentPayload, EmailPayload}
use booking_backend.Env.{Env}
use booking_backend.Db.{St, Exec}

-- A value of a context: a text or an `i32`.
pub data Value : Type 0 where
  text : String → Value
  number : ℤ → Value

-- The values that were inserted, in this order; of one key the last counts.
abbrev pub Context : Type 0
Context = List (String × Value)

-- The properties that `generate_ics` gives an event.
pub record IcalEvent : Type 0 where
  pub summary : String
  pub description : String
  pub location : String
  pub starts : Instant
  pub ends : Instant
  pub uid : String

pub record Mailer (env : Env) : Type 1 where
  pub frontend_url : String
  -- `Tera::default`, `add_raw_template`, `render`
  pub Tera : Type 0
  pub tera : Tera
  pub add_raw_template : Tera → String → String → Option Tera
  pub render : Tera → String → Context → Option String
  -- `mrml::parse`, `element.render`
  pub Root : Type 0
  pub mrml_parse : String → Option Root
  pub mrml_render : Root → Option String
  -- `serde_json::to_string`, `hex::encode(Sha256::digest(_))`
  pub context_to_string : Context → Option String
  pub sha256_hex : String → String
  -- `t.with_timezone(&tz).format("%Y-%m-%d %H:%M")`
  pub format_minute : env.Tz → Instant → String
  -- the calendar with one event, as a text, and base 64
  pub calendar_to_string : IcalEvent → String
  pub to_base64 : String → String
  -- the answer of the mail service to the call with a number: none when it takes the mail
  pub refusal : ℕ → EmailPayload → Option String
  -- how an error of the driver is printed
  pub show_db : DbError → String

module _ {env : Env} (mailer : Mailer env) where
  unfoldable pub generate_ics : Event → Booking → String
  generate_ics event booking = mailer.calendar_to_string (record {
    summary = event.title_en;
    description = event.desc_en;
    location = event.location;
    starts = booking.start_time;
    ends = booking.end_time;
    uid = booking.id;
  })

  abbrev pub attachments_of : Option (String × String) → List AttachmentPayload
  attachments_of none = []
  attachments_of (some (name, bytes)) =
      record { filename = name; content_base64 = mailer.to_base64 bytes } ∷ []

  abbrev pub payload_of : String → String → String → Option (String × String) → EmailPayload
  payload_of recipient subject html attachment = record {
    from_alias = "default";
    to_addr = recipient;
    subject = subject;
    html_body = html;
    attachments = attachments_of attachment;
  }

  -- A mail that the service takes is sent.
  abbrev pub answered : EmailPayload → Option String → St → Outcome (Unit {0}) × St
  answered mail none s = (ok tt, record s { calls = suc s.calls; sent = s.sent ++ mail ∷ [] })
  answered mail (some e) s = (err (internal_with_msg e), record s { calls = suc s.calls })

  unfoldable pub post : EmailPayload → Exec (Unit {0})
  post mail s = answered mail (mailer.refusal s.calls mail) s

  unfoldable pub send : String → String → String → Option (String × String) → Exec (Unit {0})
  send recipient subject html attachment = post (payload_of recipient subject html attachment)

  unfoldable pub send_test_email : String → String → String → Exec (Unit {0})
  send_test_email recipient subject body = send recipient subject body none
