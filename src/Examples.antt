-- ===== src/Examples.antt =====
-- Inputs on which the theorems are applied: a time zone without offset, one event of each kind, and
-- empty tables.
pub mod Slots
pub mod Bookings
pub mod Manage
pub mod Updates
pub mod Deletes
pub mod Queue
pub mod Sessions
pub mod Tokens
pub mod Calendar
pub mod Templates
pub mod Mails
pub mod Events
pub mod Access
use booking_backend.Prelude.{
  ℕ, suc, ◌+◌, ◌*◌, ◌/◌, ◌%◌, pos, String, Bool, true, false, Option, none, some, List, [], ◌∷◌,
  eqb, arith, ◌==◌, if◌then◌else◌,
}
use booking_backend.Models.{
  Job, Instant, NaiveDate, NaiveTime, Event, EventSession, Booking, Invitee, WeekdayConfig,
  TimeWindow, default_config, minute_ns, NotificationRule,
}
use booking_backend.Models.Accounts.{Tenant}
use booking_backend.Env.{Env, Weekday, mon}
use booking_backend.Availability.Offers.{ClockFace}
use booking_backend.Db.{Db, St}

abbrev pub hour_ns : ℕ
hour_ns = 3600000000000

abbrev pub day_ns : ℕ
day_ns = 86400000000000

-- A window from nine to ten on Mondays.
abbrev pub morning : WeekdayConfig
morning = record default_config {
  monday = some (record { start = "09:00"; end = "10:00"; max_participants = none } ∷ []);
}

abbrev time_of : String → Option NaiveTime
time_of s =
    if s == "09:00"
    then some (9 * hour_ns)
    else if s == "09:30"
    then some (9 * hour_ns + 30 * minute_ns)
    else if s == "10:00"
    then some (10 * hour_ns)
    else none

abbrev text_of : Instant → String
text_of t =
    if eqb t (day_ns + 9 * hour_ns)
    then "1T09:00"
    else if eqb t (day_ns + 9 * hour_ns + 30 * minute_ns)
    then "1T09:30"
    else "later"

abbrev id_at : ℕ → String
id_at n =
    if eqb n 3
    then "3"
    else if eqb n 5
    then "5"
    else if eqb n 7
    then "7"
    else if eqb n 9
    then "9"
    else "id"

-- Every day is a Monday, and the clock stands still.
abbrev pub utc_env : Env
utc_env = record {
  Tz = Unit {0};
  parse_tz = λ s. some tt;
  utc = tt;
  from_local = λ tz date time. some (date * day_ns + time);
  local_date = λ tz t. t / day_ns;
  local_time = λ tz t. t % day_ns;
  from_hms = λ h m s. some (h * hour_ns + m * minute_ns + s * 1000000000);
  hour = λ t. t / hour_ns % 24;
  minute = λ t. t / minute_ns % 60;
  weekday = λ d. mon;
  parse_date = λ s. if s == "1" then some 1 else none;
  parse_time = time_of;
  parse_rfc3339 = λ s. none;
  to_rfc3339 = text_of;
  date_to_string = λ d. "day";
  config_from_json = λ s. some morning;
  config_to_json = λ c. some "config";
  now_at = λ n. 0;
  uuid_at = id_at;
  random_at = λ n. if eqb n 0 then "zero" else id_at n;
}

pub utc_face : ClockFace utc_env
utc_face = record { hour_lt = λ t. omega arith; minute_lt = λ t. omega arith }

-- Half an hour every half hour, for one customer.
abbrev pub course : Event
course = record {
  id = "course";
  tenant_id = "acme";
  slug = "course";
  title_en = "";
  title_de = "";
  desc_en = "";
  desc_de = "";
  location = "";
  payout = "";
  host_name = "";
  timezone = "UTC";
  min_notice_general = pos 0;
  min_notice_first = pos 0;
  active_start = 0;
  active_end = 10 * day_ns;
  duration_min = pos 30;
  interval_min = pos 30;
  max_participants = pos 1;
  image_url = "";
  config_json = "config";
  access_mode = "RESTRICTED";
  schedule_type = "RECURRING";
  allow_customer_cancel = true;
  allow_customer_reschedule = true;
  created_at = 0;
}

-- The sessions of this event are set by hand.
abbrev pub talk : Event
talk = record course { id = "talk"; slug = "talk"; access_mode = "OPEN"; schedule_type = "MANUAL" }

abbrev pub guest : Invitee
guest = record {
  id = "guest";
  tenant_id = "acme";
  event_id = "course";
  token = "secret";
  email = none;
  status = "ACTIVE";
  created_at = 0;
}

-- A message when a booking is made, and one when it is cancelled.
abbrev rule_of : String → String → NotificationRule
rule_of id trigger = record {
  id = id;
  tenant_id = "acme";
  event_id = some "course";
  trigger_type = trigger;
  template_id = id;
  is_active = true;
  created_at = 0;
}

abbrev pub acme : Tenant
acme = record {
  id = "acme";
  name = "Acme";
  slug = "acme";
  logo_url = none;
  ai_api_key = none;
  ai_provider = some "gemini";
  created_at = 0;
}

abbrev pub tables : Db
tables = record {
  events = course ∷ talk ∷ [];
  bookings = [];
  overrides = [];
  sessions = [];
  invitees = guest ∷ [];
  jobs = [];
  rules = rule_of "r1" "REMINDER_1H" ∷ rule_of "r2" "ON_CANCEL" ∷ [];
  labels = [];
  refresh_tokens = [];
  templates = [];
  versions = [];
  mail_logs = [];
  tenants = acme ∷ [];
  users = [];
}

abbrev pub world : St
world = record { db = tables; calls = 0; sent = [] }

-- A booking of the first slot, with the reminder that waits for it.
abbrev pub ann : Booking
ann = record {
  id = "3";
  tenant_id = "acme";
  event_id = "course";
  invitee_id = some "guest";
  start_time = day_ns + 9 * hour_ns;
  end_time = day_ns + 9 * hour_ns + 30 * minute_ns;
  customer_name = "Ann";
  customer_email = "ann@example.org";
  customer_note = none;
  location = none;
  label_id = none;
  status = "CONFIRMED";
  management_token = "id";
  token = none;
  payout = none;
  created_at = 0;
}

abbrev waiting : Job
waiting = record {
  id = "reminder";
  job_type = "REMINDER";
  payload = record { booking_id = "3"; tenant_id = "acme" };
  execute_at = day_ns + 8 * hour_ns;
  status = "PENDING";
  error_message = none;
  created_at = 0;
}

abbrev pub booked_world : St
booked_world = record {
  db = record tables {
    bookings = ann ∷ [];
    invitees = record guest { status = "USED" } ∷ [];
    jobs = waiting ∷ [];
  };
  calls = 20;
  sent = [];
}
