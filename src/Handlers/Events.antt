-- ===== src/Handlers/Events.antt =====
-- api/handlers/event.rs: what is shown of an event, and its update. The map of the query's parameters
-- is one argument for each name that the handler looks up, and the texts of errors that print a value
-- keep their fixed part.
pub mod Calendar
pub mod Defaults
pub mod Created
pub mod Versions
pub mod Setup
use booking_backend.Prelude.{
  ℕ, zero, suc, ◌+◌, ◌-◌, ℤ, String, Bool, true, false, not, ◌&&◌, ◌||◌, Option, none, some, List,
  [], ◌∷◌, leb, ltb, eqb, keep, find, is_some, unwrap_or, ◌==◌, if◌then◌else◌,
}
use booking_backend.Outcome.{Outcome, diverge, ok_or, not_found, forbidden, validation, conflict}
use booking_backend.Models.{
  Instant, NaiveDate, Event, Booking, EventOverride, EventSession, Invitee, WeekdayConfig,
}
use booking_backend.Env.{Env}
use booking_backend.Availability.{calculate_slots}
use booking_backend.Db.{
  Exec, pure, raise, lift, query, query_or, execute, reject, on_option, utc_now, new_uuid, ◌>>=◌,
  ◌>>◌,
}
use booking_backend.Db.Bookings.{list_by_range}
use booking_backend.Db.Schedule.{
  find_event_by_slug, list_events_of, update_event_rows, find_invitee_by_token,
  list_overrides_by_range,
}
use booking_backend.Handlers.{day_range, override_of}
use booking_backend.Handlers.Booking.{sessions_listed}
use booking_backend.Handlers.Sessions.{is_empty}

pub record UpdateEventRequest : Type 0 where
  pub slug : Option String
  pub title_en : Option String
  pub title_de : Option String
  pub desc_en : Option String
  pub desc_de : Option String
  pub location : Option String
  pub payout : Option String
  pub host_name : Option String
  pub timezone : Option String
  pub min_notice_general : Option ℤ
  pub min_notice_first : Option ℤ
  pub active_start : Option Instant
  pub active_end : Option Instant
  pub duration_min : Option ℤ
  pub interval_min : Option ℤ
  pub max_participants : Option ℤ
  pub image_url : Option String
  pub config : Option WeekdayConfig
  pub access_mode : Option String
  pub schedule_type : Option String
  pub allow_customer_cancel : Option Bool
  pub allow_customer_reschedule : Option Bool

unfoldable pub edit_event : UpdateEventRequest → String → Event → Event
edit_event payload config_json event = record event {
  slug = unwrap_or payload.slug event.slug;
  title_en = unwrap_or payload.title_en event.title_en;
  title_de = unwrap_or payload.title_de event.title_de;
  desc_en = unwrap_or payload.desc_en event.desc_en;
  desc_de = unwrap_or payload.desc_de event.desc_de;
  location = unwrap_or payload.location event.location;
  payout = unwrap_or payload.payout event.payout;
  host_name = unwrap_or payload.host_name event.host_name;
  timezone = unwrap_or payload.timezone event.timezone;
  min_notice_general = unwrap_or payload.min_notice_general event.min_notice_general;
  min_notice_first = unwrap_or payload.min_notice_first event.min_notice_first;
  active_start = unwrap_or payload.active_start event.active_start;
  active_end = unwrap_or payload.active_end event.active_end;
  duration_min = unwrap_or payload.duration_min event.duration_min;
  interval_min = unwrap_or payload.interval_min event.interval_min;
  max_participants = unwrap_or payload.max_participants event.max_participants;
  image_url = unwrap_or payload.image_url event.image_url;
  config_json = config_json;
  access_mode = unwrap_or payload.access_mode event.access_mode;
  schedule_type = unwrap_or payload.schedule_type event.schedule_type;
  allow_customer_cancel = unwrap_or payload.allow_customer_cancel event.allow_customer_cancel;
  allow_customer_reschedule =
      unwrap_or payload.allow_customer_reschedule event.allow_customer_reschedule;
}

-- The invitee's address that a restricted event shows with its token.
unfoldable pub invitee_email : Event → Option String → Exec (Option String)
invitee_email event token =
    if event.access_mode == "CLOSED"
    then raise (forbidden "This event is closed.")
    else if event.access_mode == "RESTRICTED"
    then (do
      given ← lift (ok_or token (forbidden "Access restricted. Token required."))
      invitee ← query_or (find_invitee_by_token given) (forbidden "Invalid token.")
      reject (not (invitee.event_id == event.id)) (forbidden "Token does not belong to this event.")
      reject (not (invitee.status == "ACTIVE"))
          (conflict "This invitation token has already been used.")
      pure invitee.email)
    else pure none

-- The event, with the address that is put beside it; `signed_in` is whether the extractor found a user.
unfoldable pub get_event : Bool → String → String → Option String → Exec (Event × Option String)
get_event signed_in tenant_id slug token = do
  event ← query_or (find_event_by_slug tenant_id slug) (not_found "Event not found")
  email ← if signed_in then pure none else invitee_email event token
  pure (event, email)

unfoldable pub list_events : String → Exec (List Event)
list_events tenant_id = query (list_events_of tenant_id)

-- `.filter(|b| b.start_time < day_end_utc && b.end_time > day_start_utc)`
abbrev pub is_booked_in : Instant → Instant → Booking → Bool
is_booked_in day_start day_end b = ltb b.start_time day_end && ltb day_start b.end_time

-- One round for each day up to the last, and one that finds the end.
abbrev pub dates_fuel : NaiveDate → NaiveDate → ℕ
dates_fuel start end = suc (end + 1 - start)

unfoldable pub overrides_listed : Event → NaiveDate → NaiveDate → Exec (List EventOverride)
overrides_listed event start end =
    if event.schedule_type == "MANUAL"
    then pure []
    else query (list_overrides_by_range event.id start end)

module _ (env : Env) where
  unfoldable pub update_event : String → String → UpdateEventRequest → Exec Event
  update_event tenant_id slug payload = do
    event ← query_or (find_event_by_slug tenant_id slug) (not_found "Event not found")
    on_option payload.timezone (pure tt)
        λ zone. reject (not (is_some (env.parse_tz zone))) (validation "Invalid timezone")
    config_json ←
        on_option payload.config (pure event.config_json)
          λ config. lift (ok_or (env.config_to_json config) (validation "Invalid config"))
    execute (update_event_rows (edit_event payload config_json event))

  -- `GET …/slots`; the day is also sent back.
  unfoldable pub get_slots : String → String → Option String → Exec (List String)
  get_slots tenant_id slug date_param = do
    event ← query_or (find_event_by_slug tenant_id slug) (not_found "Event not found")
    reject (event.access_mode == "CLOSED") (forbidden "Event is closed")
    date_str ← lift (ok_or date_param (validation "Date required"))
    date ← lift (ok_or (env.parse_date date_str) (validation "Invalid date format"))
    range ← day_range env event date
    bookings ← query (list_by_range event.id range.0 range.1)
    rule ← override_of event date
    sessions ← sessions_listed event range.0 range.1
    now ← utc_now env
    lift (calculate_slots env event date bookings rule sessions now)

  -- Whether a day that meets the active range of the event has a slot.
  unfoldable pub offers_slots :
      Event
      → List Booking
      → List EventOverride
      → Option (List EventSession)
      → NaiveDate
      → Instant
      → Instant
      → Exec Bool
  offers_slots event bookings overrides sessions date day_start day_end = do
    let day_bookings = keep (is_booked_in day_start day_end) bookings
    let rule = find (λ (o : EventOverride). eqb o.date date) overrides
    now ← utc_now env
    slots ← lift (calculate_slots env event date day_bookings rule sessions now)
    pure (not (is_empty slots))

  -- One round of the loop.
  unfoldable pub has_slots :
      Event → List Booking → List EventOverride → Option (List EventSession) → NaiveDate → Exec Bool
  has_slots event bookings overrides sessions date = do
    range ← day_range env event date
    if leb event.active_start range.1 && leb range.0 event.active_end
        then offers_slots event bookings overrides sessions date range.0 range.1
        else pure false

  -- `while current_date <= end_date`, on fuel. The last date of chrono's range, whose successor panics,
  -- is left out.
  pub dates_loop :
      Event
      → List Booking
      → List EventOverride
      → Option (List EventSession)
      → NaiveDate
      → ℕ
      → NaiveDate
      → Exec (List String)
  dates_loop event bookings overrides sessions end zero current = lift diverge
  dates_loop event bookings overrides sessions end (suc fuel) current =
      if leb current end
      then (do
        listed ← has_slots event bookings overrides sessions current
        others ← dates_loop event bookings overrides sessions end fuel (current + 1)
        pure (if listed then env.date_to_string current ∷ others else others))
      else pure []

  unfoldable pub get_available_dates :
      String → String → Option String → Option String → Exec (List String)
  get_available_dates tenant_id slug start_param end_param = do
    event ← query_or (find_event_by_slug tenant_id slug) (not_found "Event not found")
    start_str ← lift (ok_or start_param (validation "start required"))
    end_str ← lift (ok_or end_param (validation "end required"))
    start ← lift (ok_or (env.parse_date start_str) (validation "Invalid start"))
    end ← lift (ok_or (env.parse_date end_str) (validation "Invalid end"))
    first ← day_range env event start
    last ← day_range env event end
    bookings ← query (list_by_range event.id first.0 last.1)
    overrides ← overrides_listed event start end
    sessions ← sessions_listed event first.0 last.1
    dates_loop event bookings overrides sessions end (dates_fuel start end) start
