-- ===== src/Handlers/Booking.antt =====
-- api/handlers/booking.rs. The requests come with the tenant that the extractor found.
pub mod Update
pub mod Plan
pub mod Offer
pub mod Create
pub mod Planned
pub mod Booked
pub mod Fits
pub mod Manage
use booking_backend.Prelude.{
  ℕ, ℤ, pos, String, Bool, true, false, not, ◌&&◌, ◌||◌, Option, none, some, List, [], ◌∷◌, ◌++◌,
  ltb, ◌==◌, if◌then◌else◌, unwrap_or,
}
use booking_backend.Text.{contains}
use booking_backend.Outcome.{
  Outcome, ok, err, ok_or, AppError, not_found, forbidden, conflict, validation, internal,
}
use booking_backend.Models.{
  Instant, NaiveDate, Event, Booking, EventOverride, EventSession, Invitee, Job, NotificationRule,
  add_minutes,
}
use booking_backend.Env.{Env}
use booking_backend.Availability.{calculate_slots, timezone, is_unavailable}
use booking_backend.Db.{
  Db, Exec, pure, raise, lift, query, query_or, reject, on_option, utc_now, new_uuid, random_text,
  ◌>>=◌, ◌>>◌,
}
use booking_backend.Db.Bookings
use booking_backend.Db.Jobs.{new_job, get_rules_by_event}
use booking_backend.Db.Schedule.{
  find_event_by_slug, find_event_by_id, find_invitee_by_token, list_sessions_by_range,
}
use booking_backend.Handlers.{
  parse_clock, day_range, override_of, sessions_of, session_at, location_of, num_minutes, to_i32,
  remind_at,
}

pub record CreateBookingRequest : Type 0 where
  pub date : String
  pub time : String
  pub name : String
  pub email : String
  pub notes : Option String
  pub token : Option String

pub record NewBookingParams : Type 0 where
  pub tenant_id : String
  pub event_id : String
  pub start : Instant
  pub duration_min : ℤ
  pub name : String
  pub email : String
  pub note : Option String
  pub invitee_id : Option String
  pub location : Option String

-- The invitee and the token that a booking uses up.
pub record Access : Type 0 where
  pub invitee_id : Option String
  pub token_to_burn : Option String

-- The slot that a request asks for, with the location of the day.
pub record Slot : Type 0 where
  pub start_time : Instant
  pub end_time : Instant
  pub location : Option String

-- The token of a restricted event, with the invitee that it was given to.
unfoldable pub check_invitee : Event → String → Invitee → Outcome Access
check_invitee event token invitee =
    if not (invitee.event_id == event.id)
    then err (forbidden "Token invalid for this event")
    else if not (invitee.status == "ACTIVE")
    then err (conflict "Token already used")
    else ok (record { invitee_id = some invitee.id; token_to_burn = some token })

unfoldable pub check_access : Event → Option String → Exec Access
check_access event token =
    if event.access_mode == "CLOSED"
    then raise (forbidden "Event is closed")
    else if event.access_mode == "RESTRICTED"
    then (do
      given ← lift (ok_or token (forbidden "Token required for restricted event"))
      invitee ← query_or (find_invitee_by_token given) (forbidden "Invalid token")
      lift (check_invitee event given invitee))
    else if event.access_mode == "OPEN"
    then pure (record { invitee_id = none; token_to_burn = none })
    else raise internal

-- `Some(list_by_range(…))` for a manual event, `None` for any other
unfoldable pub sessions_listed : Event → Instant → Instant → Exec (Option (List EventSession))
sessions_listed event day_start day_end =
    if event.schedule_type == "MANUAL"
    then (do
      sessions ← query (list_sessions_by_range event.id day_start day_end)
      pure (some sessions))
    else pure none

module _ (env : Env) where
  -- `Booking::new`
  unfoldable pub new_booking : NewBookingParams → Exec Booking
  new_booking params = do
    token ← random_text env
    id ← new_uuid env
    now ← utc_now env
    pure (record {
      id = id;
      tenant_id = params.tenant_id;
      event_id = params.event_id;
      invitee_id = params.invitee_id;
      start_time = params.start;
      end_time = add_minutes params.start params.duration_min;
      customer_name = params.name;
      customer_email = params.email;
      customer_note = params.note;
      location = params.location;
      label_id = none;
      status = "CONFIRMED";
      management_token = token;
      token = none;
      payout = none;
      created_at = now;
    })

  unfoldable pub reminder : String → String → Instant → Exec (List Job)
  reminder booking_id tenant_id at = do
    job ← new_job env "REMINDER" booking_id tenant_id at
    pure (job ∷ [])

  -- The job of one rule, where the rule gives one.
  unfoldable pub rule_jobs : Booking → String → NotificationRule → Exec (List Job)
  rule_jobs booking tenant_id rule =
      if rule.trigger_type == "ON_BOOKING"
      then (do
        now ← utc_now env
        job ← new_job env "CONFIRMATION" booking.id tenant_id now
        pure (job ∷ []))
      else on_option (remind_at rule.trigger_type booking.start_time) (pure []) λ at. do
        now ← utc_now env
        if ltb now at then reminder booking.id tenant_id at else pure []

  unfoldable pub jobs_of : Booking → String → List NotificationRule → Exec (List Job)
  jobs_of booking tenant_id [] = pure []
  jobs_of booking tenant_id (rule ∷ rules) = do
    first ← rule_jobs booking tenant_id rule
    others ← jobs_of booking tenant_id rules
    pure (first ++ others)

  -- The checks from the parsed start to the comparison with the slots of the day.
  unfoldable pub check_slot : Event → NaiveDate → Instant → Exec Slot
  check_slot event date start_time = do
    let first_end = add_minutes start_time event.duration_min
    clock ← utc_now env
    reject (ltb start_time clock) (validation "Cannot book in the past")
    reject (ltb start_time event.active_start || ltb event.active_end first_end)
        (validation "Booking outside of event active range")
    range ← day_range env event date
    existing ← query (Bookings.list_by_range event.id range.0 range.1)
    rule ← override_of event date
    reject (is_unavailable rule) (conflict "Date is unavailable")
    found ←
        sessions_of event range.0 range.1 start_time first_end
          "Selected time slot does not exist (manual session missing)"
    now ← utc_now env
    slots ← lift (calculate_slots env event date existing rule found.1 now)
    reject (not (contains (env.to_rfc3339 start_time) slots))
        (conflict "Selected time slot is not available or valid")
    pure (record {
      start_time = start_time;
      end_time = found.0;
      location = location_of rule found.1 start_time;
    })

  -- `tz.from_local_datetime(&date.and_time(time)).single().ok_or(e)?`
  abbrev pub local_start : Event → NaiveDate → ℕ → AppError → Exec Instant
  local_start event date time e = lift (ok_or (env.from_local (timezone env event) date time) e)

  -- Everything that `create_booking` does before it writes.
  unfoldable pub plan_booking :
      String → String → CreateBookingRequest → Exec (Booking × Access × List Job)
  plan_booking tenant_id slug payload = do
    event ← query_or (find_event_by_slug tenant_id slug) (not_found "Event not found")
    access ← check_access event payload.token
    date ← lift (ok_or (env.parse_date payload.date) (validation "Invalid date format"))
    time ← lift (
        parse_clock env (timezone env event) "Invalid ISO time format" "Invalid time format (HH:MM)"
          payload.time)
    start_time ←
        local_start event date time
          (validation "Invalid local time (ambiguous or skipped due to DST)")
    slot ← check_slot event date start_time
    booking ← new_booking (record {
      tenant_id = tenant_id;
      event_id = event.id;
      start = start_time;
      duration_min = to_i32 (num_minutes slot.start_time slot.end_time);
      name = payload.name;
      email = payload.email;
      note = payload.notes;
      invitee_id = access.invitee_id;
      location = slot.location;
    })
    rules ← query (get_rules_by_event event.id)
    jobs ← jobs_of booking tenant_id rules
    pure (booking, access, jobs)

  unfoldable pub create_booking : String → String → CreateBookingRequest → Exec Booking
  create_booking tenant_id slug payload = do
    plan ← plan_booking tenant_id slug payload
    Bookings.create_with_token plan.0 (plan.1).token_to_burn plan.2

unfoldable pub list_bookings : String → String → Exec (List Booking)
list_bookings tenant_id slug = do
  event ← query_or (find_event_by_slug tenant_id slug) (not_found "Event not found")
  query (Bookings.list_by_event tenant_id event.id)

unfoldable pub list_all_bookings : String → Exec (List Booking)
list_all_bookings tenant_id = query (Bookings.list_by_tenant tenant_id)

unfoldable pub get_booking : String → String → Exec Booking
get_booking tenant_id booking_id =
    query_or (Bookings.find_by_id tenant_id booking_id) (not_found "Booking not found")

unfoldable pub delete_booking : String → String → Exec (Unit {0})
delete_booking tenant_id booking_id = Bookings.delete tenant_id booking_id
