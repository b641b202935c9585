-- ===== src/Handlers/Booking/Manage.antt =====
-- api/handlers/booking_management.rs: what a customer does with the management token of a booking.
pub mod Move
pub mod Refused
pub mod Cancel
use booking_backend.Prelude.{
  ℕ, String, Bool, true, false, not, Option, none, some, List, [], ◌∷◌, ltb, ◌==◌, if◌then◌else◌,
}
use booking_backend.Text.{contains}
use booking_backend.Outcome.{
  Outcome, ok_or, unwrap, not_found, forbidden, conflict, validation, internal,
}
use booking_backend.Models.{Instant, NaiveDate, Event, Booking, NotificationRule, add_minutes}
use booking_backend.Env.{Env}
use booking_backend.Availability.{calculate_slots, timezone, is_unavailable}
use booking_backend.Db.{
  Exec, pure, raise, lift, query, query_or, reject, on_option, utc_now, ◌>>=◌, ◌>>◌,
}
use booking_backend.Db.Bookings
use booking_backend.Db.Jobs
use booking_backend.Db.Schedule.{find_event_by_id}
use booking_backend.Handlers.{
  parse_clock, day_range, override_of, sessions_of, location_of, remind_at,
}

pub record RescheduleBookingRequest : Type 0 where
  pub date : String
  pub time : String

unfoldable pub get_booking_by_token : String → Exec (Booking × Event)
get_booking_by_token token = do
  booking ← query_or (Bookings.find_by_token token) (not_found "Booking not found")
  reject (booking.status == "CANCELLED") (validation "Booking is already cancelled")
  event ← query_or (find_event_by_id booking.tenant_id booking.event_id) internal
  pure (booking, event)

module _ (env : Env) where
  -- One job of the given type, due now, for each rule.
  unfoldable pub notify : String → Booking → List NotificationRule → Exec (Unit {0})
  notify job_type booking [] = pure tt
  notify job_type booking (rule ∷ rules) = do
    now ← utc_now env
    job ← Jobs.new_job env job_type booking.id booking.tenant_id now
    Jobs.create job
    notify job_type booking rules

  unfoldable pub cancel_live : Booking → Exec Booking
  cancel_live booking = do
    event ← query_or (find_event_by_id booking.tenant_id booking.event_id) internal
    reject (not event.allow_customer_cancel) (forbidden "Cancellation is disabled for this event.")
    cancelled ← Bookings.cancel booking
    Jobs.cancel_jobs_for_booking booking.id
    rules ← query (Jobs.get_rules_by_trigger booking.tenant_id event.id "ON_CANCEL")
    notify "CANCELLATION" booking rules
    pure cancelled

  unfoldable pub cancel_booking : String → Exec Booking
  cancel_booking token = do
    booking ← query_or (Bookings.find_by_token token) (not_found "Booking not found")
    if booking.status == "CANCELLED" then pure booking else cancel_live booking

  unfoldable pub schedule_at : Booking → NotificationRule → Instant → Exec (Unit {0})
  schedule_at updated rule at = do
    job ← Jobs.new_job env rule.trigger_type updated.id updated.tenant_id at
    Jobs.create job
    pure tt

  -- The job of a rule that is due in the future; its type is the trigger of the rule.
  unfoldable pub remind : Booking → NotificationRule → Exec (Unit {0})
  remind updated rule =
      on_option (remind_at rule.trigger_type updated.start_time) (pure tt)
        λ at. do now ← utc_now env; if ltb now at then schedule_at updated rule at else pure tt

  unfoldable pub schedule_reminders : Booking → List NotificationRule → Exec (Unit {0})
  schedule_reminders updated [] = pure tt
  schedule_reminders updated (rule ∷ rules) = do
    remind updated rule
    schedule_reminders updated rules

  -- Everything that `reschedule_booking` does before it writes: the booking with its new slot, and the
  -- event. The start panics where the day has the time not exactly once.
  unfoldable pub plan_reschedule : String → RescheduleBookingRequest → Exec (Booking × Event)
  plan_reschedule token payload = do
    booking ← query_or (Bookings.find_by_token token) (not_found "Booking not found")
    reject (booking.status == "CANCELLED") (validation "Cannot reschedule a cancelled booking.")
    event ← query_or (find_event_by_id booking.tenant_id booking.event_id) internal
    reject (not event.allow_customer_reschedule)
        (forbidden "Rescheduling is disabled for this event.")
    date ← lift (ok_or (env.parse_date payload.date) (validation "Invalid date"))
    time ←
        lift (parse_clock env (timezone env event) "Invalid ISO time" "Invalid time" payload.time)
    new_start ← lift (unwrap (env.from_local (timezone env event) date time))
    range ← day_range env event date
    existing ← query (Bookings.list_by_range event.id range.0 range.1)
    rule ← override_of event date
    reject (is_unavailable rule) (conflict "Date is unavailable")
    found ←
        sessions_of event range.0 range.1 new_start (add_minutes new_start event.duration_min)
          "Invalid session"
    now ← utc_now env
    slots ← lift (calculate_slots env event date existing rule found.1 now)
    reject (not (contains (env.to_rfc3339 new_start) slots)) (conflict "New slot is not available.")
    pure (
      record booking {
        start_time = new_start;
        end_time = found.0;
        location = location_of rule found.1 new_start;
      },
      event,
    )

  unfoldable pub reschedule_booking : String → RescheduleBookingRequest → Exec Booking
  reschedule_booking token payload = do
    plan ← plan_reschedule token payload
    updated ← Bookings.update plan.0
    Jobs.cancel_jobs_for_booking updated.id
    rules ← query (Jobs.get_rules_by_trigger updated.tenant_id (plan.1).id "ON_RESCHEDULE")
    notify "RESCHEDULE" updated rules
    reminder_rules ← query (Jobs.get_rules_by_event (plan.1).id)
    schedule_reminders updated reminder_rules
    pure updated
