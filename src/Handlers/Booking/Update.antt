-- ===== src/Handlers/Booking/Update.antt =====
-- `update_booking` (api/handlers/booking.rs).
pub mod Offered
use booking_backend.Prelude.{
  ℤ, String, not, Option, none, some, List, ◌==◌, if◌then◌else◌, unwrap_or,
}
use booking_backend.Text.{contains}
use booking_backend.Outcome.{ok_or, not_found, conflict, validation, internal}
use booking_backend.Models.{Instant, Booking, EventSession, add_minutes}
use booking_backend.Env.{Env}
use booking_backend.Availability.{calculate_slots, timezone}
use booking_backend.Db.{Exec, pure, lift, query, query_or, reject, on_option, utc_now, ◌>>=◌, ◌>>◌}
use booking_backend.Db.Bookings
use booking_backend.Db.Schedule.{find_event_by_id}
use booking_backend.Handlers.{parse_clock, day_range, override_of, session_at}
use booking_backend.Handlers.Booking.{sessions_listed, local_start}

pub record UpdateBookingRequest : Type 0 where
  pub date : Option String
  pub time : Option String
  pub name : Option String
  pub email : Option String
  pub label_id : Option String
  pub token : Option String
  pub payout : Option ℤ

unfoldable pub end_of : Option (List EventSession) → Instant → Instant → Instant
end_of none start end = end
end_of (some sessions) start end = elim (session_at start sessions) [
  | none ↦ end
  | some session ↦ session.end_time
]

-- `if label_id.is_empty() { None } else { Some(label_id) }`
abbrev pub non_empty : String → Option String
non_empty s = if s == "" then none else some s

abbrev pub set_or_clear : Option String → Option String → Option String
set_or_clear none old = old
set_or_clear (some s) old = non_empty s

unfoldable pub edit_booking : UpdateBookingRequest → Booking → Booking
edit_booking payload b = record b {
  customer_name = unwrap_or payload.name b.customer_name;
  customer_email = unwrap_or payload.email b.customer_email;
  label_id = set_or_clear payload.label_id b.label_id;
  payout = elim payload.payout [ none ↦ b.payout | some p ↦ some p ];
  token = set_or_clear payload.token b.token;
}

module _ (env : Env) where
  unfoldable pub move_booking : String → Booking → String → String → Exec Booking
  move_booking tenant_id booking date_str time_str = do
    event ← query_or (find_event_by_id tenant_id booking.event_id) internal
    date ← lift (ok_or (env.parse_date date_str) (validation "Invalid date"))
    time ← lift (parse_clock env (timezone env event) "Invalid ISO time" "Invalid time" time_str)
    new_start ← local_start env event date time (validation "Invalid local time")
    range ← day_range env event date
    existing ← query (Bookings.list_by_range event.id range.0 range.1)
    rule ← override_of event date
    sessions ← sessions_listed event range.0 range.1
    now ← utc_now env
    slots ← lift (calculate_slots env event date existing rule sessions now)
    reject (not (contains (env.to_rfc3339 new_start) slots))
        (conflict "Target slot is unavailable or invalid")
    pure (record booking {
      start_time = new_start;
      end_time = end_of sessions new_start (add_minutes new_start event.duration_min);
    })

  unfoldable pub update_booking : String → String → UpdateBookingRequest → Exec Booking
  update_booking tenant_id booking_id payload = do
    booking ← query_or (Bookings.find_by_id tenant_id booking_id) (not_found "Booking not found")
    let edited = edit_booking payload booking
    moved ←
        on_option payload.date (pure edited) λ date.
          on_option payload.time (pure edited) λ time. move_booking tenant_id edited date time
    Bookings.update moved
