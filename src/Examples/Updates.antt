-- ===== src/Examples/Updates.antt =====
-- A booking that the staff moves.
use booking_backend.Prelude.{◌+◌, ◌*◌, ◌≡◌, refl, none, some, find}
use booking_backend.Text.{sort_dedup}
use booking_backend.Outcome.{Outcome, ok}
use booking_backend.Models.{Booking, minute_ns}
use booking_backend.Availability.{
  calculate_slots, recurring_slots, effective_config, event_config, minute_counts,
  earliest_booking_start, day_max_capacity, daily_windows, day_bound, windows_slots, window_slots,
  window_loop, slot_at, is_slot_valid, slot_instant, is_capacity_ok, is_in_day, count_booking,
  saturating_inc,
}
use booking_backend.Db.{St, ◌>>=◌, update_where}
use booking_backend.Db.Bookings.{find_by_id, list_by_range, update, is_booking_of, update_row}
use booking_backend.Db.Schedule.{find_event_by_id, find_override_by_date}
use booking_backend.Handlers.{parse_clock, day_range, override_of}
use booking_backend.Handlers.Booking.{sessions_listed}
use booking_backend.Handlers.Booking.Update.{
  UpdateBookingRequest, edit_booking, end_of, move_booking, update_booking,
}
use booking_backend.Handlers.Booking.Update.Offered.{IsUpdated, update_booking-ok}
use booking_backend.Examples.{utc_env, ann, booked_world, day_ns, hour_ns}

abbrev request : UpdateBookingRequest
request = record {
  date = some "1";
  time = some "09:30";
  name = none;
  email = none;
  label_id = some "";
  token = none;
  payout = none;
}

abbrev updated : Outcome Booking × St
updated = update_booking utc_env "acme" "3" request booked_world

abbrev half_past : Booking
half_past = record ann {
  start_time = day_ns + 9 * hour_ns + 30 * minute_ns;
  end_time = day_ns + 10 * hour_ns;
}

updated_is : updated ≡ (ok half_past, updated.1)
unfolding update_booking edit_booking move_booking end_of find_by_id find_event_by_id parse_clock
    day_range list_by_range override_of find_override_by_date sessions_listed update ◌>>=◌
    calculate_slots recurring_slots effective_config event_config minute_counts
    earliest_booking_start day_max_capacity daily_windows day_bound windows_slots window_slots
    window_loop slot_at is_slot_valid slot_instant is_capacity_ok sort_dedup is_in_day count_booking
    saturating_inc
updated_is = refl

update_booking-ok_example :
    (old : Booking) × (b : Booking) × (find_by_id "acme" "3" booked_world.db ≡ some old)
    × IsUpdated utc_env "acme" request (edit_booking request old) booked_world b
    × (find
          (is_booking_of b)
          (update_where (is_booking_of b) (update_row b) booked_world.db.bookings)
        ≡ some half_past)
    × (updated.1.db ≡ record booked_world.db {
      bookings = update_where (is_booking_of b) (update_row b) booked_world.db.bookings;
    })
update_booking-ok_example =
    update_booking-ok utc_env "acme" "3" request booked_world updated.1 half_past updated_is
