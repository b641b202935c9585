-- ===== src/Examples/Bookings.antt =====
-- Bookings of `course`.
use booking_backend.Prelude.{◌≡◌, refl, none, some, List, [], true, false, arith, ltb, any, ◌==◌}
use booking_backend.Outcome.{Outcome, ok, err, conflict}
use booking_backend.Models.{Booking, Job, NaiveDate, NaiveTime}
use booking_backend.Db.{St, ◌>>=◌}
use booking_backend.Text.{sort_dedup}
use booking_backend.Availability.{
  timezone, calculate_slots, recurring_slots, effective_config, event_config, minute_counts,
  earliest_booking_start, day_max_capacity, daily_windows, day_bound, windows_slots, window_slots,
  window_loop, slot_at, is_slot_valid, slot_instant, is_capacity_ok,
}
use booking_backend.Db.Bookings.{
  list_by_range, create_with_token, burn_token, insert_booking_row, insert_jobs, insert_job_row,
}
use booking_backend.Db.Jobs.{new_job, get_rules_by_event}
use booking_backend.Db.Schedule.{find_event_by_slug, find_invitee_by_token, find_override_by_date}
use booking_backend.Handlers.{
  parse_clock, day_range, override_of, sessions_of, location_of, num_minutes, to_i32, remind_at,
}
use booking_backend.Handlers.Booking.{
  CreateBookingRequest, create_booking, plan_booking, check_access, check_invitee, check_slot,
  new_booking, jobs_of, rule_jobs, reminder,
}
use booking_backend.Handlers.Booking.{Access}
use booking_backend.Handlers.Booking.Booked.{Accepted, create_booking-ok}
use booking_backend.Handlers.Booking.Fits.{Fits, create_booking-Fits}
use booking_backend.Handlers.Booking.Create.{create_booking_atomic}
use booking_backend.Db.Bookings.Writes.{
  with_booking, can_burn, create_with_token-ok, create_with_token_once,
}
use booking_backend.Db.Rules.{is_ok}
use booking_backend.Examples.{ann, utc_env, utc_face, course, world}

abbrev request : CreateBookingRequest
request = record {
  date = "1";
  time = "09:00";
  name = "Ann";
  email = "ann@example.org";
  notes = none;
  token = some "secret";
}

abbrev booked : Outcome Booking × St
booked = create_booking utc_env "acme" "course" request world

-- The tables after the booking.
abbrev after : St
after = booked.1

booked_is : booked ≡ (ok ann, after)
unfolding create_booking plan_booking check_access check_invitee check_slot new_booking jobs_of
    rule_jobs reminder parse_clock day_range override_of sessions_of location_of num_minutes to_i32
    remind_at new_job ◌>>=◌ find_event_by_slug find_invitee_by_token find_override_by_date
    list_by_range get_rules_by_event calculate_slots recurring_slots effective_config event_config
    minute_counts earliest_booking_start day_max_capacity daily_windows day_bound windows_slots
    window_slots window_loop slot_at is_slot_valid slot_instant is_capacity_ok create_with_token
    burn_token insert_booking_row insert_jobs insert_job_row sort_dedup
booked_is = refl

create_booking-ok_example :
    (access : Access) × (jobs : List Job) × Accepted utc_env "acme" "course" request ann access jobs
      world
    × (any (λ (r : Booking). r.id == "3") world.db.bookings ≡ false)
    × (can_burn access.token_to_burn world.db.invitees ≡ true)
    × (after.db ≡ with_booking ann access.token_to_burn jobs world.db)
create_booking-ok_example =
    create_booking-ok utc_env "acme" "course" request world after ann booked_is

course_found : find_event_by_slug "acme" "course" world.db ≡ some course
unfolding find_event_by_slug
course_found = refl

create_booking-Fits_example :
    (date : NaiveDate) × (time : NaiveTime) × (utc_env.parse_date "1" ≡ some date)
    × (parse_clock utc_env
          (timezone utc_env course)
          "Invalid ISO time format"
          "Invalid time format (HH:MM)"
          "09:00"
        ≡ ok time)
    × (utc_env.from_local (timezone utc_env course) date time ≡ some ann.start_time)
    × (ltb ann.start_time (utc_env.now_at 0) ≡ false)
    × Fits utc_env course date ann.start_time (utc_env.now_at 1) world.db 30 30
create_booking-Fits_example =
    create_booking-Fits utc_env "acme" "course" request course 30 30 world after ann utc_face
      course_found refl refl refl (omega arith) (omega arith) (omega arith) (omega arith) booked_is

-- A request without a token.
abbrev uninvited : CreateBookingRequest
uninvited = record request { token = none }

uninvited_fails : is_ok (create_booking utc_env "acme" "course" uninvited world).0 ≡ false
unfolding create_booking plan_booking check_access ◌>>=◌ find_event_by_slug
uninvited_fails = refl

create_booking_atomic_example :
    (create_booking utc_env "acme" "course" uninvited world).1.db ≡ world.db
create_booking_atomic_example =
    create_booking_atomic utc_env "acme" "course" uninvited world uninvited_fails

abbrev stored : St
stored = (create_with_token ann (some "secret") [] world).1

stored_is : create_with_token ann (some "secret") [] world ≡ (ok ann, stored)
unfolding create_with_token burn_token insert_booking_row insert_jobs ◌>>=◌
stored_is = refl

create_with_token-ok_example :
    (ann ≡ ann)
    × (any (λ (r : Booking). r.id == "3") world.db.bookings ≡ false)
    × (can_burn (some "secret") world.db.invitees ≡ true)
    × (stored.db ≡ with_booking ann (some "secret") [] world.db)
create_with_token-ok_example =
    create_with_token-ok ann (some "secret") [] world stored ann stored_is

create_with_token_once_example :
    create_with_token (record ann { id = "other" }) (some "secret") [] stored
    ≡ (err (conflict "Token invalid or already used"), stored)
create_with_token_once_example =
    create_with_token_once ann (record ann { id = "other" }) "secret" [] [] world stored ann
      stored_is
