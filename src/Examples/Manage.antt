-- ===== src/Examples/Manage.antt =====
-- A booking that is moved, and one that is cancelled.
use booking_backend.Prelude.{◌+◌, ◌*◌, ◌≡◌, refl, none, some, true, In, ◌⊎◌, inl, inr, ◌==◌}
use booking_backend.Text.{sort_dedup}
use booking_backend.Outcome.{Outcome, ok}
use booking_backend.Models.{Event, Booking, Job, minute_ns}
use booking_backend.Availability.{
  calculate_slots, recurring_slots, effective_config, event_config, minute_counts,
  earliest_booking_start, day_max_capacity, daily_windows, day_bound, windows_slots, window_slots,
  window_loop, slot_at, is_slot_valid, slot_instant, is_capacity_ok, is_in_day, count_booking,
  saturating_inc,
}
use booking_backend.Db.{St, ◌>>=◌}
use booking_backend.Db.Bookings.{
  find_by_token, list_by_range, update, cancel, cancel_rows, reactivate_rows,
}
use booking_backend.Db.Jobs.{
  create, new_job, cancel_jobs_for_booking, get_rules_by_event, get_rules_by_trigger,
}
use booking_backend.Db.Bookings.{insert_job_row}
use booking_backend.Db.Schedule.{find_event_by_id, find_override_by_date}
use booking_backend.Handlers.{
  parse_clock, day_range, override_of, sessions_of, location_of, remind_at,
}
use booking_backend.Handlers.Booking.Manage.{
  RescheduleBookingRequest, notify, cancel_live, cancel_booking, schedule_at, remind,
  schedule_reminders, plan_reschedule, reschedule_booking,
}
use booking_backend.Handlers.Booking.Manage.Cancel.{
  IsCancelled, cancel_booking-ok, cancel_booking-no_reminder,
}
use booking_backend.Handlers.Booking.Manage.Move.{Moved, IsMoved, reschedule_booking-ok}
use booking_backend.Handlers.Booking.Manage.Refused.{is_refusal, reschedule_booking_refused}
use booking_backend.Examples.{utc_env, ann, booked_world, day_ns, hour_ns}

abbrev cancelled : Outcome Booking × St
cancelled = cancel_booking utc_env "id" booked_world

abbrev gone : Booking
gone = record ann { status = "CANCELLED" }

cancelled_is : cancelled ≡ (ok gone, cancelled.1)
unfolding cancel_booking cancel_live find_by_token find_event_by_id cancel cancel_rows
    reactivate_rows cancel_jobs_for_booking get_rules_by_trigger notify new_job create
    insert_job_row ◌>>=◌
cancelled_is = refl

ann_named : find_by_token "id" booked_world.db ≡ some ann
unfolding find_by_token
ann_named = refl

cancel_booking-ok_example :
    (((ann.status == "CANCELLED") ≡ true) × (gone ≡ ann) × (cancelled.1 ≡ booked_world))
    ⊎ ((event : Event) × (find_event_by_id "acme" "course" booked_world.db ≡ some event)
        × (event.allow_customer_cancel ≡ true)
        × IsCancelled ann gone booked_world.db cancelled.1.db)
cancel_booking-ok_example =
    cancel_booking-ok utc_env "id" ann gone booked_world cancelled.1 ann_named cancelled_is

abbrev notice : Job
notice = record {
  id = "id";
  job_type = "CANCELLATION";
  payload = record { booking_id = "3"; tenant_id = "acme" };
  execute_at = 0;
  status = "PENDING";
  error_message = none;
  created_at = 0;
}

notice_queued : In notice cancelled.1.db.jobs
unfolding cancel_booking cancel_live find_by_token find_event_by_id cancel cancel_rows
    reactivate_rows cancel_jobs_for_booking get_rules_by_trigger notify new_job create
    insert_job_row ◌>>=◌
notice_queued = inr (inl refl)

cancel_booking-no_reminder_example : notice.job_type ≡ "CANCELLATION"
cancel_booking-no_reminder_example =
    cancel_booking-no_reminder utc_env "id" ann gone booked_world cancelled.1 notice ann_named refl
      cancelled_is notice_queued refl

abbrev later : RescheduleBookingRequest
later = record { date = "1"; time = "09:30" }

abbrev moved : Outcome Booking × St
moved = reschedule_booking utc_env "id" later booked_world

abbrev half_past : Booking
half_past = record ann {
  start_time = day_ns + 9 * hour_ns + 30 * minute_ns;
  end_time = day_ns + 10 * hour_ns;
}

moved_is : moved ≡ (ok half_past, moved.1)
unfolding reschedule_booking plan_reschedule find_by_token find_event_by_id parse_clock day_range
    list_by_range override_of find_override_by_date sessions_of location_of remind_at update
    cancel_jobs_for_booking get_rules_by_trigger get_rules_by_event notify new_job create
    insert_job_row schedule_reminders remind schedule_at ◌>>=◌ calculate_slots recurring_slots
    effective_config event_config minute_counts earliest_booking_start day_max_capacity
    daily_windows day_bound windows_slots window_slots window_loop slot_at is_slot_valid
    slot_instant is_capacity_ok sort_dedup is_in_day count_booking saturating_inc
moved_is = refl

reschedule_booking-ok_example :
    (b : Booking) × (event : Event) × Moved utc_env "id" later b event booked_world
    × IsMoved utc_env "id" later b half_past booked_world.db moved.1.db
reschedule_booking-ok_example =
    reschedule_booking-ok utc_env "id" later booked_world moved.1 half_past moved_is

-- A time that the event has no slot for.
abbrev noon : RescheduleBookingRequest
noon = record { date = "1"; time = "10:00" }

noon_refused : is_refusal (reschedule_booking utc_env "id" noon booked_world).0 ≡ true
unfolding reschedule_booking plan_reschedule find_by_token find_event_by_id parse_clock day_range
    list_by_range override_of find_override_by_date sessions_of location_of ◌>>=◌ calculate_slots
    recurring_slots effective_config event_config minute_counts earliest_booking_start
    day_max_capacity daily_windows day_bound windows_slots window_slots window_loop slot_at
    is_slot_valid slot_instant is_capacity_ok sort_dedup is_in_day count_booking saturating_inc
noon_refused = refl

reschedule_booking_refused_example :
    (reschedule_booking utc_env "id" noon booked_world).1.db ≡ booked_world.db
reschedule_booking_refused_example =
    reschedule_booking_refused utc_env "id" noon booked_world noon_refused
