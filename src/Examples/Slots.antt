-- ===== src/Examples/Slots.antt =====
-- The slots of `course` and of `talk` on a day.
use booking_backend.Prelude.{
  ◌+◌, ◌*◌, min, ◌≡◌, ◌≢◌, ◌↔◌, refl, String, none, some, List, [], ◌∷◌, pos, arith, In, IsI32,
  get_or, length, keep, zero,
}
use booking_backend.Text.{sort_dedup}
use booking_backend.Text.Sorted.{IsSortedNew}
use booking_backend.Outcome.{ok, diverge}
use booking_backend.Models.{EventSession, second_ns}
use booking_backend.Availability.{
  Day, calculate_slots, recurring_slots, effective_config, event_config, minute_counts,
  earliest_booking_start, day_max_capacity, daily_windows, day_bound, windows_slots, window_slots,
  window_loop, window_fuel, slot_at, is_slot_valid, slot_instant, is_capacity_ok, session_slots,
  has_room,
}
use booking_backend.Availability.Counts.{covers_minute, minute_counts_lem, minute_counts-last}
use booking_backend.Availability.Manual.{IsOpenSession, calculate_slots-manual_iff}
use booking_backend.Availability.Loop.{window_loop_total}
use booking_backend.Availability.Days.{
  DayOffers, calculate_slots_iff, calculate_slots-ne-diverge, calculate_slots-IsSortedNew,
}
use booking_backend.Examples.{utc_env, utc_face, course, talk, ann, day_ns, hour_ns}

abbrev offered : List String
offered = "1T09:00" ∷ "1T09:30" ∷ []

offered_is : calculate_slots utc_env course 1 [] none none 0 ≡ ok offered
unfolding calculate_slots recurring_slots effective_config event_config minute_counts
    earliest_booking_start day_max_capacity daily_windows day_bound windows_slots window_slots
    window_loop slot_at is_slot_valid slot_instant is_capacity_ok sort_dedup
offered_is = refl

calculate_slots_iff_example :
    In "1T09:30" offered ↔ DayOffers utc_env course 1 [] none 0 30 30 "1T09:30"
calculate_slots_iff_example =
    calculate_slots_iff utc_env course 1 [] none none 0 30 30 offered "1T09:30" utc_face refl refl
      refl refl (omega arith) (omega arith) (omega arith) (omega arith) offered_is

half_hour : IsI32 (pos 30)
half_hour = record { above = omega arith; below = omega arith }

calculate_slots-ne-diverge_example :
    calculate_slots utc_env course 1 (ann ∷ []) none none 0 ≢ diverge
calculate_slots-ne-diverge_example =
    calculate_slots-ne-diverge utc_env course 1 (ann ∷ []) none none 0 utc_face half_hour

calculate_slots-IsSortedNew_example : IsSortedNew offered
calculate_slots-IsSortedNew_example =
    calculate_slots-IsSortedNew utc_env course 1 [] none none 0 offered offered_is

abbrev monday : Day (Unit {0})
monday = record {
  tz = tt;
  date = 1;
  counts = [];
  first_start = none;
  cutoff_general = 0;
  cutoff_first = 0;
  active_start = 0;
  active_end = 9 * day_ns;
  duration = pos 30;
  interval = pos 30;
  day_max_capacity = pos 1;
}

window_loop_total_example :
    (slots : List String) × (window_loop utc_env monday (pos 1) 600 window_fuel 540 ≡ some slots)
window_loop_total_example =
    window_loop_total utc_env monday (pos 1) 600 540 half_hour (λ e. omega arith) (omega arith)

minute_counts_lem_example :
    get_or (minute_counts day_ns (2 * day_ns) (ann ∷ [])) 550 0
    ≡ min 255 (length (keep (covers_minute day_ns (2 * day_ns) 550) (ann ∷ [])))
minute_counts_lem_example =
    minute_counts_lem day_ns (2 * day_ns) 86400 550 (ann ∷ []) (omega arith) (omega arith)

minute_counts-last_example :
    get_or (minute_counts day_ns (day_ns + 86399 * second_ns) (ann ∷ [])) 1439 0 ≡ zero
minute_counts-last_example =
    minute_counts-last day_ns (day_ns + 86399 * second_ns) 86400 1439 (ann ∷ []) (omega arith)
      (omega arith) (omega arith)

abbrev evening : EventSession
evening = record {
  id = "s";
  event_id = "talk";
  start_time = day_ns + 9 * hour_ns;
  end_time = day_ns + 10 * hour_ns;
  max_participants = pos 2;
  location = none;
  host_name = none;
  created_at = 0;
}

abbrev evening_slots : List String
evening_slots = "1T09:00" ∷ []

evening_offered :
    calculate_slots utc_env talk 1 (ann ∷ []) none (some (evening ∷ [])) 0 ≡ ok evening_slots
unfolding calculate_slots session_slots has_room sort_dedup
evening_offered = refl

calculate_slots-manual_iff_example : In "1T09:00" evening_slots ↔ (
    (session : EventSession) × In session (evening ∷ [])
    × IsOpenSession utc_env tt 1 (ann ∷ []) session "1T09:00")
calculate_slots-manual_iff_example =
    calculate_slots-manual_iff utc_env talk 1 (ann ∷ []) none (evening ∷ []) 0 evening_slots
      "1T09:00" refl evening_offered
