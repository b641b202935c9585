-- ===== src/Examples/Calendar.antt =====
-- A calendar of three days.
use booking_backend.Prelude.{◌*◌, ◌≡◌, ◌≢◌, none, [], ◌∷◌, pos, arith, keep, IsI32}
use booking_backend.Outcome.{diverge}
use booking_backend.Db.Bookings.{list_by_range}
use booking_backend.Handlers.Events.{is_booked_in, dates_loop, dates_fuel}
use booking_backend.Handlers.Events.Calendar.{day_bookings_same, dates_loop-ends}
use booking_backend.Examples.{utc_env, utc_face, course, ann, booked_world, day_ns}

day_bookings_same_example :
    keep (is_booked_in day_ns (2 * day_ns)) (list_by_range "course" 0 (3 * day_ns) booked_world.db)
    ≡ list_by_range "course" day_ns (2 * day_ns) booked_world.db
day_bookings_same_example =
    day_bookings_same "course" 0 (3 * day_ns) day_ns (2 * day_ns) booked_world.db (omega arith)
      (omega arith)

half_hour : IsI32 (pos 30)
half_hour = record { above = omega arith; below = omega arith }

dates_loop-ends_example :
    (dates_loop utc_env course (ann ∷ []) [] none 3 (dates_fuel 1 3) 1 booked_world).0 ≢ diverge
dates_loop-ends_example =
    dates_loop-ends utc_env utc_face course half_hour (ann ∷ []) [] none 1 3 booked_world
