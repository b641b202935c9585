-- ===== src/Handlers/Events/Calendar.antt =====
-- The days of `get_available_dates` (api/handlers/event.rs).
use booking_backend.Prelude.{
  ℕ, zero, suc, ◌+◌, ◌-◌, ◌≤◌, ◌<◌, ◌≡◌, ◌≢◌, refl, String, Bool, true, false, Option, List, [],
  ◌∷◌, arith, IsI32, leb, keep, if◌then◌else◌,
}
use booking_backend.Outcome.{Outcome, ok, err, panic, diverge}
use booking_backend.Models.{Instant, NaiveDate, Event, Booking, EventOverride, EventSession}
use booking_backend.Env.{Env}
use booking_backend.Availability.{timezone, day_bound}
use booking_backend.Availability.Offers.{ClockFace}
use booking_backend.Availability.Days.{calculate_slots-ne-diverge}
use booking_backend.Db.{Db, St, Exec, continue, pure, lift, utc_now, ◌>>=◌}
use booking_backend.Db.Bookings.{is_live_in, list_by_range}
use booking_backend.Handlers.{day_range}
use booking_backend.Handlers.Events.{is_booked_in, offers_slots, has_slots, dates_loop, dates_fuel}

keep-keep :
    (event_id : String) (start end day_start day_end : Instant) (bs : List Booking)
    → start ≤ day_start
    → day_end ≤ end
    → keep (is_booked_in day_start day_end) (keep (is_live_in event_id start end) bs)
      ≡ keep (is_live_in event_id day_start day_end) bs
keep-keep event_id start end day_start day_end [] below above = refl
keep-keep event_id start end day_start day_end (b ∷ bs) below above =
    let rest = keep-keep event_id start end day_start day_end bs below above in ground arith

-- The bookings that the calendar picks out of its range for one of its days are those that are read for
-- the slots of that day.
pub day_bookings_same :
    (event_id : String) (start end day_start day_end : Instant) (db : Db)
    → start ≤ day_start
    → day_end ≤ end
    → keep (is_booked_in day_start day_end) (list_by_range event_id start end db)
      ≡ list_by_range event_id day_start day_end db
unfolding list_by_range
day_bookings_same event_id start end day_start day_end db below above =
    keep-keep event_id start end day_start day_end db.bookings below above

-- An action that ends.
pub record Ends {A : Type 0} (m : Exec A) : Type 0 where
  pub at : (s : St) → (m s).0 ≢ diverge

module _ {A B : Type 0} where
  continue-Ends :
      (r : Outcome A) (f : A → Exec B) (s : St)
      → r ≢ diverge
      → ((a : A) → Ends (f a))
      → (continue r f s).0 ≢ diverge
  continue-Ends (ok a) f s h k = (k a).at s
  continue-Ends (err e) f s h k = λ e. ground arith
  continue-Ends panic f s h k = λ e. ground arith
  continue-Ends diverge f s h k = absurd (h refl)

  Ends-bind : (m : Exec A) (f : A → Exec B) → Ends m → ((a : A) → Ends (f a)) → Ends (m >>= f)
  unfolding ◌>>=◌
  Ends-bind m f k l = record { at = λ s. let (r, s') = m s in continue-Ends r f s' (k.at s) l }

Ends-if : {A : Type 0} (b : Bool) (m n : Exec A) → Ends m → Ends n → Ends (if b then m else n)
Ends-if true m n k l = k
Ends-if false m n k l = l

Ends-pure : {A : Type 0} (a : A) → Ends (pure a)
unfolding pure
Ends-pure a = record { at = λ s e. ground arith }

Ends-lift : {A : Type 0} (r : Outcome A) → r ≢ diverge → Ends (lift r)
unfolding lift
Ends-lift r h = record { at = λ s e. h e }

Ends-utc_now : (env : Env) → Ends (utc_now env)
unfolding utc_now
Ends-utc_now env = record { at = λ s e. ground arith }

module _ (env : Env) where
  day_bound-ends :
      (tz : env.Tz) (date : NaiveDate) (h m s : ℕ) → day_bound env tz date h m s ≢ diverge
  unfolding day_bound
  day_bound-ends tz date h m s e = ground arith

  Ends-day_range : (event : Event) (date : NaiveDate) → Ends (day_range env event date)
  unfolding day_range
  Ends-day_range event date =
      Ends-bind _ _ (Ends-lift _ (day_bound-ends (timezone env event) date 0 0 0)) λ _.
        Ends-bind _ _ (Ends-lift _ (day_bound-ends (timezone env event) date 23 59 59))
          λ _. Ends-pure _

  module _ (face : ClockFace env) (event : Event) (range : IsI32 event.interval_min)
      (bookings : List Booking) (overrides : List EventOverride)
      (sessions : Option (List EventSession)) where
    Ends-has_slots :
        (date : NaiveDate) → Ends (has_slots env event bookings overrides sessions date)
    unfolding has_slots offers_slots
    Ends-has_slots date = Ends-bind _ _ (Ends-day_range event date) λ bounds.
        Ends-if _ _ _
          (Ends-bind _ _ (Ends-utc_now env) λ now.
            Ends-bind _ _
              (Ends-lift _ (calculate_slots-ne-diverge env event date _ _ sessions now face range))
              λ slots. Ends-pure _)
          (Ends-pure _)

    Ends-dates_loop :
        (end : NaiveDate) (fuel : ℕ) (current : NaiveDate)
        → end < current + fuel
        → Ends (dates_loop env event bookings overrides sessions end (suc fuel) current)
    unfolding dates_loop
    Ends-dates_loop end zero current enough =
        let past : leb current end ≡ false = ground arith in rw past (Ends-pure _)
    Ends-dates_loop end (suc fuel) current enough =
        Ends-if _ _ _
          (Ends-bind _ _ (Ends-has_slots current) λ listed.
            Ends-bind _ _ (Ends-dates_loop end fuel (current + 1) (omega arith))
              λ others. Ends-pure _)
          (Ends-pure _)

    -- For every event whose interval fits an `i32`, on a clock whose hours are below 24 and
    -- minutes below 60, the search through the days of a range ends, whatever the range and the
    -- tables: the fuel is one round for each day and one more.
    pub dates_loop-ends :
        (start end : NaiveDate) (s : St)
        → (dates_loop env event bookings overrides sessions end (dates_fuel start end) start s).0
          ≢ diverge
    dates_loop-ends start end s = (Ends-dates_loop end (end + 1 - start) start (omega arith)).at s
