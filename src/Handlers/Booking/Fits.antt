-- ===== src/Handlers/Booking/Fits.antt =====
-- A booking that api/handlers/booking.rs makes fits the schedule of its day.
use booking_backend.Prelude.{
  ◌≡◌, ◌∙◌, sym, ap, subst, [], ℕ, ◌<◌, pos, inl, inr, String, Option, some, none, List, true,
  false, arith, ◌==◌, Bool-cases, suc, ltb,
}
use booking_backend.Text.{contains}
use booking_backend.Text.Sorted.{contains-In}
use booking_backend.Outcome.{Outcome, ok}
use booking_backend.Models.{NaiveDate, NaiveTime, Instant, Event, Booking}
use booking_backend.Env.{Env}
use booking_backend.Availability.{calculate_slots, is_unavailable, timezone}
use booking_backend.Availability.Offers.{ClockFace}
use booking_backend.Availability.Days.{DayOffers, calculate_slots_iff}
use booking_backend.Db.{Db, St}
use booking_backend.Db.Bookings.{list_by_range}
use booking_backend.Db.Schedule.{find_event_by_slug}
use booking_backend.Handlers.{parse_clock}
use booking_backend.Handlers.Booking.{CreateBookingRequest, create_booking}
use booking_backend.Handlers.Booking.Offer.{IsOffered}
use booking_backend.Handlers.Booking.Booked.{create_booking-ok}

module _ (env : Env) (event : Event) (date : NaiveDate) (start now : Instant) (db : Db) where
  -- The description of `calculate_slots` for the slot `start`, at the bookings that the tables have.
  pub record Fits (minutes step : ℕ) : Type 0 where
    pub slot : IsOffered env event date start now db
    pub offers :
        DayOffers env event date
          (list_by_range event.id slot.day_start slot.day_end db)
          slot.rule
          now
          minutes
          step
          (env.to_rfc3339 start)

  open_day :
      (o : IsOffered env event date start now db)
      → (event.schedule_type == "MANUAL") ≡ false
      → is_unavailable o.rule ≡ false
  unfolding calculate_slots
  open_day o recurring = elim (Bool-cases (is_unavailable o.rule)) [
    | inr e ↦ e
    | inl e ↦
        let none_left : ◌≡◌ {A = Outcome (List String)} (ok []) (ok o.slots) =
          rw (recurring, e) at o.offered in
        let listed = o.listed in
        let empty : o.slots ≡ [] = ground arith in
        let nowhere : contains (env.to_rfc3339 start) [] ≡ true = rw empty at listed in ground arith
  ]

  pub IsOffered-Fits :
      (minutes step : ℕ) (o : IsOffered env event date start now db)
      → ClockFace env
      → (event.schedule_type == "MANUAL") ≡ false
      → event.duration_min ≡ pos minutes
      → event.interval_min ≡ pos step
      → 0 < minutes
      → 0 < step
      → minutes < 2147483648
      → step < 2147483648
      → Fits minutes step
  IsOffered-Fits minutes step o face recurring d i m p short near = record {
    slot = o;
    offers =
        (calculate_slots_iff env event date _ o.rule o.sessions now minutes step o.slots _ face
            recurring (open_day o recurring) d i m p short near o.offered).0
          (contains-In _ o.slots o.listed);
  }

-- For an event with windows whose duration and interval are positive and fit an `i32`, on a clock
-- whose hours are below 24 and minutes below 60: a booking is made only for a start that a window
-- of its day offers. It stands a whole number of intervals after the start of the window, ends
-- within the window and the active range of the event, keeps the notice, counted from the second reading of
-- the clock that the request makes, and has in each of its minutes a count, of the bookings that the tables
-- have before it, below the capacity. The start is the local date and time of the request, and not before the
-- first reading of the clock.
pub create_booking-Fits :
    (env : Env) (tenant slug : String) (payload : CreateBookingRequest) (event : Event)
    (minutes step : ℕ) (s t : St) (b : Booking)
    → ClockFace env
    → find_event_by_slug tenant slug s.db ≡ some event
    → (event.schedule_type == "MANUAL") ≡ false
    → event.duration_min ≡ pos minutes
    → event.interval_min ≡ pos step
    → 0 < minutes
    → 0 < step
    → minutes < 2147483648
    → step < 2147483648
    → create_booking env tenant slug payload s ≡ (ok b, t)
    → (date : NaiveDate) × (time : NaiveTime) × (env.parse_date payload.date ≡ some date)
      × (parse_clock env
            (timezone env event)
            "Invalid ISO time format"
            "Invalid time format (HH:MM)"
            payload.time
          ≡ ok time)
      × (env.from_local (timezone env event) date time ≡ some b.start_time)
      × (ltb b.start_time (env.now_at s.calls) ≡ false)
      × Fits env event date b.start_time (env.now_at (suc s.calls)) s.db minutes step
create_booking-Fits env tenant slug payload event minutes step s t b face found recurring d i m p
      short near h =
    let (access, jobs, a, _, _, _) = create_booking-ok env tenant slug payload s t b h in
    let same : a.event ≡ event = some_eq (sym a.event_is ∙ found) in
    let now = env.now_at (suc s.calls) in
    let o : IsOffered env event a.date b.start_time now s.db =
      subst (λ (e : Event). IsOffered env e a.date b.start_time now s.db) same
        (a.free).slot.offer in
    (
      a.date,
      a.time,
      a.dated,
      subst
          (λ (e : Event).
            parse_clock env (timezone env e) "Invalid ISO time format" "Invalid time format (HH:MM)"
              payload.time
            ≡ ok a.time)
          same a.timed,
      subst (λ (e : Event). env.from_local (timezone env e) a.date a.time ≡ some b.start_time) same
          a.started,
      (a.free).future,
      IsOffered-Fits env event a.date b.start_time now s.db minutes step o face recurring d i m p
          short near,
    )
  where
    some_eq : {x y : Event} → some x ≡ some y → x ≡ y
    some_eq {x = x} e = ap (λ (o : Option Event). elim o [ none ↦ x | some z ↦ z ]) e
