-- ===== src/Handlers/Booking/Booked.antt =====
-- What a booking that `create_booking` (api/handlers/booking.rs) makes has passed.
use booking_backend.Prelude.{
  ◌≡◌, refl, suc, Option, String, some, none, List, any, ◌==◌, true, false,
}
use booking_backend.Outcome.{ok, ok_or-ok}
use booking_backend.Models.{NaiveDate, NaiveTime, Instant, Event, Booking, Job, add_minutes}
use booking_backend.Env.{Env}
use booking_backend.Availability.{timezone}
use booking_backend.Db.{St}
use booking_backend.Db.Rules.{reads-ok, lift-ok, query_or-ok, query-ok, pure-ok, bind-ok}
use booking_backend.Db.Still.{Still, still_rules, still-ok}
use booking_backend.Db.Bookings.Writes.{create_with_token-ok, with_booking, can_burn}
use booking_backend.Db.Jobs.{get_rules_by_event}
use booking_backend.Db.Schedule.{find_event_by_slug}
use booking_backend.Handlers.{parse_clock, num_minutes, to_i32}
use booking_backend.Handlers.Booking.{
  CreateBookingRequest, Access, check_access, plan_booking, create_booking,
}
use booking_backend.Handlers.Booking.Plan.{Reads-plan_booking}
use booking_backend.Handlers.Booking.Create.{IsAdmitted, check_access-ok}
use booking_backend.Handlers.Booking.Offer.{IsFree, check_slot-ok}
use booking_backend.Handlers.Booking.Planned.{RuleJobs, jobs_of-ok, new_booking-ok}

Still-check_access : (event : Event) (token : Option String) → Still (check_access event token)
unfolding check_access
Still-check_access event token = search still_rules depth 10

module _ (env : Env) (tenant slug : String) (payload : CreateBookingRequest) where
  -- The booking `b` and its jobs answer the request, which came in the state `s`.
  pub record Accepted (b : Booking) (access : Access) (jobs : List Job) (s : St) : Type 0 where
    pub event : Event
    pub date : NaiveDate
    pub time : NaiveTime
    pub slot_end : Instant
    pub event_is : find_event_by_slug tenant slug s.db ≡ some event
    pub admitted : IsAdmitted event payload.token s.db access
    pub dated : env.parse_date payload.date ≡ some date
    pub timed :
        parse_clock env
          (timezone env event)
          "Invalid ISO time format"
          "Invalid time format (HH:MM)"
          payload.time
        ≡ ok time
    pub started : env.from_local (timezone env event) date time ≡ some b.start_time
    pub free : IsFree env event date b.start_time slot_end b.location s.calls s.db
    -- The row; its length is that of the slot in whole minutes.
    pub row : b ≡ record {
      id = b.id;
      tenant_id = tenant;
      event_id = event.id;
      invitee_id = access.invitee_id;
      start_time = b.start_time;
      end_time = add_minutes b.start_time (to_i32 (num_minutes b.start_time slot_end));
      customer_name = payload.name;
      customer_email = payload.email;
      customer_note = payload.notes;
      location = b.location;
      label_id = none;
      status = "CONFIRMED";
      management_token = env.random_at (suc (suc s.calls));
      token = none;
      payout = none;
      created_at = b.created_at;
    }
    pub planned :
        RuleJobs env tenant b
          (suc (suc (suc (suc (suc s.calls)))))
          (get_rules_by_event event.id s.db)
          jobs

  plan_booking-ok :
      (s u : St) (plan : Booking × Access × List Job)
      → plan_booking env tenant slug payload s ≡ (ok plan, u)
      → Accepted plan.0 plan.1 plan.2 s
  unfolding plan_booking
  plan_booking-ok s u plan h = query_or-ok _ s _ _ h λ event event_is h₁.
      still-ok _ s _ (Still-check_access event payload.token) h₁ λ access u₁ entered h₂.
        lift-ok _ s _ h₂ λ date dated h₃. lift-ok _ s _ h₃ λ time timed h₄.
          lift-ok _ s _ h₄ λ start started h₅. bind-ok _ _ s h₅ λ slot s₂ slotted h₆.
            bind-ok _ _ s₂ h₆ λ booking s₃ made h₇.
              bind-ok _ _ s₃ (query-ok _ s₃ _ h₇) λ jobs s₄ queued h₈.
                let (free, starts, s₂_is) = check_slot-ok env event date start s s₂ slot slotted in
                let (row, s₃_is) = new_booking-ok env _ s₂ s₃ booking made in
                let (is_plan, _) = pure-ok _ s₄ h₈ in
                let planned = jobs_of-ok env tenant booking _ s₃ s₄ jobs queued in
                rw is_plan (record {
                  event = event;
                  date = date;
                  time = time;
                  slot_end = slot.end_time;
                  event_is = event_is;
                  admitted = check_access-ok event payload.token s u₁ access entered;
                  dated = ok_or-ok _ _ dated;
                  timed = timed;
                  started = rw row (ok_or-ok _ _ started);
                  free = rw row free;
                  row = rw (row, starts, s₂_is) refl;
                  planned = rw (s₃_is, s₂_is) at planned;
                })

  -- A booking that is created answers the request, checked on the tables as they were when it came. The event
  -- exists and the customer is admitted. The start is the local date and time of the request; it is not before
  -- the first reading of the clock, within the active range of the event, and one of the slots that
  -- `calculate_slots` offers on that day at the second reading. The booking is confirmed, has the end and the
  -- place of that slot and the request's data, and stands at the end of its table under an identifier that was
  -- free. Its token, if any, was active and is used up. The queue gets a confirmation for each rule on bookings
  -- and a reminder for each rule whose time is still ahead, in the order of the rules. Nothing else changed.
  pub create_booking-ok :
      (s t : St) (b : Booking)
      → create_booking env tenant slug payload s ≡ (ok b, t)
      → (access : Access) × (jobs : List Job) × Accepted b access jobs s
        × (any (λ (r : Booking). r.id == b.id) s.db.bookings ≡ false)
        × (can_burn access.token_to_burn s.db.invitees ≡ true)
        × (t.db ≡ with_booking b access.token_to_burn jobs s.db)
  unfolding create_booking
  create_booking-ok s t b h =
      reads-ok _ s _ (Reads-plan_booking env tenant slug payload) h λ plan u same planned written.
        let (is_plan, free, active, table) =
          create_with_token-ok plan.0 (plan.1).token_to_burn plan.2 u t b written in
        let accepted = plan_booking-ok s u plan planned in
        (
          plan.1,
          plan.2,
          rw is_plan accepted,
          rw (is_plan, ← same) free,
          rw (← same) active,
          rw (is_plan, ← same) table,
        )
