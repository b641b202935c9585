-- ===== src/Handlers/Booking/Update/Offered.antt =====
-- What `update_booking` (api/handlers/booking.rs) asks before it writes, and what it writes.
use booking_backend.Prelude.{
  ◌≡◌, refl, sym, subst, inl, inr, String, Option, none, some, List, find, arith, ◌==◌, Bool-cases,
  Option-cases, if◌then◌else◌,
}
use booking_backend.Outcome.{ok, ok_or-ok}
use booking_backend.Models.{
  Instant, NaiveDate, NaiveTime, Event, EventSession, Booking, add_minutes,
}
use booking_backend.Env.{Env}
use booking_backend.Db.{St, Exec, pure, on_option, update_where}
use booking_backend.Db.Rules.{
  Reads, Reads-pure, Reads-on_option, reads-ok, lift-ok, query_or-ok, query-ok, reject-ok, pure-ok,
  bind-ok,
}
use booking_backend.Db.Bookings.{find_by_id, is_booking_of, update_row}
use booking_backend.Db.Bookings.Changes.{update-ok}
use booking_backend.Db.Schedule.{find_event_by_id, list_sessions_by_range}
use booking_backend.Handlers.Booking.{sessions_listed}
use booking_backend.Handlers.Booking.Plan.{Reads-move_booking}
use booking_backend.Handlers.{parse_clock}
use booking_backend.Handlers.Booking.Offer.{
  IsOffered, day_range-ok, override_of-ok, Still-day_range, Still-override_of,
}
use booking_backend.Db.Clock.{utc_now-ok}
use booking_backend.Db.Still.{Still, still_rules, still-ok}
use booking_backend.Availability.{timezone}
use booking_backend.Handlers.Booking.Update.{
  UpdateBookingRequest, end_of, edit_booking, move_booking, update_booking,
}

sessions_listed-ok :
    (event : Event) (day_start day_end : Instant) (s u : St) (found : Option (List EventSession))
    → sessions_listed event day_start day_end s ≡ (ok found, u)
    → found ≡ (
        if event.schedule_type == "MANUAL"
        then some (list_sessions_by_range event.id day_start day_end s.db)
        else none)
unfolding sessions_listed
sessions_listed-ok event day_start day_end s u found h =
    elim (Bool-cases (event.schedule_type == "MANUAL")) [
      | inl e ↦ rw e (pure-ok _ s (query-ok _ s _ (rw e at h))).0
      | inr e ↦ rw e (pure-ok _ s (rw e at h)).0
    ]

Still-sessions_listed :
    (event : Event) (day_start day_end : Instant) → Still (sessions_listed event day_start day_end)
unfolding sessions_listed
Still-sessions_listed event day_start day_end = search still_rules

module _ (env : Env) (tenant : String) where
  -- The booking `b` is `edited`, moved to the slot of the texts of a date and a time, which its event offers in
  -- the state `s` at its next reading of the clock. The end is that of the session which starts there, or else
  -- that of the event's duration.
  pub record IsPlaced (edited b : Booking) (date_str time_str : String) (s : St) : Type 0 where
    pub event : Event
    pub date : NaiveDate
    pub time : NaiveTime
    pub event_is : find_event_by_id tenant edited.event_id s.db ≡ some event
    pub dated : env.parse_date date_str ≡ some date
    pub timed :
        parse_clock env (timezone env event) "Invalid ISO time" "Invalid time" time_str ≡ ok time
    pub started : env.from_local (timezone env event) date time ≡ some b.start_time
    pub slot : IsOffered env event date b.start_time (env.now_at s.calls) s.db
    pub moved : b ≡ record edited {
      start_time = b.start_time;
      end_time = end_of slot.sessions b.start_time (add_minutes b.start_time event.duration_min);
    }

  move_booking-ok :
      (edited b : Booking) (date_str time_str : String) (s u : St)
      → move_booking env tenant edited date_str time_str s ≡ (ok b, u)
      → IsPlaced edited b date_str time_str s
  unfolding move_booking
  move_booking-ok edited b date_str time_str s u h = query_or-ok _ s _ _ h λ event event_is h₁.
      lift-ok _ s _ h₁ λ date dated h₂. lift-ok _ s _ h₂ λ time timed h₃.
        lift-ok _ s _ h₃ λ start started h₄.
          still-ok _ s _ (Still-day_range env event date) h₄ λ range u₁ bounds h₅.
            still-ok _ s _ (Still-override_of event date) (query-ok _ s _ h₅) λ rule u₂ ruled h₆.
              still-ok _ s _ (Still-sessions_listed event range.0 range.1) h₆
                λ found u₃ listed_sessions h₇. bind-ok _ _ s h₇ λ now s₁ read h₈.
                  lift-ok _ s₁ _ h₈ λ slots offered h₉. reject-ok _ s₁ _ _ h₉ λ listed h₁₀.
                    let now_is = (utc_now-ok env now s s₁ read).0 in
                    let (starts, ends) = day_range-ok env event date s u₁ range bounds in
                    subst (λ (b : Booking). IsPlaced edited b date_str time_str s)
                      (sym (pure-ok _ s₁ h₁₀).0)
                      (record {
                        event = event;
                        date = date;
                        time = time;
                        event_is = event_is;
                        dated = ok_or-ok _ _ dated;
                        timed = timed;
                        started = ok_or-ok _ _ started;
                        slot = record {
                          day_start = range.0;
                          day_end = range.1;
                          rule = rule;
                          sessions = found;
                          slots = slots;
                          rule_is = override_of-ok env event date s u₂ rule ruled;
                          sessions_are =
                              sessions_listed-ok event range.0 range.1 s u₃ found listed_sessions;
                          starts = starts;
                          ends = ends;
                          offered = rw (← now_is) offered;
                          listed = ground arith;
                        };
                        moved = refl;
                      })

  -- The booking `b` that a request makes of the edited one: it is moved where the request has a date and a time.
  pub data IsUpdated (payload : UpdateBookingRequest) (edited : Booking) (s : St)
      : Booking → Type 0 where
    no_date : payload.date ≡ none → IsUpdated payload edited s edited
    no_time : payload.time ≡ none → IsUpdated payload edited s edited
    placed :
        (date_str time_str : String) (b : Booking)
        → payload.date ≡ some date_str
        → payload.time ≡ some time_str
        → IsPlaced edited b date_str time_str s
        → IsUpdated payload edited s b

  abbrev moved : UpdateBookingRequest → Booking → Exec Booking
  moved payload edited =
      on_option payload.date (pure edited) λ date.
        on_option payload.time (pure edited) λ time. move_booking env tenant edited date time

  Reads-moved : (payload : UpdateBookingRequest) (edited : Booking) → Reads (moved payload edited)
  Reads-moved payload edited = Reads-on_option _ _ _ (Reads-pure _) λ date.
      Reads-on_option _ _ _ (Reads-pure _) λ time. Reads-move_booking env tenant edited date time

  moved-ok :
      (payload : UpdateBookingRequest) (edited b : Booking) (s u : St)
      → moved payload edited s ≡ (ok b, u)
      → IsUpdated payload edited s b
  unfolding on_option
  moved-ok payload edited b s u h = elim (Option-cases payload.date) [
    | inl e ↦ subst (IsUpdated payload edited s) (sym (pure-ok edited s (rw e at h)).0) (no_date e)
    | inr (date, e) ↦ elim (Option-cases payload.time) [
      | inl f ↦
          subst (IsUpdated payload edited s) (sym (pure-ok edited s (rw (e, f) at h)).0) (no_time f)
      | inr (time, f) ↦
          placed date time b e f (move_booking-ok edited b date time s u (rw (e, f) at h))
    ]
  ]

  -- An update that succeeds is of a booking of the tenant, and writes its row and nothing else. The booking has
  -- the request's edits. Where the request has a date and a time, its start is that local date and time, one
  -- of the slots that `calculate_slots` offers on that day at the request's reading of the clock, and its end is
  -- that of the session or of the event's duration; otherwise it is not moved.
  pub update_booking-ok :
      (id : String) (payload : UpdateBookingRequest) (s t : St) (c : Booking)
      → update_booking env tenant id payload s ≡ (ok c, t)
      → (old : Booking) × (b : Booking) × (find_by_id tenant id s.db ≡ some old)
        × IsUpdated payload (edit_booking payload old) s b
        × (find (is_booking_of b) (update_where (is_booking_of b) (update_row b) s.db.bookings)
            ≡ some c)
        × (t.db ≡ record s.db {
          bookings = update_where (is_booking_of b) (update_row b) s.db.bookings;
        })
  unfolding update_booking
  update_booking-ok id payload s t c h = query_or-ok _ s _ _ h λ old is_old h₁.
      reads-ok _ s _ (Reads-moved payload (edit_booking payload old)) h₁ λ b s₁ d₁ placed h₂.
        let (row, table) = update-ok b c s₁ t h₂ in
        (
          old,
          b,
          is_old,
          moved-ok payload (edit_booking payload old) b s s₁ placed,
          rw (← d₁) row,
          rw (← d₁) table,
        )
