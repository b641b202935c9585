-- ===== src/Handlers/Booking/Manage/Move.antt =====
-- `reschedule_booking` (api/handlers/booking_management.rs): what it asks before it writes.
use booking_backend.Prelude.{
  ◌≡◌, ◌∙◌, sym, ap, subst, refl, find, ◌∷◌, ◌++◌, All, String, true, false, none, some, List, [],
  arith, ◌==◌,
}
use booking_backend.Outcome.{ok, ok_or-ok, unwrap-ok}
use booking_backend.Models.{Instant, NaiveDate, NaiveTime, Event, Booking, Job, NotificationRule}
use booking_backend.Env.{Env}
use booking_backend.Db.{Db, St, pure, query, ◌>>=◌, ◌>>◌, execute, update_where}
use booking_backend.Db.Rules.{
  reads-ok, lift-ok, query_or-ok, bind-ok, query-ok, reject-ok, pure-ok, Reads-utc_now, Reads-pure,
  Reads-query,
}
use booking_backend.Db.Queues.{
  Queues, Queues-ok, Queues-Reads, Queues-bind, Queues-if, Queues-on_option, Queues-create,
  Queues-new_job,
}
use booking_backend.Db.Jobs.{
  cancel_jobs_for_booking, cancel_pending, get_rules_by_trigger, get_rules_by_event,
}
use booking_backend.Db.Bookings.{find_by_token, is_booking_of, update_row}
use booking_backend.Db.Bookings.Changes.{update-ok}
use booking_backend.Db.Schedule.{find_event_by_id}
use booking_backend.Handlers.Booking.Plan.{Reads-plan_reschedule}
use booking_backend.Db.Clock.{utc_now-ok}
use booking_backend.Db.Still.{still-ok}
use booking_backend.Availability.{timezone}
use booking_backend.Handlers.{parse_clock}
use booking_backend.Handlers.Booking.Offer.{
  IsSlot, taken-IsSlot, Still-day_range, Still-override_of, Still-sessions_of,
}
use booking_backend.Handlers.Booking.Manage.{
  RescheduleBookingRequest, plan_reschedule, reschedule_booking, notify, schedule_at, remind,
  schedule_reminders,
}

module _ (env : Env) (token : String) (payload : RescheduleBookingRequest) where
  -- The booking `b` is the one that the token names, moved to the slot that the request names, which is
  -- offered in the state `s` at its next reading of the clock.
  pub record Moved (b : Booking) (event : Event) (s : St) : Type 0 where
    pub old : Booking
    pub date : NaiveDate
    pub time : NaiveTime
    pub named : find_by_token token s.db ≡ some old
    pub live : (old.status == "CANCELLED") ≡ false
    pub event_is : find_event_by_id old.tenant_id old.event_id s.db ≡ some event
    pub allowed : event.allow_customer_reschedule ≡ true
    pub dated : env.parse_date payload.date ≡ some date
    pub timed :
        parse_clock env (timezone env event) "Invalid ISO time" "Invalid time" payload.time
        ≡ ok time
    pub started : env.from_local (timezone env event) date time ≡ some b.start_time
    pub slot : IsSlot env event date b.start_time b.end_time b.location (env.now_at s.calls) s.db
    pub same :
        b ≡ record old { start_time = b.start_time; end_time = b.end_time; location = b.location }

  plan_reschedule-ok :
      (s u : St) (b : Booking) (event : Event)
      → plan_reschedule env token payload s ≡ (ok (b, event), u)
      → Moved b event s
  unfolding plan_reschedule
  plan_reschedule-ok s u b event h = query_or-ok _ s _ _ h λ old named h₁.
      reject-ok _ s _ _ h₁ λ live h₂. query_or-ok _ s _ _ h₂ λ found event_is h₃.
        reject-ok _ s _ _ h₃ λ allowed h₄. lift-ok _ s _ h₄ λ date dated h₅.
          lift-ok _ s _ h₅ λ time timed h₆. lift-ok _ s _ h₆ λ start started h₇.
            still-ok _ s _ (Still-day_range env found date) h₇ λ range u₁ bounds h₈.
              still-ok _ s _ (Still-override_of found date) (query-ok _ s _ h₈) λ rule u₂ ruled h₉.
                reject-ok _ s _ _ h₉ λ open_day h₁₀.
                  still-ok _ s _ (Still-sessions_of found range.0 range.1 start _ _) h₁₀
                    λ day u₃ of_day h₁₁. bind-ok _ _ s h₁₁ λ now s₁ read h₁₂.
                      lift-ok _ s₁ _ h₁₂ λ slots offered h₁₃. reject-ok _ s₁ _ _ h₁₃ λ listed h₁₄.
                        let now_is = (utc_now-ok env now s s₁ read).0 in
                        let taken =
                          taken-IsSlot env found date start _ s u₁ u₂ u₃ range rule day slots now
                            bounds ruled of_day open_day offered (ground arith) in
                        subst (λ (p : Booking × Event). Moved p.0 p.1 s) (sym (pure-ok _ s₁ h₁₄).0)
                          (record {
                            old = old;
                            date = date;
                            time = time;
                            named = named;
                            live = live;
                            event_is = event_is;
                            allowed = ground arith;
                            dated = ok_or-ok _ _ dated;
                            timed = timed;
                            started = unwrap-ok _ started;
                            slot = rw (← now_is) taken;
                            same = refl;
                          })

-- A job that waits for the booking `id`.
pub record IsWaiting (id : String) (j : Job) : Type 0 where
  pub of_booking : j.payload.booking_id ≡ id
  pub status : j.status ≡ "PENDING"

module _ (env : Env) where
  -- The jobs of `notify` have a property that holds of every new job of their type and booking.
  pub Queues-notify :
      (P : Job → Type 0) (kind : String) (booking : Booking) (rules : List NotificationRule)
      → ((id : String) (at made : Instant)
          → P (record {
            id = id;
            job_type = kind;
            payload = record { booking_id = booking.id; tenant_id = booking.tenant_id };
            execute_at = at;
            status = "PENDING";
            error_message = none;
            created_at = made;
          }))
      → Queues P (notify env kind booking rules)
  unfolding notify
  Queues-notify P kind booking [] p = Queues-Reads _ _ (Reads-pure _)
  Queues-notify P kind booking (rule ∷ rules) p =
      Queues-bind _ _ _ (Queues-Reads _ _ (Reads-utc_now env)) λ now.
        Queues-new_job _ env kind booking.id booking.tenant_id now _ λ id made.
          Queues-bind _ _ _ (Queues-create _ _ (p id now made))
            λ _. Queues-notify P kind booking rules p

  Queues-schedule_at :
      (booking : Booking) (rule : NotificationRule) (at : Instant)
      → Queues (IsWaiting booking.id) (schedule_at env booking rule at)
  unfolding schedule_at
  Queues-schedule_at booking rule at =
      Queues-new_job _ env rule.trigger_type booking.id booking.tenant_id at _ λ id made.
        Queues-bind _ _ _ (Queues-create _ _ (record { of_booking = refl; status = refl }))
          λ _. Queues-Reads _ _ (Reads-pure _)

  Queues-remind :
      (booking : Booking) (rule : NotificationRule)
      → Queues (IsWaiting booking.id) (remind env booking rule)
  unfolding remind
  Queues-remind booking rule = Queues-on_option _ _ _ _ (Queues-Reads _ _ (Reads-pure _)) λ at.
      Queues-bind _ _ _ (Queues-Reads _ _ (Reads-utc_now env)) λ now.
        Queues-if _ _ _ _ (Queues-schedule_at booking rule at) (Queues-Reads _ _ (Reads-pure _))

  Queues-schedule_reminders :
      (booking : Booking) (rules : List NotificationRule)
      → Queues (IsWaiting booking.id) (schedule_reminders env booking rules)
  unfolding schedule_reminders
  Queues-schedule_reminders booking [] = Queues-Reads _ _ (Reads-pure _)
  Queues-schedule_reminders booking (rule ∷ rules) =
      Queues-bind _ _ _ (Queues-remind booking rule) λ _. Queues-schedule_reminders booking rules

pub cancel_jobs-ok :
    (id : String) (s u : St) (x : Unit {0})
    → cancel_jobs_for_booking id s ≡ (ok x, u)
    → u.db ≡ record s.db { jobs = cancel_pending id s.db.jobs }
unfolding cancel_jobs_for_booking execute
cancel_jobs-ok id s u x h = ground arith

module _ (env : Env) (token : String) (payload : RescheduleBookingRequest) where
  -- The tables after a booking is moved: its row, or rows, have the new slot, its waiting jobs are
  -- cancelled, and jobs that wait for it are added.
  pub record IsMoved (b c : Booking) (old new : Db) : Type 0 where
    pub row :
        find (is_booking_of b) (update_where (is_booking_of b) (update_row b) old.bookings) ≡ some c
    pub added : List Job
    pub waiting : All (IsWaiting c.id) added
    pub tables : new ≡ record old {
      bookings = update_where (is_booking_of b) (update_row b) old.bookings;
      jobs = cancel_pending c.id old.jobs ++ added;
    }

  -- A move that succeeds is of the live booking that the token names, whose event lets customers move bookings.
  -- The new start is the local date and time of the request, and one of the slots that `calculate_slots` offers
  -- on that day at the request's first reading of the clock. The booking keeps all else but the end and the place,
  -- which are those of the slot. Its row is written, the jobs that waited for it are cancelled, only jobs that
  -- wait for it are added, and nothing else changes.
  pub reschedule_booking-ok :
      (s t : St) (c : Booking)
      → reschedule_booking env token payload s ≡ (ok c, t)
      → (b : Booking) × (event : Event) × Moved env token payload b event s × IsMoved b c s.db t.db
  unfolding reschedule_booking
  reschedule_booking-ok s t c h =
      reads-ok _ s _ (Reads-plan_reschedule env token payload) h λ plan s₁ d₁ planned h₁.
        bind-ok _ _ s₁ h₁ λ updated s₂ written h₂. bind-ok _ _ s₂ h₂ λ _ s₃ cancelled h₃.
          bind-ok _ _ s₃ (query-ok _ s₃ _ h₃) λ _ s₄ notified h₄.
            bind-ok _ _ s₄ (query-ok _ s₄ _ h₄) λ _ s₅ reminded h₅.
              let (row, db₂) = update-ok plan.0 updated s₁ s₂ written in
              let db₃ = cancel_jobs-ok updated.id s₂ s₃ _ cancelled in
              let (added, waiting, db₄) = Queues-ok _ _ (Queues-rest updated plan.1) s₃ h₃ in
              let same = (pure-ok updated s₅ h₅).0 in
              (
                plan.0,
                plan.1,
                plan_reschedule-ok env token payload s s₁ plan.0 plan.1 planned,
                record {
                  row = rw (same, ← d₁) row;
                  added = added;
                  waiting = rw same waiting;
                  tables =
                      rw (same, ← d₁)
                        (db₄
                          ∙ ap (λ (db : Db). record db { jobs = db.jobs ++ added })
                              (db₃
                                ∙ ap
                                    (λ (db : Db). record db {
                                      jobs = cancel_pending updated.id db.jobs;
                                    })
                                    db₂));
                },
              )
    where
      Queues-rest :
          (updated : Booking) (event : Event)
          → Queues (IsWaiting updated.id) (
              query (get_rules_by_trigger updated.tenant_id event.id "ON_RESCHEDULE") >>= λ rules.
              notify env "RESCHEDULE" updated rules
              >> (query (get_rules_by_event event.id) >>= λ rules.
                  schedule_reminders env updated rules >> pure updated))
      Queues-rest updated event = Queues-bind _ _ _ (Queues-Reads _ _ (Reads-query _)) λ rules.
          Queues-bind _ _ _
            (Queues-notify env _ _ updated rules
              λ id at made. record { of_booking = refl; status = refl })
            λ _. Queues-bind _ _ _ (Queues-Reads _ _ (Reads-query _)) λ rules.
              Queues-bind _ _ _ (Queues-schedule_reminders env updated rules)
                λ _. Queues-Reads _ _ (Reads-pure _)
