-- ===== src/Handlers/Booking/Plan.antt =====
-- What `create_booking` and `reschedule_booking` do before they write only reads the tables.
use booking_backend.Prelude.{String, Option, List, [], ◌∷◌}
use booking_backend.Models.{Instant, NaiveDate, Event, Booking, NotificationRule}
use booking_backend.Env.{Env}
use booking_backend.Db.Rules.{Reads, reads_rules, Reads-pure, Reads-bind}
use booking_backend.Db.Jobs.{new_job}
use booking_backend.Handlers.{day_range, override_of, sessions_of}
use booking_backend.Handlers.Booking.{
  check_access, new_booking, NewBookingParams, reminder, rule_jobs, jobs_of, check_slot,
  plan_booking, CreateBookingRequest, sessions_listed,
}
use booking_backend.Handlers.Booking.Update.{move_booking}
use booking_backend.Handlers.Booking.Manage.{plan_reschedule, RescheduleBookingRequest}

Reads-check_access : (event : Event) (token : Option String) → Reads (check_access event token)
unfolding check_access
Reads-check_access event token = search reads_rules

Reads-override_of : (event : Event) (date : NaiveDate) → Reads (override_of event date)
unfolding override_of
Reads-override_of event date = search reads_rules

Reads-sessions_of :
    (event : Event) (day_start day_end start end : Instant) (message : String)
    → Reads (sessions_of event day_start day_end start end message)
unfolding sessions_of
Reads-sessions_of event day_start day_end start end message = search reads_rules

Reads-sessions_listed :
    (event : Event) (day_start day_end : Instant) → Reads (sessions_listed event day_start day_end)
unfolding sessions_listed
Reads-sessions_listed event day_start day_end = search reads_rules

Reads-new_job :
    (env : Env) (kind id tenant : String) (at : Instant) → Reads (new_job env kind id tenant at)
unfolding new_job
Reads-new_job env kind id tenant at = search reads_rules

module _ (env : Env) where
  Reads-day_range : (event : Event) (date : NaiveDate) → Reads (day_range env event date)
  unfolding day_range
  Reads-day_range event date = search reads_rules

  Reads-new_booking : (params : NewBookingParams) → Reads (new_booking env params)
  unfolding new_booking
  Reads-new_booking params = search reads_rules

  Reads-reminder : (id tenant : String) (at : Instant) → Reads (reminder env id tenant at)
  unfolding reminder
  Reads-reminder id tenant at = search (reads_rules, Reads-new_job)

  Reads-rule_jobs :
      (booking : Booking) (tenant : String) (rule : NotificationRule)
      → Reads (rule_jobs env booking tenant rule)
  unfolding rule_jobs
  Reads-rule_jobs booking tenant rule = search (reads_rules, Reads-new_job, Reads-reminder)

  Reads-jobs_of :
      (booking : Booking) (tenant : String) (rules : List NotificationRule)
      → Reads (jobs_of env booking tenant rules)
  unfolding jobs_of
  Reads-jobs_of booking tenant [] = search reads_rules
  Reads-jobs_of booking tenant (rule ∷ rules) =
      Reads-bind _ _ (Reads-rule_jobs booking tenant rule)
        λ first. Reads-bind _ _ (Reads-jobs_of booking tenant rules) λ others. Reads-pure _

  Reads-check_slot :
      (event : Event) (date : NaiveDate) (start : Instant) → Reads (check_slot env event date start)
  unfolding check_slot
  Reads-check_slot event date start =
      search (reads_rules, Reads-day_range, Reads-override_of, Reads-sessions_of) depth 20

  -- Up to its one transaction, `create_booking` only reads the tables.
  pub Reads-plan_booking :
      (tenant slug : String) (payload : CreateBookingRequest)
      → Reads (plan_booking env tenant slug payload)
  unfolding plan_booking
  Reads-plan_booking tenant slug payload =
      search (reads_rules, Reads-check_access, Reads-check_slot, Reads-new_booking, Reads-jobs_of)
        depth 20

  pub Reads-plan_reschedule :
      (token : String) (payload : RescheduleBookingRequest)
      → Reads (plan_reschedule env token payload)
  unfolding plan_reschedule
  Reads-plan_reschedule token payload =
      search (reads_rules, Reads-day_range, Reads-override_of, Reads-sessions_of) depth 30

  pub Reads-move_booking :
      (tenant : String) (booking : Booking) (date time : String)
      → Reads (move_booking env tenant booking date time)
  unfolding move_booking
  Reads-move_booking tenant booking date time =
      search (reads_rules, Reads-day_range, Reads-override_of, Reads-sessions_listed) depth 30
