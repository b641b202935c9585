-- ===== src/Handlers/Booking/Manage/Refused.antt =====
-- What `reschedule_booking` (api/handlers/booking_management.rs) leaves when it is refused.
use booking_backend.Prelude.{
  ◌≡◌, ◌∙◌, refl, Bool, true, false, String, Option, none, some, List, [], ◌∷◌, if◌then◌else◌,
  arith,
}
use booking_backend.Outcome.{Outcome, ok, err, panic, diverge, AppError, database}
use booking_backend.Models.{Booking, Job, NotificationRule, Instant}
use booking_backend.Env.{Env}
use booking_backend.Db.{
  Db, St, Exec, continue, pure, query, on_option, utc_now, new_uuid, fetch_one, execute, settle,
  ◌>>=◌,
}
use booking_backend.Db.Rules.{Reads}
use booking_backend.Db.Bookings.{update, insert_job_row}
use booking_backend.Db.Jobs.{new_job, create, cancel_jobs_for_booking}
use booking_backend.Handlers.Booking.Plan.{Reads-plan_reschedule}
use booking_backend.Handlers.Booking.Manage.{
  RescheduleBookingRequest, reschedule_booking, notify, schedule_at, remind, schedule_reminders,
}

-- A request is refused where it ends in an error that is not the database's, or in a panic.
abbrev pub is_database : AppError → Bool
is_database (database e) = true
is_database _ = false

abbrev pub is_refusal : {A : Type 0} → Outcome A → Bool
is_refusal (ok a) = false
is_refusal (err e) = if is_database e then false else true
is_refusal panic = true
is_refusal diverge = true

-- An action that is not refused: it succeeds, or the database fails.
record Obeys {A : Type 0} (m : Exec A) : Type 0 where
  pub at : (s : St) → is_refusal (m s).0 ≡ false

module _ {A : Type 0} where
  Obeys-pure : (a : A) → Obeys (pure a)
  unfolding pure
  Obeys-pure a = record { at = λ s. refl }

  Obeys-query : (f : Db → A) → Obeys (query f)
  unfolding query
  Obeys-query f = record { at = λ s. refl }

  Obeys-if : (b : Bool) (m n : Exec A) → Obeys m → Obeys n → Obeys (if b then m else n)
  Obeys-if true m n km kn = km
  Obeys-if false m n km kn = kn

  settle-refusal :
      (r : Outcome (A × Db)) (s : St) → is_refusal r ≡ false → is_refusal (settle r s).0 ≡ false
  settle-refusal (ok a) s h = refl
  settle-refusal (err e) s h = h
  settle-refusal panic s h = h
  settle-refusal diverge s h = h

  Obeys-execute :
      (f : Db → Outcome (A × Db)) → ((db : Db) → is_refusal (f db) ≡ false) → Obeys (execute f)
  unfolding execute
  Obeys-execute f k = record { at = λ s. settle-refusal (f s.db) s (k s.db) }

  fetch_one-refusal : (o : Option A) (db : Db) → is_refusal (fetch_one o db) ≡ false
  fetch_one-refusal none db = refl
  fetch_one-refusal (some a) db = refl

module _ {A B : Type 0} where
  continue-refusal :
      (r : Outcome A) (f : A → Exec B) (s : St)
      → is_refusal r ≡ false
      → ((a : A) → Obeys (f a))
      → is_refusal (continue r f s).0 ≡ false
  continue-refusal (ok a) f s h k = (k a).at s
  continue-refusal (err e) f s h k = h
  continue-refusal panic f s h k = h
  continue-refusal diverge f s h k = h

  Obeys-bind : (m : Exec A) (f : A → Exec B) → Obeys m → ((a : A) → Obeys (f a)) → Obeys (m >>= f)
  unfolding ◌>>=◌
  Obeys-bind m f km kf = record { at = λ s. continue-refusal (m s).0 f (m s).1 (km.at s) kf }

  Obeys-on_option :
      (o : Option A) (m : Exec B) (f : A → Exec B)
      → Obeys m
      → ((a : A) → Obeys (f a))
      → Obeys (on_option o m f)
  unfolding on_option
  Obeys-on_option none m f km kf = km
  Obeys-on_option (some a) m f km kf = kf a

module _ {A B : Type 0} where
  continue-kept :
      (r : Outcome A) (f : A → Exec B) (s : St)
      → ((a : A) → Obeys (f a))
      → is_refusal (continue r f s).0 ≡ true
      → (continue r f s).1.db ≡ s.db
  continue-kept (ok a) f s k h = absurd (let obeys = (k a).at s in ground arith)
  continue-kept (err e) f s k h = refl
  continue-kept panic f s k h = refl
  continue-kept diverge f s k h = refl

  -- What reads the tables and then is not refused keeps them where it is refused.
  bind-refusal :
      (m : Exec A) (f : A → Exec B) (s : St)
      → Reads m
      → ((a : A) → Obeys (f a))
      → is_refusal ((m >>= f) s).0 ≡ true
      → ((m >>= f) s).1.db ≡ s.db
  unfolding ◌>>=◌
  bind-refusal m f s reads obeys h = continue-kept (m s).0 f (m s).1 obeys h ∙ reads.at s

Obeys-update : (b : Booking) → Obeys (update b)
unfolding update
Obeys-update b = Obeys-execute _ λ db. fetch_one-refusal _ _

Obeys-cancel_jobs : (id : String) → Obeys (cancel_jobs_for_booking id)
unfolding cancel_jobs_for_booking
Obeys-cancel_jobs id = Obeys-execute _ λ db. refl

insert_job-refusal : (j : Job) (db : Db) → is_refusal (insert_job_row j db) ≡ false
unfolding insert_job_row
insert_job-refusal j db = ground arith

Obeys-create : (j : Job) → Obeys (create j)
unfolding create
Obeys-create j = Obeys-execute _ (insert_job-refusal j)

module _ (env : Env) where
  Obeys-utc_now : Obeys (utc_now env)
  unfolding utc_now
  Obeys-utc_now = record { at = λ s. refl }

  Obeys-new_uuid : Obeys (new_uuid env)
  unfolding new_uuid
  Obeys-new_uuid = record { at = λ s. refl }

ruleset obeys_rules = (
  Obeys-pure, Obeys-query, Obeys-if, Obeys-bind, Obeys-on_option, Obeys-update, Obeys-cancel_jobs,
  Obeys-create, Obeys-utc_now, Obeys-new_uuid,
)

module _ (env : Env) where
  Obeys-new_job : (kind id tenant : String) (at : Instant) → Obeys (new_job env kind id tenant at)
  unfolding new_job
  Obeys-new_job kind id tenant at = search obeys_rules

  Obeys-notify :
      (kind : String) (b : Booking) (rules : List NotificationRule)
      → Obeys (notify env kind b rules)
  unfolding notify
  Obeys-notify kind b [] = search obeys_rules
  Obeys-notify kind b (rule ∷ rules) =
      let rest = Obeys-notify kind b rules in search (obeys_rules, Obeys-new_job) depth 20

  Obeys-remind : (b : Booking) (rule : NotificationRule) → Obeys (remind env b rule)
  unfolding remind schedule_at
  Obeys-remind b rule = search (obeys_rules, Obeys-new_job) depth 20

  Obeys-schedule_reminders :
      (b : Booking) (rules : List NotificationRule) → Obeys (schedule_reminders env b rules)
  unfolding schedule_reminders
  Obeys-schedule_reminders b [] = search obeys_rules
  Obeys-schedule_reminders b (rule ∷ rules) =
      let rest = Obeys-schedule_reminders b rules in search (obeys_rules, Obeys-remind) depth 20

  -- A move that ends in an error other than the database's, or in a panic, leaves every table as it was,
  -- whatever it was refused for: the token, the status of the booking, the event or its permission, the date,
  -- the time, the day, the session or the slot.
  pub reschedule_booking_refused :
      (token : String) (payload : RescheduleBookingRequest) (s : St)
      → is_refusal (reschedule_booking env token payload s).0 ≡ true
      → (reschedule_booking env token payload s).1.db ≡ s.db
  unfolding reschedule_booking
  reschedule_booking_refused token payload s h =
      bind-refusal _ _ s (Reads-plan_reschedule env token payload)
        (λ plan. search (obeys_rules, Obeys-notify, Obeys-schedule_reminders) depth 20) h
