-- ===== src/Handlers/Booking/Planned.antt =====
-- The jobs that `create_booking` (api/handlers/booking.rs) queues for a booking, and the row of the booking.
use booking_backend.Prelude.{
  ℕ, suc, ◌≤◌, ◌<◌, ◌≡◌, ◌∙◌, refl, String, true, false, none, some, List, [], ◌∷◌, ◌++◌, arith,
  ltb, ◌==◌, Bool-cases, Option-cases, inl, inr,
}
use booking_backend.Outcome.{ok}
use booking_backend.Models.{Instant, Booking, Job, NotificationRule, add_minutes}
use booking_backend.Env.{Env}
use booking_backend.Db.{St, pure, on_option, ◌>>=◌}
use booking_backend.Db.Rules.{bind-ok, pure-ok}
use booking_backend.Db.Jobs.{new_job}
use booking_backend.Handlers.{remind_at}
use booking_backend.Handlers.Booking.{NewBookingParams, new_booking, reminder, rule_jobs, jobs_of}
use booking_backend.Db.Clock.{utc_now-ok, new_job-ok}

-- A waiting job of one kind for a booking.
pub record IsJobOf (tenant : String) (b : Booking) (kind : String) (at : Instant) (j : Job)
    : Type 0 where
  pub job_type : j.job_type ≡ kind
  pub of_booking : j.payload.booking_id ≡ b.id
  pub of_tenant : j.payload.tenant_id ≡ tenant
  pub due : j.execute_at ≡ at
  pub waits : j.status ≡ "PENDING"

-- The jobs for the rules of an event, in the order of the rules: a confirmation that is due at a reading of the
-- clock, a reminder at its time before the start where that is after a reading of the clock, and nothing for any
-- other rule. The readings follow each other, from number `first` on.
pub data RuleJobs (env : Env) (tenant : String) (b : Booking)
    : ℕ → List NotificationRule → List Job → Type 0 where
  done : (first : ℕ) → RuleJobs env tenant b first [] []
  confirms :
      (first reading next : ℕ) (rule : NotificationRule) (rules : List NotificationRule) (j : Job)
      (js : List Job)
      → (rule.trigger_type == "ON_BOOKING") ≡ true
      → first ≤ reading
      → reading < next
      → IsJobOf tenant b "CONFIRMATION" (env.now_at reading) j
      → RuleJobs env tenant b next rules js
      → RuleJobs env tenant b first (rule ∷ rules) (j ∷ js)
  reminds :
      (first reading next : ℕ) (rule : NotificationRule) (rules : List NotificationRule) (j : Job)
      (js : List Job) (at : Instant)
      → (rule.trigger_type == "ON_BOOKING") ≡ false
      → remind_at rule.trigger_type b.start_time ≡ some at
      → first ≤ reading
      → reading < next
      → ltb (env.now_at reading) at ≡ true
      → IsJobOf tenant b "REMINDER" at j
      → RuleJobs env tenant b next rules js
      → RuleJobs env tenant b first (rule ∷ rules) (j ∷ js)
  too_late :
      (first reading next : ℕ) (rule : NotificationRule) (rules : List NotificationRule)
      (js : List Job) (at : Instant)
      → (rule.trigger_type == "ON_BOOKING") ≡ false
      → remind_at rule.trigger_type b.start_time ≡ some at
      → first ≤ reading
      → reading < next
      → ltb (env.now_at reading) at ≡ false
      → RuleJobs env tenant b next rules js
      → RuleJobs env tenant b first (rule ∷ rules) js
  ignored :
      (first : ℕ) (rule : NotificationRule) (rules : List NotificationRule) (js : List Job)
      → (rule.trigger_type == "ON_BOOKING") ≡ false
      → remind_at rule.trigger_type b.start_time ≡ none
      → RuleJobs env tenant b first rules js
      → RuleJobs env tenant b first (rule ∷ rules) js

module _ (env : Env) (tenant : String) (b : Booking) where
  -- What one rule adds, for any jobs of the rules behind it.
  record Adds (rule : NotificationRule) (s u : St) (first : List Job) : Type 0 where
    pub at :
        (rules : List NotificationRule) (js : List Job)
        → RuleJobs env tenant b u.calls rules js
        → RuleJobs env tenant b s.calls (rule ∷ rules) (first ++ js)

  job_made :
      (kind : String) (at : Instant) (s u : St) (jobs : List Job)
      → (new_job env kind b.id tenant at >>= λ job. pure (job ∷ [])) s ≡ (ok jobs, u)
      → (j : Job) × (jobs ≡ j ∷ [])
        × IsJobOf tenant b kind at j
        × (u ≡ record s { calls = suc (suc s.calls) })
  job_made kind at s u jobs h = bind-ok _ _ s h λ j s₁ made h₁.
      let (is_j, s₁_is) = new_job-ok env kind b.id tenant at j s s₁ made in
      let (is_jobs, end) = pure-ok (j ∷ []) s₁ h₁ in
      (
        j,
        is_jobs,
        rw is_j (record {
          job_type = refl;
          of_booking = refl;
          of_tenant = refl;
          due = refl;
          waits = refl;
        }),
        end ∙ s₁_is,
      )

  rule_jobs-Adds :
      (rule : NotificationRule) (s u : St) (jobs : List Job)
      → rule_jobs env b tenant rule s ≡ (ok jobs, u)
      → Adds rule s u jobs
  unfolding rule_jobs on_option reminder
  rule_jobs-Adds rule s u jobs h = elim (Bool-cases (rule.trigger_type == "ON_BOOKING")) [
    | inl e ↦ bind-ok _ _ s (rw e at h) λ now s₁ read h₁.
        let (now_is, s₁_is) = utc_now-ok env now s s₁ read in
        let (j, is_jobs, made, end) = job_made "CONFIRMATION" now s₁ u jobs h₁ in
        record {
          at = λ rules js rest. rw is_jobs (
              confirms s.calls s.calls u.calls rule rules j js e (omega arith)
                (rw (end, s₁_is) (omega arith)) (rw now_is at made) rest);
        }
    | inr e ↦ elim (Option-cases (remind_at rule.trigger_type b.start_time)) [
      | inl f ↦
          let (is_jobs, end) = pure-ok [] s (rw (e, f) at h) in
          record {
            at = λ rules js rest. rw is_jobs (ignored s.calls rule rules js e f (rw end at rest));
          }
      | inr (at, f) ↦ bind-ok _ _ s (rw (e, f) at h) λ now s₁ read h₁.
          let (now_is, s₁_is) = utc_now-ok env now s s₁ read in
          elim (Bool-cases (ltb now at)) [
            | inl g ↦
                let (j, is_jobs, made, end) = job_made "REMINDER" at s₁ u jobs (rw g at h₁) in
                record {
                  at = λ rules js rest. rw is_jobs (
                      reminds s.calls s.calls u.calls rule rules j js at e f (omega arith)
                        (rw (end, s₁_is) (omega arith)) (rw now_is at g) made rest);
                }
            | inr g ↦
                let (is_jobs, end) = pure-ok [] s₁ (rw g at h₁) in
                record {
                  at = λ rules js rest. rw is_jobs (
                      too_late s.calls s.calls u.calls rule rules js at e f (omega arith)
                        (rw (end, s₁_is) (omega arith)) (rw now_is at g) rest);
                }
          ]
    ]
  ]

  pub jobs_of-ok :
      (rules : List NotificationRule) (s u : St) (jobs : List Job)
      → jobs_of env b tenant rules s ≡ (ok jobs, u)
      → RuleJobs env tenant b s.calls rules jobs
  unfolding jobs_of
  jobs_of-ok [] s u jobs h = rw (pure-ok [] s h).0 (done s.calls)
  jobs_of-ok (rule ∷ rules) s u jobs h = bind-ok _ _ s h λ first s₁ here h₁.
      bind-ok _ _ s₁ h₁ λ others s₂ there h₂. rw (pure-ok (first ++ others) s₂ h₂).0 (
        (rule_jobs-Adds rule s s₁ first here).at rules others (jobs_of-ok rules s₁ s₂ others there))

pub new_booking-ok :
    (env : Env) (params : NewBookingParams) (s u : St) (b : Booking)
    → new_booking env params s ≡ (ok b, u)
    → (b ≡ record {
      id = env.uuid_at (suc s.calls);
      tenant_id = params.tenant_id;
      event_id = params.event_id;
      invitee_id = params.invitee_id;
      start_time = params.start;
      end_time = add_minutes params.start params.duration_min;
      customer_name = params.name;
      customer_email = params.email;
      customer_note = params.note;
      location = params.location;
      label_id = none;
      status = "CONFIRMED";
      management_token = env.random_at s.calls;
      token = none;
      payout = none;
      created_at = env.now_at (suc (suc s.calls));
    })
      × (u ≡ record s { calls = suc (suc (suc s.calls)) })
unfolding new_booking ◌>>=◌
new_booking-ok env params s u b h = ground arith
