-- ===== src/Worker/Ends.antt =====
-- Processing a job neither panics nor runs for ever, and leaves the queue as it is (background.rs).
use booking_backend.Prelude.{
  ◌≡◌, inl, inr, String, Option, none, some, Bool-cases, Option-cases, ◌==◌,
}
use booking_backend.Outcome.{ok, ok_or, ok_or-ok, >>=-ok, ◌>>=◌, not_found}
use booking_backend.Models.{Event, Booking, Job, NotificationRule}
use booking_backend.Models.Mail.{EmailPayload, EmailTemplate}
use booking_backend.Models.Accounts.{Tenant}
use booking_backend.Env.{Env}
use booking_backend.Db.{Db}
use booking_backend.Db.Bookings.{find_by_id}
use booking_backend.Worker.Mailer.{Mailer, Context, send, post}
use booking_backend.Worker.Plan.{
  Draft, Target, campaign_target, target_context, plan_campaign, draft_of, draft_if, plan_standard,
  render_email_body, render_mail, missing,
}
use booking_backend.Worker.Process.{
  write_log, record_success, dispatch, dispatch_once, process_standard, process_campaign,
  process_job,
}
use booking_backend.Worker.Steady.{
  IsResult, value, error, IsResult-after, IsResult-ok_or, result_rules, Steady, steady_rules,
  Steady-bind, Steady-consult, Steady-if,
}

-- A booking that was found is found again, so the second `unwrap` is safe.
target_context-IsResult :
    {env : Env} (mailer : Mailer env) (tenant id kind : String) (event : Event) (target : Target)
    (db : Db)
    → campaign_target tenant id kind db ≡ ok target
    → IsResult (target_context mailer tenant id kind event target.token db)
unfolding campaign_target target_context
target_context-IsResult mailer tenant id kind event target db h =
    elim (Bool-cases (kind == "BOOKING")) [
      | inl e ↦
          let h' : (ok_or (find_by_id tenant id db) (not_found (missing "Booking" id)) >>= _)
              ≡ ok target =
            rw e at h in
          >>=-ok _ _ h' λ booking found _.
            rw (e, ok_or-ok (find_by_id tenant id db) (not_found (missing "Booking" id)) found)
              (value _)
      | inr e ↦ rw e (value _)
    ]

module _ {env : Env} (mailer : Mailer env) where
  campaign_target-IsResult :
      (tenant id kind : String) (db : Db) → IsResult (campaign_target tenant id kind db)
  unfolding campaign_target
  campaign_target-IsResult tenant id kind db = search result_rules depth 10

  plan_campaign-IsResult : (job : Job) (db : Db) → IsResult (plan_campaign mailer job db)
  unfolding plan_campaign
  plan_campaign-IsResult job db =
      search
        (value, IsResult-ok_or, IsResult-after, campaign_target-IsResult, target_context-IsResult)
        depth 20

  draft_if-IsResult :
      (job : Job) (event : Event) (booking : Booking) (tenant : Tenant)
      (rule : Option NotificationRule) (db : Db)
      → IsResult (draft_if mailer job event booking tenant rule db)
  unfolding draft_if draft_of
  draft_if-IsResult job event booking tenant none db = value none
  draft_if-IsResult job event booking tenant (some rule) db = search result_rules depth 10

  plan_standard-IsResult : (job : Job) (db : Db) → IsResult (plan_standard mailer job db)
  unfolding plan_standard
  plan_standard-IsResult job db = search (result_rules, draft_if-IsResult) depth 10

  render_mail-IsResult : (t : EmailTemplate) (c : Context) → IsResult (render_mail mailer t c)
  unfolding render_mail render_email_body
  render_mail-IsResult t c = search result_rules depth 20

  Steady-post : (mail : EmailPayload) → Steady (post mailer mail)
  unfolding post
  Steady-post mail = record {
    ends = λ s. elim (Option-cases (mailer.refusal s.calls mail)) [
      | inl e ↦ rw e (value tt)
      | inr (m, e) ↦ rw e (error _)
    ];
    keeps =
        λ s. elim (Option-cases (mailer.refusal s.calls mail)) [ inl e ↦ rw e | inr (m, e) ↦ rw e ];
  }

  Steady-write_log :
      (id : String) (d : Draft) (status : String) → Steady (write_log mailer id d status)
  unfolding write_log
  Steady-write_log id d status = search steady_rules depth 10

  Steady-dispatch : (job : Job) (d : Draft) → Steady (dispatch mailer job d)
  unfolding dispatch send record_success
  Steady-dispatch job d =
      search (steady_rules, render_mail-IsResult, Steady-post, Steady-write_log) depth 10

  Steady-dispatch_once : (job : Job) (d : Draft) → Steady (dispatch_once mailer job d)
  unfolding dispatch_once
  Steady-dispatch_once job d = search (steady_rules, Steady-write_log, Steady-dispatch) depth 10

  -- Processing a job ends with success or an error, whatever the tables hold and the mail service answers,
  -- and it changes no job of the queue.
  pub process_job-Steady : (job : Job) → Steady (process_job mailer job)
  unfolding process_job process_standard process_campaign
  process_job-Steady job =
      Steady-if _ _ _
        (Steady-bind _ _ (Steady-consult _ (plan_campaign-IsResult job)) (Steady-dispatch job))
        (Steady-bind _ _ (Steady-consult _ (plan_standard-IsResult job))
          λ d. search (steady_rules, Steady-dispatch_once) depth 10)
