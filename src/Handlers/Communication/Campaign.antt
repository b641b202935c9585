-- ===== src/Handlers/Communication/Campaign.antt =====
-- The jobs of a campaign (`send_campaign`, api/handlers/communication.rs).
use booking_backend.Prelude.{
  ℕ, suc, ◌+◌, ◌*◌, ◌≤◌, ◌≡◌, ◌∙◌, refl, ap, String, some, true, List, [], ◌∷◌, ◌++◌, length, arith,
  ◌==◌,
}
use mathlib.Core.List.{append-nil, append_assoc}
use booking_backend.Outcome.{ok}
use booking_backend.Models.{Job, second_ns}
use booking_backend.Models.Mail.{EmailTemplate}
use booking_backend.Env.{Env}
use booking_backend.Db.{Db, St, execute}
use booking_backend.Db.Rules.{bind-ok, pure-ok}
use booking_backend.Db.Clock.{utc_now-ok, new_job-ok}
use booking_backend.Db.Bookings.{insert_job_row}
use booking_backend.Db.Jobs.{create}
use booking_backend.Db.Mail.{find_template}
use booking_backend.Handlers.Communication.{
  CampaignSendRequest, campaign_type, queue_campaign, send_campaign,
}
use booking_backend.Handlers.Communication.History.Runs.{get_template-ok, get_template-same}

-- A job that waits for its mail to one recipient, due `delay` seconds after a reading of the clock that is
-- not before the first.
pub record IsMailJob (env : Env) (job_type tenant_id : String) (first delay : ℕ)
    (recipient : String) (j : Job) : Type 0 where
  pub kind : j.job_type ≡ job_type
  pub to : j.payload.booking_id ≡ recipient
  pub of_tenant : j.payload.tenant_id ≡ tenant_id
  pub waits : j.status ≡ "PENDING"
  pub reading : ℕ
  pub later : first ≤ reading
  pub due : j.execute_at ≡ env.now_at reading + delay * second_ns

-- One job for each recipient, in their order, each five seconds of delay after the one before.
abbrev pub MailJobs : Env → String → String → ℕ → ℕ → List String → List Job → Type 0
MailJobs env job_type tenant_id first delay [] [] = Unit
MailJobs env job_type tenant_id first delay [] (j ∷ js) = ⊥
MailJobs env job_type tenant_id first delay (r ∷ rs) [] = ⊥
MailJobs env job_type tenant_id first delay (r ∷ rs) (j ∷ js) =
    IsMailJob env job_type tenant_id first delay r j
    × MailJobs env job_type tenant_id first (delay + 5) rs js

create-ok :
    (j c : Job) (s t : St)
    → create j s ≡ (ok c, t)
    → t ≡ record s { db = record s.db { jobs = s.db.jobs ++ j ∷ [] } }
unfolding create execute insert_job_row
create-ok j c s t h = ground arith

queued_first :
    (j : Job) (added : List Job) (old mid new : Db)
    → mid ≡ record old { jobs = old.jobs ++ j ∷ [] }
    → new ≡ record mid { jobs = mid.jobs ++ added }
    → new ≡ record old { jobs = old.jobs ++ j ∷ added }
queued_first j added old mid new e h =
    h
    ∙ ap (λ (db : Db). record db { jobs = db.jobs ++ added }) e
    ∙ ap (λ (js : List Job). record old { jobs = js }) (append_assoc old.jobs (j ∷ []) added)

queue_campaign-ok :
    (env : Env) (kind tenant : String) (first delay : ℕ) (rs : List String) (s t : St) (n : ℕ)
    → first ≤ s.calls
    → queue_campaign env kind tenant delay rs s ≡ (ok n, t)
    → (added : List Job) × (t.db ≡ record s.db { jobs = s.db.jobs ++ added })
      × MailJobs env kind tenant first delay rs added
      × (n ≡ length rs)
unfolding queue_campaign
queue_campaign-ok env kind tenant first delay [] s t n early h =
    let (zero_jobs, same) = pure-ok 0 s h in ([], rw (same, append-nil s.db.jobs), tt, zero_jobs)
queue_campaign-ok env kind tenant first delay (r ∷ rs) s t n early h =
    bind-ok _ _ s h λ now s₁ clock h₁. bind-ok _ _ s₁ h₁ λ j s₂ new h₂.
      bind-ok _ _ s₂ h₂ λ c s₃ made h₃. bind-ok _ _ s₃ h₃ λ m s₄ others h₄.
        let (at, e₁) = utc_now-ok env now s s₁ clock in
        let (is_j, e₂) = new_job-ok env kind r tenant _ j s₁ s₂ new in
        let e₃ = create-ok j c s₂ s₃ made in
        let (added, db₄, jobs, count) =
          queue_campaign-ok env kind tenant first (delay + 5) rs s₃ s₄ m
            (rw (e₃, e₂, e₁) (omega arith)) others in
        let (total, end) = pure-ok (suc m) s₄ h₄ in
        (
          j ∷ added,
          ap (λ (x : St). x.db) end ∙ queued_first j added s.db s₃.db s₄.db (rw (e₃, e₂, e₁)) db₄,
          (
            rw is_j (record {
              kind = refl;
              to = refl;
              of_tenant = refl;
              waits = refl;
              reading = s.calls;
              later = early;
              due = ap (λ (x : ℕ). x + delay * second_ns) at;
            }),
            jobs,
          ),
          rw (total, count) refl,
        )

-- A campaign that is sent with success is one of the tenant's own templates. It appends to the queue, and
-- changes nothing else: one waiting job for each recipient, in their order, of the type that names the
-- template, the job number k, counted from 0, due exactly 5 k seconds after a reading of the clock that is
-- not before the request; and it reports their number.
pub send_campaign-ok :
    (env : Env) (tenant : String) (payload : CampaignSendRequest) (s t : St) (n : ℕ)
    → send_campaign env tenant payload s ≡ (ok n, t)
    → (template : EmailTemplate) × (added : List Job) × (find_template payload.template_id s.db
        ≡ some template)
      × ((template.tenant_id == tenant) ≡ true)
      × (t.db ≡ record s.db { jobs = s.db.jobs ++ added })
      × MailJobs env
          (campaign_type payload.target_type payload.template_id)
          tenant
          s.calls
          0
          payload.recipients
          added
      × (n ≡ length payload.recipients)
unfolding send_campaign
send_campaign-ok env tenant payload s t n h = bind-ok _ _ s h λ template s₁ found h₁.
    let (is_template, owned) = get_template-ok tenant payload.template_id s s₁ template found in
    let same = get_template-same tenant payload.template_id s s₁ template found in
    let (added, tables, jobs, count) =
      queue_campaign-ok env _ tenant s.calls 0 payload.recipients s₁ t n (rw same (omega arith))
        h₁ in
    (template, added, is_template, owned, rw (tables, same), jobs, count)
