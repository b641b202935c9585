-- ===== src/Worker/Once.antt =====
-- A mail of a booking that was sent and logged is not sent again (background.rs).
use booking_backend.Prelude.{
  ◌≡◌, ◌∙◌, refl, ap, inl, inr, String, Bool, true, false, Option, none, some, List, [], ◌∷◌, ◌++◌,
  arith, any, Bool-cases, Option-cases, ◌==◌, eq_iff,
}
use booking_backend.Text.Forms.{starts_with}
use booking_backend.Outcome.{ok}
use booking_backend.Models.{Job}
use booking_backend.Models.Mail.{EmailPayload, MailLog}
use booking_backend.Env.{Env}
use booking_backend.Db.{Db, St, execute, pure, consult, on_option, utc_now, new_uuid, ◌>>=◌}
use booking_backend.Db.Rules.{consult-ok, bind-ok, lift-ok, query-ok, pure-ok}
use booking_backend.Db.Mail.{has_mail_been_sent, log_mail, is_sent_to}
use booking_backend.Worker.Mailer.{Mailer, send, post, payload_of}
use booking_backend.Worker.Plan.{Draft, plan_standard, plan_standard_lem}
use booking_backend.Worker.Process.{
  hash_of, write_log, record_success, dispatch, dispatch_once, process_standard, process_job,
}

any-end :
    {A : Type 0} (p : A → Bool) (xs : List A) (y : A) → p y ≡ true → any p (xs ++ y ∷ []) ≡ true
any-end p [] y h = rw h
any-end p (x ∷ xs) y h = elim (Bool-cases (p x)) [ inl e ↦ rw e | inr e ↦ rw e (any-end p xs y h) ]

any-more :
    {A : Type 0} (p : A → Bool) (xs : List A) (y : A)
    → any p xs ≡ true
    → any p (xs ++ y ∷ []) ≡ true
any-more p [] y h = absurd (ground arith)
any-more p (x ∷ xs) y h = elim (Bool-cases (p x)) [
  | inl e ↦ rw e
  | inr e ↦ rw e (any-more p xs y (rw e at h))
]

log_mail-ok :
    (log : MailLog) (u : Unit {0}) (s t : St)
    → execute (log_mail log) s ≡ (ok u, t)
    → t ≡ record s { db = record s.db { mail_logs = s.db.mail_logs ++ log ∷ [] } }
unfolding execute log_mail
log_mail-ok log u s t h = ground arith

eq_same : (s : String) → (s == s) ≡ true
eq_same s = (eq_iff s s).1 refl

sent_row :
    (log : MailLog)
    → log.status ≡ "SENT"
    → is_sent_to log.recipient log.template_id log.context_hash log ≡ true
sent_row log h = rw (eq_same log.recipient, eq_same log.template_id, eq_same log.context_hash, h)

log_mail_sent : (log : MailLog) (s : St) → (execute (log_mail log) s).1.sent ≡ s.sent
unfolding execute log_mail
log_mail_sent log s = elim (Bool-cases (any (λ (l : MailLog). l.id == log.id) s.db.mail_logs)) [
  | inl e ↦ rw e
  | inr e ↦ rw e
]

module _ {env : Env} (mailer : Mailer env) where
  -- Writing the log sends nothing.
  write_log_sent :
      (id : String) (d : Draft) (status : String) (s : St)
      → (write_log mailer id d status s).1.sent ≡ s.sent
  unfolding write_log utc_now new_uuid ◌>>=◌
  write_log_sent id d status s = log_mail_sent _ _

  post-ok :
      (mail : EmailPayload) (u : Unit {0}) (s t : St)
      → post mailer mail s ≡ (ok u, t)
      → (t.db ≡ s.db) × (t.sent ≡ s.sent ++ mail ∷ [])
  unfolding post
  post-ok mail u s t h = elim (Option-cases (mailer.refusal s.calls mail)) [
    | inl e ↦ ground arith
    | inr (a, e) ↦ absurd (ground arith)
  ]

  abbrev IsLogged : Draft → Db → Type 0
  IsLogged d db = has_mail_been_sent d.recipient d.template.name (hash_of mailer d) db ≡ true

  write_log-ok :
      (id : String) (d : Draft) (status : String) (u : Unit {0}) (s t : St)
      → write_log mailer id d status s ≡ (ok u, t)
      → (t.sent ≡ s.sent)
        × (log : MailLog) × (log.recipient ≡ d.recipient)
        × (log.template_id ≡ d.template.name)
        × (log.context_hash ≡ hash_of mailer d)
        × (log.status ≡ status)
        × (t.db ≡ record s.db { mail_logs = s.db.mail_logs ++ log ∷ [] })
  unfolding write_log utc_now new_uuid ◌>>=◌
  write_log-ok id d status u s t h =
      let e = log_mail-ok _ u _ t h in
      (ap (λ (x : St). x.sent) e, _, refl, refl, refl, refl, ap (λ (x : St). x.db) e)

  record_success-ok :
      (id : String) (d : Draft) (u : Unit {0}) (s t : St)
      → record_success mailer id d s ≡ (ok u, t)
      → (t.sent ≡ s.sent)
        × IsLogged d t.db
        × (logs : List MailLog) × (t.db ≡ record s.db { mail_logs = logs })
  unfolding record_success has_mail_been_sent
  record_success-ok id d u s t h =
      let (quiet, log, to, name, hash, status, tables) = write_log-ok id d "SENT" u s t h in
      (
        quiet,
        rw (tables, ← hash, ← name, ← to) (any-end _ s.db.mail_logs log (sent_row log status)),
        s.db.mail_logs ++ log ∷ [],
        tables,
      )

  -- A mail that goes through is sent once, and is in the log.
  dispatch-ok :
      (job : Job) (d : Draft) (u : Unit {0}) (s t : St)
      → dispatch mailer job d s ≡ (ok u, t)
      → ((mail : EmailPayload) × (mail.to_addr ≡ d.recipient) × (t.sent ≡ s.sent ++ mail ∷ []))
        × IsLogged d t.db
        × (logs : List MailLog) × (t.db ≡ record s.db { mail_logs = logs })
  unfolding dispatch send
  dispatch-ok job d u s t h = lift-ok _ s _ h λ page _ h₁. bind-ok _ _ s h₁ λ v s₁ posted h₂.
      let (same, out) = post-ok _ v s s₁ posted in
      let (quiet, logged, logs, tables) = record_success-ok job.id d u s₁ t h₂ in
      (
        (payload_of mailer d.recipient page.1 page.0 d.attachment, refl, quiet ∙ out),
        logged,
        logs,
        rw (tables, same),
      )

  dispatch_once-logged :
      (job : Job) (d : Draft) (s : St)
      → IsLogged d s.db
      → (dispatch_once mailer job d s).1.sent ≡ s.sent
  unfolding dispatch_once ◌>>=◌
  dispatch_once-logged job d s h = rw h (write_log_sent job.id d "SKIPPED_DUPLICATE" s)

  -- Whether it was sent now or before, the mail is in the log.
  dispatch_once-ok :
      (job : Job) (d : Draft) (u : Unit {0}) (s t : St)
      → dispatch_once mailer job d s ≡ (ok u, t)
      → IsLogged d t.db × (logs : List MailLog) × (t.db ≡ record s.db { mail_logs = logs })
  unfolding dispatch_once has_mail_been_sent
  dispatch_once-ok job d u s t h =
      let rest = query-ok _ s _ h in
      elim (Bool-cases (has_mail_been_sent d.recipient d.template.name (hash_of mailer d) s.db)) [
        | inl e ↦ skipped e (rw e at rest)
        | inr e ↦
            let (_, logged, logs, tables) = dispatch-ok job d u s t (rw e at rest) in
            (logged, logs, tables)
      ]
    where
      skipped :
          IsLogged d s.db
          → write_log mailer job.id d "SKIPPED_DUPLICATE" s ≡ (ok u, t)
          → IsLogged d t.db × (logs : List MailLog) × (t.db ≡ record s.db { mail_logs = logs })
      skipped e k =
          let (_, log, _, _, _, _, tables) = write_log-ok job.id d "SKIPPED_DUPLICATE" u s t k in
          (rw tables (any-more _ s.db.mail_logs log e), s.db.mail_logs ++ log ∷ [], tables)

  -- When two jobs of bookings decide on mails with the same recipient, template name and context, and the
  -- first is done, the second sends nothing, however it ends.
  pub process_job-once :
      (job other : Job) (d e : Draft) (u : Unit {0}) (s t : St)
      → starts_with job.job_type "CAMPAIGN:" ≡ false
      → starts_with other.job_type "CAMPAIGN:" ≡ false
      → plan_standard mailer job s.db ≡ ok (some d)
      → process_job mailer job s ≡ (ok u, t)
      → plan_standard mailer other t.db ≡ ok (some e)
      → e.recipient ≡ d.recipient
      → e.template.name ≡ d.template.name
      → e.context ≡ d.context
      → (process_job mailer other t).1.sent ≡ t.sent
  unfolding process_job process_standard consult on_option ◌>>=◌
  process_job-once job other d e u s t standard also plan h plan' to name context =
      let ran : dispatch_once mailer job d s ≡ (ok u, t) = rw (standard, plan) at h in
      let (logged, _, _) = dispatch_once-ok job d u s t ran in
      rw (also, plan') (dispatch_once-logged other e t (rw (to, name, context) logged))

  -- A job of a booking that was done sends nothing when it is processed again, however that ends.
  pub process_job-again :
      (job : Job) (u : Unit {0}) (s t : St)
      → starts_with job.job_type "CAMPAIGN:" ≡ false
      → process_job mailer job s ≡ (ok u, t)
      → (process_job mailer job t).1.sent ≡ t.sent
  unfolding process_job process_standard on_option consult pure ◌>>=◌
  process_job-again job u s t standard h =
      consult-ok (λ draft. on_option draft (pure tt) (dispatch_once mailer job)) s
        (plan_standard mailer job) (rw standard at h) λ draft plan h₁. again draft plan h₁
    where
      again :
          (draft : Option Draft)
          → plan_standard mailer job s.db ≡ ok draft
          → on_option draft (pure tt) (dispatch_once mailer job) s ≡ (ok u, t)
          → (process_job mailer job t).1.sent ≡ t.sent
      again none plan k = rw (standard, (pure-ok tt s k).1, plan)
      again (some d) plan k =
          let (logged, logs, tables) = dispatch_once-ok job d u s t k in
          let plan' = plan_standard_lem mailer job logs s.db ∙ plan in
          process_job-once job job d d u s t standard standard plan h (rw tables plan') refl refl
            refl
