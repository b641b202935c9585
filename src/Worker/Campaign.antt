-- ===== src/Worker/Campaign.antt =====
-- The jobs that `send_campaign` queues (api/handlers/communication.rs), as the worker reads them
-- (background.rs).
use Prim.Native.String.{◌++◌ as push_str}
use text.Mathlib.TextLemmas.{append-nil, append_assoc}
use booking_backend.Prelude.{
  ◌≡◌, ◌∙◌, ◌⊎◌, inl, inr, refl, sym, ap, subst, String, true, false, some, List, [], ◌∷◌, arith,
  ◌==◌, eq_iff, Bool-cases, Option-cases,
}
use booking_backend.Text.Forms.{
  concat, split_colon, split_colon-plain, split_colon-append, has_colon, starts_with,
  starts_with-append,
}
use booking_backend.Outcome.{ok, ok_or, ok_or-ok, >>=-ok, not_found, internal_with_msg}
use booking_backend.Models.{Booking, Invitee, Job}
use booking_backend.Models.Mail.{EmailTemplate}
use booking_backend.Env.{Env}
use booking_backend.Db.{Db}
use booking_backend.Db.Bookings.{find_by_id}
use booking_backend.Db.Schedule.{find_event_by_id, find_invitee_by_id}
use booking_backend.Db.Mail.{find_tenant, find_template}
use booking_backend.Handlers.Communication.{campaign_type}
use booking_backend.Worker.Mailer.{Mailer}
use booking_backend.Worker.Plan.{
  missing, Draft, Target, campaign_parts, campaign_target, target_context, plan_campaign,
}

campaign_type-split :
    (target template : String)
    → has_colon target ≡ false
    → has_colon template ≡ false
    → split_colon (campaign_type target template) ≡ "CAMPAIGN" ∷ target ∷ template ∷ []
unfolding concat
campaign_type-split target template h k = rw (
  append-nil template,
  head,
  split_colon-append "CAMPAIGN" (push_str target (push_str ":" template)) refl,
  split_colon-append target template h,
  split_colon-plain template k,
)
  where
    head :
        push_str "CAMPAIGN:" (push_str target (push_str ":" template))
        ≡ push_str "CAMPAIGN" (push_str ":" (push_str target (push_str ":" template)))
    head = append_assoc "CAMPAIGN" ":" _

-- Whom a mail of a campaign goes to.
abbrev pub IsAddressed : Job → String → Draft → Db → Type 0
IsAddressed job target draft db =
    ((target ≡ "BOOKING")
      × (booking : Booking) × (find_by_id job.payload.tenant_id job.payload.booking_id db
          ≡ some booking)
      × (draft.recipient ≡ booking.customer_email))
    ⊎ ((target ≡ "INVITEE")
        × (invitee : Invitee) × (find_invitee_by_id job.payload.tenant_id job.payload.booking_id db
            ≡ some invitee)
        × (invitee.email ≡ some draft.recipient))

campaign_target-ok :
    (job : Job) (kind : String) (found : Target) (draft : Draft) (db : Db)
    → campaign_target job.payload.tenant_id job.payload.booking_id kind db ≡ ok found
    → draft.recipient ≡ found.email
    → IsAddressed job kind draft db
unfolding campaign_target
campaign_target-ok job kind found draft db h to = elim (Bool-cases (kind == "BOOKING")) [
  | inl e ↦ elim (Option-cases (find_by_id job.payload.tenant_id job.payload.booking_id db)) [
    | inl none_found ↦ absurd (let h' = rw (e, none_found) at h in ground arith)
    | inr (booking, is_booking) ↦
        let h' = rw (e, is_booking) at h in
        let address : found.email ≡ booking.customer_email = ground arith in
        inl ((eq_iff kind "BOOKING").0 e, booking, is_booking, to ∙ address)
  ]
  | inr e ↦ elim (Bool-cases (kind == "INVITEE")) [
    | inl g ↦
        elim (Option-cases (find_invitee_by_id job.payload.tenant_id job.payload.booking_id db)) [
          | inl none_found ↦ absurd (let h' = rw (e, g, none_found) at h in ground arith)
          | inr (invitee, is_invitee) ↦ elim (Option-cases invitee.email) [
            | inl no_email ↦ absurd (let h' = rw (e, g, is_invitee, no_email) at h in ground arith)
            | inr (email, is_email) ↦
                let h' = rw (e, g, is_invitee, is_email) at h in
                let address : found.email ≡ email = ground arith in
                inr ((eq_iff kind "INVITEE").0 g, invitee, is_invitee, rw (to, address) is_email)
          ]
        ]
    | inr g ↦ absurd (let h' = rw (e, g) at h in ground arith)
  ]
]

parts_lem : (a b : String) (p : String × String) → some (a, b) ≡ some p → (p.0 ≡ a) × (p.1 ≡ b)
parts_lem a b p h = ground arith

draft_lem : (d e : Draft) → ok d ≡ ok e → (d.template ≡ e.template) × (d.recipient ≡ e.recipient)
draft_lem d e h = ground arith

-- The worker reads back what a campaign wrote. A job of the type that `send_campaign` gives its jobs takes the
-- branch of campaigns; and if a mail is decided on, it has the template that the campaign names, and goes
-- to the customer of the booking, or to the invitee, that the job names. Neither the kind of the targets
-- nor the identifier of the template may contain a colon.
pub plan_campaign-ok :
    {env : Env} (mailer : Mailer env) (target template : String) (job : Job) (draft : Draft)
    (db : Db)
    → has_colon target ≡ false
    → has_colon template ≡ false
    → job.job_type ≡ campaign_type target template
    → plan_campaign mailer job db ≡ ok draft
    → (starts_with job.job_type "CAMPAIGN:" ≡ true)
      × (find_template template db ≡ some draft.template)
      × IsAddressed job target draft db
unfolding plan_campaign concat
plan_campaign-ok mailer target template job draft db plain plain' kind h =
    let tenant_id = job.payload.tenant_id in
    let id = job.payload.booking_id in
    >>=-ok (ok_or (find_tenant tenant_id db) (not_found (missing "Tenant" tenant_id))) _ h
      λ tenant _ h₁.
        >>=-ok
          (ok_or (campaign_parts (split_colon job.job_type))
            (internal_with_msg "Invalid Campaign Job Type Format"))
          _ h₁
          λ parts is_parts h₂.
            >>=-ok (campaign_target tenant_id id parts.0 db) _ h₂ λ found is_found h₃.
              >>=-ok
                (ok_or (find_event_by_id tenant_id found.event_id db)
                  (not_found (missing "Event" found.event_id)))
                _ h₃
                λ event _ h₄.
                  >>=-ok (target_context mailer tenant_id id parts.0 event found.token db) _ h₄
                    λ others _ h₅.
                      >>=-ok
                        (ok_or (find_template parts.1 db) (not_found (missing "Template" parts.1)))
                        _ h₅
                        λ t is_template h₆.
                          let split : split_colon job.job_type
                              ≡ "CAMPAIGN" ∷ target ∷ template ∷ [] =
                            rw kind (campaign_type-split target template plain plain') in
                          let (target_is, template_is) = parts_lem target template parts (
                            subst (λ (ps : List String). campaign_parts ps ≡ some parts) split
                              (ok_or-ok (campaign_parts (split_colon job.job_type)) _ is_parts)) in
                          (
                            rw kind (
                                starts_with-append "CAMPAIGN:"
                                  (concat (target ∷ ":" ∷ template ∷ []))),
                            subst (λ (x : String). find_template x db ≡ some draft.template)
                                template_is
                                (ok_or-ok (find_template parts.1 db) _ is_template
                                  ∙ ap (λ (x : EmailTemplate). some x) (draft_lem _ draft h₆).0),
                            campaign_target-ok job target found draft db
                                (subst
                                  (λ (x : String). campaign_target tenant_id id x db ≡ ok found)
                                  target_is is_found)
                                (sym (draft_lem _ draft h₆).1),
                          )
