-- ===== src/Handlers/Communication.antt =====
-- api/handlers/communication.rs: templates with their versions, rules, logs, and campaigns. The caller is
-- signed in, and the tenant is the one that the extractor found.
pub mod History
pub mod Campaign
pub mod Recipients
use booking_backend.Prelude.{
  ℕ, suc, ◌+◌, ◌*◌, String, Bool, true, false, not, ◌&&◌, Option, none, some, List, [], ◌∷◌, keep,
  map, unwrap_or, ◌==◌, if◌then◌else◌, order_by, take, leb,
}
use booking_backend.Text.Forms.{concat, is_mjml}
use booking_backend.Outcome.{not_found, validation}
use booking_backend.Models.{Instant, Booking, Event, Invitee, Job, NotificationRule, second_ns}
use booking_backend.Models.Mail.{EmailTemplate, EmailTemplateVersion, MailLog, TemplatePlaceholder}
use booking_backend.Env.{Env}
use booking_backend.Db.{
  Db, Exec, pure, query, query_or, execute, reject, utc_now, new_uuid, ◌>>=◌, ◌>>◌,
}
use booking_backend.Db.Bookings.{list_by_event}
use booking_backend.Db.Schedule.{find_event_by_id, list_invitees_by_event}
use booking_backend.Db.Jobs.{create, new_job, get_rules_by_event}
use booking_backend.Db.Mail.{
  insert_template, find_template, templates_of, update_template_rows, delete_template_rows,
  insert_version, versions_of, find_version, insert_rule, delete_rule_rows, logs_of,
}

pub record CreateTemplateRequest : Type 0 where
  pub name : String
  pub subject_template : String
  pub body_template : String
  pub template_type : String
  pub event_id : Option String

pub record CreateRuleRequest : Type 0 where
  pub trigger_type : String
  pub template_id : String

pub record CampaignSendRequest : Type 0 where
  pub template_id : String
  pub recipients : List String
  pub target_type : String

unfoldable pub list_templates : String → Option String → Exec (List EmailTemplate)
list_templates tenant_id event_id = query (templates_of tenant_id event_id)

-- The template with an identifier, if it is one of the tenant.
unfoldable pub get_template : String → String → Exec EmailTemplate
get_template tenant_id template_id = do
  template ← query_or (find_template template_id) (not_found "Template not found")
  reject (not (template.tenant_id == tenant_id)) (not_found "Template not found")
  pure template

unfoldable pub delete_template : String → String → Exec (Unit {0})
delete_template tenant_id template_id = do
  template ← get_template tenant_id template_id
  execute (delete_template_rows template_id)

unfoldable pub list_versions : String → String → Exec (List EmailTemplateVersion)
list_versions tenant_id template_id = do
  template ← get_template tenant_id template_id
  query (versions_of template_id)

unfoldable pub version_of : String → String → Exec EmailTemplateVersion
version_of template_id version_id = do
  version ← query_or (find_version version_id) (not_found "Version not found")
  reject (not (version.template_id == template_id))
      (validation "Version does not belong to this template")
  pure version

unfoldable pub list_event_rules : String → String → Exec (List NotificationRule)
list_event_rules tenant_id event_id = do
  event ← query_or (find_event_by_id tenant_id event_id) (not_found "Event not found")
  query (get_rules_by_event event.id)

-- The rule is found by its identifier alone.
unfoldable pub delete_rule : String → Exec (Unit {0})
delete_rule rule_id = execute (delete_rule_rows rule_id)

-- `WHERE tenant_id = ? ORDER BY created_at DESC LIMIT 100`
unfoldable pub jobs_of_tenant : String → Db → List Job
jobs_of_tenant tenant_id db = take 100 (
    order_by (λ (j k : Job). leb k.created_at j.created_at)
      (keep (λ j. j.payload.tenant_id == tenant_id) db.jobs))

unfoldable pub list_jobs : String → Exec (List Job)
list_jobs tenant_id = query (jobs_of_tenant tenant_id)

unfoldable pub get_logs : String → Option String → Exec (List MailLog)
get_logs tenant_id recipient = query (logs_of tenant_id recipient)

abbrev pub campaign_type : String → String → String
campaign_type target_type template_id = concat ("CAMPAIGN:" ∷ target_type ∷ ":" ∷ template_id ∷ [])

module _ (env : Env) where
  -- `EmailTemplate::new`
  unfoldable pub new_template :
      String → Option String → String → String → String → String → Exec EmailTemplate
  new_template tenant_id event_id name subject body t_type = do
    now ← utc_now env
    id ← new_uuid env
    pure (record {
      id = id;
      tenant_id = tenant_id;
      event_id = event_id;
      name = name;
      subject_template = subject;
      body_template = body;
      template_type = t_type;
      created_at = now;
      updated_at = now;
    })

  -- `EmailTemplateVersion::new`
  unfoldable pub new_version : String → String → String → Exec EmailTemplateVersion
  new_version template_id subject body = do
    id ← new_uuid env
    now ← utc_now env
    pure (record {
      id = id;
      template_id = template_id;
      subject_template = subject;
      body_template = body;
      created_at = now;
    })

  -- `NotificationRule::new`
  unfoldable pub new_rule : String → Option String → String → String → Exec NotificationRule
  new_rule tenant_id event_id trigger template_id = do
    id ← new_uuid env
    now ← utc_now env
    pure (record {
      id = id;
      tenant_id = tenant_id;
      event_id = event_id;
      trigger_type = trigger;
      template_id = template_id;
      is_active = true;
      created_at = now;
    })

  -- A version with the texts of a template.
  unfoldable pub record_version : String → String → String → Exec (Unit {0})
  record_version template_id subject body = do
    version ← new_version template_id subject body
    execute (insert_version version)

  unfoldable pub create_template : String → CreateTemplateRequest → Exec EmailTemplate
  create_template tenant_id payload = do
    template ←
        new_template tenant_id payload.event_id payload.name payload.subject_template
          payload.body_template payload.template_type
    created ← execute (insert_template template)
    record_version created.id created.subject_template created.body_template
    pure created

  unfoldable pub update_template : String → String → CreateTemplateRequest → Exec EmailTemplate
  update_template tenant_id template_id payload = do
    template ← get_template tenant_id template_id
    record_version template.id payload.subject_template payload.body_template
    now ← utc_now env
    execute (
        update_template_rows (record template {
          name = payload.name;
          subject_template = payload.subject_template;
          body_template = payload.body_template;
          template_type = payload.template_type;
          updated_at = now;
        }))

  unfoldable pub restore_version : String → String → String → Exec EmailTemplate
  restore_version tenant_id template_id version_id = do
    template ← get_template tenant_id template_id
    version ← version_of template_id version_id
    now ← utc_now env
    updated ← execute (
        update_template_rows (record template {
          subject_template = version.subject_template;
          body_template = version.body_template;
          template_type = if is_mjml version.body_template then "mjml" else "html";
          updated_at = now;
        }))
    record_version template.id version.subject_template version.body_template
    pure updated

  unfoldable pub create_event_rule : String → String → CreateRuleRequest → Exec NotificationRule
  create_event_rule tenant_id event_id payload = do
    event ← query_or (find_event_by_id tenant_id event_id) (not_found "Event not found")
    rule ← new_rule tenant_id (some event.id) payload.trigger_type payload.template_id
    execute (insert_rule rule)

  -- One job for each recipient, five seconds after the one before; the number of jobs.
  unfoldable pub queue_campaign : String → String → ℕ → List String → Exec ℕ
  queue_campaign job_type tenant_id delay_offset [] = pure 0
  queue_campaign job_type tenant_id delay_offset (recipient_id ∷ recipients) = do
    now ← utc_now env
    job ← new_job env job_type recipient_id tenant_id (now + delay_offset * second_ns)
    created ← create job
    count ← queue_campaign job_type tenant_id (delay_offset + 5) recipients
    pure (suc count)

  unfoldable pub send_campaign : String → CampaignSendRequest → Exec ℕ
  send_campaign tenant_id payload = do
    template ← get_template tenant_id payload.template_id
    queue_campaign (campaign_type payload.target_type payload.template_id) tenant_id 0
        payload.recipients
