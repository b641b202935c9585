-- ===== src/Db/Mail.antt =====
-- infra/repositories/sqlite_communication_repo.rs: templates and their versions, rules, and the log of
-- mails, with the foreign keys of these tables. Rows that tie in an order keep the order of the table.
pub mod Writes
use booking_backend.Prelude.{
  String, Bool, true, false, ◌&&◌, Option, none, some, List, [], ◌∷◌, ◌++◌, leb, keep, find, any,
  order_by, ◌==◌, if◌then◌else◌,
}
use booking_backend.Text.{text_leb}
use booking_backend.Outcome.{
  Outcome, ok, err, database, unique_violation, foreign_key_violation, not_found,
}
use booking_backend.Models.{Event, Job, NotificationRule}
use booking_backend.Models.Mail.{EmailTemplate, EmailTemplateVersion, MailLog}
use booking_backend.Models.Accounts.{Tenant}
use booking_backend.Db.{Db, update_where, delete_where, fetch_one}

abbrev pub has_tenant : String → Db → Bool
has_tenant id db = any (λ (t : Tenant). t.id == id) db.tenants

unfoldable pub find_tenant : String → Db → Option Tenant
find_tenant id db = find (λ t. t.id == id) db.tenants

abbrev pub has_template : String → Db → Bool
has_template id db = any (λ (t : EmailTemplate). t.id == id) db.templates

unfoldable pub insert_template : EmailTemplate → Db → Outcome (EmailTemplate × Db)
insert_template t db =
    if any (λ (r : EmailTemplate). r.id == t.id) db.templates
    then err (database unique_violation)
    else if has_tenant t.tenant_id db
    then ok (t, record db { templates = db.templates ++ t ∷ [] })
    else err (database foreign_key_violation)

unfoldable pub find_template : String → Db → Option EmailTemplate
find_template id db = find (λ t. t.id == id) db.templates

-- `AND event_id = ?`, where an event is asked for.
abbrev pub is_for_event : Option String → EmailTemplate → Bool
is_for_event none t = true
is_for_event (some event_id) t = elim t.event_id [ none ↦ false | some id ↦ id == event_id ]

unfoldable pub templates_of : String → Option String → Db → List EmailTemplate
templates_of tenant_id event_id db =
    order_by (λ (t u : EmailTemplate). text_leb t.name u.name)
      (keep (λ t. t.tenant_id == tenant_id && is_for_event event_id t) db.templates)

abbrev pub update_template_row : EmailTemplate → EmailTemplate → EmailTemplate
update_template_row t r = record r {
  name = t.name;
  subject_template = t.subject_template;
  body_template = t.body_template;
  template_type = t.template_type;
  updated_at = t.updated_at;
}

unfoldable pub update_template_rows : EmailTemplate → Db → Outcome (EmailTemplate × Db)
update_template_rows t db =
    let rows =
      update_where (λ (r : EmailTemplate). r.id == t.id) (update_template_row t) db.templates in
    fetch_one (find (λ r. r.id == t.id) rows) (record db { templates = rows })

-- A rule that names the template keeps it; its versions go with it.
unfoldable pub delete_template_rows : String → Db → Outcome (Unit {0} × Db)
delete_template_rows id db =
    if has_template id db && any (λ (r : NotificationRule). r.template_id == id) db.rules
    then err (database foreign_key_violation)
    else ok (
      tt,
      record db {
        templates = delete_where (λ (t : EmailTemplate). t.id == id) db.templates;
        versions =
            if has_template id db
            then delete_where (λ (v : EmailTemplateVersion). v.template_id == id) db.versions
            else db.versions;
      },
    )

unfoldable pub insert_version : EmailTemplateVersion → Db → Outcome (Unit {0} × Db)
insert_version v db =
    if any (λ (r : EmailTemplateVersion). r.id == v.id) db.versions
    then err (database unique_violation)
    else if has_template v.template_id db
    then ok (tt, record db { versions = db.versions ++ v ∷ [] })
    else err (database foreign_key_violation)

-- `ORDER BY created_at DESC`
unfoldable pub versions_of : String → Db → List EmailTemplateVersion
versions_of template_id db =
    order_by (λ (v w : EmailTemplateVersion). leb w.created_at v.created_at)
      (keep (λ v. v.template_id == template_id) db.versions)

unfoldable pub find_version : String → Db → Option EmailTemplateVersion
find_version id db = find (λ v. v.id == id) db.versions

-- `FOREIGN KEY (event_id)`, which nothing checks where it is null.
abbrev pub has_event : Option String → Db → Bool
has_event none db = true
has_event (some id) db = any (λ (e : Event). e.id == id) db.events

unfoldable pub insert_rule : NotificationRule → Db → Outcome (NotificationRule × Db)
insert_rule r db =
    if any (λ (q : NotificationRule). q.id == r.id) db.rules
    then err (database unique_violation)
    else if has_tenant r.tenant_id db && has_event r.event_id db && has_template r.template_id db
    then ok (r, record db { rules = db.rules ++ r ∷ [] })
    else err (database foreign_key_violation)

unfoldable pub delete_rule_rows : String → Db → Outcome (Unit {0} × Db)
delete_rule_rows id db =
    if any (λ (r : NotificationRule). r.id == id) db.rules
    then ok (tt, record db { rules = delete_where (λ (r : NotificationRule). r.id == id) db.rules })
    else err (not_found "Rule not found")

unfoldable pub log_mail : MailLog → Db → Outcome (Unit {0} × Db)
log_mail log db =
    if any (λ (l : MailLog). l.id == log.id) db.mail_logs
    then err (database unique_violation)
    else ok (tt, record db { mail_logs = db.mail_logs ++ log ∷ [] })

abbrev pub is_sent_to : String → String → String → MailLog → Bool
is_sent_to recipient template_id context_hash l =
    l.recipient == recipient
    && l.template_id == template_id
    && l.context_hash == context_hash
    && l.status == "SENT"

-- `SELECT COUNT(*) …`, and whether it is positive.
unfoldable pub has_mail_been_sent : String → String → String → Db → Bool
has_mail_been_sent recipient template_id context_hash db =
    any (is_sent_to recipient template_id context_hash) db.mail_logs

abbrev pub is_for_recipient : Option String → MailLog → Bool
is_for_recipient none l = true
is_for_recipient (some recipient) l = l.recipient == recipient

-- The logs of mails whose job is of the tenant, `ORDER BY sent_at DESC`.
unfoldable pub logs_of : String → Option String → Db → List MailLog
logs_of tenant_id recipient db =
    order_by (λ (l m : MailLog). leb m.sent_at l.sent_at)
      (keep
        (λ l.
          any (λ (j : Job). j.id == l.job_id && j.payload.tenant_id == tenant_id) db.jobs
          && is_for_recipient recipient l)
        db.mail_logs)
