-- ===== src/Examples/Templates.antt =====
-- A template that is created, changed, and put back; and a campaign with it.
use booking_backend.Prelude.{
  ℕ, ◌≡◌, ◌*◌, refl, String, none, some, List, [], ◌∷◌, ◌++◌, eqb, true, length, ◌==◌,
  if◌then◌else◌,
}
use booking_backend.Outcome.{Outcome, ok}
use booking_backend.Models.{Job}
use booking_backend.Models.Mail.{EmailTemplate, EmailTemplateVersion}
use booking_backend.Env.{Env}
use booking_backend.Db.{St, ◌>>=◌}
use booking_backend.Db.Bookings.{insert_job_row}
use booking_backend.Db.Jobs.{create, new_job}
use booking_backend.Db.Mail.{
  insert_template, find_template, update_template_rows, insert_version, find_version,
}
use booking_backend.Text.Forms.{is_mjml}
use booking_backend.Handlers.Communication.{
  CreateTemplateRequest, CampaignSendRequest, get_template, version_of, new_template, new_version,
  record_version, create_template, update_template, restore_version, campaign_type, queue_campaign,
  send_campaign,
}
use booking_backend.Handlers.Communication.History.{IsRecorded, latest}
use booking_backend.Handlers.Communication.History.Runs.{
  Run, start, created, updated, put_back, Run-IsRecorded,
}
use booking_backend.Handlers.Communication.History.Undo.{update_template-restore_version}
use booking_backend.Handlers.Communication.History.Revisions.{
  Specified, restore, shown, histories, restored_one,
}
use booking_backend.Handlers.Communication.History.Refines.{Step-Specified}
use booking_backend.Handlers.Communication.Campaign.{MailJobs, send_campaign-ok}
use booking_backend.Examples.{utc_env, world, day_ns}

abbrev fresh : ℕ → String
fresh n =
    if eqb n 1
    then "t"
    else if eqb n 2
    then "v1"
    else if eqb n 4
    then "v2"
    else if eqb n 8
    then "v3"
    else if eqb n 10
    then "j2"
    else "j"

-- Every identifier is new, and the clock stands at the third day.
abbrev pub fresh_env : Env
fresh_env = record utc_env { uuid_at = fresh; now_at = λ n. 2 * day_ns }

abbrev request : CreateTemplateRequest
request = record {
  name = "Welcome";
  subject_template = "Hello";
  body_template = "<p>Hello</p>";
  template_type = "html";
  event_id = none;
}

abbrev change : CreateTemplateRequest
change = record request { body_template = " <MJML></MJML>"; template_type = "mjml" }

abbrev made : Outcome EmailTemplate × St
made = create_template fresh_env "acme" request world

abbrev pub welcome : EmailTemplate
welcome = record {
  id = "t";
  tenant_id = "acme";
  event_id = none;
  name = "Welcome";
  subject_template = "Hello";
  body_template = "<p>Hello</p>";
  template_type = "html";
  created_at = 2 * day_ns;
  updated_at = 2 * day_ns;
}

made_is : made ≡ (ok welcome, made.1)
unfolding create_template new_template insert_template record_version new_version insert_version
    ◌>>=◌
made_is = refl

abbrev first_version : EmailTemplateVersion
first_version = record {
  id = "v1";
  template_id = "t";
  subject_template = "Hello";
  body_template = "<p>Hello</p>";
  created_at = 2 * day_ns;
}

abbrev changed : Outcome EmailTemplate × St
changed = update_template fresh_env "acme" "t" change made.1

abbrev changed_template : EmailTemplate
changed_template = record welcome { body_template = " <MJML></MJML>"; template_type = "mjml" }

changed_is : changed ≡ (ok changed_template, changed.1)
unfolding create_template new_template insert_template record_version new_version insert_version
    ◌>>=◌ update_template get_template find_template update_template_rows
changed_is = refl

abbrev back : Outcome EmailTemplate × St
back = restore_version fresh_env "acme" "t" "v1" changed.1

back_is : back ≡ (ok welcome, back.1)
unfolding create_template new_template insert_template record_version new_version insert_version
    ◌>>=◌ update_template get_template find_template update_template_rows restore_version version_of
    find_version is_mjml
back_is = refl

a_run : Run fresh_env made.1
a_run = created "acme" request made.1 welcome (start world refl) made_is

Run-IsRecorded_example : IsRecorded back.1.db
Run-IsRecorded_example = Run-IsRecorded fresh_env back.1 (
    put_back "acme" "t" "v1" back.1 welcome
      (updated "acme" "t" change changed.1 changed_template a_run changed_is) back_is)

is_found : find_template "t" made.1.db ≡ some welcome
unfolding create_template new_template insert_template record_version new_version insert_version
    ◌>>=◌ find_template
is_found = refl

is_last : latest "t" made.1.db.versions ≡ some first_version
unfolding create_template new_template insert_template record_version new_version insert_version
    ◌>>=◌
is_last = refl

is_version : find_version "v1" made.1.db ≡ some first_version
unfolding create_template new_template insert_template record_version new_version insert_version
    ◌>>=◌ find_version
is_version = refl

update_template-restore_version_example :
    (welcome.subject_template ≡ welcome.subject_template)
    × (welcome.body_template ≡ welcome.body_template)
    × (find_template "t" back.1.db ≡ some welcome)
update_template-restore_version_example =
    update_template-restore_version fresh_env "acme" "acme" "t" change made.1 changed.1 back.1
      welcome changed_template welcome first_version a_run is_found is_last is_version changed_is
      back_is

Step-Specified_example :
    Specified (restore "t" (shown welcome)) (histories changed.1.db) (histories back.1.db)
Step-Specified_example =
    Step-Specified fresh_env (restore "t" (shown welcome)) changed.1 back.1
      (restored_one "acme" "t" "v1" back_is)

abbrev campaign : CampaignSendRequest
campaign = record { template_id = "t"; recipients = "3" ∷ "4" ∷ []; target_type = "BOOKING" }

abbrev launched : Outcome ℕ × St
launched = send_campaign fresh_env "acme" campaign made.1

launched_is : launched ≡ (ok 2, launched.1)
unfolding create_template new_template insert_template record_version new_version insert_version
    ◌>>=◌ send_campaign queue_campaign get_template find_template new_job create insert_job_row
launched_is = refl

send_campaign-ok_example :
    (template : EmailTemplate) × (added : List Job) × (find_template "t" made.1.db ≡ some template)
    × ((template.tenant_id == "acme") ≡ true)
    × (launched.1.db ≡ record made.1.db { jobs = made.1.db.jobs ++ added })
    × MailJobs fresh_env
        (campaign_type "BOOKING" "t")
        "acme"
        made.1.calls
        0
        campaign.recipients
        added
    × (2 ≡ length campaign.recipients)
send_campaign-ok_example =
    send_campaign-ok fresh_env "acme" campaign made.1 launched.1 2 launched_is
