-- ===== src/Examples/Events.antt =====
-- An event that is created with its templates.
use booking_backend.Prelude.{ℕ, zero, suc, ◌*◌, ◌≡◌, refl, String, none, List, [], ◌∷◌, ◌++◌, pos}
use booking_backend.Text.Forms.{concat}
use booking_backend.Outcome.{Outcome, ok}
use booking_backend.Models.{Event}
use booking_backend.Models.Mail.{EmailTemplate}
use booking_backend.Env.{Env}
use booking_backend.Db.{St, ◌>>=◌}
use booking_backend.Db.Schedule.{insert_event}
use booking_backend.Db.Mail.{insert_template, insert_version, insert_rule}
use booking_backend.Handlers.Communication.{new_template, new_version, new_rule, record_version}
use booking_backend.Handlers.Events.Setup.{
  CreateEventRequest, get_default_template, templates_to_create, rule_for, create_defaults,
  new_event, create_event,
}
use booking_backend.Handlers.Events.Defaults.{Defaults}
use booking_backend.Handlers.Events.Created.{IsRequested, create_event-ok}
use booking_backend.Examples.{utc_env, world, morning, course, day_ns}

-- Every identifier is longer than the one before.
abbrev tally : ℕ → String
tally zero = "id"
tally (suc n) = concat ("i" ∷ tally n ∷ [])

abbrev counting : Env
counting = record utc_env { uuid_at = tally }

abbrev request : CreateEventRequest
request = record {
  slug = "yoga";
  title_en = "";
  title_de = "";
  desc_en = "";
  desc_de = "";
  location = "";
  payout = "";
  host_name = "";
  timezone = "UTC";
  min_notice_general = none;
  min_notice_first = none;
  active_start = 0;
  active_end = 10 * day_ns;
  duration_min = pos 30;
  interval_min = pos 30;
  max_participants = pos 1;
  image_url = "";
  config = morning;
  access_mode = "OPEN";
  schedule_type = none;
  allow_customer_cancel = none;
  allow_customer_reschedule = none;
}

abbrev yoga : Event
yoga = record course { id = "id"; slug = "yoga"; access_mode = "OPEN" }

-- The files hold their own names.
abbrev file : String → String
file name = name

abbrev made : Outcome Event × St
made = create_event counting file "acme" request world

made_is : made ≡ (ok yoga, made.1)
unfolding create_event new_event insert_event create_defaults new_template insert_template
    record_version new_version insert_version rule_for new_rule insert_rule concat
    get_default_template ◌>>=◌
made_is = refl

create_event-ok_example :
    (added : List EmailTemplate) × IsRequested counting "acme" request world yoga
    × (made.1.db.events ≡ world.db.events ++ yoga ∷ [])
    × (made.1.db.templates ≡ world.db.templates ++ added)
    × Defaults "acme" "yoga" "id" (templates_to_create file) added
create_event-ok_example = create_event-ok counting file "acme" request world made.1 yoga made_is
