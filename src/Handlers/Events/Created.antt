-- ===== src/Handlers/Events/Created.antt =====
-- What the creation of an event leaves in the tables (`create_event`, api/handlers/event.rs).
use booking_backend.Prelude.{
  suc, ◌≡◌, ◌∙◌, refl, ap, String, Bool, true, false, not, some, List, [], ◌∷◌, ◌++◌, arith, ltb,
  is_some, any, pos, ◌==◌, ◌||◌, ◌&&◌, unwrap_or,
}
use booking_backend.Outcome.{ok, ok_or-ok}
use booking_backend.Models.{Event}
use booking_backend.Models.Mail.{EmailTemplate}
use booking_backend.Env.{Env}
use booking_backend.Db.{St, execute, ◌>>=◌}
use booking_backend.Db.Rules.{bind-ok, pure-ok, reject-ok, lift-ok}
use booking_backend.Db.Schedule.{insert_event}
use booking_backend.Handlers.Events.Setup.{
  CreateEventRequest, is_access_mode, is_schedule_type, templates_to_create, new_event,
  create_event,
}
use booking_backend.Handlers.Events.Defaults.{Defaults, create_defaults-ok}

pub insert_event-ok :
    (e c : Event) (s t : St)
    → execute (insert_event e) s ≡ (ok c, t)
    → (c ≡ e)
      × (any
            (λ (r : Event). r.id == e.id || (r.tenant_id == e.tenant_id && r.slug == e.slug))
            s.db.events
          ≡ false)
      × (t.db ≡ record s.db { events = s.db.events ++ e ∷ [] })
unfolding execute insert_event
insert_event-ok e c s t h = ground arith

not-false : (b : Bool) → not b ≡ false → b ≡ true
not-false true h = refl
not-false false h = absurd (ground arith)

-- The row of an event that a request asks for, made in the state `s`.
abbrev pub requested_row : Env → String → CreateEventRequest → String → St → Event
requested_row env tenant payload json s = record {
  id = env.uuid_at s.calls;
  tenant_id = tenant;
  slug = payload.slug;
  title_en = payload.title_en;
  title_de = payload.title_de;
  desc_en = payload.desc_en;
  desc_de = payload.desc_de;
  location = payload.location;
  payout = payload.payout;
  host_name = payload.host_name;
  timezone = payload.timezone;
  min_notice_general = unwrap_or payload.min_notice_general (pos 0);
  min_notice_first = unwrap_or payload.min_notice_first (pos 0);
  active_start = payload.active_start;
  active_end = payload.active_end;
  duration_min = payload.duration_min;
  interval_min = payload.interval_min;
  max_participants = payload.max_participants;
  image_url = payload.image_url;
  config_json = json;
  access_mode = payload.access_mode;
  schedule_type = unwrap_or payload.schedule_type "RECURRING";
  allow_customer_cancel = unwrap_or payload.allow_customer_cancel true;
  allow_customer_reschedule = unwrap_or payload.allow_customer_reschedule true;
  created_at = env.now_at (suc s.calls);
}

-- The event `e` is the one that the request asks for, and the request is valid.
pub record IsRequested (env : Env) (tenant : String) (payload : CreateEventRequest) (s : St)
    (e : Event) : Type 0 where
  pub json : String
  pub row : e ≡ requested_row env tenant payload json s
  pub config : env.config_to_json payload.config ≡ some json
  pub access : is_access_mode payload.access_mode ≡ true
  pub schedule : is_schedule_type (unwrap_or payload.schedule_type "RECURRING") ≡ true
  pub ordered : ltb payload.active_end payload.active_start ≡ false
  pub zone : is_some (env.parse_tz payload.timezone) ≡ true
  pub fresh :
      any
        (λ (r : Event). r.id == e.id || (r.tenant_id == e.tenant_id && r.slug == e.slug))
        s.db.events
      ≡ false

pub new_event-ok :
    (env : Env) (tenant : String) (payload : CreateEventRequest) (json : String) (e : Event)
    (s t : St)
    → new_event env tenant payload (unwrap_or payload.schedule_type "RECURRING") json s ≡ (ok e, t)
    → (e ≡ requested_row env tenant payload json s) × (t.db ≡ s.db)
unfolding new_event ◌>>=◌
new_event-ok env tenant payload json e s t h = ground arith

-- An event that is created with success has every field as the request gives it, or the default where the
-- request leaves it out, and the configuration written out. The request is valid: the access mode and the schedule
-- type are known, the end is not before the start, and the time zone is read. No event had its identifier, and none
-- of the tenant its slug. It is appended to the events, which otherwise stay, and the five default
-- templates are appended to the templates, in their order: each named by the slug and its suffix, tied to
-- this event and its tenant, an MJML template with the default subject and the text of the file, whatever
-- became of the versions and the rules.
pub create_event-ok :
    (env : Env) (file : String → String) (tenant : String) (payload : CreateEventRequest) (s t : St)
    (c : Event)
    → create_event env file tenant payload s ≡ (ok c, t)
    → (added : List EmailTemplate) × IsRequested env tenant payload s c
      × (t.db.events ≡ s.db.events ++ c ∷ [])
      × (t.db.templates ≡ s.db.templates ++ added)
      × Defaults tenant payload.slug c.id (templates_to_create file) added
unfolding create_event
create_event-ok env file tenant payload s t c h = reject-ok _ s _ _ h λ access h₁.
    reject-ok _ s _ _ h₁ λ schedule h₂. reject-ok _ s _ _ h₂ λ ordered h₃.
      reject-ok _ s _ _ h₃ λ zone h₄. lift-ok _ s _ h₄ λ json written h₅.
        bind-ok _ _ s h₅ λ e s₁ new h₆. bind-ok _ _ s₁ h₆ λ made s₂ inserted h₇.
          bind-ok _ _ s₂ h₇ λ u s₃ defaults h₈.
            let (row, same) = new_event-ok env tenant payload json e s s₁ new in
            let (is_e, fresh, db₂) = insert_event-ok e made s₁ s₂ inserted in
            let (added, events, templates, like) =
              create_defaults-ok env tenant payload.slug made.id (templates_to_create file) s₂ s₃ u
                defaults in
            let (is_made, end) = pure-ok made s₃ h₈ in
            (
              added,
              rw (is_made, is_e)
                  (record {
                    json = json;
                    row = row;
                    config = ok_or-ok _ _ written;
                    access = not-false _ access;
                    schedule = not-false _ schedule;
                    ordered = ordered;
                    zone = not-false _ zone;
                    fresh = rw same at fresh;
                  }),
              ap (λ (x : St). x.db.events) end ∙ events ∙ rw (db₂, same, is_made, is_e) refl,
              ap (λ (x : St). x.db.templates) end ∙ templates ∙ rw (db₂, same) refl,
              rw is_made like,
            )
