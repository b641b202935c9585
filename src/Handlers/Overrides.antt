-- ===== src/Handlers/Overrides.antt =====
-- api/handlers/event_override.rs: the exceptions of single days.
use booking_backend.Prelude.{ℤ, String, Bool, Option, none, some, List, ◌==◌}
use booking_backend.Outcome.{ok_or, not_found, validation}
use booking_backend.Models.{NaiveDate, EventOverride, WeekdayConfig}
use booking_backend.Env.{Env}
use booking_backend.Db.{
  Exec, pure, lift, query, query_or, execute, reject, on_option, utc_now, new_uuid, ◌>>=◌, ◌>>◌,
}
use booking_backend.Db.Schedule.{
  find_event_by_slug, upsert_override_rows, delete_override_rows, list_overrides_by_range,
}

pub record EventOverrideRequest : Type 0 where
  pub date : NaiveDate
  pub is_unavailable : Bool
  pub config : Option WeekdayConfig
  pub override_max_participants : Option ℤ
  pub location : Option String
  pub host_name : Option String

module _ (env : Env) where
  unfoldable pub config_text : Option WeekdayConfig → Exec (Option String)
  config_text config = on_option config (pure none) λ c. do
    text ← lift (ok_or (env.config_to_json c) (validation "Invalid config"))
    pure (some text)

  unfoldable pub upsert_override : String → String → EventOverrideRequest → Exec EventOverride
  upsert_override tenant_id slug payload = do
    event ← query_or (find_event_by_slug tenant_id slug) (not_found "Event not found")
    reject (event.schedule_type == "MANUAL")
        (validation "Overrides not applicable for MANUAL events")
    config ← config_text payload.config
    id ← new_uuid env
    now ← utc_now env
    execute (
        upsert_override_rows (record {
          id = id;
          event_id = event.id;
          date = payload.date;
          is_unavailable = payload.is_unavailable;
          override_config_json = config;
          override_max_participants = payload.override_max_participants;
          location = payload.location;
          host_name = payload.host_name;
          created_at = now;
        }))

  unfoldable pub delete_override : String → String → String → Exec (Unit {0})
  delete_override tenant_id slug date_str = do
    event ← query_or (find_event_by_slug tenant_id slug) (not_found "Event not found")
    date ← lift (ok_or (env.parse_date date_str) (validation "Invalid date"))
    execute (delete_override_rows event.id date)

  unfoldable pub list_overrides :
      String → String → Option String → Option String → Exec (List EventOverride)
  list_overrides tenant_id slug start_param end_param = do
    event ← query_or (find_event_by_slug tenant_id slug) (not_found "Event not found")
    start_str ← lift (ok_or start_param (validation "start required"))
    end_str ← lift (ok_or end_param (validation "end required"))
    start ← lift (ok_or (env.parse_date start_str) (validation "Invalid start"))
    end ← lift (ok_or (env.parse_date end_str) (validation "Invalid end"))
    query (list_overrides_by_range event.id start end)
