-- ===== src/Handlers/Sessions.antt =====
-- api/handlers/session.rs: the sessions of a manual event. The texts of errors that print numbers keep
-- their fixed part.
pub mod Apart
pub mod Runs
use booking_backend.Prelude.{
  ℕ, ℤ, String, Bool, true, false, not, Option, none, some, List, [], ◌∷◌, leb, ltb, ltb_ℤ, as_i32,
  ◌==◌, if◌then◌else◌,
}
use booking_backend.Outcome.{Outcome, ok_or, not_found, validation, conflict}
use booking_backend.Models.{Instant, Event, EventSession}
use booking_backend.Env.{Env}
use booking_backend.Availability.{timezone}
use booking_backend.Db.{
  Exec, pure, lift, query, query_or, execute, reject, on_option, utc_now, new_uuid, ◌>>=◌, ◌>>◌,
}
use booking_backend.Db.Bookings.{count_overlap}
use booking_backend.Db.Schedule.{
  find_event_by_slug, find_session_by_id, find_overlap, list_sessions_by_event, insert_session,
  update_session_rows, delete_session_rows,
}
use booking_backend.Handlers.Booking.Update.{set_or_clear}

pub record CreateSessionRequest : Type 0 where
  pub date : String
  pub start_time : String
  pub end_time : String
  pub max_participants : ℤ
  pub location : Option String
  pub host_name : Option String

pub record UpdateSessionRequest : Type 0 where
  pub max_participants : Option ℤ
  pub location : Option String
  pub host_name : Option String

-- `is_empty`
abbrev pub is_empty : {A : Type 0} → List A → Bool
is_empty [] = true
is_empty (x ∷ xs) = false

module _ (env : Env) where
  -- `EventSession::new`
  unfoldable pub new_session : String → Instant → Instant → ℤ → Exec EventSession
  new_session event_id start end max_participants = do
    id ← new_uuid env
    now ← utc_now env
    pure (record {
      id = id;
      event_id = event_id;
      start_time = start;
      end_time = end;
      max_participants = max_participants;
      location = none;
      host_name = none;
      created_at = now;
    })

  unfoldable pub create_session : String → String → CreateSessionRequest → Exec EventSession
  create_session tenant_id slug payload = do
    event ← query_or (find_event_by_slug tenant_id slug) (not_found "Event not found")
    reject (not (event.schedule_type == "MANUAL"))
        (validation "Sessions can only be created for MANUAL events")
    date ← lift (ok_or (env.parse_date payload.date) (validation "Invalid date format"))
    start_time ← lift (ok_or (env.parse_time payload.start_time) (validation "Invalid start time"))
    end_time ← lift (ok_or (env.parse_time payload.end_time) (validation "Invalid end time"))
    reject (leb end_time start_time) (validation "End time must be after start time")
    start ← lift (
        ok_or (env.from_local (timezone env event) date start_time)
          (validation "Invalid local time"))
    end ← lift (
        ok_or (env.from_local (timezone env event) date end_time) (validation "Invalid local time"))
    overlaps ← query (find_overlap event.id start end)
    reject (not (is_empty overlaps)) (conflict "Session overlaps with an existing session")
    session ← new_session event.id start end payload.max_participants
    execute (insert_session session)

unfoldable pub list_sessions : String → String → Exec (List EventSession)
list_sessions tenant_id slug = do
  event ← query_or (find_event_by_slug tenant_id slug) (not_found "Event not found")
  query (list_sessions_by_event event.id)

-- The event and the session that a path names.
unfoldable pub session_of : String → String → String → Exec (Event × EventSession)
session_of tenant_id slug session_id = do
  event ← query_or (find_event_by_slug tenant_id slug) (not_found "Event not found")
  session ← query_or (find_session_by_id session_id) (not_found "Session not found")
  reject (not (session.event_id == event.id)) (not_found "Session not found for this event")
  pure (event, session)

-- A capacity may not fall below the bookings that the session has.
unfoldable pub set_capacity : Event → EventSession → ℤ → Exec EventSession
set_capacity event session capacity = do
  bookings ← query (count_overlap event.id session.start_time session.end_time)
  reject (ltb_ℤ capacity (as_i32 bookings)) (conflict "Cannot reduce capacity")
  pure (record session { max_participants = capacity })

unfoldable pub update_session : String → String → String → UpdateSessionRequest → Exec EventSession
update_session tenant_id slug session_id payload = do
  found ← session_of tenant_id slug session_id
  sized ← on_option payload.max_participants (pure found.1) λ cap. set_capacity found.0 found.1 cap
  execute (
      update_session_rows (record sized {
        location = set_or_clear payload.location sized.location;
        host_name = set_or_clear payload.host_name sized.host_name;
      }))

unfoldable pub delete_session : String → String → String → Exec (Unit {0})
delete_session tenant_id slug session_id = do
  found ← session_of tenant_id slug session_id
  bookings ← query (count_overlap (found.0).id (found.1).start_time (found.1).end_time)
  reject (ltb 0 bookings) (conflict "Cannot delete session with existing bookings")
  execute (delete_session_rows session_id)
