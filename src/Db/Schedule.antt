-- ===== src/Db/Schedule.antt =====
-- The tables of events, overrides, sessions and invitees
-- (infra/repositories/sqlite_event_repo.rs, sqlite_event_override_repo.rs, sqlite_session_repo.rs,
-- sqlite_invitee_repo.rs). The foreign keys of the schema are not modelled.
use booking_backend.Prelude.{
  String, Bool, true, false, ◌&&◌, ◌||◌, Option, List, [], ◌∷◌, ◌++◌, ltb, leb, eqb, keep, find,
  any, ◌==◌, if◌then◌else◌,
}
use booking_backend.Outcome.{Outcome, ok, err, database, unique_violation, not_found}
use booking_backend.Models.{Instant, NaiveDate, Event, EventOverride, EventSession, Invitee}
use booking_backend.Db.{Db, update_where, delete_where, fetch_one}

unfoldable pub find_event_by_slug : String → String → Db → Option Event
find_event_by_slug tenant_id slug db =
    find (λ e. e.tenant_id == tenant_id && e.slug == slug) db.events

unfoldable pub find_event_by_id : String → String → Db → Option Event
find_event_by_id tenant_id id db = find (λ e. e.tenant_id == tenant_id && e.id == id) db.events

unfoldable pub list_events_of : String → Db → List Event
list_events_of tenant_id db = keep (λ e. e.tenant_id == tenant_id) db.events

-- The keys are `id`, and `tenant_id` with `slug`.
unfoldable pub insert_event : Event → Db → Outcome (Event × Db)
insert_event e db =
    if any (λ r. r.id == e.id || (r.tenant_id == e.tenant_id && r.slug == e.slug)) db.events
    then err (database unique_violation)
    else ok (e, record db { events = db.events ++ e ∷ [] })

abbrev pub is_event_of : Event → Event → Bool
is_event_of e r = r.id == e.id && r.tenant_id == e.tenant_id

abbrev pub update_event_row : Event → Event → Event
update_event_row e r = record e { id = r.id; tenant_id = r.tenant_id; created_at = r.created_at }

-- The new slug may be taken by another event of the tenant.
unfoldable pub update_event_rows : Event → Db → Outcome (Event × Db)
update_event_rows e db =
    if any (is_event_of e) db.events
      && any
          (λ r.
            (if r.id == e.id then false else true)
            && r.tenant_id == e.tenant_id
            && r.slug == e.slug)
          db.events
    then err (database unique_violation)
    else let rows = update_where (is_event_of e) (update_event_row e) db.events in
      fetch_one (find (is_event_of e) rows) (record db { events = rows })

unfoldable pub find_override_by_date : String → NaiveDate → Db → Option EventOverride
find_override_by_date event_id date db =
    find (λ o. o.event_id == event_id && eqb o.date date) db.overrides

unfoldable pub list_overrides_by_range : String → NaiveDate → NaiveDate → Db → List EventOverride
list_overrides_by_range event_id start end db =
    keep (λ o. o.event_id == event_id && leb start o.date && leb o.date end) db.overrides

abbrev pub is_override_of : EventOverride → EventOverride → Bool
is_override_of o r = r.event_id == o.event_id && eqb r.date o.date

-- `INSERT … ON CONFLICT(event_id, date) DO UPDATE SET …`
unfoldable pub upsert_override_rows : EventOverride → Db → Outcome (EventOverride × Db)
upsert_override_rows o db =
    if any (is_override_of o) db.overrides
    then (let rows =
          update_where (is_override_of o)
            (λ r. record r {
              is_unavailable = o.is_unavailable;
              override_config_json = o.override_config_json;
              override_max_participants = o.override_max_participants;
              location = o.location;
              host_name = o.host_name;
            })
            db.overrides in
        fetch_one (find (is_override_of o) rows) (record db { overrides = rows }))
    else if any (λ r. r.id == o.id) db.overrides
    then err (database unique_violation)
    else ok (o, record db { overrides = db.overrides ++ o ∷ [] })

unfoldable pub delete_override_rows : String → NaiveDate → Db → Outcome (Unit {0} × Db)
delete_override_rows event_id date db =
    if any (λ o. o.event_id == event_id && eqb o.date date) db.overrides
    then ok (
      tt,
      record db {
        overrides = delete_where (λ o. o.event_id == event_id && eqb o.date date) db.overrides;
      },
    )
    else err (not_found "Override not found")

unfoldable pub find_session_by_id : String → Db → Option EventSession
find_session_by_id id db = find (λ s. s.id == id) db.sessions

-- `WHERE event_id = ? AND start_time < ? AND end_time > ?`
abbrev pub meets : String → Instant → Instant → EventSession → Bool
meets event_id start end s = s.event_id == event_id && ltb s.start_time end && ltb start s.end_time

unfoldable pub find_overlap : String → Instant → Instant → Db → List EventSession
find_overlap event_id start end db = keep (meets event_id start end) db.sessions

-- `ORDER BY start_time ASC`
abbrev pub insert_by_start : EventSession → List EventSession → List EventSession
insert_by_start s [] = s ∷ []
insert_by_start s (t ∷ ts) =
    if leb s.start_time t.start_time then s ∷ t ∷ ts else t ∷ insert_by_start s ts

abbrev pub order_by_start : List EventSession → List EventSession
order_by_start [] = []
order_by_start (s ∷ ss) = insert_by_start s (order_by_start ss)

unfoldable pub list_sessions_by_range : String → Instant → Instant → Db → List EventSession
list_sessions_by_range event_id start end db =
    order_by_start (keep (meets event_id start end) db.sessions)

unfoldable pub list_sessions_by_event : String → Db → List EventSession
list_sessions_by_event event_id db = order_by_start (keep (λ s. s.event_id == event_id) db.sessions)

unfoldable pub insert_session : EventSession → Db → Outcome (EventSession × Db)
insert_session s db =
    if any (λ r. r.id == s.id) db.sessions
    then err (database unique_violation)
    else ok (s, record db { sessions = db.sessions ++ s ∷ [] })

unfoldable pub update_session_rows : EventSession → Db → Outcome (EventSession × Db)
update_session_rows s db =
    let rows =
      update_where (λ (r : EventSession). r.id == s.id)
        (λ r. record r {
          max_participants = s.max_participants;
          location = s.location;
          host_name = s.host_name;
        })
        db.sessions in
    fetch_one (find (λ r. r.id == s.id) rows) (record db { sessions = rows })

unfoldable pub delete_session_rows : String → Db → Outcome (Unit {0} × Db)
delete_session_rows id db =
    if any (λ (r : EventSession). r.id == id) db.sessions
    then ok (tt, record db { sessions = delete_where (λ r. r.id == id) db.sessions })
    else err (not_found "Session not found")

unfoldable pub find_invitee_by_token : String → Db → Option Invitee
find_invitee_by_token token db = find (λ i. i.token == token) db.invitees

unfoldable pub find_invitee_by_id : String → String → Db → Option Invitee
find_invitee_by_id tenant_id id db = find (λ i. i.tenant_id == tenant_id && i.id == id) db.invitees

unfoldable pub list_invitees_by_event : String → String → Db → List Invitee
list_invitees_by_event tenant_id event_id db =
    keep (λ i. i.tenant_id == tenant_id && i.event_id == event_id) db.invitees

-- The keys are `id` and `token`.
unfoldable pub insert_invitee : Invitee → Db → Outcome (Invitee × Db)
insert_invitee i db =
    if any (λ r. r.id == i.id || r.token == i.token) db.invitees
    then err (database unique_violation)
    else ok (i, record db { invitees = db.invitees ++ i ∷ [] })

unfoldable pub update_invitee_rows : Invitee → Db → Outcome (Invitee × Db)
update_invitee_rows i db =
    let rows =
      update_where (λ (r : Invitee). r.id == i.id && r.tenant_id == i.tenant_id)
        (λ r. record r { status = i.status; email = i.email }) db.invitees in
    fetch_one (find (λ r. r.id == i.id && r.tenant_id == i.tenant_id) rows)
      (record db { invitees = rows })

unfoldable pub delete_invitee_rows : String → String → Db → Outcome (Unit {0} × Db)
delete_invitee_rows tenant_id id db =
    if any (λ (r : Invitee). r.id == id && r.tenant_id == tenant_id) db.invitees
    then ok (
      tt,
      record db {
        invitees = delete_where (λ r. r.id == id && r.tenant_id == tenant_id) db.invitees;
      },
    )
    else err (not_found "Invitee not found")
