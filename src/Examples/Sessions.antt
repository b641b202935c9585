-- ===== src/Examples/Sessions.antt =====
-- A session that is created for `talk`, and deleted.
use booking_backend.Prelude.{◌+◌, ◌*◌, ◌≡◌, refl, none, some, [], ◌∷◌, ◌++◌, true, In, pos, ◌==◌}
use booking_backend.Outcome.{Outcome, ok}
use booking_backend.Models.{Event, EventSession}
use booking_backend.Db.{St, ◌>>=◌, delete_where}
use booking_backend.Db.Bookings.{count_overlap}
use booking_backend.Db.Schedule.{
  find_event_by_slug, find_session_by_id, find_overlap, insert_session, delete_session_rows,
}
use booking_backend.Handlers.Sessions.{
  CreateSessionRequest, new_session, create_session, session_of, delete_session,
}
use booking_backend.Handlers.Sessions.Apart.{Apart, AllApart, create_session-ok}
use booking_backend.Handlers.Sessions.Runs.{Run, start, created, delete_session-ok, Run-AllApart}
use booking_backend.Examples.{utc_env, world, day_ns, hour_ns}

abbrev request : CreateSessionRequest
request = record {
  date = "1";
  start_time = "09:00";
  end_time = "10:00";
  max_participants = pos 9;
  location = none;
  host_name = none;
}

abbrev opened : Outcome EventSession × St
opened = create_session utc_env "acme" "talk" request world

abbrev session : EventSession
session = record {
  id = "id";
  event_id = "talk";
  start_time = day_ns + 9 * hour_ns;
  end_time = day_ns + 10 * hour_ns;
  max_participants = pos 9;
  location = none;
  host_name = none;
  created_at = 0;
}

opened_is : opened ≡ (ok session, opened.1)
unfolding create_session find_event_by_slug find_overlap new_session insert_session ◌>>=◌
opened_is = refl

create_session-ok_example :
    (opened.1.db ≡ record world.db { sessions = world.db.sessions ++ session ∷ [] })
    × ((r : EventSession) → In r world.db.sessions → Apart r session)
create_session-ok_example =
    create_session-ok utc_env "acme" "talk" request world opened.1 session opened_is

abbrev dropped : Outcome (Unit {0}) × St
dropped = delete_session "acme" "talk" "id" opened.1

dropped_is : dropped ≡ (ok tt, dropped.1)
unfolding create_session find_event_by_slug find_overlap new_session insert_session ◌>>=◌
    delete_session session_of find_session_by_id count_overlap delete_session_rows
dropped_is = refl

delete_session-ok_example :
    (event : Event) × (found : EventSession) × (find_event_by_slug "acme" "talk" opened.1.db
      ≡ some event)
    × (find_session_by_id "id" opened.1.db ≡ some found)
    × ((found.event_id == event.id) ≡ true)
    × (count_overlap event.id found.start_time found.end_time opened.1.db ≡ 0)
    × (dropped.1.db ≡ record opened.1.db {
      sessions = delete_where (λ (r : EventSession). r.id == "id") opened.1.db.sessions;
    })
delete_session-ok_example = delete_session-ok "acme" "talk" "id" opened.1 dropped.1 tt dropped_is

a_run : Run utc_env opened.1
a_run = created "acme" "talk" request opened.1 session (start world refl) opened_is

Run-AllApart_example : AllApart opened.1.db.sessions
Run-AllApart_example = Run-AllApart utc_env opened.1 a_run
