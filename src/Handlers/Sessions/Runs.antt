-- ===== src/Handlers/Sessions/Runs.antt =====
-- The table of sessions over the life of the program (api/handlers/session.rs), one request at a time.
use booking_backend.Prelude.{
  ℕ, ℤ, ◌≡◌, ◌∙◌, sym, ap, subst, String, Option, some, true, false, [], arith, ltb, ◌==◌,
}
use booking_backend.Outcome.{ok}
use booking_backend.Models.{Event, EventSession}
use booking_backend.Env.{Env}
use booking_backend.Db.{Db, St, pure, execute, on_option, update_where, delete_where}
use booking_backend.Db.Rules.{
  Reads, reads_rules, bind-ok, reads-ok, query_or-ok, query-ok, reject-ok, pure-ok, fetch_one-ok,
}
use booking_backend.Db.Bookings.{count_overlap}
use booking_backend.Db.Schedule.{
  update_session_rows, delete_session_rows, find_event_by_slug, find_session_by_id,
}
use booking_backend.Handlers.Booking.Update.{set_or_clear}
use booking_backend.Handlers.Events.Setup.{delete_event_rows, delete_event}
use booking_backend.Handlers.Sessions.{
  CreateSessionRequest, UpdateSessionRequest, create_session, session_of, set_capacity,
  update_session, delete_session,
}
use booking_backend.Handlers.Sessions.Apart.{
  AllApart, AllApart-end, AllApart-update, AllApart-delete, change, create_session-ok,
}

Reads-session_of : (tenant slug id : String) → Reads (session_of tenant slug id)
unfolding session_of
Reads-session_of tenant slug id = search reads_rules depth 10

Reads-set_capacity :
    (event : Event) (session : EventSession) (cap : ℤ) → Reads (set_capacity event session cap)
unfolding set_capacity
Reads-set_capacity event session cap = search reads_rules depth 10

update_rows-sessions :
    (n c : EventSession) (s t : St)
    → execute (update_session_rows n) s ≡ (ok c, t)
    → t.db.sessions
      ≡ update_where (λ (r : EventSession). r.id == n.id) (change (λ _. true) n) s.db.sessions
unfolding execute update_session_rows
update_rows-sessions n c s t h = ap (λ (db : Db). db.sessions) (fetch_one-ok _ _ s t c h).1

delete_rows-sessions :
    (id : String) (u : Unit {0}) (s t : St)
    → execute (delete_session_rows id) s ≡ (ok u, t)
    → t.db
      ≡ record s.db { sessions = delete_where (λ (r : EventSession). r.id == id) s.db.sessions }
unfolding execute delete_session_rows
delete_rows-sessions id u s t h = ground arith

Reads-sized :
    (event : Event) (session : EventSession) (cap : Option ℤ)
    → Reads (on_option cap (pure session) λ c. set_capacity event session c)
Reads-sized event session cap = search (reads_rules, Reads-set_capacity) depth 10

-- An update of a session changes no time and no event of a session.
update_session-AllApart :
    (tenant slug id : String) (payload : UpdateSessionRequest) (s t : St) (c : EventSession)
    → update_session tenant slug id payload s ≡ (ok c, t)
    → AllApart s.db.sessions
    → AllApart t.db.sessions
unfolding update_session
update_session-AllApart tenant slug id payload s t c h apart =
    reads-ok _ s _ (Reads-session_of tenant slug id) h λ found s₁ d₁ _ h₁.
      reads-ok _ s₁ _ (Reads-sized found.0 found.1 payload.max_participants) h₁ λ sized s₂ d₂ _ h₂.
        let apart₂ : AllApart s₂.db.sessions =
          subst (λ (db : Db). AllApart db.sessions) (sym (d₂ ∙ d₁)) apart in
        let n = record sized {
          location = set_or_clear payload.location sized.location;
          host_name = set_or_clear payload.host_name sized.host_name;
        } in
        rw (update_rows-sessions n c s₂ t h₂) (AllApart-update _ n s₂.db.sessions apart₂)

unbooked_none : (n : ℕ) → ltb 0 n ≡ false → n ≡ 0
unbooked_none n h = ground arith

-- A session that is deleted is of the event in the path and has no live booking; nothing else goes.
pub delete_session-ok :
    (tenant slug id : String) (s t : St) (u : Unit {0})
    → delete_session tenant slug id s ≡ (ok u, t)
    → (event : Event) × (session : EventSession) × (find_event_by_slug tenant slug s.db
        ≡ some event)
      × (find_session_by_id id s.db ≡ some session)
      × ((session.event_id == event.id) ≡ true)
      × (count_overlap event.id session.start_time session.end_time s.db ≡ 0)
      × (t.db ≡ record s.db {
        sessions = delete_where (λ (r : EventSession). r.id == id) s.db.sessions;
      })
unfolding delete_session session_of
delete_session-ok tenant slug id s t u h = bind-ok _ _ s h λ found s₁ named h₁.
    query_or-ok _ s _ _ named λ event is_event n₁. query_or-ok _ s _ _ n₁ λ session is_session n₂.
      reject-ok _ s _ _ n₂ λ of_event n₃. reject-ok _ s₁ _ _ (query-ok _ s₁ _ h₁) λ unbooked h₂.
        let (same, start) = pure-ok (event, session) s n₃ in
        let unbooked' : ltb 0 (count_overlap event.id session.start_time session.end_time s.db)
            ≡ false =
          subst
            (λ (p : (Event × EventSession) × St).
              ltb 0 (count_overlap (p.0).0.id (p.0).1.start_time (p.0).1.end_time p.1.db) ≡ false)
            (λ i. (same i, start i)) unbooked in
        (
          event,
          session,
          is_event,
          is_session,
          ground arith,
          unbooked_none _ unbooked',
          rw (← start) (delete_rows-sessions id u s₁ t h₂),
        )

delete_event_rows-sessions :
    (tenant id : String) (s t : St) (u : Unit {0})
    → execute (delete_event_rows tenant id) s ≡ (ok u, t)
    → t.db.sessions ≡ delete_where (λ (x : EventSession). x.event_id == id) s.db.sessions
unfolding execute delete_event_rows
delete_event_rows-sessions tenant id s t u h = ground arith

delete_event-AllApart :
    (tenant slug : String) (s t : St) (u : Unit {0})
    → delete_event tenant slug s ≡ (ok u, t)
    → AllApart s.db.sessions
    → AllApart t.db.sessions
unfolding delete_event
delete_event-AllApart tenant slug s t u h apart = query_or-ok _ s _ _ h λ event found h₁.
    rw (delete_event_rows-sessions tenant event.id s t u h₁)
      (AllApart-delete (λ (x : EventSession). x.event_id == event.id) s.db.sessions apart)

-- The tables over a sequence of requests. The three requests on sessions and the deletion of an event, whose
-- sessions go with it, change the table of sessions where they succeed; `other` is any change that keeps it.
pub data Run (env : Env) : St → Type 0 where
  start : (s : St) → s.db.sessions ≡ [] → Run env s
  other : {s : St} (t : St) → Run env s → t.db.sessions ≡ s.db.sessions → Run env t
  created :
      {s : St} (tenant slug : String) (payload : CreateSessionRequest) (t : St) (c : EventSession)
      → Run env s
      → create_session env tenant slug payload s ≡ (ok c, t)
      → Run env t
  updated :
      {s : St} (tenant slug id : String) (payload : UpdateSessionRequest) (t : St)
      (c : EventSession)
      → Run env s
      → update_session tenant slug id payload s ≡ (ok c, t)
      → Run env t
  deleted :
      {s : St} (tenant slug id : String) (t : St) (u : Unit {0})
      → Run env s
      → delete_session tenant slug id s ≡ (ok u, t)
      → Run env t
  event_deleted :
      {s : St} (tenant slug : String) (t : St) (u : Unit {0})
      → Run env s
      → delete_event tenant slug s ≡ (ok u, t)
      → Run env t

-- From an empty table, and over any sequence of requests that create, update and delete sessions, delete events,
-- or keep the table of sessions, no two sessions of an event overlap.
pub Run-AllApart : (env : Env) (s : St) → Run env s → AllApart s.db.sessions
Run-AllApart env _ (start s empty) = rw empty tt
Run-AllApart env t (other {s = s} _ r same) = rw same (Run-AllApart env s r)
Run-AllApart env t (created {s = s} tenant slug payload _ c r h) =
    let (table, apart) = create_session-ok env tenant slug payload s t c h in
    rw table (AllApart-end c s.db.sessions (Run-AllApart env s r) apart)
Run-AllApart env t (updated {s = s} tenant slug id payload _ c r h) =
    update_session-AllApart tenant slug id payload s t c h (Run-AllApart env s r)
Run-AllApart env t (deleted {s = s} tenant slug id _ u r h) =
    let (_, _, _, _, _, _, table) = delete_session-ok tenant slug id s t u h in
    rw table (AllApart-delete _ s.db.sessions (Run-AllApart env s r))
Run-AllApart env t (event_deleted {s = s} tenant slug _ u r h) =
    delete_event-AllApart tenant slug s t u h (Run-AllApart env s r)
