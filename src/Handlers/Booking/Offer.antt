-- ===== src/Handlers/Booking/Offer.antt =====
-- The slots that the handlers of api/handlers accept: what the checks before a booking or a move establish.
use booking_backend.Prelude.{
  ◌≡◌, ◌∙◌, sym, ap, refl, subst, String, true, false, Option, none, some, List, arith, ltb, ◌||◌,
  ◌==◌, if◌then◌else◌, Bool-cases, inl, inr, suc, ℕ,
}
use booking_backend.Text.{contains}
use booking_backend.Outcome.{ok, conflict}
use booking_backend.Models.{Instant, NaiveDate, Event, EventOverride, EventSession, add_minutes}
use booking_backend.Env.{Env}
use booking_backend.Availability.{calculate_slots, timezone, day_bound, is_unavailable}
use booking_backend.Db.{Db, St, pure, query, raise, on_option}
use booking_backend.Db.Rules.{bind-ok, lift-ok, query-ok, reject-ok, pure-ok, raise-ne}
use booking_backend.Db.Clock.{utc_now-ok}
use booking_backend.Db.Still.{Still, still_rules, still-ok}
use booking_backend.Db.Bookings.{list_by_range}
use booking_backend.Db.Schedule.{find_override_by_date, list_sessions_by_range}
use booking_backend.Handlers.{day_range, override_of, sessions_of, session_at, location_of}
use booking_backend.Handlers.Booking.{Slot, check_slot}

-- The end of a slot of `event` that starts at `start`: that of the session which starts there, or, without
-- sessions, the start and the duration of the event.
pub data SlotEnd (event : Event) (start : Instant)
    : Option (List EventSession) → Instant → Type 0 where
  by_duration : SlotEnd event start none (add_minutes start event.duration_min)
  by_session :
      (sessions : List EventSession) (session : EventSession)
      → session_at start sessions ≡ some session
      → SlotEnd event start (some sessions) session.end_time

session_found :
    (event : Event) (start : Instant) (o : Option EventSession) (sessions : List EventSession)
    (message : String) (s u : St) (found : Instant × Option (List EventSession))
    → session_at start sessions ≡ o
    → on_option o (raise (conflict message)) (λ session. pure (session.end_time, some sessions)) s
      ≡ (ok found, u)
    → (found.1 ≡ some sessions) × SlotEnd event start found.1 found.0
unfolding on_option
session_found event start none sessions message s u found e h = absurd (raise-ne _ s u found h)
session_found event start (some session) sessions message s u found e h =
    let (same, _) = pure-ok _ s h in
    subst
      (λ (p : Instant × Option (List EventSession)).
        (p.1 ≡ some sessions) × SlotEnd event start p.1 p.0)
      (sym same) (refl, by_session sessions session e)

pub Still-override_of : (event : Event) (date : NaiveDate) → Still (override_of event date)
unfolding override_of
Still-override_of event date = search still_rules

pub Still-sessions_of :
    (event : Event) (day_start day_end start end : Instant) (message : String)
    → Still (sessions_of event day_start day_end start end message)
unfolding sessions_of
Still-sessions_of event day_start day_end start end message = search still_rules

module _ (env : Env) where
  -- The start is one of the slots that `calculate_slots` gives for the day at the instant `now`, on the tables
  -- `db`.
  pub record IsOffered (event : Event) (date : NaiveDate) (start now : Instant) (db : Db)
      : Type 0 where
    pub day_start : Instant
    pub day_end : Instant
    pub rule : Option EventOverride
    pub sessions : Option (List EventSession)
    pub slots : List String
    pub rule_is :
        rule
        ≡ (if event.schedule_type == "MANUAL" then none else find_override_by_date event.id date db)
    pub sessions_are : sessions ≡ (
        if event.schedule_type == "MANUAL"
        then some (list_sessions_by_range event.id day_start day_end db)
        else none)
    pub starts : day_bound env (timezone env event) date 0 0 0 ≡ ok day_start
    pub ends : day_bound env (timezone env event) date 23 59 59 ≡ ok day_end
    pub offered :
        calculate_slots env event date
          (list_by_range event.id day_start day_end db)
          rule
          sessions
          now
        ≡ ok slots
    pub listed : contains (env.to_rfc3339 start) slots ≡ true

  -- An offered start, with the end of its slot and the place of its day.
  pub record IsSlot (event : Event) (date : NaiveDate) (start end : Instant)
      (location : Option String) (now : Instant) (db : Db) : Type 0 where
    pub offer : IsOffered event date start now db
    pub not_closed : is_unavailable offer.rule ≡ false
    pub ends_at : SlotEnd event start offer.sessions end
    pub located : location ≡ location_of offer.rule offer.sessions start

  -- The checks that a slot of a new booking passed. `calls` is the number of the clock reading that the start is
  -- not before; the notice is counted from the reading after it.
  pub record IsFree (event : Event) (date : NaiveDate) (start end : Instant)
      (location : Option String) (calls : ℕ) (db : Db) : Type 0 where
    pub future : ltb start (env.now_at calls) ≡ false
    pub active :
        (ltb start event.active_start
          || ltb event.active_end (add_minutes start event.duration_min))
        ≡ false
    pub slot : IsSlot event date start end location (env.now_at (suc calls)) db

  pub Still-day_range : (event : Event) (date : NaiveDate) → Still (day_range env event date)
  unfolding day_range
  Still-day_range event date = search still_rules

  pub day_range-ok :
      (event : Event) (date : NaiveDate) (s u : St) (range : Instant × Instant)
      → day_range env event date s ≡ (ok range, u)
      → (day_bound env (timezone env event) date 0 0 0 ≡ ok range.0)
        × (day_bound env (timezone env event) date 23 59 59 ≡ ok range.1)
  unfolding day_range
  day_range-ok event date s u range h =
      lift-ok _ s _ h λ a e h₁.
        lift-ok _ s _ h₁ λ b f h₂. let (same, _) = pure-ok _ s h₂ in (rw same e, rw same f)

  pub override_of-ok :
      (event : Event) (date : NaiveDate) (s u : St) (rule : Option EventOverride)
      → override_of event date s ≡ (ok rule, u)
      → rule ≡ (
          if event.schedule_type == "MANUAL"
          then none
          else find_override_by_date event.id date s.db)
  unfolding override_of pure query
  override_of-ok event date s u rule h = elim (Bool-cases (event.schedule_type == "MANUAL")) [
    | inl e ↦ rw e (ground arith)
    | inr e ↦ rw e (ground arith)
  ]

  sessions_of-ok :
      (event : Event) (day_start day_end start : Instant) (message : String) (s u : St)
      (found : Instant × Option (List EventSession))
      → sessions_of event day_start day_end start (add_minutes start event.duration_min) message s
        ≡ (ok found, u)
      → (found.1 ≡ (
          if event.schedule_type == "MANUAL"
          then some (list_sessions_by_range event.id day_start day_end s.db)
          else none))
        × SlotEnd event start found.1 found.0
  unfolding sessions_of
  sessions_of-ok event day_start day_end start message s u found h =
      elim (Bool-cases (event.schedule_type == "MANUAL")) [
        | inl e ↦ rw e (
            session_found event start (session_at start _) _ message s u found refl
              (query-ok _ s _ (rw e at h)))
        | inr e ↦ rw e (
            subst
              (λ (p : Instant × Option (List EventSession)).
                (p.1 ≡ none) × SlotEnd event start p.1 p.0)
              (sym (pure-ok _ s (rw e at h)).0) (refl, by_duration))
      ]

  -- What a handler has read when it takes a slot.
  pub taken-IsSlot :
      (event : Event) (date : NaiveDate) (start : Instant) (message : String) (s u₁ u₂ u₃ : St)
      (range : Instant × Instant) (rule : Option EventOverride)
      (found : Instant × Option (List EventSession)) (slots : List String) (now : Instant)
      → day_range env event date s ≡ (ok range, u₁)
      → override_of event date s ≡ (ok rule, u₂)
      → sessions_of event range.0 range.1 start (add_minutes start event.duration_min) message s
        ≡ (ok found, u₃)
      → is_unavailable rule ≡ false
      → calculate_slots env event date
          (list_by_range event.id range.0 range.1 s.db)
          rule
          found.1
          now
        ≡ ok slots
      → contains (env.to_rfc3339 start) slots ≡ true
      → IsSlot event date start found.0 (location_of rule found.1 start) now s.db
  taken-IsSlot event date start message s u₁ u₂ u₃ range rule found slots now bounds ruled of_day
        open_day offered listed =
      let (sessions_are, ends_at) =
        sessions_of-ok event range.0 range.1 start message s u₃ found of_day in
      let (starts, ends) = day_range-ok event date s u₁ range bounds in
      record {
        offer = record {
          day_start = range.0;
          day_end = range.1;
          rule = rule;
          sessions = found.1;
          slots = slots;
          rule_is = override_of-ok event date s u₂ rule ruled;
          sessions_are = sessions_are;
          starts = starts;
          ends = ends;
          offered = offered;
          listed = listed;
        };
        not_closed = open_day;
        ends_at = ends_at;
        located = refl;
      }

  pub check_slot-ok :
      (event : Event) (date : NaiveDate) (start : Instant) (s u : St) (slot : Slot)
      → check_slot env event date start s ≡ (ok slot, u)
      → IsFree event date start slot.end_time slot.location s.calls s.db
        × (slot.start_time ≡ start)
        × (u ≡ record s { calls = suc (suc s.calls) })
  unfolding check_slot
  check_slot-ok event date start s u slot h = bind-ok _ _ s h λ clock s₁ read h₁.
      let (clock_is, s₁_is) = utc_now-ok env clock s s₁ read in
      reject-ok _ s₁ _ _ h₁ λ future h₂. reject-ok _ s₁ _ _ h₂ λ active h₃.
        still-ok _ s₁ _ (Still-day_range event date) h₃ λ range u₁ bounds h₄.
          still-ok _ s₁ _ (Still-override_of event date) (query-ok _ s₁ _ h₄) λ rule u₂ ruled h₅.
            reject-ok _ s₁ _ _ h₅ λ open_day h₆.
              still-ok _ s₁ _ (Still-sessions_of event range.0 range.1 start _ _) h₆
                λ found u₃ of_day h₇. bind-ok _ _ s₁ h₇ λ now s₂ again h₈.
                  lift-ok _ s₂ _ h₈ λ slots offered h₉. reject-ok _ s₂ _ _ h₉ λ listed h₁₀.
                    let now_is : now ≡ env.now_at (suc s.calls) =
                      (utc_now-ok env now s₁ s₂ again).0
                      ∙ ap (λ (x : St). env.now_at x.calls) s₁_is in
                    let same_db : s₁.db ≡ s.db = ap (λ (x : St). x.db) s₁_is in
                    let taken =
                      taken-IsSlot event date start _ s₁ u₁ u₂ u₃ range rule found slots now bounds
                        ruled of_day open_day offered (ground arith) in
                    let (is_slot, end) = pure-ok _ s₂ h₁₀ in
                    (
                      rw is_slot (record {
                        future = rw (← clock_is) future;
                        active = active;
                        slot = rw (← now_is, ← same_db) taken;
                      }),
                      ap (λ (x : Slot). x.start_time) is_slot,
                      end
                          ∙ (utc_now-ok env now s₁ s₂ again).1
                          ∙ ap (λ (x : St). record x { calls = suc x.calls }) s₁_is,
                    )
