-- ===== src/Availability/Manual.antt =====
-- The slots of an event whose sessions are set by hand (domain/services/availability.rs).
use booking_backend.Prelude.{
  ◌≡◌, ◌↔◌, ◌∙◌, refl, sym, ap, inl, inr, String, true, ◌&&◌, Option, some, List, [], ◌∷◌, arith,
  eqb, ltb_ℤ, as_i32, In, keep, length, Bool-cases, ◌==◌,
}
use booking_backend.Text.{sort_dedup}
use booking_backend.Text.Sorted.{In-sort_dedup}
use booking_backend.Outcome.{Outcome, ok}
use booking_backend.Models.{Instant, NaiveDate, Event, Booking, EventOverride, EventSession}
use booking_backend.Env.{Env}
use booking_backend.Availability.{calculate_slots, session_slots, has_room, overlaps, timezone}

module _ (env : Env) where
  -- The session is on the date, starts at the slot `s`, and has fewer bookings than places.
  pub record IsOpenSession (tz : env.Tz) (date : NaiveDate) (bookings : List Booking)
      (session : EventSession) (s : String) : Type 0 where
    pub named : s ≡ env.to_rfc3339 session.start_time
    pub on_date : eqb (env.local_date tz session.start_time) date ≡ true
    pub places :
        ltb_ℤ
          (as_i32 (length (keep (overlaps session.start_time session.end_time) bookings)))
          session.max_participants
        ≡ true

  module _ (tz : env.Tz) (date : NaiveDate) (bookings : List Booking) (s : String) where
    session_slots_sound :
        (ss : List EventSession)
        → In s (session_slots env tz date bookings ss)
        → (session : EventSession) × In session ss × IsOpenSession tz date bookings session s
    unfolding session_slots has_room
    session_slots_sound [] h = absurd h
    session_slots_sound (x ∷ xs) h =
        elim (Bool-cases (eqb (env.local_date tz x.start_time) date && has_room bookings x)) [
          | inl e ↦ elim (rw e at h) [
            | inl same ↦ (
              x,
              inl refl,
              record { named = same; on_date = ground arith; places = ground arith },
            )
            | inr rest ↦
                let (session, within, open_session) = session_slots_sound xs rest in
                (session, inr within, open_session)
          ]
          | inr e ↦
              let (session, within, open_session) = session_slots_sound xs (rw e at h) in
              (session, inr within, open_session)
        ]

    session_slots_complete :
        (ss : List EventSession) (session : EventSession)
        → In session ss
        → IsOpenSession tz date bookings session s
        → In s (session_slots env tz date bookings ss)
    unfolding session_slots has_room
    session_slots_complete [] session h o = absurd h
    session_slots_complete (x ∷ xs) session h o =
        let rest = session_slots_complete xs session in
        let named = o.named in
        let on_date = o.on_date in
        let places = o.places in
        elim h [
          | inl same ↦
              let here : (eqb (env.local_date tz x.start_time) date && has_room bookings x) ≡ true =
                rw (← same) (ground arith) in
              rw here (inl (named ∙ ap (λ (t : EventSession). env.to_rfc3339 t.start_time) same))
          | inr within ↦
              elim (Bool-cases (eqb (env.local_date tz x.start_time) date && has_room bookings x)) [
                | inl e ↦ rw e (inr (rest within o))
                | inr e ↦ rw e (rest within o)
              ]
        ]

  -- A text is among the slots of an event with sessions exactly when one of them stands on the date,
  -- starts at the instant that the text names, and has fewer bookings that overlap it than places.
  pub calculate_slots-manual_iff :
      (event : Event) (date : NaiveDate) (bookings : List Booking) (rule : Option EventOverride)
      (sessions : List EventSession) (now : Instant) (slots : List String) (s : String)
      → (event.schedule_type == "MANUAL") ≡ true
      → calculate_slots env event date bookings rule (some sessions) now ≡ ok slots
      → In s slots ↔ (
          (session : EventSession) × In session sessions
          × IsOpenSession (timezone env event) date bookings session s)
  unfolding calculate_slots
  calculate_slots-manual_iff event date bookings rule sessions now slots s manual h =
      let raw = session_slots env (timezone env event) date bookings sessions in
      let found : slots ≡ sort_dedup raw = ok_eq slots _ (sym (rw manual at h)) in
      let same = In-sort_dedup s raw in
      (
        (λ i.
            session_slots_sound (timezone env event) date bookings s sessions
              (same.0 (rw found at i))),
        (λ (session, within, o). rw found (
            same.1 (
              session_slots_complete (timezone env event) date bookings s sessions session within
                o))),
      )
    where
      ok_eq : (a b : List String) → ◌≡◌ {A = Outcome (List String)} (ok a) (ok b) → a ≡ b
      ok_eq a b e = ground arith
