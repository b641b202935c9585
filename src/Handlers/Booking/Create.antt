-- ===== src/Handlers/Booking/Create.antt =====
-- `create_booking` (api/handlers/booking.rs): it writes everything or nothing, and what it writes.
use booking_backend.Prelude.{
  ◌≡◌, sym, ap, subst, String, true, false, Option, none, some, List, arith, ◌==◌, Bool-cases, inl,
  inr,
}
use booking_backend.Outcome.{Outcome, ok, ok_or-ok}
use booking_backend.Models.{Event, Booking, Job, Invitee}
use booking_backend.Env.{Env}
use booking_backend.Db.{Db, St, lift}
use booking_backend.Db.Rules.{Atomic, Atomic-bind, is_ok, lift-ok, query_or-ok, pure-ok, raise-ne}
use booking_backend.Db.Bookings.{create_with_token}
use booking_backend.Db.Bookings.Writes.{create_with_token_atomic}
use booking_backend.Db.Schedule.{find_invitee_by_token}
use booking_backend.Handlers.Booking.{
  CreateBookingRequest, Access, check_access, create_booking, check_invitee,
}
use booking_backend.Handlers.Booking.Plan.{Reads-plan_booking}

Atomic-create_with_token :
    (b : Booking) (token : Option String) (jobs : List Job)
    → Atomic (create_with_token b token jobs)
Atomic-create_with_token b token jobs = record { at = create_with_token_atomic b token jobs }

module _ (env : Env) where
  -- A request that is refused, or whose task panics, leaves every table as it was.
  pub create_booking_atomic :
      (tenant slug : String) (payload : CreateBookingRequest) (s : St)
      → is_ok (create_booking env tenant slug payload s).0 ≡ false
      → (create_booking env tenant slug payload s).1.db ≡ s.db
  unfolding create_booking
  create_booking_atomic tenant slug payload s h =
      (Atomic-bind _ _ (Reads-plan_booking env tenant slug payload)
          λ plan. Atomic-create_with_token plan.0 (plan.1).token_to_burn plan.2).at
        s h

check_invitee-ok :
    (event : Event) (token : String) (invitee : Invitee) (access : Access)
    → check_invitee event token invitee ≡ ok access
    → ((invitee.event_id == event.id) ≡ true)
      × ((invitee.status == "ACTIVE") ≡ true)
      × (access ≡ record { invitee_id = some invitee.id; token_to_burn = some token })
unfolding check_invitee
check_invitee-ok event token invitee access h = ground arith

-- Who may book: anybody where the event is open, the holder of an active token of the event where it
-- is restricted.
pub data IsAdmitted (event : Event) (token : Option String) (db : Db) : Access → Type 0 where
  anybody :
      (event.access_mode == "OPEN") ≡ true
      → IsAdmitted event token db (record { invitee_id = none; token_to_burn = none })
  invited :
      (given : String) (invitee : Invitee)
      → (event.access_mode == "RESTRICTED") ≡ true
      → token ≡ some given
      → find_invitee_by_token given db ≡ some invitee
      → (invitee.event_id == event.id) ≡ true
      → (invitee.status == "ACTIVE") ≡ true
      → IsAdmitted event token db
          (record { invitee_id = some invitee.id; token_to_burn = some given })

pub lift-eq : {A : Type 0} (r : Outcome A) (s u : St) (a : A) → lift r s ≡ (ok a, u) → r ≡ ok a
unfolding lift
lift-eq {A = A} r s u a h = ap (λ (p : Outcome A × St). p.0) h

pub check_access-ok :
    (event : Event) (token : Option String) (s u : St) (access : Access)
    → check_access event token s ≡ (ok access, u)
    → IsAdmitted event token s.db access
unfolding check_access
check_access-ok event token s u access h = elim (Bool-cases (event.access_mode == "CLOSED")) [
  | inl e ↦ absurd (raise-ne _ s u access (rw e at h))
  | inr e ↦ elim (Bool-cases (event.access_mode == "RESTRICTED")) [
    | inl f ↦ lift-ok _ s _ (rw (e, f) at h) λ given is_given h₁.
        query_or-ok _ s _ _ h₁ λ invitee is_found h₂.
          let (of_event, active, same) =
            check_invitee-ok event given invitee access (lift-eq _ s u access h₂) in
          subst (IsAdmitted event token s.db) (sym same)
            (invited given invitee f (ok_or-ok token _ is_given) is_found of_event active)
    | inr f ↦ elim (Bool-cases (event.access_mode == "OPEN")) [
      | inl g ↦
          subst (IsAdmitted event token s.db) (sym (pure-ok _ s (rw (e, f, g) at h)).0) (anybody g)
      | inr g ↦ absurd (raise-ne _ s u access (rw (e, f, g) at h))
    ]
  ]
]
