-- ===== src/Handlers/Booking/Manage/Cancel.antt =====
-- `cancel_booking` (api/handlers/booking_management.rs).
use booking_backend.Prelude.{
  ◌≡◌, ◌∙◌, ap, refl, String, true, false, some, List, ◌++◌, In, All, ◌⊎◌, inl, inr, arith, find,
  ◌==◌, Bool-cases,
}
use booking_backend.Outcome.{ok}
use booking_backend.Models.{Event, Booking, Job}
use booking_backend.Env.{Env}
use booking_backend.Db.{Db, St, pure, query, ◌>>=◌, ◌>>◌, update_where}
use booking_backend.Db.Rules.{
  bind-ok, query_or-ok, query-ok, reject-ok, pure-ok, Reads-pure, Reads-query,
}
use booking_backend.Db.Rows.{update_where-none, In-append, All-In}
use booking_backend.Db.Queues.{Queues, Queues-ok, Queues-Reads, Queues-bind}
use booking_backend.Db.Bookings.{find_by_token, cancel_row}
use booking_backend.Db.Bookings.Changes.{cancel-ok, reactivated}
use booking_backend.Db.Jobs.{cancel_pending, is_pending_for, get_rules_by_trigger}
use booking_backend.Db.Schedule.{find_event_by_id}
use booking_backend.Handlers.Booking.Manage.{notify, cancel_live, cancel_booking}
use booking_backend.Handlers.Booking.Manage.Move.{Queues-notify, cancel_jobs-ok}

-- A notice of a cancellation, for the booking `id`.
pub record IsNotice (id : String) (j : Job) : Type 0 where
  pub of_booking : j.payload.booking_id ≡ id
  pub job_type : j.job_type ≡ "CANCELLATION"

-- The tables after the booking `b` is cancelled: its row is cancelled, its invitee may book again, its
-- waiting jobs are cancelled, and notices of the cancellation are added.
pub record IsCancelled (b c : Booking) (old new : Db) : Type 0 where
  pub row :
      find
        (λ (r : Booking). r.id == b.id)
        (update_where (λ r. r.id == b.id) cancel_row old.bookings)
      ≡ some c
  pub added : List Job
  pub notices : All (IsNotice b.id) added
  pub tables : new ≡ record old {
    bookings = update_where (λ (r : Booking). r.id == b.id) cancel_row old.bookings;
    invitees = reactivated b.invitee_id old.invitees;
    jobs = cancel_pending b.id old.jobs ++ added;
  }

module _ (env : Env) where
  cancel_live-ok :
      (b c : Booking) (s t : St)
      → cancel_live env b s ≡ (ok c, t)
      → (event : Event) × (find_event_by_id b.tenant_id b.event_id s.db ≡ some event)
        × (event.allow_customer_cancel ≡ true)
        × IsCancelled b c s.db t.db
  unfolding cancel_live
  cancel_live-ok b c s t h = query_or-ok _ s _ _ h λ event is_event h₁.
      reject-ok _ s _ _ h₁ λ allowed h₂. bind-ok _ _ s h₂ λ c' s₁ written h₃.
        bind-ok _ _ s₁ h₃ λ _ s₂ emptied h₄. bind-ok _ _ s₂ (query-ok _ s₂ _ h₄) λ _ s₃ notified h₅.
          let (row, db₁) = cancel-ok b c' s s₁ written in
          let db₂ = cancel_jobs-ok b.id s₁ s₂ _ emptied in
          let (added, notices, db₃) = Queues-ok _ _ (Queues-rest c' event) s₂ h₄ in
          (
            event,
            is_event,
            ground arith,
            record {
              row = rw (pure-ok c' s₃ h₅).0 row;
              added = added;
              notices = notices;
              tables =
                  db₃
                  ∙ ap (λ (db : Db). record db { jobs = db.jobs ++ added })
                      (db₂
                        ∙ ap (λ (db : Db). record db { jobs = cancel_pending b.id db.jobs }) db₁);
            },
          )
    where
      Queues-rest :
          (c' : Booking) (event : Event)
          → Queues (IsNotice b.id) (
              query (get_rules_by_trigger b.tenant_id event.id "ON_CANCEL") >>= λ rules.
              notify env "CANCELLATION" b rules >> pure c')
      Queues-rest c' event = Queues-bind _ _ _ (Queues-Reads _ _ (Reads-query _)) λ rules.
          Queues-bind _ _ _
            (Queues-notify env _ _ b rules
              λ id at made. record { of_booking = refl; job_type = refl })
            λ _. Queues-Reads _ _ (Reads-pure _)

  -- A cancellation that succeeds returns the booking as it is, with nothing written, where it was cancelled
  -- before. Otherwise its event lets customers cancel, the booking's row is cancelled, its invitee may
  -- book again, its waiting jobs are cancelled, and only notices of the cancellation are added.
  pub cancel_booking-ok :
      (token : String) (b c : Booking) (s t : St)
      → find_by_token token s.db ≡ some b
      → cancel_booking env token s ≡ (ok c, t)
      → (((b.status == "CANCELLED") ≡ true) × (c ≡ b) × (t ≡ s))
        ⊎ ((event : Event) × (find_event_by_id b.tenant_id b.event_id s.db ≡ some event)
            × (event.allow_customer_cancel ≡ true)
            × IsCancelled b c s.db t.db)
  unfolding cancel_booking
  cancel_booking-ok token b c s t named h = query_or-ok _ s _ _ h λ b' is_b h₁.
      let same : b' ≡ b = ground arith in
      elim (Bool-cases (b.status == "CANCELLED")) [
        | inl e ↦
            inl (e, (pure-ok b s (rw (same, e) at h₁)).0, (pure-ok b s (rw (same, e) at h₁)).1)
        | inr e ↦ inr (cancel_live-ok b c s t (rw (same, e) at h₁))
      ]

pending_cancelled :
    (id : String) (j : Job) → is_pending_for id (record j { status = "CANCELLED" }) ≡ false
pending_cancelled id j = elim (Bool-cases (j.payload.booking_id == id)) [
  | inl e ↦ rw e
  | inr e ↦ rw e
]

-- After a live booking is cancelled, the only jobs that still wait for it are notices of the
-- cancellation: no reminder is left.
pub cancel_booking-no_reminder :
    (env : Env) (token : String) (b c : Booking) (s t : St) (j : Job)
    → find_by_token token s.db ≡ some b
    → (b.status == "CANCELLED") ≡ false
    → cancel_booking env token s ≡ (ok c, t)
    → In j t.db.jobs
    → is_pending_for b.id j ≡ true
    → j.job_type ≡ "CANCELLATION"
cancel_booking-no_reminder env token b c s t j named live h member pending =
    elim (cancel_booking-ok env token b c s t named h) [
      | inl (dead, _, _) ↦ absurd (ground arith)
      | inr (event, _, _, after) ↦
          elim (In-append j (cancel_pending b.id s.db.jobs) after.added
            (rw after.tables at member)) [
              | inl old ↦
                  let off =
                    update_where-none (is_pending_for b.id) _ (pending_cancelled b.id) j s.db.jobs
                      old in
                  absurd (ground arith)
              | inr new ↦ (All-In (IsNotice b.id) j after.added after.notices new).job_type
            ]
    ]
