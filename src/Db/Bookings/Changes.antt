-- ===== src/Db/Bookings/Changes.antt =====
-- What an update and a cancellation of a booking write (infra/repositories/sqlite_booking_repo.rs).
use booking_backend.Prelude.{◌≡◌, ◌∙◌, sym, ap, String, Option, none, some, List, arith, find, ◌==◌}
use booking_backend.Outcome.{Outcome, ok}
use booking_backend.Models.{Booking, Invitee}
use booking_backend.Db.{Db, St, execute, update_where}
use booking_backend.Db.Rules.{bind-ok, fetch_one-ok, pure-ok}
use booking_backend.Db.Bookings.{
  update, is_booking_of, update_row, cancel, cancel_row, cancel_rows, reactivate_rows,
}
use booking_backend.Db.Bookings.Writes.{transaction-ok}

pub update-ok :
    (b c : Booking) (s u : St)
    → update b s ≡ (ok c, u)
    → (find (is_booking_of b) (update_where (is_booking_of b) (update_row b) s.db.bookings)
        ≡ some c)
      × (u.db
          ≡ record s.db { bookings = update_where (is_booking_of b) (update_row b) s.db.bookings })
unfolding update execute
update-ok b c s u h = fetch_one-ok _ _ s u c h

-- The invitees after the booking of one of them is cancelled.
abbrev pub reactivated : Option String → List Invitee → List Invitee
reactivated none is = is
reactivated (some id) is =
    update_where (λ (i : Invitee). i.id == id) (λ i. record i { status = "ACTIVE" }) is

cancel_rows-ok :
    (id : String) (c : Booking) (s u : St)
    → execute (cancel_rows id) s ≡ (ok c, u)
    → (find (λ (r : Booking). r.id == id) (update_where (λ r. r.id == id) cancel_row s.db.bookings)
        ≡ some c)
      × (u.db ≡ record s.db { bookings = update_where (λ r. r.id == id) cancel_row s.db.bookings })
unfolding execute cancel_rows
cancel_rows-ok id c s u h = fetch_one-ok _ _ s u c h

reactivate-ok :
    (id : Option String) (s u : St) (x : Unit {0})
    → execute (reactivate_rows id) s ≡ (ok x, u)
    → u.db ≡ record s.db { invitees = reactivated id s.db.invitees }
unfolding execute reactivate_rows
reactivate-ok none s u x h = ap (λ (p : Outcome (Unit {0}) × St). p.1.db) (sym h)
reactivate-ok (some id) s u x h = ground arith

pub cancel-ok :
    (b c : Booking) (s u : St)
    → cancel b s ≡ (ok c, u)
    → (find
          (λ (r : Booking). r.id == b.id)
          (update_where (λ r. r.id == b.id) cancel_row s.db.bookings)
        ≡ some c)
      × (u.db ≡ record s.db {
        bookings = update_where (λ (r : Booking). r.id == b.id) cancel_row s.db.bookings;
        invitees = reactivated b.invitee_id s.db.invitees;
      })
unfolding cancel
cancel-ok b c s u h = bind-ok _ _ s (transaction-ok _ s h) λ c' s₁ cancelled h₁.
    bind-ok _ _ s₁ h₁ λ x s₂ active h₂.
      let (row, db₁) = cancel_rows-ok b.id c' s s₁ cancelled in
      let db₂ = reactivate-ok b.invitee_id s₁ s₂ x active in
      let (same, last) = pure-ok c' s₂ h₂ in
      (
        rw same row,
        rw last (
            db₂
            ∙ ap (λ (db : Db). record db { invitees = reactivated b.invitee_id db.invitees }) db₁),
      )
