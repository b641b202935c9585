-- ===== src/Db/Bookings.antt =====
-- infra/repositories/sqlite_booking_repo.rs: `bookings`, with the key on `id`. The foreign keys of the
-- schema are not modelled.
pub mod Writes
pub mod Changes
use booking_backend.Prelude.{
  ℕ, String, Bool, true, false, not, ◌&&◌, Option, none, some, List, [], ◌∷◌, ◌++◌, ltb, leb,
  order_by, length, keep, find, any, ◌==◌, if◌then◌else◌, ℤ,
}
use booking_backend.Outcome.{
  Outcome, ok, err, database, unique_violation, conflict, not_found, row_not_found,
}
use booking_backend.Models.{Instant, Booking, Job, Invitee}
use booking_backend.Env.{Env}
use booking_backend.Db.{
  Db, Exec, query, execute, transaction, pure, update_where, delete_where, fetch_one, utc_now,
  ◌>>=◌, ◌>>◌,
}

-- `UPDATE invitees SET status = 'USED' WHERE token = ? AND status = 'ACTIVE'`
abbrev pub is_active_token : String → Invitee → Bool
is_active_token token i = i.token == token && i.status == "ACTIVE"

unfoldable pub burn_rows : String → Db → Outcome (Unit {0} × Db)
burn_rows token db =
    if any (is_active_token token) db.invitees
    then ok (
      tt,
      record db {
        invitees =
            update_where (is_active_token token) (λ i. record i { status = "USED" }) db.invitees;
      },
    )
    else err (conflict "Token invalid or already used")

unfoldable pub burn_token : Option String → Exec (Unit {0})
unfolding burn_rows
burn_token none = pure tt
burn_token (some token) = execute (burn_rows token)

-- `INSERT INTO bookings … RETURNING *`
unfoldable pub insert_booking_row : Booking → Db → Outcome (Booking × Db)
insert_booking_row b db =
    if any (λ r. r.id == b.id) db.bookings
    then err (database unique_violation)
    else ok (b, record db { bookings = db.bookings ++ b ∷ [] })

-- `INSERT INTO jobs …`
unfoldable pub insert_job_row : Job → Db → Outcome (Job × Db)
insert_job_row j db =
    if any (λ r. r.id == j.id) db.jobs
    then err (database unique_violation)
    else ok (j, record db { jobs = db.jobs ++ j ∷ [] })

unfoldable pub insert_jobs : List Job → Exec (Unit {0})
insert_jobs [] = pure tt
insert_jobs (j ∷ js) = do execute (insert_job_row j); insert_jobs js

unfoldable pub create_with_token : Booking → Option String → List Job → Exec Booking
create_with_token booking token_to_burn jobs = transaction (do
  burn_token token_to_burn
  created ← execute (insert_booking_row booking)
  insert_jobs jobs
  pure created)

unfoldable pub create : Booking → Exec Booking
unfolding create_with_token
create booking = create_with_token booking none []

unfoldable pub find_by_id : String → String → Db → Option Booking
find_by_id tenant_id id db = find (λ b. b.tenant_id == tenant_id && b.id == id) db.bookings

unfoldable pub find_by_token : String → Db → Option Booking
find_by_token token db = find (λ b. b.management_token == token) db.bookings

unfoldable pub list_by_event : String → String → Db → List Booking
list_by_event tenant_id event_id db =
    keep (λ b. b.tenant_id == tenant_id && b.event_id == event_id) db.bookings

unfoldable pub list_by_tenant : String → Db → List Booking
list_by_tenant tenant_id db =
    order_by (λ (b c : Booking). leb b.start_time c.start_time)
      (keep (λ b. b.tenant_id == tenant_id) db.bookings)

-- `WHERE event_id = ? AND start_time < ? AND end_time > ? AND status != 'CANCELLED'`
abbrev pub is_live_in : String → Instant → Instant → Booking → Bool
is_live_in event_id start end b =
    b.event_id == event_id
    && ltb b.start_time end
    && ltb start b.end_time
    && not (b.status == "CANCELLED")

unfoldable pub list_by_range : String → Instant → Instant → Db → List Booking
list_by_range event_id start end db = keep (is_live_in event_id start end) db.bookings

unfoldable pub count_overlap : String → Instant → Instant → Db → ℕ
count_overlap event_id start end db = length (keep (is_live_in event_id start end) db.bookings)

abbrev pub update_row : Booking → Booking → Booking
update_row booking r = record r {
  start_time = booking.start_time;
  end_time = booking.end_time;
  customer_name = booking.customer_name;
  customer_email = booking.customer_email;
  location = booking.location;
  label_id = booking.label_id;
  token = booking.token;
  payout = booking.payout;
}

abbrev pub is_booking_of : Booking → Booking → Bool
is_booking_of booking r = r.id == booking.id && r.tenant_id == booking.tenant_id

unfoldable pub update_rows : Booking → Db → Outcome (Booking × Db)
update_rows booking db =
    let rows = update_where (is_booking_of booking) (update_row booking) db.bookings in
    fetch_one (find (is_booking_of booking) rows) (record db { bookings = rows })

unfoldable pub update : Booking → Exec Booking
unfolding update_rows
update booking = execute (update_rows booking)

abbrev pub cancel_row : Booking → Booking
cancel_row r = record r { status = "CANCELLED" }

-- `UPDATE bookings SET status = 'CANCELLED' WHERE id = ? RETURNING *`
unfoldable pub cancel_rows : String → Db → Outcome (Booking × Db)
cancel_rows id db =
    let rows = update_where (λ r. r.id == id) cancel_row db.bookings in
    fetch_one (find (λ r. r.id == id) rows) (record db { bookings = rows })

-- `UPDATE invitees SET status = 'ACTIVE' WHERE id = ?`
unfoldable pub reactivate_rows : Option String → Db → Outcome (Unit {0} × Db)
reactivate_rows none db = ok (tt, db)
reactivate_rows (some id) db = ok (
  tt,
  record db {
    invitees =
        update_where (λ (i : Invitee). i.id == id) (λ i. record i { status = "ACTIVE" })
          db.invitees;
  },
)

unfoldable pub cancel : Booking → Exec Booking
cancel booking = transaction (do
  cancelled ← execute (cancel_rows booking.id)
  execute (reactivate_rows booking.invitee_id)
  pure cancelled)

unfoldable pub delete_rows : String → String → Db → Outcome (Unit {0} × Db)
delete_rows tenant_id id db =
    if any (λ r. r.id == id && r.tenant_id == tenant_id) db.bookings
    then ok (
      tt,
      record db {
        bookings = delete_where (λ r. r.id == id && r.tenant_id == tenant_id) db.bookings;
      },
    )
    else err (not_found "Booking not found")

unfoldable pub delete : String → String → Exec (Unit {0})
unfolding delete_rows
delete tenant_id id = execute (delete_rows tenant_id id)

unfoldable pub find_future_active_bookings : Env → String → Exec (List Booking)
find_future_active_bookings env event_id = do
  now ← utc_now env
  query (λ db.
      keep (λ b. b.event_id == event_id && ltb now b.start_time && not (b.status == "CANCELLED"))
        db.bookings)
