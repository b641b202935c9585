-- ===== src/Db.antt =====
-- The tables, and handlers as actions on them. `calls` numbers the readings of the clock, the
-- identifiers and the random texts taken so far, `sent` holds the mails that the mail service took. A statement of the repositories works on one table;
-- a transaction that fails leaves the tables as they were.
pub mod Rules
pub mod Still
pub mod Clock
pub mod Bookings
pub mod Jobs
pub mod Queues
pub mod Rows
pub mod Schedule
pub mod Mail
pub mod Accounts
pub mod Keeps
pub mod Postgres
use booking_backend.Prelude.{
  ℕ, suc, ◌≡◌, refl, String, Bool, true, false, Option, none, some, List, [], ◌∷◌, ◌++◌, keep, find,
  any, if◌then◌else◌,
}
use booking_backend.Outcome.{
  AppError, DbError, database, row_not_found, unique_violation, Outcome, ok, err, panic, diverge,
  ok_or, ok_or,
}
use booking_backend.Models.{
  Instant, Event, Booking, EventOverride, EventSession, Invitee, Job, NotificationRule,
  BookingLabel, RefreshTokenRecord,
}
use booking_backend.Models.Mail.{EmailTemplate, EmailTemplateVersion, MailLog, EmailPayload}
use booking_backend.Models.Accounts.{Tenant, User}
use booking_backend.Env.{Env}

pub record Db : Type 0 where
  pub events : List Event
  pub bookings : List Booking
  pub overrides : List EventOverride
  pub sessions : List EventSession
  pub invitees : List Invitee
  pub jobs : List Job
  pub rules : List NotificationRule
  pub labels : List BookingLabel
  pub refresh_tokens : List RefreshTokenRecord
  pub templates : List EmailTemplate
  pub versions : List EmailTemplateVersion
  pub mail_logs : List MailLog
  pub tenants : List Tenant
  pub users : List User

pub record St : Type 0 where
  pub db : Db
  pub calls : ℕ
  pub sent : List EmailPayload

abbrev pub Exec : Type 0 → Type 0
Exec A = St → Outcome A × St

abbrev pub continue : {A B : Type 0} → Outcome A → (A → Exec B) → Exec B
continue (ok a) f s = f a s
continue (err e) f s = (err e, s)
continue panic f s = (panic, s)
continue diverge f s = (diverge, s)

unfoldable pub pure : {A : Type 0} → A → Exec A
pure a s = (ok a, s)

unfoldable pub raise : {A : Type 0} → AppError → Exec A
raise e s = (err e, s)

unfoldable pub lift : {A : Type 0} → Outcome A → Exec A
lift r s = (r, s)

-- `if failed { return Err(e) }`
unfoldable pub reject : Bool → AppError → Exec (Unit {0})
reject true e s = (err e, s)
reject false e s = (ok tt, s)

-- `match o { None => m, Some(a) => f(a) }`
unfoldable pub on_option : {A B : Type 0} → Option A → Exec B → (A → Exec B) → Exec B
on_option none m f = m
on_option (some a) m f = f a

-- A statement that only reads.
unfoldable pub query : {A : Type 0} → (Db → A) → Exec A
query f s = (ok (f s.db), s)

-- A read that is followed by `.ok_or(e)?`.
unfoldable pub query_or : {A : Type 0} → (Db → Option A) → AppError → Exec A
query_or f e s = (ok_or (f s.db) e, s)

-- A statement that writes, and that may fail; if it fails it writes nothing.
abbrev pub settle : {A : Type 0} → Outcome (A × Db) → St → Outcome A × St
settle (ok (a, db)) s = (ok a, record s { db = db })
settle (err e) s = (err e, s)
settle panic s = (panic, s)
settle diverge s = (diverge, s)

unfoldable pub execute : {A : Type 0} → (Db → Outcome (A × Db)) → Exec A
execute f s = settle (f s.db) s

abbrev pub rollback : {A : Type 0} → Outcome A → Db → St → Outcome A × St
rollback (ok a) old s = (ok a, s)
rollback (err e) old s = (err e, record s { db = old })
rollback panic old s = (panic, record s { db = old })
rollback diverge old s = (diverge, record s { db = old })

-- `pool.begin()` up to `tx.commit()`: what fails in between drops the transaction.
unfoldable pub transaction : {A : Type 0} → Exec A → Exec A
transaction m s = let (r, s') = m s in rollback r s.db s'

module _ (env : Env) where
  -- `Utc::now()`
  unfoldable pub utc_now : Exec Instant
  utc_now s = (ok (env.now_at s.calls), record s { calls = suc s.calls })

  -- `Uuid::new_v4().to_string()`
  unfoldable pub new_uuid : Exec String
  new_uuid s = (ok (env.uuid_at s.calls), record s { calls = suc s.calls })

  -- `rand::thread_rng().sample_iter(&Alphanumeric).take(n)`
  unfoldable pub random_text : Exec String
  random_text s = (ok (env.random_at s.calls), record s { calls = suc s.calls })

-- `match m.await { Ok(…) => …, Err(e) => … }`: an error is a result here. A panic ends the program.
abbrev pub catch : {A : Type 0} → Outcome A → Outcome (Outcome A)
catch (ok a) = ok (ok a)
catch (err e) = ok (err e)
catch panic = panic
catch diverge = diverge

unfoldable pub attempt : {A : Type 0} → Exec A → Exec (Outcome A)
attempt m s = let (r, s') = m s in (catch r, s')

-- Several reads, and what they decide.
unfoldable pub consult : {A : Type 0} → (Db → Outcome A) → Exec A
consult f s = (f s.db, s)

infixl 5 ◌>>=◌ ◌>>◌
-- Opening this opens the actions above.
unfoldable pub ◌>>=◌ : {A B : Type 0} → Exec A → (A → Exec B) → Exec B
unfolding pure raise lift reject on_option query query_or execute transaction utc_now new_uuid
    random_text attempt consult
◌>>=◌ m f s = let (r, s') = m s in continue r f s'

abbrev pub ◌>>◌ : {A B : Type 0} → Exec A → Exec B → Exec B
m >> k = m >>= λ _. k

-- `UPDATE … WHERE p`
abbrev pub update_where : {A : Type 0} → (A → Bool) → (A → A) → List A → List A
update_where p f [] = []
update_where p f (x ∷ xs) = (if p x then f x else x) ∷ update_where p f xs

-- `DELETE … WHERE p`
abbrev pub delete_where : {A : Type 0} → (A → Bool) → List A → List A
delete_where p [] = []
delete_where p (x ∷ xs) = if p x then delete_where p xs else x ∷ delete_where p xs

-- `RETURNING *` with `fetch_one`: the first row that was written.
abbrev pub fetch_one : {A : Type 0} → Option A → Db → Outcome (A × Db)
fetch_one none db = err (database row_not_found)
fetch_one (some a) db = ok (a, db)
