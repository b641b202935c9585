-- ===== src/Lib.antt =====
-- booking-backend: a server that takes bookings for the events of many tenants. This library models the
-- part of it that decides what may be booked and what is written, over tables in memory, and proves that
-- part correct.
--
-- The parts, and the files that model them (paths from the root of the repository):
--   Availability: src/domain/services/availability.rs. `calculate_slots` turns an event, the bookings of a
--     day, the exception of the day or its sessions, and the clock, into the starts that may be booked.
--     `minute_counts` is the array of counts, `window_loop` the loop over a window, `is_slot_valid` its
--     condition. Arithmetic on `usize` wraps as in a release build, on 64 bits.
--   Db: the tables, and handlers as actions on them. Db/Bookings, Db/Jobs and Db/Schedule are the
--     statements of src/infra/repositories/sqlite_*_repo.rs, one function for each, with Db/Mail and
--     Db/Accounts.
--   Handlers: src/api/handlers. Handlers/Booking is booking.rs, Handlers/Booking/Manage
--     booking_management.rs, Handlers/Sessions session.rs, Handlers/Events event.rs, and so on. A handler
--     is one function; `create_booking` and `reschedule_booking` are split into the part before the first
--     write (`plan_booking`, `plan_reschedule`) and the rest. Handlers/Booking/Offer is what an accepted
--     slot has, Handlers/Booking/Planned the jobs of a new booking.
--     Handlers/Communication is communication.rs (templates, versions, campaigns), Handlers/Accounts
--     tenant.rs and member.rs, Handlers/Events/Setup the creation and deletion of events.
--   Auth: src/domain/services/auth_service.rs, with the statements on refresh tokens; Auth/SignIn is
--     src/api/handlers/auth.rs, Auth/Guard src/api/extractors and the status of src/error.rs.
--   Worker: src/background.rs. Worker/Plan is what `process_job` reads and decides on, Worker/Process what it
--     sends and writes, and the rounds of the loop; Worker/Mailer is
--     src/infra/email/http_email_service.rs and src/domain/services/calendar.rs.
--   Models, Env, Outcome: the rows (src/domain/models), what third-party code answers, and the errors
--     (src/error.rs).
--   Prelude and Text hold helpers, and sorting of texts; Examples the inputs that the theorems are run on.
--
-- How they interact: a handler reads tables through the statements, asks `calculate_slots` with what it
-- read, and writes in one statement or one transaction. The handlers queue jobs, and the worker takes
-- them with `find_pending`.
--
-- Conventions. An action takes the tables and the number of calls made so far, and returns a result
-- with the new ones; mails that the mail service took are kept beside the tables. A result is a value, an error, a panic (`unwrap` of nothing) or `diverge`, a loop
-- that spent its fuel. The clock, `Uuid::new_v4` and random texts are functions of the number of the
-- call. Instants are nanoseconds since the first instant that chrono has, dates are day numbers, and an
-- `i32` is an integer with the bound `IsI32` where it matters. Subtraction of durations stops at the
-- first instant, where chrono panics; the delay and the count of a campaign are natural numbers, where the
-- code has an `i32`. A `LIMIT` without `ORDER BY` takes rows in the order of the table, which SQLite does not
-- promise.
--
-- Fuel. The loop over a window has 1442 rounds: its cursor moves by at least a minute in each, or wraps
-- below its end at most once. The loop over a calendar has a round for each day and one more.
--
-- The rounds of the worker are counted by the caller; `rounds-drain` says how many are enough.
--
-- Parameters. The record `Env` is chrono and serde_json, `Mailer` tera, mrml, sha2 and the mail service,
-- `Crypto`, `Verifier`, `Passwords` and `Hasher` are the signing of tokens and the hashing of passwords.
--
-- Not modelled: routing and the form of HTTP messages, the AI service; the PostgreSQL repositories, which
-- have the same statements, but for the one that takes jobs from the queue (Db/Postgres); failures of the connection to the
-- database; the foreign keys of bookings, sessions, invitees, overrides and refresh tokens, while those of
-- templates, versions, rules, users and the deletion of events are there. Two requests at the same time
-- are modelled for the job queue and for sequences of requests on sessions and templates, each
-- statement or request being one step.
pub mod Prelude
pub mod Text
pub mod Outcome
pub mod Models
pub mod Env
pub mod Availability
pub mod Db
pub mod Auth
pub mod Handlers
pub mod Worker
pub mod Examples
