-- ===== src/Worker.antt =====
-- background.rs: the worker that takes jobs from the queue and sends their mails, and the services that
-- it calls.
pub mod Trigger
pub mod Mailer
pub mod Plan
pub mod Process
pub mod Service
pub mod Once
pub mod Steady
pub mod Ends
pub mod Clears
pub mod Drain
pub mod Campaign
