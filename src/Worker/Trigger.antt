-- ===== src/Worker/Trigger.antt =====
-- background.rs: the rule that a job of the queue is sent with.
use booking_backend.Prelude.{
  ℕ, ◌*◌, ◌+◌, ◌-◌, ◌≤◌, ◌<◌, ◌≡◌, sym, String, true, some, arith, leb, inl, inr, ◌⊎◌, ◌==◌, eq_iff,
  if◌then◌else◌,
}
use booking_backend.Models.{Instant, minute_ns}
use booking_backend.Handlers.{remind_at}

abbrev pub hour_ns : ℕ
hour_ns = 60 * minute_ns

-- The trigger that a job stands for; `start` is the start of its booking. The hours between the two are
-- rounded towards zero, so they are at least 23 when the instants are 23 hours apart.
unfoldable pub resolve_trigger : String → Instant → Instant → String
resolve_trigger job_type start execute_at =
    if job_type == "CONFIRMATION"
    then "ON_BOOKING"
    else if job_type == "CANCELLATION"
    then "ON_CANCEL"
    else if job_type == "RESCHEDULE"
    then "ON_RESCHEDULE"
    else if job_type == "REMINDER"
    then (if leb (execute_at + 23 * hour_ns) start then "REMINDER_24H" else "REMINDER_1H")
    else job_type

some_lem : (a b : Instant) → some a ≡ some b → a ≡ b
some_lem a b h = ground arith

later :
    (at start : ℕ) (x y : String)
    → at + 23 * hour_ns ≤ start
    → (if leb (at + 23 * hour_ns) start then x else y) ≡ x
later at start x y h = ground arith

sooner :
    (at start : ℕ) (x y : String)
    → start < at + 23 * hour_ns
    → (if leb (at + 23 * hour_ns) start then x else y) ≡ y
sooner at start x y h = ground arith

-- A reminder that a booking schedules for one of the two fixed rules is sent with the rule that it was
-- scheduled for, for a booking that starts a day or more after the first instant of time.
pub resolve_trigger-remind_at :
    (trigger : String) (start at : Instant)
    → ((trigger == "REMINDER_24H") ≡ true) ⊎ ((trigger == "REMINDER_1H") ≡ true)
    → 1440 * minute_ns ≤ start
    → remind_at trigger start ≡ some at
    → resolve_trigger "REMINDER" start at ≡ trigger
unfolding resolve_trigger remind_at
resolve_trigger-remind_at trigger start at fixed late h = elim fixed [
  | inl e ↦
      let same : trigger ≡ "REMINDER_24H" = (eq_iff trigger "REMINDER_24H").0 e in
      let due : at ≡ start - 1440 * minute_ns = some_lem at _ (sym (rw e at h)) in
      rw same (later at start "REMINDER_24H" "REMINDER_1H" (omega arith))
  | inr e ↦
      let same : trigger ≡ "REMINDER_1H" = (eq_iff trigger "REMINDER_1H").0 e in
      let due : at ≡ start - 60 * minute_ns = some_lem at _ (sym (rw same at h)) in
      rw same (sooner at start "REMINDER_24H" "REMINDER_1H" (omega arith))
]
