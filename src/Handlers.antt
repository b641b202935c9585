-- ===== src/Handlers.antt =====
-- api/handlers: the parts that several handlers write out alike, and the rules that schedule reminders.
pub mod Booking
pub mod Sessions
pub mod Events
pub mod Overrides
pub mod Invitees
pub mod Labels
pub mod Tenants
pub mod Communication
pub mod Accounts
use Prim.Native.Char.{code}
use booking_backend.Prelude.{
  ℕ, zero, suc, ◌+◌, ◌-◌, ◌*◌, ◌/◌, ◌%◌, ℤ, pos, negsuc, as_i32, neg_part, String, Bool, true,
  false, ◌&&◌, ◌||◌, Option, none, some, List, [], ◌∷◌, leb, ltb, eqb, ◌==◌, find, if◌then◌else◌,
}
use booking_backend.Text.{codes}
use booking_backend.Outcome.{
  Outcome, ok, err, ok_or, unwrap, AppError, forbidden, conflict, internal, validation,
}
use booking_backend.Models.{
  Instant, NaiveDate, NaiveTime, Event, EventOverride, EventSession, Invitee, minute_ns,
  sub_minutes,
}
use booking_backend.Env.{Env}
use booking_backend.Availability.{timezone, day_bound}
use booking_backend.Db.{
  Exec, St, pure, raise, lift, query, query_or, reject, on_option, ◌>>=◌, ◌>>◌,
}
use booking_backend.Db.Schedule.{
  find_override_by_date, list_sessions_by_range, find_invitee_by_token,
}

-- `s.contains('T')`
abbrev pub has_code : ℕ → List ℕ → Bool
has_code c [] = false
has_code c (x ∷ xs) = eqb x c || has_code c xs

-- `(end - start).num_minutes()`, rounded towards zero.
unfoldable pub num_minutes : Instant → Instant → ℤ
num_minutes start end =
    if leb start end
    then pos ((end - start) / minute_ns)
    else if eqb ((start - end) / minute_ns) 0
    then pos 0
    else negsuc ((start - end) / minute_ns - 1)

-- `n as i32` for an `i64`
unfoldable pub to_i32 : ℤ → ℤ
to_i32 (pos n) = as_i32 n
to_i32 (negsuc n) = as_i32 (4294967295 - n % 4294967296)

module _ (env : Env) where
  -- A time of day that comes as an ISO instant or as HH:MM.
  unfoldable pub parse_clock : env.Tz → String → String → String → Outcome NaiveTime
  parse_clock tz iso_message time_message time =
      if has_code b'T' (codes time)
      then elim (env.parse_rfc3339 time) [
        | none ↦ err (validation iso_message)
        | some t ↦ ok (env.local_time tz t)
      ]
      else ok_or (env.parse_time time) (validation time_message)

  -- The two ends of a day, each of which panics where the day has it not exactly once.
  unfoldable pub day_range : Event → NaiveDate → Exec (Instant × Instant)
  day_range event date = do
    day_start ← lift (day_bound env (timezone env event) date 0 0 0)
    day_end ← lift (day_bound env (timezone env event) date 23 59 59)
    pure (day_start, day_end)

-- `if event.schedule_type == "MANUAL" { None } else { find_by_date }`
unfoldable pub override_of : Event → NaiveDate → Exec (Option EventOverride)
override_of event date =
    if event.schedule_type == "MANUAL"
    then pure none
    else query (find_override_by_date event.id date)

abbrev pub session_at : Instant → List EventSession → Option EventSession
session_at start sessions = find (λ s. eqb s.start_time start) sessions

-- The sessions of a day for a manual event, and the end of the one that starts at `start`.
unfoldable pub sessions_of :
    Event
    → Instant
    → Instant
    → Instant
    → Instant
    → String
    → Exec (Instant × Option (List EventSession))
sessions_of event day_start day_end start end message =
    if event.schedule_type == "MANUAL"
    then (do
      sessions ← query (list_sessions_by_range event.id day_start day_end)
      on_option (session_at start sessions) (raise (conflict message))
          λ session. pure (session.end_time, some sessions))
    else pure (end, none)

-- `override_rule.and_then(|r| r.location).or_else(…)`
unfoldable pub location_of :
    Option EventOverride → Option (List EventSession) → Instant → Option String
location_of none none start = none
location_of none (some sessions) start = elim (session_at start sessions) [
  | none ↦ none
  | some s ↦ s.location
]
location_of (some rule) sessions start = elim rule.location [
  | some place ↦ some place
  | none ↦ elim sessions [
    | none ↦ none
    | some ss ↦ elim (session_at start ss) [ none ↦ none | some s ↦ s.location ]
  ]
]

-- `str::parse::<i64>`: an optional sign, then digits, within the range.
abbrev pub digits_from : Option ℕ → List ℕ → Option ℕ
digits_from none cs = none
digits_from (some n) [] = some n
digits_from (some n) (c ∷ cs) =
    digits_from (if leb b'0' c && leb c b'9' then some (n * 10 + (c - b'0')) else none) cs

abbrev pub digits : List ℕ → Option ℕ
digits [] = none
digits (c ∷ cs) = digits_from (some 0) (c ∷ cs)

abbrev pub i64_max : ℕ
i64_max = 9223372036854775807

abbrev pub positive_i64 : Option ℕ → Option ℤ
positive_i64 none = none
positive_i64 (some n) = if leb n i64_max then some (pos n) else none

abbrev pub negative_i64 : Option ℕ → Option ℤ
negative_i64 none = none
negative_i64 (some zero) = some (pos 0)
negative_i64 (some (suc n)) = if leb n i64_max then some (negsuc n) else none

pub parse_i64 : List ℕ → Option ℤ
parse_i64 [] = none
parse_i64 (c ∷ cs) =
    if eqb c b'-'
    then negative_i64 (digits cs)
    else if eqb c b'+'
    then positive_i64 (digits cs)
    else positive_i64 (digits (c ∷ cs))

-- `s.starts_with(prefix)`, with what follows the prefix.
pub strip_prefix : List ℕ → List ℕ → Option (List ℕ)
strip_prefix [] cs = some cs
strip_prefix (p ∷ ps) [] = none
strip_prefix (p ∷ ps) (c ∷ cs) = let rest = strip_prefix ps cs in if eqb p c then rest else none

-- `s.ends_with("M")`, with what stands before it.
pub strip_last_m : List ℕ → Option (List ℕ)
strip_last_m [] = none
strip_last_m (c ∷ []) = if eqb c b'M' then some [] else none
strip_last_m (c ∷ d ∷ cs) = elim (strip_last_m (d ∷ cs)) [ none ↦ none | some ds ↦ some (c ∷ ds) ]

-- The minutes of a trigger of the form `REMINDER_<minutes>M`.
unfoldable pub reminder_minutes : String → Option ℤ
unfolding parse_i64 strip_prefix strip_last_m
reminder_minutes trigger = elim (strip_prefix (codes "REMINDER_") (codes trigger)) [
  | none ↦ none
  | some rest ↦ elim (strip_last_m rest) [ none ↦ none | some body ↦ parse_i64 body ]
]

-- When a reminder rule is due for a booking that starts at `start`.
unfoldable pub remind_at : String → Instant → Option Instant
unfolding reminder_minutes
remind_at trigger start =
    if trigger == "REMINDER_24H"
    then some (sub_minutes start (pos 1440))
    else if trigger == "REMINDER_1H"
    then some (sub_minutes start (pos 60))
    else elim (reminder_minutes trigger) [
      | none ↦ none
      | some minutes ↦ some (sub_minutes start minutes)
    ]
