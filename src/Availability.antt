-- ===== src/Availability.antt =====
-- domain/services/availability.rs: the slots of an event on a day. `calculate_slots` is cut where its
-- local variables are complete: the minute counts, the first booking of the day, the windows of the
-- weekday, one window's loop, and the whole. `none` in the loop means that its fuel ran out.
pub mod Loop
pub mod Counts
pub mod Slots
pub mod Offers
pub mod Days
pub mod Manual
use booking_backend.Prelude.{
  ℕ, zero, suc, ◌+◌, ◌-◌, ◌*◌, ◌/◌, ◌%◌, min, max, ℤ, pos, String, Bool, true, false, ◌&&◌, ◌||◌,
  Option, none, some, List, [], ◌∷◌, ◌++◌, ltb, leb, eqb, ltb_ℤ, leb_ℤ, usize_mod, as_usize, as_i32,
  length, get_or, replicate, keep, ◌==◌, if◌then◌else◌, unwrap_or,
}
use booking_backend.Text.{sort_dedup}
use booking_backend.Outcome.{Outcome, ok, diverge, unwrap, ◌>>=◌}
use booking_backend.Models.{
  Instant, NaiveDate, NaiveTime, TimeWindow, WeekdayConfig, default_config, Event, Booking,
  EventOverride, EventSession, add_minutes, second_ns,
}
use booking_backend.Env.{Env, Weekday, mon, tue, wed, thu, fri, sat, sun}

abbrev pub total_minutes : ℕ
total_minutes = 1440

-- `count.saturating_add(1)` on a `u8`
unfoldable pub saturating_inc : ℕ → ℕ
saturating_inc c = if ltb c 255 then c + 1 else 255

-- `for count in &mut minute_counts[s..e]`, from the minute `i` on
pub bump_range : ℕ → ℕ → ℕ → List ℕ → List ℕ
bump_range s e i [] = []
bump_range s e i (c ∷ cs) =
    (if leb s i && ltb i e then saturating_inc c else c) ∷ bump_range s e (i + 1) cs

-- `max(booking.start_time, day_start_utc) < min(booking.end_time, day_end_utc)`
unfoldable pub is_in_day : Instant → Instant → Booking → Bool
is_in_day day_start day_end b = ltb (max b.start_time day_start) (min b.end_time day_end)

-- `s_idx`: seconds are whole, and the difference is not negative.
unfoldable pub start_index : Instant → Booking → ℕ
start_index day_start b =
    min ((max b.start_time day_start / second_ns - day_start / second_ns) / 60) total_minutes

-- `e_idx`
unfoldable pub end_index : Instant → Instant → Booking → ℕ
end_index day_start day_end b =
    min ((min b.end_time day_end / second_ns - day_start / second_ns) / 60) total_minutes

module _ (day_start day_end : Instant) where
  unfoldable pub count_booking : List ℕ → Booking → List ℕ
  unfolding bump_range is_in_day start_index end_index
  count_booking counts b =
      if is_in_day day_start day_end b
      then bump_range (start_index day_start b) (end_index day_start day_end b) 0 counts
      else counts

  -- The loop over `existing_bookings`, as far as it writes `minute_counts`.
  pub count_from : List ℕ → List Booking → List ℕ
  count_from counts [] = counts
  count_from counts (b ∷ bs) = count_from (count_booking counts b) bs

  unfoldable pub minute_counts : List Booking → List ℕ
  unfolding count_from
  minute_counts bs = count_from (replicate total_minutes 0) bs

  abbrev pub earlier : Option Instant → Instant → Option Instant
  earlier none t = some t
  earlier (some m) t = if ltb t m then some t else some m

  -- The same loop, as far as it writes `earliest_booking_start`.
  pub earliest_from : Option Instant → List Booking → Option Instant
  earliest_from first [] = first
  earliest_from first (b ∷ bs) =
      earliest_from (if is_in_day day_start day_end b then earlier first b.start_time else first) bs

  unfoldable pub earliest_booking_start : List Booking → Option Instant
  unfolding earliest_from
  earliest_booking_start bs = earliest_from none bs

-- `for i in cursor..stop`: the rounds are the minutes that are left.
unfoldable pub is_capacity_ok : List ℕ → ℤ → ℕ → ℕ → Bool
is_capacity_ok counts capacity i zero = true
is_capacity_ok counts capacity i (suc rounds) =
    let rest = is_capacity_ok counts capacity (i + 1) rounds in
    if ltb i total_minutes && leb_ℤ capacity (pos (get_or counts i 0)) then false else rest

-- The variables that the loops over windows and cursors read.
pub record Day (Tz : Type 0) : Type 0 where
  pub tz : Tz
  pub date : NaiveDate
  pub counts : List ℕ
  pub first_start : Option Instant
  pub cutoff_general : Instant
  pub cutoff_first : Instant
  pub active_start : Instant
  pub active_end : Instant
  pub duration : ℤ
  pub interval : ℤ
  pub day_max_capacity : ℤ

-- Enough rounds for every event: `window_loop_total` of Availability/Loop.
abbrev pub window_fuel : ℕ
window_fuel = 1442

-- Hierarchy of the configuration of a day: the override's, if it parses, else the event's.
unfoldable pub day_max_capacity : Event → Option EventOverride → ℤ
day_max_capacity event none = event.max_participants
day_max_capacity event (some rule) = unwrap_or rule.override_max_participants event.max_participants

abbrev pub is_unavailable : Option EventOverride → Bool
is_unavailable none = false
is_unavailable (some rule) = rule.is_unavailable

unfoldable pub daily_windows : WeekdayConfig → Weekday → Option (List TimeWindow)
daily_windows config mon = config.monday
daily_windows config tue = config.tuesday
daily_windows config wed = config.wednesday
daily_windows config thu = config.thursday
daily_windows config fri = config.friday
daily_windows config sat = config.saturday
daily_windows config sun = config.sunday

-- `b.start_time < session.end_time && b.end_time > session.start_time`
abbrev pub overlaps : Instant → Instant → Booking → Bool
overlaps start end b = ltb b.start_time end && ltb start b.end_time

unfoldable pub has_room : List Booking → EventSession → Bool
has_room bookings s =
    ltb_ℤ (as_i32 (length (keep (overlaps s.start_time s.end_time) bookings))) s.max_participants

abbrev pub or_diverge {ℓ} : {A : Type ℓ} → Option A → Outcome A
or_diverge none = diverge
or_diverge (some a) = ok a

module _ (env : Env) where
  open env use {Tz, from_local, from_hms, to_rfc3339, config_from_json}

  -- `event.timezone.parse().unwrap_or(chrono_tz::UTC)`
  abbrev pub timezone : Event → Tz
  timezone event = unwrap_or (env.parse_tz event.timezone) env.utc

  -- `tz.from_local_datetime(&date.and_hms_opt(h, m, s).unwrap()).single().unwrap()`
  unfoldable pub day_bound : Tz → NaiveDate → ℕ → ℕ → ℕ → Outcome Instant
  day_bound tz date h m s = do time ← unwrap (from_hms h m s); unwrap (from_local tz date time)

  -- The branch for `schedule_type == "MANUAL"`, before it is sorted.
  unfoldable pub session_slots : Tz → NaiveDate → List Booking → List EventSession → List String
  session_slots tz date bookings [] = []
  session_slots tz date bookings (s ∷ ss) =
      if eqb (env.local_date tz s.start_time) date && has_room bookings s
      then to_rfc3339 s.start_time ∷ session_slots tz date bookings ss
      else session_slots tz date bookings ss

  unfoldable pub event_config : Event → WeekdayConfig
  event_config event = unwrap_or (config_from_json event.config_json) default_config

  unfoldable pub config_of : Event → Option String → WeekdayConfig
  unfolding event_config
  config_of event none = event_config event
  config_of event (some json) = unwrap_or (config_from_json json) (event_config event)

  unfoldable pub effective_config : Event → Option EventOverride → WeekdayConfig
  unfolding config_of
  effective_config event none = config_of event none
  effective_config event (some rule) = config_of event rule.override_config_json

  unfoldable pub required_cutoff : Day Tz → Option Instant → Instant → Instant
  required_cutoff d none slot = d.cutoff_first
  required_cutoff d (some first) slot = if ltb first slot then d.cutoff_general else d.cutoff_first

  -- The tests on one slot, which starts at `slot` and takes the minutes `cursor..stop`.
  unfoldable pub is_slot_valid : Day Tz → ℤ → ℕ → ℕ → Instant → Bool
  unfolding required_cutoff
  is_slot_valid d capacity cursor stop slot =
      ltb (required_cutoff d d.first_start slot) slot
      && leb d.active_start slot
      && leb (add_minutes slot d.duration) d.active_end
      && is_capacity_ok d.counts capacity cursor (stop - cursor)

  -- The instant of a cursor, if the day has it once.
  unfoldable pub slot_instant : Day Tz → ℕ → Option Instant
  slot_instant d cursor = elim (from_hms (cursor / 60 % 4294967296) (cursor % 60) 0) [
    | none ↦ none
    | some time ↦ from_local d.tz d.date time
  ]

  unfoldable pub slot_at : Day Tz → ℤ → ℕ → ℕ → Option String
  slot_at d capacity cursor stop = elim (slot_instant d cursor) [
    | none ↦ none
    | some slot ↦ if is_slot_valid d capacity cursor stop slot then some (to_rfc3339 slot) else none
  ]

  abbrev pub push_slot : Option String → List String → List String
  push_slot none slots = slots
  push_slot (some s) slots = s ∷ slots

  -- `while cursor + duration_min <= win_end_idx`, in the wrapping arithmetic of a release build.
  unfoldable pub window_loop : Day Tz → ℤ → ℕ → ℕ → ℕ → Option (List String)
  window_loop d capacity win_end zero cursor = none
  window_loop d capacity win_end (suc fuel) cursor =
      let stop = (cursor + as_usize d.duration) % usize_mod in
      let rest = window_loop d capacity win_end fuel ((cursor + as_usize d.interval) % usize_mod) in
      if leb stop win_end
      then elim rest [
        | none ↦ none
        | some slots ↦ some (push_slot (slot_at d capacity cursor stop) slots)
      ]
      else some []

  -- The minute of the day of a time of the form HH:MM.
  abbrev pub minute_index : NaiveTime → ℕ
  minute_index t = env.hour t * 60 + env.minute t

  abbrev pub win_end_index : NaiveTime → ℕ
  win_end_index t = if eqb (minute_index t) 1439 then 1440 else minute_index t

  unfoldable pub window_slots : Day Tz → TimeWindow → Option (List String)
  window_slots d w =
      let capacity = unwrap_or w.max_participants d.day_max_capacity in
      elim (env.parse_time w.start) [
        | none ↦ some []
        | some start ↦ elim (env.parse_time w.end) [
          | none ↦ some []
          | some end ↦ window_loop d capacity (win_end_index end) window_fuel (minute_index start)
        ]
      ]

  unfoldable pub windows_slots : Day Tz → List TimeWindow → Option (List String)
  windows_slots d [] = some []
  windows_slots d (w ∷ ws) =
      let rest = windows_slots d ws in
      elim (window_slots d w) [
        | none ↦ none
        | some slots ↦ elim rest [ none ↦ none | some others ↦ some (slots ++ others) ]
      ]

  -- The variables of a day, from the readings of the calendar and the clock.
  abbrev pub day_of :
      Event → NaiveDate → List Booking → Option EventOverride → Instant → Instant → Instant → Day Tz
  day_of event date bookings rule now day_start day_end = record {
    tz = timezone event;
    date = date;
    counts = minute_counts day_start day_end bookings;
    first_start = earliest_booking_start day_start day_end bookings;
    cutoff_general = add_minutes now event.min_notice_general;
    cutoff_first = add_minutes now event.min_notice_first;
    active_start = event.active_start;
    active_end = event.active_end;
    duration = event.duration_min;
    interval = event.interval_min;
    day_max_capacity = day_max_capacity event rule;
  }

  unfoldable pub recurring_slots :
      Event → NaiveDate → List Booking → Option EventOverride → Instant → Outcome (List String)
  recurring_slots event date bookings rule now = do
    day_start ← day_bound (timezone event) date 0 0 0
    day_end ← day_bound (timezone event) date 23 59 59
    if eqb (as_usize event.duration_min) 0 || eqb (as_usize event.interval_min) 0 then ok [] else do
      let windows = unwrap_or (daily_windows (effective_config event rule) (env.weekday date)) []
      slots ←
          or_diverge (windows_slots (day_of event date bookings rule now day_start day_end) windows)
      ok (sort_dedup slots)

  -- `now` is the reading of the clock that the function takes.
  unfoldable pub calculate_slots :
      Event
      → NaiveDate
      → List Booking
      → Option EventOverride
      → Option (List EventSession)
      → Instant
      → Outcome (List String)
  calculate_slots event date bookings rule sessions now =
      if event.schedule_type == "MANUAL"
      then ok (sort_dedup (session_slots (timezone event) date bookings (unwrap_or sessions [])))
      else if is_unavailable rule
      then ok []
      else recurring_slots event date bookings rule now
