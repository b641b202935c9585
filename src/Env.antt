-- ===== src/Env.antt =====
-- What the source calls and does not implement: chrono, chrono-tz and serde_json, the clock, and the
-- sources of identifiers and random text. `now_at`, `uuid_at` and `random_at` give the answer to the
-- call with the given number.
use booking_backend.Prelude.{ℕ, String, Option}
use booking_backend.Models.{Instant, NaiveDate, NaiveTime, WeekdayConfig}

-- `chrono::Weekday`
pub data Weekday : Type 0 where
  mon tue wed thu fri sat sun : Weekday

pub record Env : Type 1 where
  pub Tz : Type 0
  -- `s.parse::<Tz>()` and `chrono_tz::UTC`
  pub parse_tz : String → Option Tz
  pub utc : Tz
  -- `tz.from_local_datetime(&date.and_time(time)).single()`, in UTC
  pub from_local : Tz → NaiveDate → NaiveTime → Option Instant
  -- `t.with_timezone(&tz).date_naive()` and `.time()`
  pub local_date : Tz → Instant → NaiveDate
  pub local_time : Tz → Instant → NaiveTime
  -- `NaiveTime::from_hms_opt`, `hour()`, `minute()`
  pub from_hms : ℕ → ℕ → ℕ → Option NaiveTime
  pub hour : NaiveTime → ℕ
  pub minute : NaiveTime → ℕ
  pub weekday : NaiveDate → Weekday
  -- `NaiveDate::parse_from_str(_, "%Y-%m-%d")`, `NaiveTime::parse_from_str(_, "%H:%M")`
  pub parse_date : String → Option NaiveDate
  pub parse_time : String → Option NaiveTime
  pub parse_rfc3339 : String → Option Instant
  pub to_rfc3339 : Instant → String
  pub date_to_string : NaiveDate → String
  -- `serde_json` at `WeekdayConfig`
  pub config_from_json : String → Option WeekdayConfig
  pub config_to_json : WeekdayConfig → Option String
  pub now_at : ℕ → Instant
  pub uuid_at : ℕ → String
  pub random_at : ℕ → String
