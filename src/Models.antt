-- ===== src/Models.antt =====
-- domain/models: the rows of the tables. A `DateTime<Utc>` is the number of nanoseconds since the
-- first instant of chrono's range, a `NaiveDate` the number of days since its first date, and a
-- `NaiveTime` the number of nanoseconds since midnight. An `i32` is an integer.
pub mod Mail
pub mod Accounts
use booking_backend.Prelude.{ℕ, ◌+◌, ◌-◌, ◌*◌, ℤ, pos, negsuc, String, Bool, Option, none, List}

abbrev pub Instant : Type 0
Instant = ℕ

abbrev pub NaiveDate : Type 0
NaiveDate = ℕ

abbrev pub NaiveTime : Type 0
NaiveTime = ℕ

abbrev pub minute_ns : ℕ
minute_ns = 60000000000

abbrev pub second_ns : ℕ
second_ns = 1000000000

-- `t + Duration::minutes(m as i64)`
abbrev pub add_minutes : Instant → ℤ → Instant
add_minutes t (pos m) = t + m * minute_ns
add_minutes t (negsuc m) = t - (m + 1) * minute_ns

-- `t - Duration::minutes(m)`
abbrev pub sub_minutes : Instant → ℤ → Instant
sub_minutes t (pos m) = t - m * minute_ns
sub_minutes t (negsuc m) = t + (m + 1) * minute_ns

pub record TimeWindow : Type 0 where
  pub start : String
  pub end : String
  pub max_participants : Option ℤ

pub record WeekdayConfig : Type 0 where
  pub monday : Option (List TimeWindow)
  pub tuesday : Option (List TimeWindow)
  pub wednesday : Option (List TimeWindow)
  pub thursday : Option (List TimeWindow)
  pub friday : Option (List TimeWindow)
  pub saturday : Option (List TimeWindow)
  pub sunday : Option (List TimeWindow)

-- `WeekdayConfig::default()`
abbrev pub default_config : WeekdayConfig
default_config = record {
  monday = none;
  tuesday = none;
  wednesday = none;
  thursday = none;
  friday = none;
  saturday = none;
  sunday = none;
}

-- The fields that only hold text for display (title, description, image and so on) are kept.
pub record Event : Type 0 where
  pub id : String
  pub tenant_id : String
  pub slug : String
  pub title_en : String
  pub title_de : String
  pub desc_en : String
  pub desc_de : String
  pub location : String
  pub payout : String
  pub host_name : String
  pub timezone : String
  pub min_notice_general : ℤ
  pub min_notice_first : ℤ
  pub active_start : Instant
  pub active_end : Instant
  pub duration_min : ℤ
  pub interval_min : ℤ
  pub max_participants : ℤ
  pub image_url : String
  pub config_json : String
  pub access_mode : String
  pub schedule_type : String
  pub allow_customer_cancel : Bool
  pub allow_customer_reschedule : Bool
  pub created_at : Instant

pub record Booking : Type 0 where
  pub id : String
  pub tenant_id : String
  pub event_id : String
  pub invitee_id : Option String
  pub start_time : Instant
  pub end_time : Instant
  pub customer_name : String
  pub customer_email : String
  pub customer_note : Option String
  pub location : Option String
  pub label_id : Option String
  pub status : String
  pub management_token : String
  pub token : Option String
  pub payout : Option ℤ
  pub created_at : Instant

pub record EventOverride : Type 0 where
  pub id : String
  pub event_id : String
  pub date : NaiveDate
  pub is_unavailable : Bool
  pub override_config_json : Option String
  pub override_max_participants : Option ℤ
  pub location : Option String
  pub host_name : Option String
  pub created_at : Instant

pub record EventSession : Type 0 where
  pub id : String
  pub event_id : String
  pub start_time : Instant
  pub end_time : Instant
  pub max_participants : ℤ
  pub location : Option String
  pub host_name : Option String
  pub created_at : Instant

pub record Invitee : Type 0 where
  pub id : String
  pub tenant_id : String
  pub event_id : String
  pub token : String
  pub email : Option String
  pub status : String
  pub created_at : Instant

pub record JobPayload : Type 0 where
  pub booking_id : String
  pub tenant_id : String

pub record Job : Type 0 where
  pub id : String
  pub job_type : String
  pub payload : JobPayload
  pub execute_at : Instant
  pub status : String
  pub error_message : Option String
  pub created_at : Instant

pub record NotificationRule : Type 0 where
  pub id : String
  pub tenant_id : String
  pub event_id : Option String
  pub trigger_type : String
  pub template_id : String
  pub is_active : Bool
  pub created_at : Instant

pub record BookingLabel : Type 0 where
  pub id : String
  pub tenant_id : String
  pub name : String
  pub color : String
  pub payout : ℤ
  pub created_at : Instant

pub record RefreshTokenRecord : Type 0 where
  pub token_hash : String
  pub user_id : String
  pub tenant_id : String
  pub family_id : String
  pub generation_id : ℤ
  pub expires_at : Instant
  pub created_at : Instant
