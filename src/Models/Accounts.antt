-- ===== src/Models/Accounts.antt =====
-- domain/models/tenant.rs and domain/models/user.rs.
use booking_backend.Prelude.{String, Option}
use booking_backend.Models.{Instant}

pub record Tenant : Type 0 where
  pub id : String
  pub name : String
  pub slug : String
  pub logo_url : Option String
  pub ai_api_key : Option String
  pub ai_provider : Option String
  pub created_at : Instant

pub record User : Type 0 where
  pub id : String
  pub tenant_id : String
  pub username : String
  pub password_hash : String
  pub role : String
  pub created_at : Instant
