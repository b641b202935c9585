-- ===== src/Handlers/Accounts.antt =====
-- api/handlers/tenant.rs and api/handlers/member.rs. A salted hash is a parameter; `user` is the user that
-- the extractor found.
pub mod Access
use booking_backend.Prelude.{
  ℕ, suc, ℤ, pos, String, Bool, true, false, not, Option, none, some, List, [], ◌∷◌, map, is_some,
  unwrap_or, or_else, ◌==◌, if◌then◌else◌,
}
use booking_backend.Outcome.{Outcome, ok_or, not_found, conflict, internal}
use booking_backend.Models.{Instant, BookingLabel}
use booking_backend.Models.Accounts.{Tenant, User}
use booking_backend.Env.{Env}
use booking_backend.Db.{
  Exec, St, pure, lift, query, query_or, execute, reject, attempt, utc_now, new_uuid, random_text,
  ◌>>=◌, ◌>>◌,
}
use booking_backend.Db.Mail.{find_tenant}
use booking_backend.Db.Accounts.{
  insert_tenant, find_tenant_by_slug, update_tenant_rows, insert_user, find_user_by_username,
  find_user_by_id, users_of, delete_user_rows,
}
use booking_backend.Handlers.Labels.{insert_label}

pub record CreateTenantRequest : Type 0 where
  pub name : String
  pub slug : String
  pub logo_url : Option String

pub record UpdateTenantRequest : Type 0 where
  pub name : Option String
  pub logo_url : Option String
  pub ai_api_key : Option String

pub record CreateMemberRequest : Type 0 where
  pub username : String
  pub password : String

pub record TenantCreatedResponse : Type 0 where
  pub tenant_id : String
  pub admin_username : String
  pub admin_secret : String

-- What is shown of a user.
pub record Member : Type 0 where
  pub id : String
  pub username : String
  pub role : String
  pub created_at : Instant

abbrev pub shown : User → Member
shown u = record { id = u.id; username = u.username; role = u.role; created_at = u.created_at }

-- `Argon2::default().hash_password(password, &salt)` with the salt that a call draws.
abbrev pub Hasher : Type 0
Hasher = ℕ → String → Option String

unfoldable pub hash_password : Hasher → String → Exec String
hash_password hasher password s =
    lift (ok_or (hasher s.calls password) internal) (record s { calls = suc s.calls })

-- The three labels that a tenant starts with.
pub record DefaultLabel : Type 0 where
  pub name : String
  pub color : String
  pub payout : ℤ

abbrev pub default_labels : List DefaultLabel
default_labels =
    record { name = "Show"; color = "#2e7d32"; payout = pos 15 }
    ∷ record { name = "Noshow"; color = "#d32f2f"; payout = pos 0 }
    ∷ record { name = "Abgesagt"; color = "#9e9e9e"; payout = pos 0 }
    ∷ []

module _ (env : Env) where
  -- `Tenant::new`
  unfoldable pub new_tenant : String → String → Exec Tenant
  new_tenant name slug = do
    id ← new_uuid env
    now ← utc_now env
    pure (record {
      id = id;
      name = name;
      slug = slug;
      logo_url = none;
      ai_api_key = none;
      ai_provider = some "gemini";
      created_at = now;
    })

  -- `User::new`
  unfoldable pub new_user : String → String → String → Exec User
  new_user tenant_id username password_hash = do
    id ← new_uuid env
    now ← utc_now env
    pure (record {
      id = id;
      tenant_id = tenant_id;
      username = username;
      password_hash = password_hash;
      role = "MEMBER";
      created_at = now;
    })

  -- `BookingLabel::new`
  unfoldable pub new_label : String → DefaultLabel → Exec BookingLabel
  new_label tenant_id label = do
    id ← new_uuid env
    now ← utc_now env
    pure (record {
      id = id;
      tenant_id = tenant_id;
      name = label.name;
      color = label.color;
      payout = label.payout;
      created_at = now;
    })

  -- An error of an insertion is passed over.
  unfoldable pub create_labels : String → List DefaultLabel → Exec (Unit {0})
  create_labels tenant_id [] = pure tt
  create_labels tenant_id (l ∷ ls) = do
    label ← new_label tenant_id l
    attempt (execute (insert_label label))
    create_labels tenant_id ls

  unfoldable pub create_tenant : Hasher → CreateTenantRequest → Exec TenantCreatedResponse
  create_tenant hasher payload = do
    tenant ← new_tenant payload.name payload.slug
    created ←
        execute
          (insert_tenant (record tenant { logo_url = or_else payload.logo_url tenant.logo_url }))
    admin_password ← random_text env
    password_hash ← hash_password hasher admin_password
    admin_user ← new_user created.id "admin" password_hash
    execute (insert_user admin_user)
    create_labels created.id default_labels
    pure
        (record { tenant_id = created.id; admin_username = "admin"; admin_secret = admin_password })

  unfoldable pub create_member : Hasher → String → CreateMemberRequest → Exec User
  create_member hasher tenant_id payload = do
    existing ← query (find_user_by_username tenant_id payload.username)
    reject (is_some existing) (conflict "Username already exists")
    password_hash ← hash_password hasher payload.password
    user ← new_user tenant_id payload.username password_hash
    execute (insert_user user)

unfoldable pub get_tenant_by_slug : String → Exec Tenant
get_tenant_by_slug slug = query_or (find_tenant_by_slug slug) (not_found "Tenant not found")

unfoldable pub get_current_tenant : User → Exec Tenant
get_current_tenant user = query_or (find_tenant user.tenant_id) (not_found "Tenant not found")

unfoldable pub update_tenant : User → UpdateTenantRequest → Exec Tenant
update_tenant user payload = do
  tenant ← query_or (find_tenant user.tenant_id) (not_found "Tenant not found")
  execute (
      update_tenant_rows (record tenant {
        name = unwrap_or payload.name tenant.name;
        logo_url = or_else payload.logo_url tenant.logo_url;
        ai_api_key = or_else payload.ai_api_key tenant.ai_api_key;
      }))

unfoldable pub list_members : String → Exec (List Member)
list_members tenant_id = do members ← query (users_of tenant_id); pure (map shown members)

unfoldable pub delete_member : User → String → String → Exec (Unit {0})
delete_member admin tenant_id user_id = do
  reject (admin.id == user_id) (conflict "Cannot delete yourself")
  target ← query_or (find_user_by_id tenant_id user_id) (not_found "User not found")
  execute (delete_user_rows tenant_id target.id)
