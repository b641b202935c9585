-- ===== src/Auth/SignIn.antt =====
-- api/handlers/auth.rs: signing in, renewing a session and signing out. The cookies that are set or removed
-- are a value beside the answer; parsing and checking a password hash are parameters.
use booking_backend.Prelude.{String, Bool, not, none, some}
use booking_backend.Outcome.{unauthorized, internal}
use booking_backend.Models.Accounts.{User}
use booking_backend.Env.{Env}
use booking_backend.Db.{Exec, pure, raise, query_or, reject, on_option, attempt, ◌>>=◌, ◌>>◌}
use booking_backend.Db.Accounts.{find_user_by_username, find_user_by_id}
use booking_backend.Auth as Service
use booking_backend.Auth.{Tokens, Crypto, find_refresh_token}
use booking_backend.Auth.Guard.{Cookies}

-- `PasswordHash::new` and `Argon2::verify_password`
pub record Passwords : Type 0 where
  pub is_hash : String → Bool
  pub verify : String → String → Bool

pub record LoginRequest : Type 0 where
  pub tenant_id : String
  pub username : String
  pub password : String

pub record UserProfile : Type 0 where
  pub id : String
  pub username : String
  pub role : String

pub record AuthResponse : Type 0 where
  pub csrf_token : String
  pub user : UserProfile

abbrev pub profile : User → UserProfile
profile user = record { id = user.id; username = user.username; role = user.role }

-- `set_cookies`: both are for this site only, secure, and out of reach of scripts.
abbrev pub set_cookies : Tokens → Cookies
set_cookies tokens = record {
  access_token = some tokens.access;
  refresh_token = some tokens.refresh;
}

abbrev pub respond : User → Tokens → Exec (AuthResponse × Cookies)
respond user tokens =
    pure (record { csrf_token = tokens.csrf; user = profile user }, set_cookies tokens)

module _ (env : Env) (crypto : Crypto) where
  unfoldable pub sign_in : Passwords → LoginRequest → Exec (AuthResponse × Cookies)
  sign_in passwords payload = do
    user ← query_or (find_user_by_username payload.tenant_id payload.username) unauthorized
    reject (not (passwords.is_hash user.password_hash)) internal
    reject (not (passwords.verify payload.password user.password_hash)) unauthorized
    tokens ← Service.login env crypto user
    respond user tokens

  unfoldable pub renew : Cookies → Exec (AuthResponse × Cookies)
  renew cookies = do
    raw_token ← on_option cookies.refresh_token (raise unauthorized) pure
    old ← query_or (find_refresh_token (crypto.hash_token raw_token)) unauthorized
    user ← query_or (find_user_by_id old.tenant_id old.user_id) unauthorized
    tokens ← Service.refresh env crypto raw_token user
    respond user tokens

  -- An error of the service is passed over; both cookies are removed.
  unfoldable pub sign_out : Cookies → Exec Cookies
  sign_out cookies = do
    on_option cookies.refresh_token (pure tt)
        λ token. attempt (Service.logout env crypto token) >> pure tt
    pure (record { access_token = none; refresh_token = none })
