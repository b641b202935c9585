-- ===== src/Auth/Guard.antt =====
-- api/extractors and error.rs: who is let through to a handler, and the status of an error. The cookies and
-- headers of a request are what the framework hands over; reading a signed token is a parameter.
use booking_backend.Prelude.{ℕ, String, Bool, true, false, Option, none, some, ◌==◌, if◌then◌else◌}
use booking_backend.Outcome.{
  AppError, database, unique_violation, row_not_found, foreign_key_violation, not_found,
  unauthorized, forbidden, conflict, validation, internal, internal_with_msg,
}
use booking_backend.Models.{Instant}
use booking_backend.Models.Accounts.{User}
use booking_backend.Auth.{Claims}
use booking_backend.Db.{Db}
use booking_backend.Db.Mail.{find_tenant}

-- `StatusCode`
abbrev pub Status : Type 0
Status = ℕ

-- A value, or the status that the request is answered with.
pub data Extracted (A : Type 0) : Type 0 where
  granted : A → Extracted A
  rejected : Status → Extracted A

infixl 5 ◌>>=◌ ◌>>◌
abbrev pub ◌>>=◌ : {A B : Type 0} → Extracted A → (A → Extracted B) → Extracted B
granted a >>= f = f a
rejected n >>= f = rejected n

abbrev pub ◌>>◌ : {A B : Type 0} → Extracted A → Extracted B → Extracted B
m >> k = m >>= λ _. k

abbrev pub or_reject : {A : Type 0} → Option A → Status → Extracted A
or_reject none n = rejected n
or_reject (some a) n = granted a

abbrev pub demand : Bool → Status → Extracted (Unit {0})
demand true n = granted tt
demand false n = rejected n

pub record Cookies : Type 0 where
  pub access_token : Option String
  pub refresh_token : Option String

-- `cookies` is missing without the layer that reads them; the header is a text if it is visible ASCII.
pub record Request : Type 0 where
  pub method : String
  pub cookies : Option Cookies
  pub csrf_header : Option (Option String)
  pub tenant_param : Option String

-- `DecodingKey::from_ed_pem` of the configured key, and `decode` with it, for the audience of the frontend.
pub record Verifier : Type 0 where
  pub key_is_valid : Bool
  pub decode : String → Option Claims

abbrev pub is_safe : String → Bool
is_safe method =
    if method == "GET" then true else if method == "HEAD" then true else method == "OPTIONS"

-- The user that the claims of a token describe.
abbrev pub user_of : Claims → String → Instant → User
user_of claims username now = record {
  id = claims.sub;
  tenant_id = claims.tenant_id;
  username = username;
  password_hash = "";
  role = claims.role;
  created_at = now;
}

unfoldable pub check_csrf : Request → Claims → Extracted (Unit {0})
check_csrf request claims = if is_safe request.method then granted tt else (do
  header ← or_reject request.csrf_header 403
  value ← or_reject header 403
  demand (value == claims.csrf_token) 403)

-- `AuthUser::from_request_parts`
unfoldable pub auth_user : Verifier → Request → Instant → Extracted User
auth_user verifier request now = do
  cookies ← or_reject request.cookies 500
  access_token ← or_reject cookies.access_token 401
  demand verifier.key_is_valid 500
  claims ← or_reject (verifier.decode access_token) 401
  check_csrf request claims
  granted (user_of claims "from_jwt" now)

abbrev pub user_with : Option Claims → Instant → Option User
user_with none now = none
user_with (some claims) now = some (user_of claims "jwt_user" now)

-- `MaybeAuthUser::from_request_parts`, which rejects nothing.
unfoldable pub maybe_auth_user : Verifier → Request → Instant → Option User
maybe_auth_user verifier request now = elim request.cookies [
  | none ↦ none
  | some cookies ↦ elim cookies.access_token [
    | none ↦ none
    | some access_token ↦
        if verifier.key_is_valid then user_with (verifier.decode access_token) now else none
  ]
]

-- `TenantId::from_request_parts`
unfoldable pub tenant_id : Request → Db → Extracted String
tenant_id request db = do
  id ← or_reject request.tenant_param 400
  tenant ← or_reject (find_tenant id db) 404
  granted id

-- `AppError::into_response`
unfoldable pub status_of : AppError → Status
status_of (database row_not_found) = 500
status_of (database unique_violation) = 409
status_of (database foreign_key_violation) = 500
status_of (not_found message) = 404
status_of unauthorized = 401
status_of (forbidden message) = 403
status_of (conflict message) = 409
status_of (validation message) = 400
status_of internal = 500
status_of (internal_with_msg message) = 500
