-- ===== src/Auth.antt =====
-- domain/services/auth_service.rs and infra/repositories/sqlite_auth_repo.rs: sessions of signed-in
-- users, by refresh tokens that are used once. The signature of the claims, the hash of a token and the
-- conversion of an instant to seconds are what the libraries compute: parameters.
pub mod Rotation
pub mod Guard
pub mod Vouched
pub mod SignIn
use booking_backend.Prelude.{
  ℕ, zero, suc, ◌+◌, ℤ, pos, negsuc, as_i32, String, Bool, true, false, Option, none, some, List,
  [], ◌∷◌, ◌++◌, ltb, any, find, ◌==◌, if◌then◌else◌,
}
use booking_backend.Outcome.{
  Outcome, ok, err, ok_or, database, unique_violation, unauthorized, internal,
}
use booking_backend.Models.{Instant, RefreshTokenRecord, add_minutes}
use booking_backend.Models.Accounts.{User}
use booking_backend.Env.{Env}
use booking_backend.Db.{
  Db, Exec, pure, raise, lift, query_or, execute, delete_where, utc_now, new_uuid, random_text,
  ◌>>=◌, ◌>>◌,
}

pub record Claims : Type 0 where
  pub iss : String
  pub sub : String
  pub aud : String
  pub exp : ℕ
  pub iat : ℕ
  pub jti : String
  pub tenant_id : String
  pub role : String
  pub csrf_token : String

pub record Tokens : Type 0 where
  pub access : String
  pub refresh : String
  pub csrf : String

-- The configured issuer, and what the libraries compute.
pub record Crypto : Type 0 where
  pub issuer : String
  -- `encode(&Header::new(Algorithm::EdDSA), &claims, &key)`
  pub encode : Claims → Option String
  -- `hex::encode(Sha256::digest(token))`
  pub hash_token : String → String
  -- `t.timestamp() as usize`
  pub timestamp : Instant → ℕ

-- The key is `token_hash`.
unfoldable pub create_refresh_token : RefreshTokenRecord → Db → Outcome (Unit {0} × Db)
create_refresh_token r db =
    if any (λ (q : RefreshTokenRecord). q.token_hash == r.token_hash) db.refresh_tokens
    then err (database unique_violation)
    else ok (tt, record db { refresh_tokens = db.refresh_tokens ++ r ∷ [] })

unfoldable pub find_refresh_token : String → Db → Option RefreshTokenRecord
find_refresh_token hash db = find (λ r. r.token_hash == hash) db.refresh_tokens

unfoldable pub delete_refresh_token : String → Db → Outcome (Unit {0} × Db)
delete_refresh_token hash db = ok (
  tt,
  record db {
    refresh_tokens =
        delete_where (λ (r : RefreshTokenRecord). r.token_hash == hash) db.refresh_tokens;
  },
)

unfoldable delete_refresh_family : String → Db → Outcome (Unit {0} × Db)
delete_refresh_family family db = ok (
  tt,
  record db {
    refresh_tokens =
        delete_where (λ (r : RefreshTokenRecord). r.family_id == family) db.refresh_tokens;
  },
)

-- `generation_id + 1` on an `i32`
unfoldable pub next_generation : ℤ → ℤ
next_generation (pos n) = as_i32 (n + 1)
next_generation (negsuc zero) = pos 0
next_generation (negsuc (suc n)) = negsuc n

module _ (env : Env) (crypto : Crypto) where
  unfoldable pub issue_token_pair : User → String → ℤ → Exec Tokens
  issue_token_pair user family_id generation_id = do
    csrf ← random_text env
    now ← utc_now env
    jti ← new_uuid env
    access ← lift (
        ok_or
          (crypto.encode (record {
            iss = crypto.issuer;
            sub = user.id;
            aud = "booking-frontend";
            exp = crypto.timestamp (add_minutes now (pos 15));
            iat = crypto.timestamp now;
            jti = jti;
            tenant_id = user.tenant_id;
            role = user.role;
            csrf_token = csrf;
          }))
          internal)
    refresh ← random_text env
    execute (
        create_refresh_token (record {
          token_hash = crypto.hash_token refresh;
          user_id = user.id;
          tenant_id = user.tenant_id;
          family_id = family_id;
          generation_id = generation_id;
          expires_at = add_minutes now (pos 10080);
          created_at = now;
        }))
    pure (record { access = access; refresh = refresh; csrf = csrf })

  unfoldable pub login : User → Exec Tokens
  login user = do family_id ← new_uuid env; issue_token_pair user family_id (pos 1)

  unfoldable pub expire : String → Exec Tokens
  expire hash = do execute (delete_refresh_token hash); raise unauthorized

  unfoldable pub rotate : String → RefreshTokenRecord → User → Exec Tokens
  rotate hash old user = do
    execute (delete_refresh_token hash)
    issue_token_pair user old.family_id (next_generation old.generation_id)

  unfoldable pub refresh : String → User → Exec Tokens
  refresh raw_refresh_token user = do
    old ← query_or (find_refresh_token (crypto.hash_token raw_refresh_token)) unauthorized
    now ← utc_now env
    if ltb old.expires_at now
        then expire (crypto.hash_token raw_refresh_token)
        else rotate (crypto.hash_token raw_refresh_token) old user

  unfoldable pub logout : String → Exec (Unit {0})
  logout raw_refresh_token = execute (delete_refresh_token (crypto.hash_token raw_refresh_token))
