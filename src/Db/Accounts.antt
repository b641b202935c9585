-- ===== src/Db/Accounts.antt =====
-- infra/repositories/sqlite_tenant_repo.rs and sqlite_user_repo.rs, with the foreign keys of these tables.
use booking_backend.Prelude.{
  String, Bool, ◌&&◌, ◌||◌, Option, List, [], ◌∷◌, ◌++◌, find, keep, any, order_by, ◌==◌,
  if◌then◌else◌,
}
use booking_backend.Text.{text_leb}
use booking_backend.Outcome.{Outcome, ok, err, database, unique_violation, foreign_key_violation}
use booking_backend.Models.{RefreshTokenRecord}
use booking_backend.Models.Accounts.{Tenant, User}
use booking_backend.Db.{Db, update_where, delete_where, fetch_one}
use booking_backend.Db.Mail.{has_tenant}

-- The keys are `id` and `slug`.
unfoldable pub insert_tenant : Tenant → Db → Outcome (Tenant × Db)
insert_tenant t db =
    if any (λ (r : Tenant). r.id == t.id || r.slug == t.slug) db.tenants
    then err (database unique_violation)
    else ok (t, record db { tenants = db.tenants ++ t ∷ [] })

unfoldable pub find_tenant_by_slug : String → Db → Option Tenant
find_tenant_by_slug slug db = find (λ t. t.slug == slug) db.tenants

unfoldable pub update_tenant_rows : Tenant → Db → Outcome (Tenant × Db)
update_tenant_rows t db =
    let rows =
      update_where (λ (r : Tenant). r.id == t.id)
        (λ r. record r { name = t.name; logo_url = t.logo_url; ai_api_key = t.ai_api_key })
        db.tenants in
    fetch_one (find (λ r. r.id == t.id) rows) (record db { tenants = rows })

-- The keys are `id`, and `tenant_id` with `username`.
unfoldable pub insert_user : User → Db → Outcome (User × Db)
insert_user u db =
    if any (λ (r : User). r.id == u.id || (r.tenant_id == u.tenant_id && r.username == u.username))
      db.users
    then err (database unique_violation)
    else if has_tenant u.tenant_id db
    then ok (u, record db { users = db.users ++ u ∷ [] })
    else err (database foreign_key_violation)

unfoldable pub find_user_by_username : String → String → Db → Option User
find_user_by_username tenant_id username db =
    find (λ u. u.tenant_id == tenant_id && u.username == username) db.users

unfoldable pub find_user_by_id : String → String → Db → Option User
find_user_by_id tenant_id id db = find (λ u. u.tenant_id == tenant_id && u.id == id) db.users

-- `ORDER BY username ASC`
unfoldable pub users_of : String → Db → List User
users_of tenant_id db =
    order_by (λ (u v : User). text_leb u.username v.username)
      (keep (λ u. u.tenant_id == tenant_id) db.users)

abbrev pub is_user : String → String → User → Bool
is_user tenant_id id u = u.tenant_id == tenant_id && u.id == id

-- The refresh tokens of a user that is deleted go with it.
unfoldable pub delete_user_rows : String → String → Db → Outcome (Unit {0} × Db)
delete_user_rows tenant_id id db = ok (
  tt,
  record db {
    users = delete_where (is_user tenant_id id) db.users;
    refresh_tokens =
        if any (is_user tenant_id id) db.users
        then delete_where (λ (r : RefreshTokenRecord). r.user_id == id) db.refresh_tokens
        else db.refresh_tokens;
  },
)
