-- ===== src/Handlers/Accounts/Access.antt =====
-- What becomes of a member: who can sign in, and what a deletion ends (api/handlers/member.rs, auth.rs).
use booking_backend.Prelude.{
  ℕ, ◌≡◌, refl, inl, inr, String, Bool, true, false, ◌&&◌, Option, none, some, List, [], ◌∷◌, ◌++◌,
  arith, find, any, In, is_some, Bool-cases, Option-cases, ◌==◌, eq_iff,
}
use booking_backend.Outcome.{ok, err, unauthorized}
use booking_backend.Models.{RefreshTokenRecord}
use booking_backend.Models.Accounts.{User}
use booking_backend.Env.{Env}
use booking_backend.Db.{St, execute, pure, lift, query_or, reject, on_option, delete_where, ◌>>=◌}
use booking_backend.Db.Rules.{bind-ok, query_or-ok, query-ok, reject-ok}
use booking_backend.Db.Rows.{find-holds}
use booking_backend.Db.Accounts.{
  insert_user, find_user_by_username, find_user_by_id, delete_user_rows, is_user,
}
use booking_backend.Auth as Service
use booking_backend.Auth.{Crypto, find_refresh_token}
use booking_backend.Auth.SignIn.{Passwords, sign_in, renew, respond}
use booking_backend.Handlers.Accounts.{
  Hasher, CreateMemberRequest, hash_password, new_user, create_member, delete_member,
}

insert_user-ok :
    (u c : User) (s t : St)
    → execute (insert_user u) s ≡ (ok c, t)
    → (c ≡ u) × (t.db ≡ record s.db { users = s.db.users ++ u ∷ [] })
unfolding execute insert_user
insert_user-ok u c s t h = ground arith

find-last :
    {A : Type 0} (p : A → Bool) (x : A) (xs : List A)
    → find p xs ≡ none
    → p x ≡ true
    → find p (xs ++ x ∷ []) ≡ some x
find-last p x [] h e = rw e
find-last p x (y ∷ ys) h e = elim (Bool-cases (p y)) [
  | inl g ↦ absurd (ground arith)
  | inr g ↦ rw g (find-last p x ys (rw g at h) e)
]

eq_same : (s : String) → (s == s) ≡ true
eq_same s = (eq_iff s s).1 refl

hash_password-ok :
    (hasher : Hasher) (password hash : String) (s t : St)
    → hash_password hasher password s ≡ (ok hash, t)
    → (hasher s.calls password ≡ some hash) × (t.db ≡ s.db)
unfolding hash_password lift
hash_password-ok hasher password hash s t h = elim (Option-cases (hasher s.calls password)) [
  | inl e ↦ absurd (let h' = rw e at h in ground arith)
  | inr (a, e) ↦ let h' = rw e at h in ground arith
]

new_user-ok :
    (env : Env) (tenant name hash : String) (u : User) (s t : St)
    → new_user env tenant name hash s ≡ (ok u, t)
    → (u.tenant_id ≡ tenant) × (u.username ≡ name) × (u.password_hash ≡ hash) × (t.db ≡ s.db)
unfolding new_user ◌>>=◌
new_user-ok env tenant name hash u s t h = ground arith

create_member-ok :
    (env : Env) (hasher : Hasher) (tenant : String) (payload : CreateMemberRequest) (s t : St)
    (u : User)
    → create_member env hasher tenant payload s ≡ (ok u, t)
    → (find_user_by_username tenant payload.username t.db ≡ some u)
      × (k : ℕ) × (hasher k payload.password ≡ some u.password_hash)
unfolding create_member find_user_by_username
create_member-ok env hasher tenant payload s t u h =
    let h₁ = query-ok _ s _ h in
    reject-ok _ s _ _ h₁ λ free h₂. bind-ok _ _ s h₂ λ hash s₁ hashed h₃.
      bind-ok _ _ s₁ h₃ λ n s₂ new h₄.
        let (is_hash, d₁) = hash_password-ok hasher payload.password hash s s₁ hashed in
        let (tenant_is, name_is, password_is, d₂) =
          new_user-ok env tenant payload.username hash n s₁ s₂ new in
        let (same, d₃) = insert_user-ok n u s₂ t h₄ in
        let nobody : find (λ (x : User). x.tenant_id == tenant && x.username == payload.username)
              s.db.users
            ≡ none =
          not_found_lem _ free in
        (
          rw (d₃, d₂, d₁, same)
              (find-last (λ (x : User). x.tenant_id == tenant && x.username == payload.username) n
                s.db.users nobody
                (rw (tenant_is, name_is, eq_same tenant, eq_same payload.username))),
          s.calls,
          rw (same, password_is) is_hash,
        )
  where
    not_found_lem : {A : Type 0} (o : Option A) → is_some o ≡ false → o ≡ none
    not_found_lem none h = refl
    not_found_lem (some a) h = absurd (ground arith)

-- A member who was created can sign in. Let the library accept the hashes that it makes, for the password
-- that they were made of. Then signing in with the name and the password gets to the service that
-- hands out the tokens, for this member.
pub create_member-sign_in :
    (env : Env) (crypto : Crypto) (hasher : Hasher) (passwords : Passwords) (tenant : String)
    (payload : CreateMemberRequest) (s t : St) (u : User)
    → ((k : ℕ) (password hash : String)
        → hasher k password ≡ some hash
        → (passwords.is_hash hash ≡ true) × (passwords.verify password hash ≡ true))
    → create_member env hasher tenant payload s ≡ (ok u, t)
    → sign_in env crypto passwords
        (record { tenant_id = tenant; username = payload.username; password = payload.password })
        t
      ≡ (Service.login env crypto u >>= respond u) t
unfolding sign_in query_or reject ◌>>=◌
create_member-sign_in env crypto hasher passwords tenant payload s t u accepts h =
    let (found, k, hashed) = create_member-ok env hasher tenant payload s t u h in
    let (is_hash, verified) = accepts k payload.password u.password_hash hashed in
    rw (found, is_hash, verified)

find-gone :
    (p : RefreshTokenRecord → Bool) (user : String) (rs : List RefreshTokenRecord)
    → ((r : RefreshTokenRecord) → In r rs → p r ≡ true → r.user_id ≡ user)
    → find p (delete_where (λ (r : RefreshTokenRecord). r.user_id == user) rs) ≡ none
find-gone p user [] own = refl
find-gone p user (r ∷ rs) own =
    let rest = find-gone p user rs λ x i e. own x (inr i) e in
    elim (Bool-cases (r.user_id == user)) [
      | inl e ↦ rw e rest
      | inr e ↦ elim (Bool-cases (p r)) [
        | inl g ↦ absurd (let on = (eq_iff r.user_id user).1 (own r (inl refl) g) in ground arith)
        | inr g ↦ rw (e, g) rest
      ]
    ]

any-find : {A : Type 0} (p : A → Bool) (x : A) (xs : List A) → find p xs ≡ some x → any p xs ≡ true
any-find p x [] h = absurd (ground arith)
any-find p x (y ∷ ys) h = elim (Bool-cases (p y)) [
  | inl e ↦ rw e
  | inr e ↦ rw e (any-find p x ys (rw e at h))
]

delete_member-ok :
    (admin : User) (tenant id : String) (s t : St) (u : Unit {0})
    → delete_member admin tenant id s ≡ (ok u, t)
    → t.db.refresh_tokens
      ≡ delete_where (λ (r : RefreshTokenRecord). r.user_id == id) s.db.refresh_tokens
unfolding delete_member execute delete_user_rows find_user_by_id
delete_member-ok admin tenant id s t u h = reject-ok _ s _ _ h λ other h₁.
    query_or-ok _ s _ _ h₁ λ target found h₂.
      let holds = find-holds _ target s.db.users found in
      let same : target.id ≡ id = (eq_iff target.id id).0 (ground arith) in
      let present = any-find (is_user tenant id) target s.db.users found in
      let h₃ = rw (same, present) at h₂ in ground arith

-- After a member is deleted, no refresh token whose records were the member's is exchanged for new tokens: the
-- request is refused as unauthorized, and changes nothing. An access token that was signed before is not
-- covered; it carries its own expiry, which nothing here shortens.
pub delete_member-renew :
    (env : Env) (crypto : Crypto) (admin : User) (tenant id token : String) (access : Option String)
    (s t : St) (u : Unit {0})
    → delete_member admin tenant id s ≡ (ok u, t)
    → ((r : RefreshTokenRecord)
        → In r s.db.refresh_tokens
        → (r.token_hash == crypto.hash_token token) ≡ true
        → r.user_id ≡ id)
    → renew env crypto (record { access_token = access; refresh_token = some token }) t
      ≡ (err unauthorized, t)
unfolding renew find_refresh_token on_option pure query_or ◌>>=◌
delete_member-renew env crypto admin tenant id token access s t u h own =
    rw (delete_member-ok admin tenant id s t u h, find-gone _ id s.db.refresh_tokens own)
