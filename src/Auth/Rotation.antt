-- ===== src/Auth/Rotation.antt =====
-- A refresh token is used once (domain/services/auth_service.rs).
use booking_backend.Prelude.{
  ℤ, pos, ◌≡◌, ◌∙◌, refl, ap, subst, inl, inr, String, false, none, some, List, [], ◌∷◌, ◌++◌, ltb,
  arith, find, Bool-cases, ◌==◌,
}
use booking_backend.Outcome.{ok, err, unauthorized}
use booking_backend.Models.{RefreshTokenRecord, add_minutes}
use booking_backend.Env.{Env}
use booking_backend.Db.{Db, St, execute, delete_where, ◌>>=◌}
use booking_backend.Db.Rules.{
  bind-ok, reads-ok, lift-ok, query_or-ok, pure-ok, Reads-utc_now, Reads-new_uuid,
  Reads-random_text, raise-ne,
}
use booking_backend.Models.Accounts.{User}
use booking_backend.Auth.{
  Tokens, Crypto, create_refresh_token, find_refresh_token, delete_refresh_token, next_generation,
  issue_token_pair, expire, rotate, refresh,
}

abbrev pub without : String → List RefreshTokenRecord → List RefreshTokenRecord
without hash = delete_where (λ r. r.token_hash == hash)

delete_where-find :
    (hash : String) (rs : List RefreshTokenRecord)
    → find (λ r. r.token_hash == hash) (without hash rs) ≡ none
delete_where-find hash [] = refl
delete_where-find hash (r ∷ rs) = elim (Bool-cases (r.token_hash == hash)) [
  | inl e ↦ rw e (delete_where-find hash rs)
  | inr e ↦ rw (e, e) (delete_where-find hash rs)
]

find-end :
    (hash : String) (n : RefreshTokenRecord) (rs : List RefreshTokenRecord)
    → find (λ r. r.token_hash == hash) rs ≡ none
    → (n.token_hash == hash) ≡ false
    → find (λ (r : RefreshTokenRecord). r.token_hash == hash) (rs ++ n ∷ []) ≡ none
find-end hash n [] h off = rw off
find-end hash n (r ∷ rs) h off = elim (Bool-cases (r.token_hash == hash)) [
  | inl e ↦ absurd (ground arith)
  | inr e ↦ rw e (find-end hash n rs (rw e at h) off)
]

insert-ok :
    (n : RefreshTokenRecord) (s t : St) (u : Unit {0})
    → execute (create_refresh_token n) s ≡ (ok u, t)
    → t.db ≡ record s.db { refresh_tokens = s.db.refresh_tokens ++ n ∷ [] }
unfolding execute create_refresh_token
insert-ok n s t u h = ground arith

remove-ok :
    (hash : String) (s t : St) (u : Unit {0})
    → execute (delete_refresh_token hash) s ≡ (ok u, t)
    → t.db ≡ record s.db { refresh_tokens = without hash s.db.refresh_tokens }
unfolding execute delete_refresh_token
remove-ok hash s t u h = ground arith

module _ (env : Env) (crypto : Crypto) where
  -- The record of a pair of tokens that is handed out.
  pub record Issued (user : User) (family : String) (generation : ℤ) (ts : Tokens) (old new : Db)
      : Type 0 where
    pub row : RefreshTokenRecord
    pub hashed : row.token_hash ≡ crypto.hash_token ts.refresh
    pub of_user : row.user_id ≡ user.id
    pub of_tenant : row.tenant_id ≡ user.tenant_id
    pub of_family : row.family_id ≡ family
    pub generation_is : row.generation_id ≡ generation
    pub table : new ≡ record old { refresh_tokens = old.refresh_tokens ++ row ∷ [] }

  issue-ok :
      (user : User) (family : String) (generation : ℤ) (s t : St) (ts : Tokens)
      → issue_token_pair env crypto user family generation s ≡ (ok ts, t)
      → Issued user family generation ts s.db t.db
  unfolding issue_token_pair
  issue-ok user family generation s t ts h =
      reads-ok _ s _ (Reads-random_text env) h λ csrf s₁ d₁ _ h₁.
        reads-ok _ s₁ _ (Reads-utc_now env) h₁ λ now s₂ d₂ _ h₂.
          reads-ok _ s₂ _ (Reads-new_uuid env) h₂ λ jti s₃ d₃ _ h₃. lift-ok _ s₃ _ h₃ λ access _ h₄.
            reads-ok _ s₃ _ (Reads-random_text env) h₄ λ raw s₄ d₄ _ h₅.
              bind-ok _ _ s₄ h₅ λ u s₅ written h₆.
                let (same, last) = pure-ok _ s₅ h₆ in
                let n : RefreshTokenRecord = record {
                  token_hash = crypto.hash_token raw;
                  user_id = user.id;
                  tenant_id = user.tenant_id;
                  family_id = family;
                  generation_id = generation;
                  expires_at = add_minutes now (pos 10080);
                  created_at = now;
                } in
                record {
                  row = n;
                  hashed = rw same refl;
                  of_user = refl;
                  of_tenant = refl;
                  of_family = refl;
                  generation_is = refl;
                  table = rw (last, ← (d₄ ∙ d₃ ∙ d₂ ∙ d₁)) (insert-ok n s₄ s₅ u written);
                }

  -- A refresh that succeeds takes the token's record out of the table, and puts in one record: of the
  -- same family, of the next generation, for the token that is handed out.
  pub refresh-ok :
      (raw : String) (user : User) (s t : St) (ts : Tokens)
      → refresh env crypto raw user s ≡ (ok ts, t)
      → (old : RefreshTokenRecord) × (find_refresh_token (crypto.hash_token raw) s.db ≡ some old)
        × Issued user old.family_id
            (next_generation old.generation_id)
            ts
            (record s.db { refresh_tokens = without (crypto.hash_token raw) s.db.refresh_tokens })
            t.db
  unfolding refresh expire rotate
  refresh-ok raw user s t ts h = query_or-ok _ s _ _ h λ old is_old h₁.
      reads-ok _ s _ (Reads-utc_now env) h₁ λ now s₁ d₁ _ h₂.
        elim (Bool-cases (ltb old.expires_at now)) [
          | inl e ↦ bind-ok _ _ s₁ (rw e at h₂) λ u s₂ _ h₃. absurd (raise-ne _ s₂ t ts h₃)
          | inr e ↦ bind-ok _ _ s₁ (rw e at h₂) λ u s₂ removed h₃. (
            old,
            is_old,
            subst
                (λ (db : Db).
                  Issued user old.family_id (next_generation old.generation_id) ts db t.db)
                (remove-ok _ s₁ s₂ u removed
                  ∙ ap
                      (λ (db : Db). record db {
                        refresh_tokens = without (crypto.hash_token raw) db.refresh_tokens;
                      })
                      d₁)
                (issue-ok user _ _ s₂ t ts h₃),
          )
        ]

  -- A refresh token is good for one refresh: where the token that it was exchanged for has another hash,
  -- using it again is refused, and nothing is written.
  pub refresh-once :
      (raw : String) (user user' : User) (s t : St) (ts : Tokens)
      → (crypto.hash_token ts.refresh == crypto.hash_token raw) ≡ false
      → refresh env crypto raw user s ≡ (ok ts, t)
      → refresh env crypto raw user' t ≡ (err unauthorized, t)
  unfolding refresh ◌>>=◌ find_refresh_token
  refresh-once raw user user' s t ts other h =
      let (old, _, issued) = refresh-ok raw user s t ts h in
      let hash = crypto.hash_token raw in
      let gone : find (λ r. r.token_hash == crypto.hash_token raw) t.db.refresh_tokens ≡ none =
        rw issued.table (
          find-end hash issued.row (without hash s.db.refresh_tokens)
            (delete_where-find hash s.db.refresh_tokens) (rw issued.hashed other)) in
      rw gone
