-- ===== src/Auth/Vouched.antt =====
-- What stands behind a user that the extractor lets through (api/extractors/auth.rs).
use booking_backend.Prelude.{
  String, true, some, ◌==◌, ◌≡◌, ap, ◌⊎◌, inl, inr, arith, Bool-cases, Option-cases, eq_iff,
}
use booking_backend.Models.{Instant}
use booking_backend.Models.Accounts.{User}
use booking_backend.Auth.{Claims}
use booking_backend.Auth.Guard.{
  Extracted, granted, rejected, ◌>>◌, Cookies, Request, Verifier, is_safe, check_csrf, auth_user,
}

check_csrf-ok :
    (request : Request) (claims : Claims) (u : Unit {0})
    → check_csrf request claims ≡ granted u
    → (is_safe request.method ≡ true) ⊎ (request.csrf_header ≡ some (some claims.csrf_token))
unfolding check_csrf
check_csrf-ok request claims u h = elim (Bool-cases (is_safe request.method)) [
  | inl e ↦ inl e
  | inr e ↦ elim (Option-cases request.csrf_header) [
    | inl absent ↦ absurd (let h' = rw (e, absent) at h in ground arith)
    | inr (header, is_header) ↦ elim (Option-cases header) [
      | inl garbled ↦ absurd (let h' = rw (e, is_header, garbled) at h in ground arith)
      | inr (value, is_value) ↦ elim (Bool-cases (value == claims.csrf_token)) [
        | inl same ↦ inr (rw (is_header, is_value, (eq_iff value claims.csrf_token).0 same))
        | inr off ↦ absurd (let h' = rw (e, is_header, is_value, off) at h in ground arith)
      ]
    ]
  ]
]

granted_after :
    (m : Extracted (Unit {0})) (a b : User)
    → (m >> granted a) ≡ granted b
    → (m ≡ granted tt) × (b ≡ a)
granted_after (granted u) a b h = ground arith
granted_after (rejected n) a b h = absurd (ground arith)

-- What stands behind a user: a token that the key accepts, whose claims the user has; and, unless the method
-- is safe, the secret of the token in the header.
pub record IsVouched (verifier : Verifier) (request : Request) (user : User) : Type 0 where
  pub cookies : Cookies
  pub token : String
  pub claims : Claims
  pub has_cookies : request.cookies ≡ some cookies
  pub has_token : cookies.access_token ≡ some token
  pub accepted : verifier.decode token ≡ some claims
  pub id : user.id ≡ claims.sub
  pub tenant : user.tenant_id ≡ claims.tenant_id
  pub role : user.role ≡ claims.role
  pub same_site :
      (is_safe request.method ≡ true) ⊎ (request.csrf_header ≡ some (some claims.csrf_token))

-- A request is let through as a user only if it has an access token that the key accepts. The user, the
-- tenant and the role are those of the token, and a request whose method is not GET, HEAD or OPTIONS
-- carries the secret of the token in its header as well: the cookie alone is not enough.
pub auth_user-ok :
    (verifier : Verifier) (request : Request) (now : Instant) (user : User)
    → auth_user verifier request now ≡ granted user
    → IsVouched verifier request user
unfolding auth_user check_csrf
auth_user-ok verifier request now user h = elim (Option-cases request.cookies) [
  | inl e ↦ absurd (let h' = rw e at h in ground arith)
  | inr (cookies, e) ↦ elim (Option-cases cookies.access_token) [
    | inl e₁ ↦ absurd (let h' = rw (e, e₁) at h in ground arith)
    | inr (token, e₁) ↦ elim (Bool-cases verifier.key_is_valid) [
      | inr e₂ ↦ absurd (let h' = rw (e, e₁, e₂) at h in ground arith)
      | inl e₂ ↦ elim (Option-cases (verifier.decode token)) [
        | inl e₃ ↦ absurd (let h' = rw (e, e₁, e₂, e₃) at h in ground arith)
        | inr (claims, e₃) ↦
            let (checked, is_user) =
              granted_after (check_csrf request claims) _ user (rw (e, e₁, e₂, e₃) at h) in
            record {
              cookies = cookies;
              token = token;
              claims = claims;
              has_cookies = e;
              has_token = e₁;
              accepted = e₃;
              id = ap (λ (x : User). x.id) is_user;
              tenant = ap (λ (x : User). x.tenant_id) is_user;
              role = ap (λ (x : User). x.role) is_user;
              same_site = check_csrf-ok request claims tt checked;
            }
      ]
    ]
  ]
]
