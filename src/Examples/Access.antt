-- ===== src/Examples/Access.antt =====
-- A member who is created, signs in and is deleted; and a request that is let through.
use booking_backend.Prelude.{
  ℕ, ◌≡◌, refl, String, true, none, some, [], ◌∷◌, pos, In, inl, inr, ◌==◌, arith, eq_iff,
  if◌then◌else◌,
}
use booking_backend.Outcome.{Outcome, ok, err, unauthorized}
use booking_backend.Models.{RefreshTokenRecord}
use booking_backend.Models.Accounts.{User}
use booking_backend.Db.{St, ◌>>=◌}
use booking_backend.Db.Accounts.{
  insert_user, find_user_by_username, find_user_by_id, delete_user_rows,
}
use booking_backend.Auth as Service
use booking_backend.Auth.{Claims, Crypto}
use booking_backend.Auth.Guard.{Request, Verifier, granted, auth_user, check_csrf, user_of}
use booking_backend.Auth.Vouched.{IsVouched, auth_user-ok}
use booking_backend.Auth.SignIn.{Passwords, sign_in, renew, respond}
use booking_backend.Handlers.Accounts.{
  Hasher, CreateMemberRequest, create_member, delete_member, hash_password, new_user,
}
use booking_backend.Handlers.Accounts.Access.{create_member-sign_in, delete_member-renew}
use booking_backend.Examples.{utc_env, world, tables}

abbrev plain : Crypto
plain = record {
  issuer = "us";
  encode = λ claims. some claims.csrf_token;
  hash_token = λ t. t;
  timestamp = λ t. t;
}

-- A password is its own hash.
abbrev hasher : Hasher
hasher k password = some password

abbrev passwords : Passwords
passwords = record { is_hash = λ h. true; verify = λ password hash. password == hash }

own_hash :
    (k : ℕ) (password hash : String)
    → hasher k password ≡ some hash
    → (passwords.is_hash hash ≡ true) × (passwords.verify password hash ≡ true)
own_hash k password hash h =
    let same : password ≡ hash = ground arith in (refl, (eq_iff password hash).1 same)

abbrev ben_request : CreateMemberRequest
ben_request = record { username = "ben"; password = "tulip" }

abbrev ben : User
ben = record {
  id = "id";
  tenant_id = "acme";
  username = "ben";
  password_hash = "tulip";
  role = "MEMBER";
  created_at = 0;
}

abbrev joined : Outcome User × St
joined = create_member utc_env hasher "acme" ben_request world

joined_is : joined ≡ (ok ben, joined.1)
unfolding create_member find_user_by_username hash_password new_user insert_user ◌>>=◌
joined_is = refl

create_member-sign_in_example :
    sign_in utc_env plain passwords
      (record { tenant_id = "acme"; username = "ben"; password = "tulip" })
      joined.1
    ≡ (Service.login utc_env plain ben >>= respond ben) joined.1
create_member-sign_in_example =
    create_member-sign_in utc_env plain hasher passwords "acme" ben_request world joined.1 ben
      own_hash joined_is

abbrev boss : User
boss = record ben { id = "boss"; username = "admin" }

abbrev session : RefreshTokenRecord
session = record {
  token_hash = "secret";
  user_id = "id";
  tenant_id = "acme";
  family_id = "family";
  generation_id = pos 1;
  expires_at = 9;
  created_at = 0;
}

abbrev office : St
office = record world {
  db = record tables { users = boss ∷ ben ∷ []; refresh_tokens = session ∷ [] };
}

abbrev dismissed : Outcome (Unit {0}) × St
dismissed = delete_member boss "acme" "id" office

dismissed_is : dismissed ≡ (ok tt, dismissed.1)
unfolding delete_member find_user_by_id delete_user_rows ◌>>=◌
dismissed_is = refl

only_bens :
    (r : RefreshTokenRecord)
    → In r office.db.refresh_tokens
    → (r.token_hash == "secret") ≡ true
    → r.user_id ≡ "id"
only_bens r i e = elim i [ inl same ↦ rw same | inr none_left ↦ absurd none_left ]

delete_member-renew_example :
    renew utc_env plain (record { access_token = none; refresh_token = some "secret" }) dismissed.1
    ≡ (err unauthorized, dismissed.1)
delete_member-renew_example =
    delete_member-renew utc_env plain boss "acme" "id" "secret" none office dismissed.1 tt
      dismissed_is only_bens

abbrev claims : Claims
claims = record {
  iss = "us";
  sub = "id";
  aud = "booking-frontend";
  exp = 9;
  iat = 0;
  jti = "1";
  tenant_id = "acme";
  role = "MEMBER";
  csrf_token = "rose";
}

abbrev verifier : Verifier
verifier = record { key_is_valid = true; decode = λ t. if t == "jwt" then some claims else none }

abbrev request : Request
request = record {
  method = "POST";
  cookies = some (record { access_token = some "jwt"; refresh_token = none });
  csrf_header = some (some "rose");
  tenant_param = some "acme";
}

is_granted : auth_user verifier request 5 ≡ granted (user_of claims "from_jwt" 5)
unfolding auth_user check_csrf
is_granted = refl

auth_user-ok_example : IsVouched verifier request (user_of claims "from_jwt" 5)
auth_user-ok_example = auth_user-ok verifier request 5 (user_of claims "from_jwt" 5) is_granted
