-- ===== src/Examples/Tokens.antt =====
-- A refresh token that is exchanged.
use booking_backend.Prelude.{◌≡◌, refl, some, [], ◌∷◌, pos}
use booking_backend.Outcome.{Outcome, ok, err, unauthorized}
use booking_backend.Models.{RefreshTokenRecord}
use booking_backend.Db.{St, ◌>>=◌}
use booking_backend.Models.Accounts.{User}
use booking_backend.Auth.{
  Tokens, Crypto, create_refresh_token, find_refresh_token, delete_refresh_token, next_generation,
  issue_token_pair, rotate, refresh,
}
use booking_backend.Auth.Rotation.{Issued, without, refresh-ok, refresh-once}
use booking_backend.Examples.{utc_env, world}

-- Every token is its own hash.
abbrev plain : Crypto
plain = record {
  issuer = "us";
  encode = λ claims. some claims.csrf_token;
  hash_token = λ t. t;
  timestamp = λ t. t;
}

abbrev user : User
user = record {
  id = "user";
  tenant_id = "acme";
  username = "ann";
  password_hash = "";
  role = "MEMBER";
  created_at = 0;
}

abbrev first : RefreshTokenRecord
first = record {
  token_hash = "old";
  user_id = "user";
  tenant_id = "acme";
  family_id = "family";
  generation_id = pos 1;
  expires_at = 9;
  created_at = 0;
}

abbrev signed_in : St
signed_in = record world { db = record world.db { refresh_tokens = first ∷ [] } }

abbrev exchanged : Outcome Tokens × St
exchanged = refresh utc_env plain "old" user signed_in

abbrev pair : Tokens
pair = record { access = "id"; refresh = "id"; csrf = "id" }

exchanged_is : exchanged ≡ (ok pair, exchanged.1)
unfolding refresh rotate issue_token_pair find_refresh_token delete_refresh_token
    create_refresh_token next_generation ◌>>=◌
exchanged_is = refl

refresh-ok_example :
    (old : RefreshTokenRecord) × (find_refresh_token "old" signed_in.db ≡ some old)
    × Issued utc_env plain user old.family_id
        (next_generation old.generation_id)
        pair
        (record signed_in.db { refresh_tokens = without "old" signed_in.db.refresh_tokens })
        exchanged.1.db
refresh-ok_example = refresh-ok utc_env plain "old" user signed_in exchanged.1 pair exchanged_is

refresh-once_example :
    refresh utc_env plain "old" user exchanged.1 ≡ (err unauthorized, exchanged.1)
refresh-once_example =
    refresh-once utc_env plain "old" user user signed_in exchanged.1 pair refl exchanged_is
