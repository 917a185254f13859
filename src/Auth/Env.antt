-- ===== src/Auth/Env.antt =====
-- What the authentication services take from outside src/: the configuration values that they read
-- (src/config/configuration.ts), bcryptjs, the HMAC and the random source of node's crypto, and
-- @nestjs/jwt. They are fields of one record; `CryptoLaws` states what is documented of them.
use market_place.Base.{ℕ, ◌≡◌, String, Bool, true, Option, some}

pub data OtpProviderKind : Type 0 where
  console akedly : OtpProviderKind

-- the claims of an access token, and those of a refresh token, which also has a `jti`
pub record Claims : Type 0 where
  pub sub : ℕ
  pub phone : String
  pub is_admin : Bool
  pub token_version : ℕ
  pub jti : Option String

pub record Env : Type 0 where
  pub otp_provider : OtpProviderKind
  pub otp_dev_mode : Bool
  pub otp_ttl_minutes : ℕ
  pub otp_signing_secret : String
  pub jwt_access_secret : String
  pub jwt_refresh_secret : String
  pub jwt_access_ttl : String
  pub jwt_refresh_ttl : String
  -- `hash(password, rounds)`; the salt comes from the random draw
  pub bcrypt_hash : String → ℕ → String
  -- `compare(password, hash)`
  pub bcrypt_compare : String → String → Bool
  -- `createHmac('sha256', secret).update(text).digest('hex')`
  pub hmac : String → String → String
  -- `randomBytes(16).toString('hex')` of a draw, and `String(randomInt(lo, hi))`
  pub random_hex : ℕ → String
  pub random_int : ℕ → ℕ → ℕ → String
  -- `signAsync(claims, { secret, expiresIn })` at a time, and `verifyAsync(token, { secret })`
  pub jwt_sign : String → String → ℕ → Claims → String
  pub jwt_verify : String → ℕ → String → Option Claims

pub record CryptoLaws (env : Env) : Type 0 where
  -- a password matches its own hash, whatever the salt
  pub compare-hash : (p : String) (salt : ℕ) → env.bcrypt_compare p (env.bcrypt_hash p salt) ≡ true
  -- what was signed with a secret verifies with it at the time of signing
  pub verify-sign :
      (secret ttl : String) (t : ℕ) (c : Claims)
      → env.jwt_verify secret t (env.jwt_sign secret ttl t c) ≡ some c
  -- a token carries its claims: they are the same whenever it verifies
  pub verify_stable :
      (secret token : String) (t u : ℕ) (c d : Claims)
      → env.jwt_verify secret t token ≡ some c
      → env.jwt_verify secret u token ≡ some d
      → c ≡ d
