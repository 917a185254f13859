-- ===== src/Auth/Tokens.antt =====
-- Token issue in src/auth/auth.service.ts: `parseTtlSeconds` and `generateTokens`, and the user that
-- the answers show (src/common/mappers/app-user.mapper.ts).
pub mod Frame
use Prim.Native.Char.{Char, code}
use Prim.Native.String.{[] as empty, ◌∷◌ as text_cons}
use market_place.Base.{
  ℕ, ◌+◌, ◌*◌, String, Bool, Option, none, some, str_eq, if◌then◌else◌, is_some,
}
use market_place.Base.Decimal.{is_digit, parse_digits}
use market_place.Store.{
  Action, pure, gets, draw, ◌>>=◌, ◌>>◌, User, UserStatus, active, paused, banned,
}
use market_place.Auth.Env.{Env, Claims}
use market_place.Auth.StateStore.{save_refresh_token_jti}

-- REFRESH_TTL_FALLBACK_SECONDS of constants.ts, 30 days
abbrev pub refresh_ttl_fallback_seconds : ℕ
refresh_ttl_fallback_seconds = 2592000

-- `units[match[2]]`
unfoldable pub unit_seconds : String → Option ℕ
unit_seconds u =
    if str_eq u "s"
    then some 1
    else if str_eq u "m"
    then some 60
    else if str_eq u "h"
    then some 3600
    else if str_eq u "d"
    then some 86400
    else none

-- what `/^(\d+)([smhd])$/` matches: some digits, then one unit
unfoldable pub match_ttl : String → Option (ℕ × ℕ)
match_ttl String.[] = none
match_ttl (String.◌∷◌ c s) =
    if is_digit c
    then (let (value, unit) = parse_digits 0 (String.◌∷◌ c s) in
        elim (unit_seconds unit) [ none ↦ none | some seconds ↦ some (value, seconds) ])
    else none

unfoldable pub parse_ttl_seconds : String → ℕ
parse_ttl_seconds ttl = elim (match_ttl ttl) [
  | none ↦ refresh_ttl_fallback_seconds
  | some (value, seconds) ↦ value * seconds
]

pub record TokenPair : Type 0 where
  pub access_token : String
  pub refresh_token : String

-- the claims of `basePayload`, and of `refreshPayload` when there is a `jti`
abbrev pub claims : ℕ → String → Bool → ℕ → Option String → Claims
claims user_id phone is_admin token_version jti = record {
  sub = user_id;
  phone = phone;
  is_admin = is_admin;
  token_version = token_version;
  jti = jti;
}

module _ (env : Env) where
  -- the two signed tokens of `generateTokens`
  abbrev pub token_pair : ℕ → ℕ → String → Bool → ℕ → String → TokenPair
  token_pair now user_id phone is_admin version jti = record {
    access_token =
        env.jwt_sign env.jwt_access_secret env.jwt_access_ttl now
          (claims user_id phone is_admin version none);
    refresh_token =
        env.jwt_sign env.jwt_refresh_secret env.jwt_refresh_ttl now
          (claims user_id phone is_admin version (some jti));
  }

  unfoldable pub generate_tokens : ℕ → String → Bool → ℕ → Action TokenPair
  generate_tokens user_id phone is_admin token_version = do
    jti_draw ← draw
    let jti = env.random_hex jti_draw
    now ← gets (λ w. w.now)
    save_refresh_token_jti jti user_id (parse_ttl_seconds env.jwt_refresh_ttl)
    pure (token_pair now user_id phone is_admin token_version jti)

-- AppUser: `profileState` is the account's status
pub record AppUser : Type 0 where
  pub id : ℕ
  pub name : String
  pub phone : String
  pub profile_state : UserStatus

unfoldable pub map_to_app_user : User → AppUser
map_to_app_user u = record { id = u.id; name = u.name; phone = u.phone; profile_state = u.status }
