-- ===== src/Config/Cors.antt =====
-- `parseCorsOrigins` of src/config/configuration.ts and the policies of
-- src/common/cors/cors-policy.ts. The URL parser of the platform is a parameter.
use market_place.Base.{
  String, Bool, true, false, Option, none, some, List, [], ◌∷◌, ◌&&◌, ◌||◌, not, str_eq, any,
  find_all, if◌then◌else◌, get_or_else,
}
use market_place.Base.Text.{join_comma, trim, is_empty, ends_with}
use Prim.Native.Char.{code}
use Prim.Native.String.{◌++◌}
use market_place.Base.{◌==◌}

-- a value, or the message of the error that stops the start
pub data Loaded {ℓ} (A : Type ℓ) : Type ℓ where
  loaded : A → Loaded A
  failed : String → Loaded A

-- the properties of a `URL` that are read
pub record ParsedUrl : Type 0 where
  pub protocol : String
  pub origin : String

-- `new URL(text)`, with `none` where it throws
abbrev pub UrlParser : Type 0
UrlParser = String → Option ParsedUrl

-- the three settings that `parseCorsOrigins` gives, CorsPolicy
pub record CorsPolicy : Type 0 where
  pub cors_origins : List String
  pub cors_allow_any_origin : Bool
  pub cors_credentials : Bool

-- s.split(','); `part` is what was read since the last comma
unfoldable pub split_comma : String → List String
split_comma String.[] = "" ∷ []
split_comma (String.◌∷◌ c s) =
    let rest = split_comma s in if code c == b',' then "" ∷ rest else add_first c rest
  where
    add_first : Prim.Native.Char.Char → List String → List String
    add_first c [] = String.◌∷◌ c "" ∷ []
    add_first c (part ∷ parts) = String.◌∷◌ c part ∷ parts

unfoldable pub trim_all : List String → List String
trim_all [] = []
trim_all (s ∷ ss) = trim s ∷ trim_all ss

-- `.split(',').map(trim).filter(Boolean)`
unfoldable pub listed_values : Option String → List String
listed_values value =
    find_all (λ s. not (is_empty s)) (trim_all (split_comma (get_or_else value "")))

abbrev pub is_star : String → Bool
is_star origin = str_eq origin "*"

abbrev origin_is : String → Option ParsedUrl → Bool
origin_is origin none = false
origin_is origin (some parsed) =
    (str_eq parsed.protocol "http:" || str_eq parsed.protocol "https:")
    && str_eq parsed.origin origin

unfoldable pub is_valid_cors_origin : UrlParser → String → Bool
is_valid_cors_origin parse_url origin =
    if is_star origin
    then true
    else if ends_with "/" origin
    then false
    else origin_is origin (parse_url origin)

abbrev pub is_production : String → Bool
is_production node_env = str_eq node_env "production"

abbrev pub is_none_listed : List String → Bool
is_none_listed [] = true
is_none_listed (s ∷ ss) = false

-- DEFAULT_DEV_CORS_ORIGINS
abbrev default_dev_cors_origins : List String
default_dev_cors_origins = "http://localhost:800" ∷ "http://localhost:5174" ∷ []

-- `parseCorsOrigins` on the origins that are listed
unfoldable pub choose_policy : UrlParser → String → List String → Loaded CorsPolicy
choose_policy parse_url node_env origins =
    if is_production node_env && is_none_listed origins
    then failed "CORS_ORIGINS is required in production"
    else if any is_star origins && any (λ o. not (is_star o)) origins
    then failed "CORS_ORIGINS cannot mix \"*\" with specific origins"
    else if is_production node_env && any is_star origins
    then failed "CORS_ORIGINS wildcard \"*\" is not allowed in production"
    else if any (λ o. not (is_valid_cors_origin parse_url o)) origins
    then failed (
        "CORS_ORIGINS contains invalid origin(s): "
        ++ join_comma (find_all (λ o. not (is_valid_cors_origin parse_url o)) origins))
    else if is_none_listed origins && not (is_production node_env)
    then loaded (record {
      cors_origins = default_dev_cors_origins;
      cors_allow_any_origin = false;
      cors_credentials = true;
    })
    else if any is_star origins
    then loaded
        (record { cors_origins = "*" ∷ []; cors_allow_any_origin = true; cors_credentials = false })
    else loaded
        (record { cors_origins = origins; cors_allow_any_origin = false; cors_credentials = true })

-- `cors_value` is CORS_ORIGINS of the environment
unfoldable pub parse_cors_origins : UrlParser → Option String → String → Loaded CorsPolicy
parse_cors_origins parse_url cors_value node_env =
    choose_policy parse_url node_env (listed_values cors_value)

-- `true | string[]`
pub data Origin : Type 0 where
  any_origin : Origin
  origins : List String → Origin

-- HttpCorsOptions, less the fixed list of methods, and SocketCorsOptions
pub record CorsOptions : Type 0 where
  pub origin : Origin
  pub credentials : Bool

unfoldable pub build_http_cors_options : CorsPolicy → CorsOptions
build_http_cors_options policy = record {
  origin = if policy.cors_allow_any_origin then any_origin else origins policy.cors_origins;
  credentials = policy.cors_credentials;
}

unfoldable pub build_socket_cors_options : CorsPolicy → CorsOptions
build_socket_cors_options policy = record {
  origin = if policy.cors_allow_any_origin then any_origin else origins policy.cors_origins;
  credentials = policy.cors_credentials;
}
