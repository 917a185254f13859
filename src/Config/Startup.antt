-- ===== src/Config/Startup.antt =====
-- The loader of src/config/configuration.ts: what it demands of the environment, and the settings
-- that are texts, flags or lists. The numbers, for which `Number` reads the texts, are left out.
use market_place.Base.{
  String, Bool, false, Option, none, some, List, ◌||◌, not, str_eq, if◌then◌else◌, get_or_else,
}
use market_place.Base.Text.{is_empty, to_lower}
use market_place.Config.Cors.{
  Loaded, loaded, failed, UrlParser, CorsPolicy, parse_cors_origins, listed_values,
}

-- process.env
abbrev pub Environment : Type 0
Environment = String → Option String

-- AppConfig
pub record AppConfig : Type 0 where
  pub node_env : String
  pub cors : CorsPolicy
  pub database_url : String
  pub database_ssl : Bool
  pub jwt_access_secret : String
  pub jwt_refresh_secret : String
  pub jwt_access_ttl : String
  pub jwt_refresh_ttl : String
  pub admin_phone : Option String
  pub admin_password : Option String
  pub admin_phones : List String
  pub otp_signing_secret : String
  pub otp_provider : String
  pub otp_dev_mode : Bool
  pub akedly_api_key : Option String
  pub akedly_pipeline_id : Option String
  pub akedly_base_url : String
  pub storage_provider : String
  pub storage_bucket : String
  pub storage_public_base_url : String
  pub storage_signing_secret : String
  pub cloudinary_cloud_name : String
  pub cloudinary_api_key : String
  pub cloudinary_api_secret : String
  pub throttle_dev_bypass : Bool
  pub log_level : String
  pub log_pretty : Bool
  pub log_http_body : Bool
  pub log_ws_payload : Bool
  pub redis_url : Option String

-- whether the value is there and not empty
abbrev pub is_set : Option String → Bool
is_set none = false
is_set (some s) = not (is_empty s)

abbrev flag_of : Option String → Bool → Bool
flag_of none fallback = fallback
flag_of (some s) fallback = if is_empty s then fallback else str_eq (to_lower s) "true"

unfoldable pub parse_boolean : Option String → Bool → Bool
parse_boolean value fallback = flag_of value fallback

infixl 5 ◌>>=◌
unfoldable pub ◌>>=◌ {ℓ κ} : {A : Type ℓ} {B : Type κ} → Loaded A → (A → Loaded B) → Loaded B
loaded a >>= f = f a
failed message >>= f = failed message

-- `if (!value) throw new Error(message)`
unfoldable pub required : Option String → String → Loaded String
required none message = failed message
required (some s) message = if is_empty s then failed message else loaded s

-- `if (!ok) throw new Error(message)`
unfoldable pub demand : Bool → String → Loaded (Unit {0})
demand ok message = if ok then loaded tt else failed message

-- the values that must be there
pub record Secrets : Type 0 where
  pub database_url : String
  pub jwt_access_secret : String
  pub jwt_refresh_secret : String
  pub storage_signing_secret : String
  pub otp_signing_secret : String
  pub cloudinary_cloud_name : String
  pub cloudinary_api_key : String
  pub cloudinary_api_secret : String

abbrev pub node_env_of : Environment → String
node_env_of env = get_or_else (env "NODE_ENV") "development"

abbrev pub otp_provider_of : Environment → String
otp_provider_of env = to_lower (get_or_else (env "OTP_PROVIDER") "console")

abbrev storage_provider_of : Environment → String
storage_provider_of env = to_lower (get_or_else (env "STORAGE_PROVIDER") "cloudinary")

-- the returned object
abbrev pub build_config : Environment → Secrets → CorsPolicy → AppConfig
build_config env secrets cors = record {
  node_env = node_env_of env;
  cors = cors;
  database_url = secrets.database_url;
  database_ssl = parse_boolean (env "DATABASE_SSL") false;
  jwt_access_secret = secrets.jwt_access_secret;
  jwt_refresh_secret = secrets.jwt_refresh_secret;
  jwt_access_ttl = get_or_else (env "JWT_ACCESS_TTL") "15m";
  jwt_refresh_ttl = get_or_else (env "JWT_REFRESH_TTL") "30d";
  admin_phone = env "ADMIN_PHONE";
  admin_password = env "ADMIN_PASSWORD";
  admin_phones = listed_values (env "ADMIN_PHONES");
  otp_signing_secret = secrets.otp_signing_secret;
  otp_provider = otp_provider_of env;
  otp_dev_mode = parse_boolean (env "OTP_DEV_MODE") false;
  akedly_api_key = env "AKEDLY_API_KEY";
  akedly_pipeline_id = env "AKEDLY_PIPELINE_ID";
  akedly_base_url = get_or_else (env "AKEDLY_BASE_URL") "https://api.akedly.io";
  storage_provider = storage_provider_of env;
  storage_bucket = get_or_else (env "STORAGE_BUCKET") "market-media";
  storage_public_base_url = get_or_else (env "STORAGE_PUBLIC_BASE_URL") "https://cdn.example.com";
  storage_signing_secret = secrets.storage_signing_secret;
  cloudinary_cloud_name = secrets.cloudinary_cloud_name;
  cloudinary_api_key = secrets.cloudinary_api_key;
  cloudinary_api_secret = secrets.cloudinary_api_secret;
  throttle_dev_bypass = parse_boolean (env "THROTTLE_DEV_BYPASS") false;
  log_level = get_or_else (env "LOG_LEVEL") "log";
  log_pretty = parse_boolean (env "LOG_PRETTY") false;
  log_http_body = parse_boolean (env "LOG_HTTP_BODY") false;
  log_ws_payload = parse_boolean (env "LOG_WS_PAYLOAD") false;
  redis_url = env "REDIS_URL";
}

unfoldable pub load_config : UrlParser → Environment → Loaded AppConfig
load_config parse_url env = do
  database_url ← required (env "DATABASE_URL") "DATABASE_URL is required"
  jwt_access_secret ← required (env "JWT_ACCESS_SECRET") "JWT_ACCESS_SECRET is required"
  jwt_refresh_secret ← required (env "JWT_REFRESH_SECRET") "JWT_REFRESH_SECRET is required"
  storage_signing_secret ←
      required (env "STORAGE_SIGNING_SECRET") "STORAGE_SIGNING_SECRET is required"
  otp_signing_secret ← required (env "OTP_SIGNING_SECRET") "OTP_SIGNING_SECRET is required"
  _ ←
      demand (str_eq (otp_provider_of env) "console" || str_eq (otp_provider_of env) "akedly")
        "OTP_PROVIDER must be either \"console\" or \"akedly\""
  _ ←
      demand (str_eq (storage_provider_of env) "cloudinary")
        "STORAGE_PROVIDER currently supports only \"cloudinary\""
  _ ←
      demand (not (str_eq (otp_provider_of env) "akedly") || is_set (env "AKEDLY_API_KEY"))
        "AKEDLY_API_KEY is required when OTP_PROVIDER=akedly"
  _ ←
      demand (not (str_eq (otp_provider_of env) "akedly") || is_set (env "AKEDLY_PIPELINE_ID"))
        "AKEDLY_PIPELINE_ID is required when OTP_PROVIDER=akedly"
  cloudinary_cloud_name ←
      required (env "CLOUDINARY_CLOUD_NAME")
        "CLOUDINARY_CLOUD_NAME is required when STORAGE_PROVIDER=cloudinary"
  cloudinary_api_key ←
      required (env "CLOUDINARY_API_KEY")
        "CLOUDINARY_API_KEY is required when STORAGE_PROVIDER=cloudinary"
  cloudinary_api_secret ←
      required (env "CLOUDINARY_API_SECRET")
        "CLOUDINARY_API_SECRET is required when STORAGE_PROVIDER=cloudinary"
  cors ← parse_cors_origins parse_url (env "CORS_ORIGINS") (node_env_of env)
  loaded (
      build_config env
        (record {
          database_url = database_url;
          jwt_access_secret = jwt_access_secret;
          jwt_refresh_secret = jwt_refresh_secret;
          storage_signing_secret = storage_signing_secret;
          otp_signing_secret = otp_signing_secret;
          cloudinary_cloud_name = cloudinary_cloud_name;
          cloudinary_api_key = cloudinary_api_key;
          cloudinary_api_secret = cloudinary_api_secret;
        })
        cors)
