-- ===== src/Examples/PlatformTests.antt =====
-- The properties of files, logs, answers, settings and expansion at sample values.
use market_place.Base.{
  ◌≡◌, refl, arith, true, false, none, some, [], ◌∷◌, String, str_eq, if◌then◌else◌, find_all, any,
}
use market_place.Base.Text.{to_lower, trim, trim_end, trim_start, ends_with, starts_with}
use market_place.Base.Decimal.{digits}
use market_place.Base.DecimalText.{to_positive_int-digits}
use market_place.Base.JsValue.{JsValue, to_positive_int}
use market_place.Base.Json.{Json, number, text, array, object, nil, cons, end, field}
use market_place.Relations.Expand.{expand, transform}
use market_place.Relations.Expand.Direct.{expand-direct, whole_tables}
use market_place.Logging.Sanitize.{sanitize_for_log, is_sensitive, drop_separators}
use market_place.Logging.Bounds.{IsBounded, sanitize_for_log-IsBounded}
use market_place.Logging.Logger.{LogConfig, LoggedRequest, log_request}
use market_place.Logging.Redaction.{erase, log_request-redacts}
use market_place.Http.Envelope.{
  is_already_enveloped, intercept, get_field, Exception, http_exception, plain, catch_exception,
}
use market_place.Http.Answers.{answers-are_envelopes}
use market_place.Config.Cors.{
  UrlParser, CorsPolicy, parse_cors_origins, choose_policy, listed_values, trim_all, split_comma,
  is_valid_cors_origin,
}
use market_place.Config.Startup.{
  Environment, Secrets, build_config, load_config, required, demand, ◌>>=◌,
}
use market_place.Config.Ready.{IsReady, load_config-IsReady}
use market_place.Store.{ok, err, http, bad_request, product_image, FileStatus, uploaded, product}
use market_place.Auth.Strategy.{AuthUser}
use market_place.Products.Images.{check_file}
use market_place.Files.Storage.{StorageEnv, sign_upload}
use market_place.Files.Uploads.{
  CreateUploadIntentDto, FileSummary, create_upload_intent, mark_uploaded, insert_file,
  build_object_key, drop_extension, safe_filename, has_dot, with_upload,
}
use market_place.Files.Uploads.Completion.{create_upload_intent-completes, intended}
use market_place.Examples.Fixture.{shop, number_driver}

to_positive_int-digits_example : to_positive_int (JsValue.text (digits 1203)) ≡ some 1203
to_positive_int-digits_example = to_positive_int-digits 1203 (omega arith) (omega arith)

-- a favorite of Bob's with its product
abbrev favorite : Json
favorite = object (
    field "favorite" (object (field "user_id" (text "2") (field "product_id" (number 20) end))) end)

expand-direct_example :
    expand "market" favorite shop.db ≡ transform (whole_tables "market" shop.db) favorite
expand-direct_example = expand-direct "market" favorite shop.db

-- the body of a login
abbrev login_body : String → Json
login_body password = object (field "phone" (text "+201") (field "Pass_word" (text password) end))

abbrev log_config : LogConfig
log_config = record { node_env = "production"; log_level = "debug"; log_http_body = true }

abbrev login_request : String → LoggedRequest
login_request password = record {
  method = "POST";
  original_url = "/auth/login";
  ip = "127.0.0.1";
  user = none;
  body = login_body password;
}

log_request-redacts_example :
    log_request log_config
      (some "r-1")
      (record (login_request "spring") { body = login_body "autumn" })
    ≡ log_request log_config (some "r-1") (login_request "spring")
unfolding erase is_sensitive drop_separators to_lower
log_request-redacts_example =
    log_request-redacts log_config (some "r-1") (login_request "spring") (login_body "autumn") refl

sanitize_for_log-IsBounded_example :
    IsBounded 4 (sanitize_for_log (array (cons (login_body "spring") nil)))
sanitize_for_log-IsBounded_example =
    sanitize_for_log-IsBounded (array (cons (login_body "spring") nil))

abbrev not_found_exception : Exception
not_found_exception = http_exception 404 (plain "User not found")

answers-are_envelopes_example :
    (is_already_enveloped (intercept true (some 200) favorite) ≡ true)
    × ((intercept true none (intercept true (some 200) favorite)
          ≡ intercept true (some 200) favorite)
        × ((intercept true none (catch_exception "2026-01-01" "/users/9" not_found_exception).1
              ≡ (catch_exception "2026-01-01" "/users/9" not_found_exception).1)
            × (get_field "statusCode"
                  (catch_exception "2026-01-01" "/users/9" not_found_exception).1
                ≡ some (number 404))))
unfolding catch_exception
answers-are_envelopes_example =
    answers-are_envelopes (some 200) none favorite "2026-01-01" "/users/9" not_found_exception

-- a parser that takes every text for an https URL of that origin
abbrev plain_parser : UrlParser
plain_parser s = some (record { protocol = "https:"; origin = s })

-- every variable is set to the same text, but the few that are not free
abbrev sample_environment : Environment
sample_environment name =
    if str_eq name "NODE_ENV"
    then some "production"
    else if str_eq name "OTP_PROVIDER"
    then some "Console"
    else if str_eq name "CORS_ORIGINS"
    then some "https://a.example, https://b.example"
    else if str_eq name "STORAGE_PROVIDER"
    then none
    else some "value"

abbrev sample_secrets : Secrets
sample_secrets = record {
  database_url = "value";
  jwt_access_secret = "value";
  jwt_refresh_secret = "value";
  storage_signing_secret = "value";
  otp_signing_secret = "value";
  cloudinary_cloud_name = "value";
  cloudinary_api_key = "value";
  cloudinary_api_secret = "value";
}

abbrev sample_policy : CorsPolicy
sample_policy = record {
  cors_origins = "https://a.example" ∷ "https://b.example" ∷ [];
  cors_allow_any_origin = false;
  cors_credentials = true;
}

load_config-IsReady_example : IsReady (build_config sample_environment sample_secrets sample_policy)
unfolding load_config ◌>>=◌ required demand to_lower parse_cors_origins choose_policy listed_values
    find_all trim_all split_comma trim trim_end trim_start any is_valid_cors_origin ends_with
load_config-IsReady_example =
    load_config-IsReady plain_parser sample_environment
      (build_config sample_environment sample_secrets sample_policy) refl

abbrev storage_env : StorageEnv
storage_env = record {
  cloudinary_cloud_name = "market";
  cloudinary_api_key = "key";
  cloudinary_api_secret = "secret";
  storage_upload_ttl_seconds = 600;
  sha1_hex = λ s. s;
  iso_string = digits;
  random_hex = λ n. "00c0ffee";
}

abbrev ann_user : AuthUser
ann_user = record { sub = 1; phone = "+201"; is_admin = false; token_version = 0 }

abbrev photo_dto : CreateUploadIntentDto
photo_dto = record {
  owner_type = product;
  owner_id = some 20;
  purpose = product_image;
  filename = "my photo.jpg";
  mime_type = "image/jpeg";
}

abbrev photo_summary : FileSummary
photo_summary = record {
  id = 70;
  object_key = "product/20/100000-00c0ffee-my_photo";
  status = FileStatus.pending;
}

create_upload_intent-completes_example :
    ((check_file number_driver 1 70 (create_upload_intent storage_env ann_user photo_dto shop).1).0
      ≡ err (http bad_request "File 70 must be uploaded before product association"))
    × (((mark_uploaded number_driver ann_user 70 none
            (create_upload_intent storage_env ann_user photo_dto shop).1).0
          ≡ ok (record {
            id = 70;
            object_key = "product/20/100000-00c0ffee-my_photo";
            status = uploaded;
          }))
        × ((check_file number_driver 1 70
              (mark_uploaded number_driver ann_user 70 none
                (create_upload_intent storage_env ann_user photo_dto shop).1).1).0
            ≡ ok (
                with_upload
                  (create_upload_intent storage_env ann_user photo_dto shop).1.now
                  none
                  (intended ann_user photo_dto shop photo_summary.object_key))))
unfolding create_upload_intent insert_file any build_object_key digits starts_with drop_extension
    safe_filename has_dot
create_upload_intent-completes_example =
    create_upload_intent-completes storage_env number_driver ann_user photo_dto shop photo_summary
      (sign_upload storage_env photo_summary.object_key 600 100) none (omega arith) refl refl
