-- ===== src/Logging/Logger.antt =====
-- src/common/logging/app-logger.service.ts and `intercept` of
-- src/common/interceptors/logging.interceptor.ts: what is written to the log. The time stamp, the
-- correlation id and the duration, which the clock and the request's context give, are left out, and
-- `JSON.stringify` of the record is a parameter of whoever prints it.
use market_place.Base.{ℕ, String, Bool, Option, none, some, not, str_eq, if◌then◌else◌, leb}
use market_place.Base.Json.{Json, null, text, object, end, field}
use market_place.Logging.Sanitize.{sanitize_for_log}
use Prim.Native.String.{◌++◌}

-- AppLogLevel
pub data AppLogLevel : Type 0 where
  error warn log debug verbose : AppLogLevel

-- the settings that the logger reads
pub record LogConfig : Type 0 where
  pub node_env : String
  pub log_level : String
  pub log_http_body : Bool

-- AppLogInput
pub record AppLogInput : Type 0 where
  pub service : String
  pub protocol : String
  pub route_or_event : String
  pub message : String
  pub request_id : Option String
  pub user_id : Option ℕ
  pub status_code : Option ℕ
  pub meta : Option Json

-- AppLogRecord, with the method of the framework's logger that prints it
pub record AppLogRecord : Type 0 where
  pub printed_by : AppLogLevel
  pub level : AppLogLevel
  pub env : String
  pub input : AppLogInput

-- the place in `order`
abbrev order_index : AppLogLevel → ℕ
order_index error = 0
order_index warn = 1
order_index log = 2
order_index debug = 3
order_index verbose = 4

-- an unknown level counts as `log`
abbrev configured_level : String → AppLogLevel
configured_level s =
    if str_eq s "error"
    then error
    else if str_eq s "warn"
    then warn
    else if str_eq s "debug"
    then debug
    else if str_eq s "verbose"
    then verbose
    else log

unfoldable pub is_level_enabled : AppLogLevel → String → Bool
is_level_enabled level configured =
    leb (order_index level) (order_index (configured_level configured))

abbrev printer : AppLogLevel → AppLogLevel
printer error = error
printer warn = warn
printer debug = debug
printer verbose = debug
printer log = log

abbrev sanitized_meta : Option Json → Option Json
sanitized_meta none = none
sanitized_meta (some m) = some (sanitize_for_log m)

-- `write`; `context` is the id of the request at hand
unfoldable pub write : LogConfig → Option String → AppLogLevel → AppLogInput → Option AppLogRecord
write config context level input =
    if not (is_level_enabled level config.log_level)
    then none
    else some (record {
      printed_by = printer level;
      level = level;
      env = config.node_env;
      input = record input {
        request_id = elim input.request_id as (λ _. Option String) [
          | none ↦ context
          | some id ↦ some id
        ];
        meta = sanitized_meta input.meta;
      };
    })

-- what the interceptor reads of a request
pub record LoggedRequest : Type 0 where
  pub method : String
  pub original_url : String
  pub ip : String
  pub user : Option ℕ
  pub body : Json

-- the record of `HTTP request started`
unfoldable pub request_started : LogConfig → Option String → LoggedRequest → AppLogInput
request_started config context request = record {
  service = "http";
  protocol = "http";
  route_or_event = request.method ++ (" " ++ request.original_url);
  message = "HTTP request started";
  request_id = context;
  user_id = request.user;
  status_code = none;
  meta = some (
      object (
        field "method" (text request.method) (
          field "path" (text request.original_url) (
            field "clientIp" (text request.ip) (
              field "body" (if config.log_http_body then sanitize_for_log request.body else null)
                end)))));
}

-- the line that a request leaves in the log
unfoldable pub log_request : LogConfig → Option String → LoggedRequest → Option AppLogRecord
log_request config context request =
    write config context log (request_started config context request)
