-- ===== src/Http/Envelope.antt =====
-- src/common/interceptors/http-response-envelope.interceptor.ts,
-- src/common/interceptors/fk-expansion.interceptor.ts and `catch` of
-- src/common/filters/http-exception.filter.ts. The log line of the filter is left out.
use market_place.Base.{
  ℕ, String, Bool, true, false, Option, none, some, List, ◌&&◌, not, get_or_else, if◌then◌else◌,
}
use market_place.Base.Json.{
  Json, null, boolean, number, other_number, text, object, end, field, has_key, get_key, set_key,
}
use market_place.Base.Text.{join_comma}
use market_place.Store.{Db}
use market_place.Relations.Expand.{expand}

-- `o[k]` of an answer
abbrev pub get_field : String → Json → Option Json
get_field k (object fs) = get_key k fs
get_field k _ = none

abbrev is_boolean : Option Json → Bool
is_boolean (some (boolean b)) = true
is_boolean _ = false

abbrev is_json_number : Option Json → Bool
is_json_number (some (number n)) = true
is_json_number (some (other_number s)) = true
is_json_number _ = false

unfoldable pub is_already_enveloped : Json → Bool
is_already_enveloped (object payload) =
    is_boolean (get_key "success" payload)
    && is_json_number (get_key "statusCode" payload)
    && has_key "data" payload
is_already_enveloped _ = false

-- `{ ...value, [singleKey]: value }` for an object, and the value itself for anything else
abbrev flattened : String → Json → Json
flattened single_key (object value) = object (set_key single_key (object value) value)
flattened single_key value = value

unfoldable pub normalize_data : Json → Json
normalize_data (object (field single_key value end)) = flattened single_key value
normalize_data payload = payload

-- `intercept`; `is_http` is whether the context's type is `http`
unfoldable pub intercept : Bool → Option ℕ → Json → Json
intercept is_http status_code payload =
    if not is_http
    then payload
    else if is_already_enveloped payload
    then payload
    else object (
        field "success" (boolean true) (
          field "statusCode" (number (get_or_else status_code 200))
            (field "data" (normalize_data payload) end)))

-- `intercept` of the FkExpansionInterceptor
unfoldable pub intercept_relations : Bool → String → Db → Json → Json
intercept_relations is_http cloud_name d payload =
    if not is_http then payload else expand cloud_name payload d

-- what `getResponse` of an HttpException gives: a text, or an object with or without a `message`
pub data ErrorBody : Type 0 where
  plain : String → ErrorBody
  message : String → ErrorBody
  messages : List String → ErrorBody
  no_message : ErrorBody

pub data Exception : Type 0 where
  http_exception : ℕ → ErrorBody → Exception
  other_exception : Exception

abbrev body_message : ErrorBody → String
body_message (plain s) = s
body_message (message s) = s
body_message (messages ss) = join_comma ss
body_message no_message = "Unknown error"

-- HttpStatus.INTERNAL_SERVER_ERROR
abbrev status_of : Exception → ℕ
status_of (http_exception status body) = status
status_of other_exception = 500

abbrev message_of : Exception → String
message_of (http_exception status body) = body_message body
message_of other_exception = "Internal server error"

-- `catch`: the HTTP status and the body of the answer
unfoldable pub catch_exception : String → String → Exception → ℕ × Json
catch_exception timestamp url exception = (
  status_of exception,
  object (
      field "success" (boolean false) (
        field "statusCode" (number (status_of exception)) (
          field "data" null (
            field "error"
              (object (
                field "code" (number (status_of exception)) (
                  field "message" (text (message_of exception))
                    (field "timestamp" (text timestamp) (field "path" (text url) end)))))
              end)))),
)
