-- ===== src/Chat/Errors.antt =====
-- src/chat/chat-ws-exception.filter.ts: what the socket of a failed event is told, and what of it is
-- logged. `null` stands for an undefined field.
pub mod Disclosure
use Prim.Native.String.{◌++◌}
use market_place.Base.{
  ℕ, String, Bool, true, false, Option, none, some, List, [], ◌∷◌, leb, ◌||◌, not, str_eq, is_some,
  or_else, if◌then◌else◌, get_or_else,
}
use market_place.Base.Json.{
  Json, null, boolean, number, other_number, text, array, object, Items, nil, cons, Fields, end,
  field, get_key,
}
use market_place.Base.Text.{is_empty}
use market_place.Relations.Rules.{id_of}

-- the classes of exceptions that are told apart, with what `getError` and `getResponse` give, and
-- the message of the others
pub data WsFailure : Type 0 where
  ws_exception bad_request forbidden : Json → WsFailure
  unauthorized not_found : String → WsFailure
  other_failure : WsFailure

-- what `normalizeError` returns
pub record Normalized : Type 0 where
  pub code : String
  pub event : String
  pub message : String
  pub details : Option Items
  pub reason : Option String
  pub context : Option Fields
  pub correlation_id : String
  pub timestamp : String
  pub status_code : ℕ

abbrev text_of : Option Json → Option String
text_of (some (text s)) = some s
text_of _ = none

abbrev items_of : Option Json → Option Items
items_of (some (array vs)) = some vs
items_of _ = none

-- an array is an object too, with none of the keys that are read
abbrev fields_of : Option Json → Option Fields
fields_of (some (object fs)) = some fs
fields_of (some (array vs)) = some end
fields_of _ = none

-- Array.prototype.join(', '), of texts
unfoldable pub join_items : Items → String
join_items nil = ""
join_items (cons (text s) nil) = s
join_items (cons (text s) (cons v vs)) = s ++ (", " ++ join_items (cons v vs))
join_items (cons v vs) = join_items vs

abbrev message_in : Option Json → String → String
message_in (some (array vs)) fallback = join_items vs
message_in (some (text s)) fallback = s
message_in _ fallback = fallback

abbrev or_text : String → String → String
or_text s fallback = if is_empty s then fallback else s

-- `toPositiveInt(context?.key)`
abbrev pub id_in : String → Option Fields → Option ℕ
id_in key none = none
id_in key (some fs) = id_of (get_or_else (get_key key fs) null)

module _ (event correlation_id timestamp : String) where
  abbrev plain_error : String → String → ℕ → Normalized
  plain_error code message status = record {
    code = code;
    event = event;
    message = message;
    details = none;
    reason = none;
    context = none;
    correlation_id = correlation_id;
    timestamp = timestamp;
    status_code = status;
  }

  abbrev ws_error : Json → Normalized
  ws_error (object fs) =
      let code = text_of (get_key "code" fs) in
      record (plain_error (get_or_else code "INTERNAL_ERROR")
        (get_or_else (text_of (get_key "message" fs)) "Internal server error")
        (if str_eq (get_or_else code "") "VALIDATION_ERROR" then 400 else 500)) {
          details = items_of (get_key "details" fs);
        }
  ws_error (text s) = plain_error "INTERNAL_ERROR" s 500
  ws_error _ = plain_error "INTERNAL_ERROR" "Internal server error" 500

  -- extractBadRequestDetails
  abbrev bad_request_error : Json → Normalized
  bad_request_error (text s) = plain_error "VALIDATION_ERROR" s 400
  bad_request_error (object fs) =
      record (plain_error "VALIDATION_ERROR" (message_in (get_key "message" fs) "Invalid payload")
        400) { details = items_of (get_key "details" fs) }
  bad_request_error _ = plain_error "VALIDATION_ERROR" "Invalid payload" 400

  -- extractForbiddenDetails
  abbrev forbidden_error : Json → Normalized
  forbidden_error (text s) = plain_error "FORBIDDEN" s 403
  forbidden_error (object fs) =
      record (plain_error "FORBIDDEN" (message_in (get_key "message" fs) "Forbidden") 403) {
        reason = text_of (get_key "reason" fs);
        context = fields_of (get_key "context" fs);
      }
  forbidden_error _ = plain_error "FORBIDDEN" "Forbidden" 403

  unfoldable pub normalize_error : WsFailure → Normalized
  normalize_error (ws_exception error) = ws_error error
  normalize_error (bad_request response) = bad_request_error response
  normalize_error (unauthorized message) =
      plain_error "UNAUTHORIZED" (or_text message "Unauthorized") 401
  normalize_error (forbidden response) = forbidden_error response
  normalize_error (not_found message) = plain_error "NOT_FOUND" (or_text message "Not found") 404
  normalize_error other_failure = plain_error "INTERNAL_ERROR" "Internal server error" 500

abbrev with_conversation : Option ℕ → Fields
with_conversation none = end
with_conversation (some id) = field "conversationId" (number id) end

-- `exposeSafeContext`
unfoldable pub expose_safe_context : String → String → Option Fields → Json
expose_safe_context event code context =
    if not (str_eq event "message.send") || not (str_eq code "FORBIDDEN") || not (is_some context)
    then null
    else object (with_conversation (id_in "conversationId" context))

abbrev array_or_null : Option Items → Json
array_or_null none = null
array_or_null (some vs) = array vs

abbrev text_or_undefined : Option String → Json
text_or_undefined none = null
text_or_undefined (some s) = text s

-- the payload of `chat.error`
unfoldable pub chat_error : String → Normalized → Json
chat_error event e = object (
    field "success" (boolean false) (
      field "error"
        (object (
          field "code" (text e.code) (
            field "event" (text e.event) (
              field "message" (text e.message) (
                field "details" (array_or_null e.details) (
                  field "reason" (text_or_undefined e.reason) (
                    field "context" (expose_safe_context event e.code e.context) (
                      field "correlationId" (text e.correlation_id) (
                        field "timestamp" (text e.timestamp)
                          (field "statusCode" (number e.status_code) end))))))))))
        end))

-- the payload of `exception`, with the event's own payload
unfoldable pub exception_event : String → Json → Normalized → Json
exception_event event payload e = object (
    field "status" (text "error") (
      field "message" (text e.message) (
        field "cause"
          (object (
            field "pattern" (text event) (
              field "data" payload
                (field "code" (text e.code) (field "correlationId" (text e.correlation_id) end)))))
          end)))

abbrev payload_fields : Json → Option Fields
payload_fields payload = fields_of (some payload)

-- `extractConversationId`
unfoldable pub extract_conversation_id : Json → Option Fields → Option ℕ
extract_conversation_id payload context =
    or_else (id_in "conversationId" (payload_fields payload)) (id_in "conversationId" context)

abbrev both : Option ℕ → Option ℕ → Option (ℕ × ℕ)
both (some a) (some b) = some (a, b)
both _ _ = none

-- `extractParticipantIds`
unfoldable pub extract_participant_ids : Option Fields → Option (ℕ × ℕ)
extract_participant_ids context = both (id_in "userAId" context) (id_in "userBId" context)

-- what `catch` emits to the socket, and what it logs of the failure
pub record Caught : Type 0 where
  pub emitted : List (String × Json)
  pub logged_conversation_id : Option ℕ
  pub logged_participant_ids : Option (ℕ × ℕ)
  pub logged_as_error : Bool

unfoldable pub catch_ws : String → Json → String → String → WsFailure → Caught
catch_ws event payload correlation_id timestamp failure =
    let e = normalize_error event correlation_id timestamp failure in
    record {
      emitted =
          ("chat.error", chat_error event e) ∷ ("exception", exception_event event payload e) ∷ [];
      logged_conversation_id = extract_conversation_id payload e.context;
      logged_participant_ids = extract_participant_ids e.context;
      logged_as_error = leb 500 e.status_code;
    }
