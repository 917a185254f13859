-- ===== src/Chat/Errors/Disclosure.antt =====
-- What a refused client learns.
use market_place.Base.{◌≡◌, refl, String}
use market_place.Base.Json.{Json, text, object, Fields, end, field, get_key}
use market_place.Chat.Errors.{
  WsFailure, forbidden, catch_ws, chat_error, exception_event, normalize_error, expose_safe_context,
}

-- the refusals of the chat service
abbrev pub refusal : String → String → Fields → WsFailure
refusal message reason context = forbidden (
    object (
      field "message" (text message)
        (field "reason" (text reason) (field "context" (object context) end))))

-- What a socket is told of a refusal does not depend on the ids of the participants in its context,
-- nor on anything there but the id of the conversation.
pub catch_ws-discloses :
    (event correlation_id timestamp message reason : String) (payload : Json)
    (context context' : Fields)
    → get_key "conversationId" context ≡ get_key "conversationId" context'
    → (catch_ws event payload correlation_id timestamp (refusal message reason context)).emitted
      ≡ (catch_ws event payload correlation_id timestamp (refusal message reason context')).emitted
unfolding catch_ws normalize_error chat_error exception_event expose_safe_context get_key
catch_ws-discloses event correlation_id timestamp message reason payload context context' same =
    rw same refl
