-- ===== src/Chat/Gateway/Delivery.antt =====
-- To whom the chat delivers.
use market_place.Base.JsValue.{JsValue}
use market_place.Auth.Env.{Env}
use market_place.Chat.Registry.{Registry}
