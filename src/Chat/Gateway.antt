-- ===== src/Chat/Gateway.antt =====
-- src/chat/chat.gateway.ts and `createConversation` of src/chat/chat.controller.ts: the sockets, the
-- rooms and what is emitted to them. A room is known by its conversation, an event carries the
-- response before the expansion of its ids, and the log lines are left out. A handler runs as one
-- step.
pub mod Steps
pub mod Sides
pub mod Services
pub mod Rooms
pub mod Sockets
pub mod Delivery
pub mod Posting
use Prim.Native.Char.{code}
use market_place.Base.{
  ℕ, String, Bool, true, false, Option, none, some, List, [], ◌∷◌, ◌==◌, ◌&&◌, ◌||◌, not, any,
  delete_where, if◌then◌else◌,
}
use market_place.Base.JsValue.{JsValue}
use market_place.Base.Text.{is_space, is_empty, trim_start, lower_char, truthy_text}
use market_place.Store.{World, Action, Result, ok, err, http, unauthorized, Message, ◌>>=◌, ◌>>◌}
use market_place.Auth.Env.{Env, Claims}
use market_place.Chat.Guards.{
  Driver, assert_conversation_participant, get_conversation_participants,
}
use market_place.Chat.Conversations.{ConversationRow, get_conversation_by_id}
use market_place.Chat.Messages.{send_message, mark_read}
use market_place.Chat.Registry.{
  Registry, register_user_socket, unregister_user_socket, emit_conversation_joined,
}

-- the payloads of conversation.joined, message.received and message.read
pub data WsEvent : Type 0 where
  conversation_joined : ConversationRow → WsEvent
  message_received message_read : Message → WsEvent

-- an event with the sockets that were in its room, and the user of each
pub record Emission : Type 0 where
  pub room : ℕ
  pub event : WsEvent
  pub recipients : List (ℕ × Option ℕ)

-- `users` is `client.data.user.sub` of the sockets; the rooms are the `joins` of the registry
pub record Hub : Type 0 where
  pub world : World
  pub users : List (ℕ × ℕ)
  pub registry : Registry
  pub sent : List Emission

-- handshake.auth.token, if it is a text, and the authorization header
pub record Handshake : Type 0 where
  pub auth_token : Option String
  pub authorization : Option String

unfoldable pub user_of : ℕ → List (ℕ × ℕ) → Option ℕ
user_of socket [] = none
user_of socket ((s, u) ∷ rest) = if s == socket then some u else user_of socket rest

-- what follows the word, in any case; the word is in lower case
unfoldable pub after_word : String → String → Option String
after_word String.[] s = some s
after_word (String.◌∷◌ p ps) String.[] = none
after_word (String.◌∷◌ p ps) (String.◌∷◌ c s) =
    let rest = after_word ps s in if code (lower_char c) == code p then rest else none

abbrev starts_with_space : String → Bool
starts_with_space String.[] = false
starts_with_space (String.◌∷◌ c s) = is_space c

abbrev without_word : String → Option String → String
without_word s none = s
without_word s (some rest) = if starts_with_space rest then trim_start rest else s

-- replace(/^Bearer\s+/i, '')
unfoldable pub strip_bearer : String → String
strip_bearer s = without_word s (after_word "bearer" s)

abbrev token_from : Option String → Option String → Option String
token_from none none = none
token_from none (some header) = some (strip_bearer header)
token_from (some token) header = some (strip_bearer token)

-- `none` where `extractToken` throws
unfoldable pub extract_token : Handshake → Option String
extract_token handshake =
    token_from (truthy_text handshake.auth_token) (truthy_text handshake.authorization)

abbrev verified : Env → ℕ → Option String → Option Claims
verified env now none = none
verified env now (some token) = env.jwt_verify env.jwt_access_secret now token

-- the user of a socket is set and registered, unless the subject is no positive number
abbrev accept : ℕ → Option Claims → Hub → Hub
accept socket none hub = hub
accept socket (some claims) hub = if claims.sub == 0 then hub else record hub {
  users = (socket, claims.sub) ∷ hub.users;
  registry = register_user_socket claims.sub socket hub.registry;
}

-- a socket without a valid token is disconnected, and stands nowhere
unfoldable pub handle_connection : Env → Handshake → ℕ → Hub → Hub
handle_connection env handshake socket hub =
    accept socket (verified env hub.world.now (extract_token handshake)) hub

abbrev unregister : Option ℕ → ℕ → Registry → Registry
unregister none socket r = r
unregister (some user_id) socket r = unregister_user_socket user_id socket r

-- a socket that disconnects leaves its rooms, as socket.io does by itself, and the registry
unfoldable pub handle_disconnect : ℕ → Hub → Hub
handle_disconnect socket hub =
    let r = unregister (user_of socket hub.users) socket hub.registry in
    record hub {
      users = delete_where (λ (x : ℕ × ℕ). x.0 == socket) hub.users;
      registry = record r { joins = delete_where (λ (j : ℕ × ℕ). j.1 == socket) r.joins };
    }

-- client.join(room)
unfoldable pub enter : ℕ → ℕ → Hub → Hub
enter room socket hub = record hub {
  registry = record hub.registry { joins = (room, socket) ∷ hub.registry.joins };
}

unfoldable pub in_room : ℕ → List (ℕ × ℕ) → List (ℕ × ℕ) → List (ℕ × Option ℕ)
in_room room users [] = []
in_room room users ((r, socket) ∷ joins) =
    let rest = in_room room users joins in
    if r == room then (socket, user_of socket users) ∷ rest else rest

-- server.to(room).emit(…)
unfoldable pub emit : ℕ → WsEvent → Hub → Hub
emit room event hub = record hub {
  sent =
      record { room = room; event = event; recipients = in_room room hub.users hub.registry.joins }
      ∷ hub.sent;
}

-- what a handler does with the answer of the service
abbrev pub finish :
    {A : Type 0} → ℕ → (A → ℕ) → (A → WsEvent) → Hub → Result A × World → Result A × Hub
finish socket room event hub (err e, w) = (err e, record hub { world = w })
finish socket room event hub (ok a, w) =
    (ok a, emit (room a) (event a) (enter (room a) socket (record hub { world = w })))

-- `getUser`, and the rest of the handler for its user
abbrev pub as_user : {A : Type 0} → Option ℕ → Hub → (ℕ → Result A × Hub) → Result A × Hub
as_user none hub handler = (err (http unauthorized "Unauthorized"), hub)
as_user (some user_id) hub handler = handler user_id

module _ (driver : Driver) where
  unfoldable pub open_conversation : ℕ → ℕ → Action ConversationRow
  open_conversation conversation_id user_id = do
    assert_conversation_participant driver conversation_id user_id
    get_conversation_by_id driver user_id conversation_id

  -- conversation.join
  unfoldable pub join_conversation : ℕ → ℕ → Hub → Result ConversationRow × Hub
  join_conversation socket conversation_id hub = as_user (user_of socket hub.users) hub (λ user_id.
      finish socket (λ row. conversation_id) conversation_joined hub
        (open_conversation conversation_id user_id hub.world))

  -- message.send
  unfoldable pub send : ℕ → ℕ → String → Hub → Result Message × Hub
  send socket conversation_id text hub = as_user (user_of socket hub.users) hub (λ user_id.
      finish socket (λ m. conversation_id) message_received hub
        (send_message driver user_id conversation_id text hub.world))

  -- message.read
  unfoldable pub read : ℕ → ℕ → Hub → Result Message × Hub
  read socket message_id hub = as_user (user_of socket hub.users) hub (λ user_id.
      finish socket (λ (m : Message). m.conversation_id) message_read hub
        (mark_read driver user_id message_id hub.world))

  -- what the registry does for the participants, and its emission
  abbrev notify_all : ℕ → ConversationRow → Result (ℕ × ℕ) × World → Hub → Hub
  notify_all conversation_id row (err e, w) hub = hub
  notify_all conversation_id row (ok (a, b), w) hub =
      if hub.registry.has_server
      then emit conversation_id (conversation_joined row) (record hub {
        registry =
            emit_conversation_joined conversation_id (JsValue.number a ∷ JsValue.number b ∷ [])
              hub.registry;
      })
      else hub

  -- the second part of `createConversation`, after the conversation was made or found
  unfoldable pub notify_participants : ConversationRow → Hub → Hub
  notify_participants row hub =
      notify_all row.id row (get_conversation_participants driver row.id hub.world) hub
