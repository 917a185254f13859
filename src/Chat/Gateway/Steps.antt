-- ===== src/Chat/Gateway/Steps.antt =====
-- The runs of the chat: sockets connect, disconnect and send events, and between them REST requests
-- change the tables.
use market_place.Base.{
  ℕ, ◌≡◌, String, Bool, false, Option, none, some, List, [], ◌==◌, ◌||◌, find?, All,
}
use market_place.Store.{World, Conversation}
use market_place.Auth.Env.{Env}
use market_place.Chat.Guards.{Driver}
use market_place.Chat.Conversations.{ConversationRow}
use market_place.Chat.Registry.{set_server}
use market_place.Chat.Gateway.{
  Hub, Handshake, user_of, handle_connection, handle_disconnect, join_conversation, send, read,
  notify_participants,
}

abbrev sides_of : Option Conversation → Option (ℕ × ℕ)
sides_of none = none
sides_of (some c) = some (c.user_a_id, c.user_b_id)

-- the two sides of a conversation of the table
abbrev pub sides_at : ℕ → List Conversation → Option (ℕ × ℕ)
sides_at id rows = sides_of (find? (λ (c : Conversation). c.id == id) rows)

-- whether the user is one of the sides
abbrev pub is_one_of : Option ℕ → Option (ℕ × ℕ) → Bool
is_one_of none sides = false
is_one_of (some u) none = false
is_one_of (some u) (some (a, b)) = a == u || b == u

-- Conversations keep their sides.
abbrev pub KeepsSides : List Conversation → List Conversation → Type 0
KeepsSides before after =
    All (λ (c : Conversation). sides_at c.id after ≡ sides_at c.id before) before

-- no socket yet, after `afterInit`
abbrev pub opened : World → Hub
opened w = record {
  world = w;
  users = [];
  registry =
      set_server (record { has_server = false; sockets_by_user_id = []; joins = []; emitted = [] });
  sent = [];
}

module _ (env : Env) (driver : Driver) where
  pub data Step : Hub → Hub → Type 0 where
    connects :
        (handshake : Handshake) (socket : ℕ) (hub : Hub)
        → user_of socket hub.users ≡ none
        → Step hub (handle_connection env handshake socket hub)
    disconnects : (socket : ℕ) (hub : Hub) → Step hub (handle_disconnect socket hub)
    joins :
        (socket conversation_id : ℕ) (hub : Hub)
        → Step hub (join_conversation driver socket conversation_id hub).1
    sends :
        (socket conversation_id : ℕ) (text : String) (hub : Hub)
        → Step hub (send driver socket conversation_id text hub).1
    reads : (socket message_id : ℕ) (hub : Hub) → Step hub (read driver socket message_id hub).1
    notifies : (row : ConversationRow) (hub : Hub) → Step hub (notify_participants driver row hub)
    rests :
        (w : World) (hub : Hub)
        → KeepsSides hub.world.db.conversations w.db.conversations
        → Step hub (record hub { world = w })

  pub data Reachable : Hub → Type 0 where
    start : (w : World) → Reachable (opened w)
    next : {hub hub' : Hub} → Reachable hub → Step hub hub' → Reachable hub'
