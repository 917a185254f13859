-- ===== src/Chat/Messages.antt =====
-- Messages in src/chat/chat.service.ts: `sendMessage`, `listMessages` and `markRead`.
pub mod Reading
use Prim.Native.Char.{code}
use market_place.Base.{
  ℕ, ◌+◌, String, Bool, true, false, Option, none, some, List, [], ◌∷◌, ◌&&◌, not, ◌==◌, find?,
  find_all, any, update_where, if◌then◌else◌, ltb, is_some, order_desc, take, or_else,
}
use market_place.Base.JsValue.{to_positive_int}
use market_place.Store.{
  World, Action, http, not_found, forbidden, pg, foreign_key_violation, check_violation, pure,
  throw, throw_if, or_throw, query, gets, fresh_id, try_catch, ◌>>=◌, ◌>>◌, User, Conversation,
  Message,
}
use market_place.Chat.Guards.{Driver, participants, assert_conversation_participant}
use market_place.Chat.Conversations.{foreign_key_as}

-- LENGTH(BTRIM(message_text)) = 0: there are only spaces
unfoldable pub is_blank : String → Bool
is_blank String.[] = true
is_blank (String.◌∷◌ c s) = code c == b' ' && is_blank s

-- INSERT INTO messages … RETURNING, under the table's check and its foreign keys
unfoldable pub insert_message : ℕ → ℕ → String → Action Message
insert_message conversation_id sender_id text = do
  id ← fresh_id
  now ← gets (λ w. w.now)
  throw_if (is_blank text) (pg check_violation)
  conversation ← gets (λ w. any (λ (c : Conversation). c.id == conversation_id) w.db.conversations)
  sender ← gets (λ w. any (λ (u : User). u.id == sender_id) w.db.users)
  throw_if (not (conversation && sender)) (pg foreign_key_violation)
  let message : Message = record {
    id = id;
    conversation_id = conversation_id;
    sender_id = sender_id;
    message_text = text;
    sent_at = now;
    read_at = none;
  }
  query (λ d. record d { messages = message ∷ d.messages })
  pure message

abbrev pub is_before : Option ℕ → ℕ → Bool
is_before none t = true
is_before (some b) t = ltb t b

-- `conversation_id = $1 AND ($2 IS NULL OR sent_at < $2) ORDER BY sent_at DESC LIMIT $3`
unfoldable pub message_page : ℕ → ℕ → Option ℕ → List Message → List Message
message_page conversation_id limit before messages = take limit (
    order_desc (λ (m : Message). m.sent_at)
      (find_all
        (λ (m : Message). m.conversation_id == conversation_id && is_before before m.sent_at)
        messages))

-- SET read_at = COALESCE(read_at, NOW())
abbrev pub read_now : ℕ → Message → Message
read_now now m = record m { read_at = or_else m.read_at (some now) }

module _ (driver : Driver) where
  unfoldable pub send_message : ℕ → ℕ → String → Action Message
  send_message user_id conversation_id text = do
    assert_conversation_participant driver conversation_id user_id
    message ←
        try_catch (insert_message conversation_id user_id text)
          (λ e. throw (foreign_key_as "Conversation not found" e))
    query (λ d. record d {
      conversations =
          update_where (λ (c : Conversation). c.id == conversation_id)
            (λ c. record c { last_message_id = some message.id }) d.conversations;
    })
    pure message

  unfoldable pub list_messages : ℕ → ℕ → ℕ → Option ℕ → Action (List Message)
  list_messages user_id conversation_id limit before = do
    assert_conversation_participant driver conversation_id user_id
    gets (λ w. message_page conversation_id limit before w.db.messages)

  unfoldable pub mark_read : ℕ → ℕ → Action Message
  mark_read user_id message_id = do
    found ← gets (λ w. find? (λ (m : Message). m.id == message_id) w.db.messages)
    m ← or_throw found (http not_found "Message not found")
    (conversation_id, sender_id) ←
        or_throw
          (participants (to_positive_int (driver.int8 m.conversation_id))
            (to_positive_int (driver.int8 m.sender_id)))
          (http not_found "Message has invalid ownership data")
    assert_conversation_participant driver conversation_id user_id
    throw_if (sender_id == user_id) (http forbidden "Only recipients can mark messages as read")
    now ← gets (λ w. w.now)
    query (λ d. record d {
      messages = update_where (λ (x : Message). x.id == message_id) (read_now now) d.messages;
    })
    updated ← gets (λ w. find? (λ (x : Message). x.id == message_id) w.db.messages)
    or_throw updated (http not_found "Message not found")
