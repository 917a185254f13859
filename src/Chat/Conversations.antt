-- ===== src/Chat/Conversations.antt =====
-- Conversations in src/chat/chat.service.ts: `getOrCreateConversation`, `listConversations` and
-- `getConversationById`. Timestamps are numbers here, so `normalizeTimestamp` has no part.
pub mod Identity
pub mod Listing
use market_place.Base.{
  ℕ, ◌+◌, String, Bool, true, false, Option, none, some, List, [], ◌∷◌, map, ◌&&◌, ◌||◌, not, ◌==◌,
  find?, find_all, any, update_where, is_some, is_id, if◌then◌else◌, ltb, get_or_else, count_where,
  order_desc, take, drop,
}
use market_place.Base.JsValue.{is_number}
use market_place.Store.{
  World, Db, Action, http, bad_request, not_found, forbidden, pg, foreign_key_violation,
  chat_forbidden, conversation_blocked, pure, throw, throw_if, or_throw, query, gets, fresh_id,
  try_catch, ◌>>=◌, ◌>>◌, Error, User, Product, ProductStatus, available, sold, archived,
  ProductImage, Conversation, Message,
}
use market_place.Chat.Guards.{
  assert_user_exists, has_block_between_users, Driver, assert_conversation_participant,
}

-- the row that the queries return
pub record ConversationRow : Type 0 where
  pub id : ℕ
  pub product_id : Option ℕ
  pub created_at : ℕ
  pub last_message : Option Message
  pub peer_user_id : ℕ
  pub unread_count : ℕ
  pub product : Option Product
  pub product_image : Option ProductImage

-- CASE WHEN c.user_a_id = $1 THEN c.user_b_id ELSE c.user_a_id END
abbrev pub peer_of : ℕ → Conversation → ℕ
peer_of user_id c = if c.user_a_id == user_id then c.user_b_id else c.user_a_id

abbrev pub is_unread : ℕ → ℕ → Message → Bool
is_unread user_id conversation_id m =
    m.conversation_id == conversation_id && not (m.sender_id == user_id) && not (is_some m.read_at)

-- products joined by id, without the deleted ones
unfoldable pub joined_product : Option ℕ → List Product → Option Product
joined_product id products =
    find? (λ (p : Product). is_id id p.id && not (is_some p.deleted_at)) products

abbrev first_image : ProductImage → Option ProductImage → ProductImage
first_image i none = i
first_image i (some j) = if ltb j.sort_order i.sort_order then j else i

-- ORDER BY pi.sort_order ASC LIMIT 1
unfoldable pub cover_image : ℕ → List ProductImage → Option ProductImage
cover_image product_id [] = none
cover_image product_id (i ∷ is) =
    let rest = cover_image product_id is in
    if i.product_id == product_id then some (first_image i rest) else rest

abbrev image_of : Option Product → List ProductImage → Option ProductImage
image_of none images = none
image_of (some p) images = cover_image p.id images

unfoldable pub conversation_row : ℕ → Db → Conversation → ConversationRow
conversation_row user_id d c =
    let product = joined_product c.product_id d.products in
    record {
      id = c.id;
      product_id = c.product_id;
      created_at = c.created_at;
      last_message = find? (λ (m : Message). is_id c.last_message_id m.id) d.messages;
      peer_user_id = peer_of user_id c;
      unread_count = count_where (is_unread user_id c.id) d.messages;
      product = product;
      product_image = image_of product d.product_images;
    }

-- JOIN users peer
abbrev pub has_peer : ℕ → Db → Conversation → Bool
has_peer user_id d c = any (λ (u : User). u.id == peer_of user_id c) d.users

pub data Scope : Type 0 where
  everything buy sell : Scope

abbrev pub owned_by : Option Product → ℕ → Bool
owned_by none user_id = false
owned_by (some p) user_id = p.owner_id == user_id

-- the condition on $2; `p.owner_id <> $1` is not true where there is no product
unfoldable pub in_scope : Scope → ℕ → Db → Conversation → Bool
in_scope everything user_id d c = true
in_scope buy user_id d c =
    let product = joined_product c.product_id d.products in
    is_some c.product_id && is_some product && not (owned_by product user_id)
in_scope sell user_id d c =
    is_some c.product_id && owned_by (joined_product c.product_id d.products) user_id

abbrev pub is_side : ℕ → Conversation → Bool
is_side user_id c = c.user_a_id == user_id || c.user_b_id == user_id

-- the WHERE clause of `listConversations`
unfoldable pub is_listed : Scope → ℕ → Db → Conversation → Bool
is_listed scope user_id d c =
    has_peer user_id d c
    && is_side user_id c
    && not (has_block_between_users user_id (peer_of user_id c) d.blocks)
    && in_scope scope user_id d c

abbrev sent_at_or : Option Message → ℕ → ℕ
sent_at_or none t = t
sent_at_or (some m) t = m.sent_at

-- COALESCE(m.sent_at, c.created_at)
unfoldable pub last_activity : Db → Conversation → ℕ
last_activity d c =
    sent_at_or (find? (λ (m : Message). is_id c.last_message_id m.id) d.messages) c.created_at

unfoldable pub listed : ℕ → Scope → ℕ → ℕ → Db → List Conversation
listed user_id scope limit offset d = take limit (
    drop offset
      (order_desc (last_activity d) (find_all (is_listed scope user_id d) d.conversations)))

unfoldable pub list_conversations : ℕ → Scope → ℕ → ℕ → Action (List ConversationRow)
list_conversations user_id scope limit offset =
    gets (λ w. map (conversation_row user_id w.db) (listed user_id scope limit offset w.db))

-- `[userAId, userBId]`
unfoldable pub ordered : ℕ → ℕ → ℕ × ℕ
ordered a b = if ltb a b then (a, b) else (b, a)

abbrev pub is_pair : ℕ × ℕ → Conversation → Bool
is_pair (a, b) c = c.user_a_id == a && c.user_b_id == b

abbrev is_available : ProductStatus → Bool
is_available available = true
is_available _ = false

-- a product id that is absent or 0 counts as none
abbrev pub truthy : Option ℕ → Option ℕ
truthy none = none
truthy (some n) = if n == 0 then none else some n

-- UPDATE conversations SET product_id, if there is one to set and none is set
unfoldable pub set_product : Option ℕ → Conversation → Action (Unit {0})
set_product none c = pure tt
set_product (some p) c =
    if is_some (truthy c.product_id)
    then pure tt
    else query (λ d. record d {
      conversations =
          update_where (λ (x : Conversation). x.id == c.id) (λ x. record x { product_id = some p })
            d.conversations;
    })

-- INSERT INTO conversations; a missing user violates a foreign key
unfoldable pub insert_conversation : ℕ × ℕ → Option ℕ → Action ℕ
insert_conversation (a, b) product_id = do
  id ← fresh_id
  now ← gets (λ w. w.now)
  known_a ← gets (λ w. any (λ (u : User). u.id == a) w.db.users)
  known_b ← gets (λ w. any (λ (u : User). u.id == b) w.db.users)
  throw_if (not (known_a && known_b)) (pg foreign_key_violation)
  query (λ d. record d {
    conversations =
        record {
          id = id;
          user_a_id = a;
          user_b_id = b;
          product_id = product_id;
          last_message_id = none;
          created_at = now;
        }
        ∷ d.conversations;
  })
  pure id

-- the handler of a failed insert
abbrev pub foreign_key_as : String → Error → Error
foreign_key_as message (pg foreign_key_violation) = http not_found message
foreign_key_as message e = e

-- the conversation of the pair, which is made if there is none
unfoldable pub find_or_insert : ℕ × ℕ → Option ℕ → Option Conversation → Action ℕ
find_or_insert pair product_id none =
    try_catch (insert_conversation pair product_id)
      (λ e. throw (foreign_key_as "Participant or product not found" e))
find_or_insert pair product_id (some c) = do set_product product_id c; pure c.id

module _ (driver : Driver) where
  unfoldable pub get_conversation_by_id : ℕ → ℕ → Action ConversationRow
  get_conversation_by_id user_id id = do
    assert_conversation_participant driver id user_id
    found ← gets (λ w.
        find? (λ (c : Conversation). c.id == id && has_peer user_id w.db c) w.db.conversations)
    c ← or_throw found (http not_found "Conversation not found")
    gets (λ w. conversation_row user_id w.db c)

  -- the product's checks, from the row that was found
  unfoldable pub check_product : ℕ → ℕ → ℕ → Option Product → Action (Option ℕ)
  check_product user_id participant_id id found = do
    p ← or_throw found (http not_found "Product not found")
    let owner = driver.int8 p.owner_id
    throw_if
        (not (is_available p.status)
          && not (is_number owner user_id || is_number owner participant_id))
        (http forbidden "Product is not available for conversation")
    pure (some id)

  unfoldable pub validated_product : ℕ → ℕ → Option ℕ → Action (Option ℕ)
  validated_product user_id participant_id none = pure none
  validated_product user_id participant_id (some id) = do
    found ←
        gets (λ w. find? (λ (p : Product). p.id == id && not (is_some p.deleted_at)) w.db.products)
    check_product user_id participant_id id found

  unfoldable pub get_or_create_conversation : ℕ → ℕ → Option ℕ → Action ConversationRow
  get_or_create_conversation user_id participant_id product_id = do
    throw_if (user_id == participant_id)
        (http bad_request "Cannot start conversation with yourself")
    assert_user_exists participant_id "Participant"
    blocked ← gets (λ w. has_block_between_users user_id participant_id w.db.blocks)
    throw_if blocked (chat_forbidden conversation_blocked "Conversation is not allowed")
    product ← validated_product user_id participant_id (truthy product_id)
    existing ← gets (λ w. find? (is_pair (ordered user_id participant_id)) w.db.conversations)
    id ← find_or_insert (ordered user_id participant_id) product existing
    get_conversation_by_id user_id id
