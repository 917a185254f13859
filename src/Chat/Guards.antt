-- ===== src/Chat/Guards.antt =====
-- The guards that the services share: `assertUserExists` of src/common/helpers/db.helpers.ts,
-- `hasBlockBetweenUsers` (in ChatService, ProductsService and FavoritesService alike), and
-- `assertConversationParticipant` of src/chat/chat.service.ts. Its debug log is not modelled.
pub mod Access
use Prim.Native.String.{◌++◌}
use market_place.Base.{
  ℕ, ◌<◌, ◌≡◌, String, Bool, Option, none, some, List, ◌&&◌, ◌||◌, not, ◌==◌, find?, any, is_some,
  if◌then◌else◌,
}
use market_place.Base.JsValue.{JsValue, to_positive_int}
use market_place.Store.{
  World, Action, http, not_found, chat_forbidden, not_participant, conversation_blocked, throw_if,
  or_throw, gets, ◌>>=◌, ◌>>◌, User, UserBlock, Conversation,
}

-- `SELECT id FROM users WHERE id = $1 AND deleted_at IS NULL LIMIT 1`
abbrev pub is_account : ℕ → List User → Bool
is_account id users = any (λ (u : User). u.id == id && not (is_some u.deleted_at)) users

unfoldable pub assert_user_exists : ℕ → String → Action (Unit {0})
assert_user_exists id label = do
  known ← gets (λ w. is_account id w.db.users)
  throw_if (not known) (http not_found (label ++ " not found"))

-- a block in either direction
abbrev pub blocks : ℕ → ℕ → UserBlock → Bool
blocks a b r = (r.blocker_id == a && r.blocked_id == b) || (r.blocker_id == b && r.blocked_id == a)

unfoldable pub has_block_between_users : ℕ → ℕ → List UserBlock → Bool
has_block_between_users a b rows = any (blocks a b) rows

-- How the database driver hands out a BIGINT: the code takes numbers and texts of digits. Texts are
-- read exactly up to 2^53 (Base/DecimalText), which no identity column reaches in practice; the laws
-- here say that every id is read exactly.
pub record Driver : Type 0 where
  pub int8 : ℕ → JsValue
  -- an id comes back, as a number or as its digits
  pub int8_reads : (n : ℕ) → 0 < n → to_positive_int (int8 n) ≡ some n
  pub int8_zero : to_positive_int (int8 0) ≡ none

-- the participants as numbers, if both are positive
abbrev pub participants : Option ℕ → Option ℕ → Option (ℕ × ℕ)
participants none b = none
participants (some a) none = none
participants (some a) (some b) = some (a, b)

module _ (driver : Driver) where
  unfoldable pub get_conversation_participants : ℕ → Action (ℕ × ℕ)
  get_conversation_participants conversation_id = do
    found ← gets (λ w. find? (λ (c : Conversation). c.id == conversation_id) w.db.conversations)
    c ← or_throw found (http not_found "Conversation not found")
    or_throw
        (participants (to_positive_int (driver.int8 c.user_a_id))
          (to_positive_int (driver.int8 c.user_b_id)))
        (http not_found "Conversation participants are invalid")

  unfoldable pub assert_conversation_participant : ℕ → ℕ → Action (Unit {0})
  assert_conversation_participant conversation_id user_id = do
    found ← gets (λ w. find? (λ (c : Conversation). c.id == conversation_id) w.db.conversations)
    c ← or_throw found (http not_found "Conversation not found")
    (a, b) ←
        or_throw
          (participants (to_positive_int (driver.int8 c.user_a_id))
            (to_positive_int (driver.int8 c.user_b_id)))
          (http not_found "Conversation participants are invalid")
    throw_if (not (a == user_id) && not (b == user_id))
        (chat_forbidden not_participant "Not a participant of this conversation")
    let other = if a == user_id then b else a
    blocked ← gets (λ w. has_block_between_users user_id other w.db.blocks)
    throw_if blocked (chat_forbidden conversation_blocked "Conversation is not available")
