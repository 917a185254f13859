-- ===== src/Chat/Guards/Access.antt =====
-- Who passes `assertConversationParticipant`.
use market_place.Base.{
  ℕ, zero, suc, ◌<◌, ◌≡◌, ◌↔◌, ◌⊎◌, refl, false, some, List, [], ◌∷◌, arith, ◌==◌, find?, any,
  if◌then◌else◌,
}
use market_place.Base.JsValue.{to_positive_int}
use market_place.Store.{World, ok, UserBlock, Conversation}
use market_place.Chat.Guards.{has_block_between_users, Driver, assert_conversation_participant}

-- the id that the driver's value is read as
pub read_back : (driver : Driver) (n x : ℕ) → to_positive_int (driver.int8 n) ≡ some x → x ≡ n
read_back driver zero x h = ground (arith, h, driver.int8_zero)
read_back driver (suc n) x h = ground (arith, h, driver.int8_reads (suc n) (omega arith))

-- A block counts for both sides.
pub has_block_between_users_comm :
    (a b : ℕ) (rows : List UserBlock)
    → has_block_between_users a b rows ≡ has_block_between_users b a rows
unfolding has_block_between_users any
has_block_between_users_comm a b [] = refl
has_block_between_users_comm a b (r ∷ rows) = ground (arith, has_block_between_users_comm a b rows)

abbrev pub other_side : Conversation → ℕ → ℕ
other_side c user_id = if c.user_a_id == user_id then c.user_b_id else c.user_a_id

-- The user takes part in the conversation, and no block stands between the two sides.
abbrev pub MayUse : ℕ → Conversation → List UserBlock → Type 0
MayUse user_id c rows =
    ((c.user_a_id ≡ user_id) ⊎ (c.user_b_id ≡ user_id))
    × (has_block_between_users user_id (other_side c user_id) rows ≡ false)

-- The ids of both sides are positive, as identity columns give them.
abbrev pub HasSides : Conversation → Type 0
HasSides c = (0 < c.user_a_id) × (0 < c.user_b_id)

-- The guard never changes anything.
pub assert_conversation_participant-frame :
    (d : Driver) (id user_id : ℕ) (w : World)
    → (assert_conversation_participant d id user_id w).1 ≡ w
unfolding assert_conversation_participant
assert_conversation_participant-frame d id user_id w = ground arith

-- The guard lets exactly the two sides of an existing conversation, whose ids are positive, pass,
-- and neither of them while one has blocked the other.
pub assert_conversation_participant_iff :
    (d : Driver) (id user_id : ℕ) (w : World) (c : Conversation)
    → find? (λ (x : Conversation). x.id == id) w.db.conversations ≡ some c
    → HasSides c
    → ((assert_conversation_participant d id user_id w).0 ≡ ok tt) ↔ MayUse user_id c w.db.blocks
unfolding assert_conversation_participant
assert_conversation_participant_iff d id user_id w c found (pa, pb) =
    ground (arith, found, d.int8_reads c.user_a_id pa, d.int8_reads c.user_b_id pb)
