-- ===== src/Community/Blocks/Barrier.antt =====
-- What a block keeps apart, and what unblocking gives back.
use market_place.Base.{
  String, Bool, ◌||◌, ℕ, ◌≡◌, ◌≢◌, refl, true, false, some, List, [], ◌∷◌, ◌==◌, ==_self, arith,
  find?, any, delete_where, Bool-cases, inl, inr, if◌then◌else◌, ◌⊎◌,
}
use market_place.Store.{
  World, ok, err, http, bad_request, not_found, User, UserBlock, Product, Conversation,
}
use market_place.Chat.Guards.{
  Driver, is_account, has_block_between_users, assert_conversation_participant,
}
use market_place.Chat.Guards.Access.{
  has_block_between_users_comm, assert_conversation_participant_iff, HasSides, other_side,
}
use market_place.Products.Catalog.{live_product, get_product_by_id, fetch_product_with_images}
use market_place.Users.Profile.{get_public_profile}
use market_place.Community.Blocks.{block_is, insert_block, block_user, unblock_user, add_favorite}

has_block_of_block_is :
    (a b : ℕ) (rows : List UserBlock)
    → any (block_is a b) rows ≡ true
    → has_block_between_users a b rows ≡ true
unfolding has_block_between_users any
has_block_of_block_is a b [] h = h
has_block_of_block_is a b (r ∷ rows) h = ground (arith, has_block_of_block_is a b rows)

-- the table of blocks after `block_user`
abbrev blocked_rows : ℕ → ℕ → List UserBlock → List UserBlock
blocked_rows a b rows =
    if any (block_is a b) rows then rows else record { blocker_id = a; blocked_id = b } ∷ rows

blocked_rows-has_block :
    (a b : ℕ) (rows : List UserBlock) → has_block_between_users a b (blocked_rows a b rows) ≡ true
blocked_rows-has_block a b rows = elim (Bool-cases (any (block_is a b) rows)) [
  | inl there ↦ rw there (has_block_of_block_is a b rows there)
  | inr new ↦ rw new (unfold has_block_between_users any in rw (==_self a, ==_self b) refl)
]

blocked_rows-block_is :
    (a b : ℕ) (rows : List UserBlock) → any (block_is a b) (blocked_rows a b rows) ≡ true
blocked_rows-block_is a b rows = elim (Bool-cases (any (block_is a b) rows)) [
  | inl there ↦ rw there there
  | inr new ↦ rw new (unfold any in rw (==_self a, ==_self b) refl)
]

or-true : (x : Bool) → (x || true) ≡ true
or-true x = ground arith

-- Neither side of a blocked pair passes the guard of their conversation.
guard_refuses :
    (d : Driver) (id a b : ℕ) (w : World) (c : Conversation)
    → find? (λ (x : Conversation). x.id == id) w.db.conversations ≡ some c
    → HasSides c
    → other_side c a ≡ b
    → has_block_between_users a b w.db.blocks ≡ true
    → (assert_conversation_participant d id a w).0 ≢ ok tt
guard_refuses d id a b w c found sides other blocked passed =
    let free = ((assert_conversation_participant_iff d id a w c found sides).0 passed).1 in
    clash (rw other at free)
  where
    clash : has_block_between_users a b w.db.blocks ≡ false → ⊥
    clash free = ground (arith, free, blocked)

-- The conversation is between the two, whichever of them has the lower id.
abbrev pub IsBetween : ℕ → ℕ → Conversation → Type 0
IsBetween a b c = ((c.user_a_id ≡ a) × (c.user_b_id ≡ b)) ⊎ ((c.user_a_id ≡ b) × (c.user_b_id ≡ a))

between-other_side :
    (a b : ℕ) (c : Conversation) → IsBetween a b c → (other_side c a ≡ b) × (other_side c b ≡ a)
between-other_side a b c between = ground arith

between-nonzero :
    (a b : ℕ) (c : Conversation)
    → HasSides c
    → IsBetween a b c
    → ((a == 0) ≡ false) × ((b == 0) ≡ false)
between-nonzero a b c sides between = ground arith

-- A user blocks another account, with which there is a conversation, where the blocker may be
-- either side; the ids of the sides are positive. The call succeeds, and from then on neither of
-- them passes the guard of the conversation or can see the profile of the other, and the blocker
-- can neither read nor favorite a product of the other.
pub block_user-bars :
    (d : Driver) (cloud_name : String) (a b id product_id limit offset : ℕ) (w : World)
    (c : Conversation) (p : Product)
    → (a == b) ≡ false
    → is_account b w.db.users ≡ true
    → (any (λ (u : User). u.id == a) w.db.users ≡ true)
      × (any (λ (u : User). u.id == b) w.db.users ≡ true)
    → find? (λ (x : Conversation). x.id == id) w.db.conversations ≡ some c
    → HasSides c
    → IsBetween a b c
    → find? (live_product product_id) w.db.products ≡ some p
    → p.owner_id ≡ b
    → let after = (block_user a b w).1 in
      ((block_user a b w).0 ≡ ok tt)
      × ((assert_conversation_participant d id a after).0 ≢ ok tt)
      × ((assert_conversation_participant d id b after).0 ≢ ok tt)
      × ((get_product_by_id product_id (some a) after).0 ≡ err (http not_found "Product not found"))
      × ((add_favorite a product_id after).0
          ≡ err (http bad_request "Cannot favorite this product"))
      × ((get_public_profile cloud_name b limit offset (some a) after).0
          ≡ err (http not_found "User not found"))
      × ((get_public_profile cloud_name a limit offset (some b) after).0
          ≡ err (http not_found "User not found"))
unfolding block_user insert_block
block_user-bars d cloud_name a b id product_id limit offset w c p distinct account
      (blocker, blocked) found sides between product owner =
    let (real, real_b) = between-nonzero a b c sides between in
    let (other_a, other_b) = between-other_side a b c between in
    let after : World = record w { db = record w.db { blocks = blocked_rows a b w.db.blocks } } in
    let both = blocked_rows-has_block a b w.db.blocks in
    let block = blocked_rows-block_is a b w.db.blocks in
    let barred : has_block_between_users a p.owner_id (blocked_rows a b w.db.blocks) ≡ true =
      rw owner both in
    rw (distinct, account, blocker, blocked)
      (
        refl,
        guard_refuses d id a b after c found sides other_a both,
        guard_refuses d id b a after c found sides other_b
            (rw (has_block_between_users_comm b a (blocked_rows a b w.db.blocks)) both),
        unfold get_product_by_id fetch_product_with_images in rw (product, real, barred) refl,
        unfold add_favorite in rw (product, barred) refl,
        unfold get_public_profile in rw (real, block) refl,
        unfold get_public_profile in
            rw (real_b, block, or-true (any (block_is b a) (blocked_rows a b w.db.blocks))) refl,
      )

has_block-delete_own :
    (a b : ℕ) (rows : List UserBlock)
    → (a == b) ≡ false
    → has_block_between_users a b (delete_where (block_is a b) rows) ≡ any (block_is b a) rows
unfolding has_block_between_users any delete_where
has_block-delete_own a b [] distinct = refl
has_block-delete_own a b (r ∷ rows) distinct = ground (arith, has_block-delete_own a b rows)

-- Unblocking another user takes away the user's own block only: the two stay apart exactly if the
-- other one has blocked the user.
unblock_user-own_side :
    (a b : ℕ) (w : World)
    → (a == b) ≡ false
    → has_block_between_users a b (unblock_user a b w).1.db.blocks ≡ any (block_is b a) w.db.blocks
unfolding unblock_user
unblock_user-own_side a b w distinct = has_block-delete_own a b w.db.blocks distinct
